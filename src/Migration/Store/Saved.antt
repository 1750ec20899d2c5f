-- ===== src/Migration/Store/Saved.antt =====
-- internal/controller/vmmigration_controller.go: an invariant of the status, in memory and in every
-- status that is written to the API server.
use projectbeskar_virtrigaud.Common.{ℕ, String, Option, List, [], ◌∷◌, ◌++◌, All, All-append}
use projectbeskar_virtrigaud.Conditions.Condition.{Condition}
use projectbeskar_virtrigaud.Controller.{Reply, note, perform}
use projectbeskar_virtrigaud.Controller.Keeps.{Keeps, Keeps-modify, Keeps-note, Keeps-perform}
use projectbeskar_virtrigaud.Migration.Types.{Migration, MigrationStatus, MigrationPhase}
use projectbeskar_virtrigaud.Migration.Cluster.{Call, status_written, event}
use projectbeskar_virtrigaud.Migration.Store.{put_status}
use projectbeskar_virtrigaud.Migration.Store.Rules.{Over, IsStable, IsFailStable}

-- A status that is written satisfies `Q`; other calls write no status.
abbrev pub Written : (MigrationStatus → Type 0) → Call → Type 0
Written Q (status_written m) = Q m.status
Written Q _ = Unit

abbrev pub Saved : (MigrationStatus → Type 0) → MigrationStatus → List Call → Type 0
Saved Q st cs = Q st × All (Written Q) cs

module _ (Q : MigrationStatus → Type 0) where
  pub Saved-append :
      (c : Call)
      → Written Q c
      → (o : Migration) (cs : List Call) → Over (Saved Q) o cs
      → Over (Saved Q) o (cs ++ c ∷ [])
  Saved-append c w o cs h = (h.0, All-append (Written Q) cs (c ∷ []) h.1 (w, tt))

  pub Saved-IsStable :
      ((l : List Condition) (st : MigrationStatus) → Q st → Q (record st { conditions = l }))
      → IsStable (Saved Q)
  Saved-IsStable k = record {
    on_write = λ m cs h. Saved-append (status_written m) h.0 m cs h;
    on_event = λ a b c st cs h. (h.0, All-append (Written Q) cs _ h.1 (tt, tt));
    on_conditions = λ l st cs h. (k l st h.0, h.1);
  }

  pub Saved-IsFailStable :
      ((message : String) (st : MigrationStatus)
        → Q st
        → Q (record st { phase = MigrationPhase.failed; message = message }))
      → ((t : Option ℕ) (st : MigrationStatus) → Q st → Q (record st { completion_time = t }))
      → IsFailStable (Saved Q)
  Saved-IsFailStable f c = record {
    on_failed = λ message st cs h. (f message st h.0, h.1);
    on_completion = λ t st cs h. (c t st h.0, h.1);
  }

  pub Keeps-put_status :
      {W E : Type 0} (g : MigrationStatus → MigrationStatus)
      → ((st : MigrationStatus) → Q st → Q (g st))
      → Keeps {W = W} {E = E} (Over (Saved Q)) (put_status g)
  unfolding put_status
  Keeps-put_status g k = Keeps-modify _ (λ o cs h. (k o.status h.0, h.1))

  pub Keeps-call :
      {W A : Type 0} (c : Call) (op : W → Reply A × W)
      → Written Q c
      → Keeps (Over (Saved Q)) (perform c op)
  Keeps-call c op w = Keeps-perform c op (Saved-append c w)

  pub Keeps-event :
      {W E : Type 0} (a b c : String) → Keeps {W = W} {E = E} (Over (Saved Q)) (note (event a b c))
  Keeps-event a b c = Keeps-note _ (Saved-append (event a b c) tt)
