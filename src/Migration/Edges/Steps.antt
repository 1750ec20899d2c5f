-- ===== src/Migration/Edges/Steps.antt =====
-- internal/controller/vmmigration_controller.go: what the steps of a handler do to the phase.
use projectbeskar_virtrigaud.Common.{String}
use projectbeskar_virtrigaud.Conditions.Condition.{Status}
use projectbeskar_virtrigaud.Controller.{Fault, Reply, note, perform}
use projectbeskar_virtrigaud.Controller.Keeps.{Keeps}
use projectbeskar_virtrigaud.Migration.Types.{MigrationStatus, MigrationPhase}
use projectbeskar_virtrigaud.Migration.Edges.{Edge, From, From-IsStable, From-IsFailStable}
use projectbeskar_virtrigaud.Migration.Cluster.{Api, Call, event}
use projectbeskar_virtrigaud.Migration.Store.{
  Run, put_status, enter, record_condition, save, transition_to_failed, ◌or_fail◌,
}
use projectbeskar_virtrigaud.Migration.Store.Rules.{
  Over, Keeps-record_condition, Keeps-save, Keeps-transition_to_failed, Keeps-or_fail,
}
use projectbeskar_virtrigaud.Migration.Store.Saved.{
  Saved, Written, Keeps-put_status, Keeps-call, Keeps-event,
}

-- Code of a pass that began in the phase `p` takes an edge from `p` at most.
abbrev pub Takes : {W E A : Type 0} → MigrationPhase → Run W E A → Type 0
Takes p m = Keeps (Over (Saved (From p))) m

module _ {W : Type 0} {p : MigrationPhase} where
  -- A write of other fields.
  pub Takes-put_status :
      {E : Type 0} (g : MigrationStatus → MigrationStatus)
      → ((st : MigrationStatus) → From p st → From p (g st))
      → Takes {W = W} {E = E} p (put_status g)
  Takes-put_status g k = Keeps-put_status (From p) g k

  pub Takes-enter :
      {E : Type 0} {q : MigrationPhase} (message : String)
      → Edge p q
      → Takes {W = W} {E = E} p (enter q message)
  Takes-enter message e = Keeps-put_status (From p) _ (λ st h. e)

  pub Takes-event : {E : Type 0} (a b c : String) → Takes {W = W} {E = E} p (note (event a b c))
  Takes-event a b c = Keeps-event (From p) a b c

  -- A call that writes no status.
  pub Takes-call :
      {A : Type 0} (c : Call) (op : W → Reply A × W) → Written (From p) c → Takes p (perform c op)
  Takes-call c op w = Keeps-call (From p) c op w

  pub Takes-condition :
      {E : Type 0} (api : Api W) (kind : String) (status : Status) (reason message : String)
      → Takes {E = E} p (record_condition api kind status reason message)
  Takes-condition api = Keeps-record_condition api (From-IsStable p)

  pub Takes-save : (api : Api W) → Takes p (save api)
  Takes-save api = Keeps-save api (From-IsStable p)

  pub Takes-transition_to_failed :
      {A : Type 0} (api : Api W) (message : String)
      → Edge p MigrationPhase.failed
      → Takes {A = A} p (transition_to_failed api message)
  Takes-transition_to_failed api message e =
      Keeps-transition_to_failed api (From-IsStable p) (From-IsFailStable p e) _

  pub Takes-or_fail :
      {A : Type 0} (api : Api W) (prefix : String) {m : Run W Fault A}
      → Edge p MigrationPhase.failed
      → Takes p m
      → Takes p (◌or_fail◌ api m prefix)
  Takes-or_fail api prefix e k = Keeps-or_fail api (From-IsStable p) (From-IsFailStable p e) _ _ k
