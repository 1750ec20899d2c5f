-- ===== src/Migration/Reconcile.antt =====
-- internal/controller/vmmigration_controller.go: `Reconcile`, one pass over one migration.
pub mod Edges
mod Tests
use projectbeskar_virtrigaud.Common.{
  ℕ, String, ◌=t◌, Bool, true, false, leb, if◌then◌else◌, Option, none, some, List, [], ◌∷◌, ◌++◌,
}
use projectbeskar_virtrigaud.Controller.{
  Reply, ok, fault, Flow, ended, next, Outcome, finished, requeue, requeue_after, failed, ◌>>=◌,
  ◌>>◌, stop, the_object, modify, ask, perform_object, ◌on_error◌, seconds,
}
use projectbeskar_virtrigaud.Migration.Types.{Migration, MigrationPhase, MigrationRetryPolicy}
use projectbeskar_virtrigaud.Migration.Cluster.{Api, Call, object_written}
use projectbeskar_virtrigaud.Migration.Store.{Handler, put_status, save}
use projectbeskar_virtrigaud.Migration.Preparing.{
  handle_pending_phase, handle_validating_phase, handle_snapshotting_phase,
}
use projectbeskar_virtrigaud.Migration.Moving.{
  handle_exporting_phase, handle_transferring_phase, handle_converting_phase,
  handle_importing_phase,
}
use projectbeskar_virtrigaud.Migration.Target.{
  handle_creating_phase, handle_validating_target_phase,
}
use projectbeskar_virtrigaud.Migration.Cleanup.{handle_ready_phase}
use projectbeskar_virtrigaud.Migration.Retry.{handle_failed_phase, policy_of, max_retries}
use projectbeskar_virtrigaud.Migration.Deletion.{handle_deletion, finalizer_name}

pub contains : String → List String → Bool
contains f [] = false
contains f (g ∷ gs) = let rest = contains f gs in if g =t f then true else rest

-- A failed migration with no retry policy, or with its retries used up, stays failed.
retries_exhausted : Option MigrationRetryPolicy → ℕ → Bool
retries_exhausted none count = true
retries_exhausted (some p) count = leb (max_retries p) count

stays_failed : MigrationPhase → Migration → Bool
unfolding retries_exhausted
stays_failed MigrationPhase.failed m =
    retries_exhausted (policy_of m.spec.options) m.status.retry_count
stays_failed _ m = false

pub is_terminal : Migration → Bool
unfolding stays_failed
is_terminal m = stays_failed m.status.phase m

module _ {W : Type 0} (api : Api W) where
  add_finalizer : Handler W
  add_finalizer = do
    modify (λ o. record o { finalizers = o.finalizers ++ finalizer_name ∷ [] })
    version ← perform_object object_written api.update on_error λ e. stop (failed e)
    stop requeue

  initialize : Handler W
  initialize = do
    put_status (λ st. record st { phase = MigrationPhase.pending })
    now ← ask api.now
    put_status (λ st. record st { start_time = some now })
    save api
    stop requeue

  -- The `switch` on the phase.
  pub handle_phase : MigrationPhase → Handler W
  unfolding initialize
  handle_phase MigrationPhase.unset = initialize
  handle_phase MigrationPhase.pending = handle_pending_phase api
  handle_phase MigrationPhase.validating = handle_validating_phase api
  handle_phase MigrationPhase.snapshotting = handle_snapshotting_phase api
  handle_phase MigrationPhase.exporting = handle_exporting_phase api
  handle_phase MigrationPhase.transferring = handle_transferring_phase api
  handle_phase MigrationPhase.converting = handle_converting_phase api
  handle_phase MigrationPhase.importing = handle_importing_phase api
  handle_phase MigrationPhase.creating = handle_creating_phase api
  handle_phase MigrationPhase.validating_target = handle_validating_target_phase api
  handle_phase MigrationPhase.ready = handle_ready_phase api
  handle_phase MigrationPhase.failed = handle_failed_phase api
  handle_phase (MigrationPhase.custom p) = stop (requeue_after (seconds 30))

  -- `Reconcile` behind the fetch of the object.
  pub reconcile_object : Handler W
  unfolding add_finalizer handle_phase contains
  reconcile_object = do
    m ← the_object
    if m.deleting
        then handle_deletion api
        else if contains finalizer_name m.finalizers
        then if is_terminal m then stop finished else handle_phase m.status.phase
        else add_finalizer

  outcome : Flow Outcome (Unit {0}) → Outcome
  outcome (ended o) = o
  outcome (next a) = finished

  fetched : Reply Migration → W → Outcome × W × List Call
  unfolding reconcile_object outcome
  fetched (fault e) w = (if e.not_found then finished else failed e, w, [])
  fetched (ok m) w =
      let (r, s) = reconcile_object (record { object = m; world = w; calls = [] }) in
      (outcome r, s.world, s.calls)

  -- A pass: what it returns, the world behind it and the calls that it made.
  pub reconcile : String → String → W → Outcome × W × List Call
  unfolding fetched
  reconcile namespace name w = let (r, w') = api.get_migration namespace name w in fetched r w'
