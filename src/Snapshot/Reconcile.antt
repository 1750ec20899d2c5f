-- ===== src/Snapshot/Reconcile.antt =====
-- internal/controller/vmsnapshot_controller.go: one pass over a snapshot (`Reconcile`).
pub mod Edges
mod Tests
use projectbeskar_virtrigaud.Common.{String, ◌<>◌, ◌=t◌, if◌then◌else◌, List}
use projectbeskar_virtrigaud.Conditions.Condition.{met, unmet}
use projectbeskar_virtrigaud.Controller.{
  Fault, Outcome, requeue, requeue_after, failed, seconds, ◌>>=◌, ◌>>◌, stop, the_object, modify,
  query, perform_object, ◌on_error◌, pass,
}
use projectbeskar_virtrigaud.Vm.Types.{VirtualMachine}
use projectbeskar_virtrigaud.Snapshot.Types.{VmSnapshot, SnapshotPhase}
use projectbeskar_virtrigaud.Snapshot.Cluster.{
  Api, Call, Run, Handler, object_written, set_condition, try_update_status,
}
use projectbeskar_virtrigaud.Snapshot.Creation.{create_snapshot, check_snapshot_creation}
use projectbeskar_virtrigaud.Snapshot.Removal.{finalizer_name, handle_retention, handle_deletion}

module _ {W : Type 0} (api : Api W) where
  add_finalizer : Handler W
  add_finalizer = do
    modify (λ o. record o { finalizers = api.with_finalizer finalizer_name o.finalizers })
    written ← perform_object object_written api.update on_error λ e. stop (failed e)
    stop requeue

  without_vm : Fault → {A : Type 0} → Run W Outcome A
  without_vm e = do
    set_condition api "Ready" unmet "ProviderError" ("Referenced VM not found: " <> e.text)
    try_update_status api
    stop (requeue_after (seconds 30))

  await_vm : Handler W
  await_vm = do
    set_condition api "Creating" met "Creating" "Waiting for VM to be provisioned"
    try_update_status api
    stop (requeue_after (seconds 30))

  -- The `switch` on the phase.
  pub handle_phase : VirtualMachine → SnapshotPhase → Handler W
  handle_phase vm SnapshotPhase.unset = create_snapshot api vm
  handle_phase vm SnapshotPhase.creating = check_snapshot_creation api vm
  handle_phase vm SnapshotPhase.ready = handle_retention api
  handle_phase vm SnapshotPhase.failed = stop (requeue_after (seconds 300))
  handle_phase vm _ = stop (requeue_after (seconds 30))

  reconcile_live : VmSnapshot → Handler W
  unfolding without_vm await_vm handle_phase
  reconcile_live s = do
    vm ← query (api.get_vm s.namespace s.spec.vm_ref) on_error λ e. without_vm e
    if vm.status.id =t "" then await_vm else handle_phase vm s.status.phase

  -- `Reconcile` behind the fetch of the object.
  pub reconcile_object : Handler W
  unfolding add_finalizer reconcile_live
  reconcile_object = do
    s ← the_object
    if s.deleting
        then handle_deletion api
        else if api.has_finalizer finalizer_name s.finalizers
        then reconcile_live s
        else add_finalizer

  pub reconcile : String → String → W → Outcome × W × List Call
  unfolding reconcile_object
  reconcile namespace name w = pass reconcile_object (api.get_snapshot namespace name w)
