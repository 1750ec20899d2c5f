-- ===== src/Snapshot/Reconcile/Edges.antt =====
-- internal/controller/vmsnapshot_controller.go (`Reconcile`): a pass takes one edge of the phase diagram
-- at most, and calls only what that phase allows.
use projectbeskar_virtrigaud.Common.{◌=t◌, Bool, true, false, [], ◌≡◌, refl, if◌then◌else◌}
use projectbeskar_virtrigaud.Controller.{Fault, ◌>>=◌}
use projectbeskar_virtrigaud.Controller.Keeps.{
  Keeps, Keeps-stop, Keeps-on_error, Keeps-if, ◌and_then◌,
}
use projectbeskar_virtrigaud.Controller.Yields.{
  Yields, Yields-stop, Yields-any, Yields-bind, Yields-query, Yields-on_error, ◌and_knowing◌,
}
use projectbeskar_virtrigaud.Vm.Types.{VirtualMachine}
use projectbeskar_virtrigaud.Snapshot.Types.{VmSnapshot, SnapshotPhase}
use projectbeskar_virtrigaud.Snapshot.Cluster.{Api}
use projectbeskar_virtrigaud.Snapshot.Creation.Rules.{
  Keeps-create_snapshot, Keeps-check_snapshot_creation,
}
use projectbeskar_virtrigaud.Snapshot.Removal.{finalizer_name, handle_deletion}
use projectbeskar_virtrigaud.Snapshot.Removal.Rules.{Keeps-handle_retention, Keeps-handle_deletion}
use projectbeskar_virtrigaud.Snapshot.Reconcile.{
  add_finalizer, without_vm, await_vm, handle_phase, reconcile_live, reconcile_object,
}
use projectbeskar_virtrigaud.Snapshot.Steps.{
  stays, IsVmOf, IsOnPath, Keeps-finalizers, Keeps-object_written, Keeps-set_condition,
  Keeps-try_update_status,
}

module _ {v : VmSnapshot} {W : Type 0} (api : Api W) where
  Keeps-add_finalizer : Keeps (IsOnPath api v) (add_finalizer api)
  unfolding add_finalizer
  Keeps-add_finalizer = Keeps-finalizers _ and_then λ t.
      Keeps-on_error _ _ (Keeps-object_written api) (λ e. Keeps-stop _) and_then λ t. Keeps-stop _

  Yields-without_vm :
      {A : Type 0} {P : A → Type 0} (e : Fault) → Yields (IsOnPath api v) P (without_vm api e)
  unfolding without_vm
  Yields-without_vm e =
      Yields-bind (Yields-any (Keeps-set_condition api _ _ _ _))
        λ t u. Yields-bind (Yields-any (Keeps-try_update_status api)) λ t u. Yields-stop _

  Keeps-await_vm : Keeps (IsOnPath api v) (await_vm api)
  unfolding await_vm
  Keeps-await_vm = Keeps-set_condition api _ _ _ _ and_then λ t.
      Keeps-try_update_status api and_then λ t. Keeps-stop _

  Keeps-handle_phase :
      (vm : VirtualMachine) (p : SnapshotPhase)
      → v.deleting ≡ false
      → (vm.status.id =t "") ≡ false
      → v.status.phase ≡ p
      → IsVmOf api v vm
      → Keeps (IsOnPath api v) (handle_phase api vm p)
  unfolding handle_phase
  Keeps-handle_phase vm SnapshotPhase.unset live known e at =
      Keeps-create_snapshot api vm live e known at
  Keeps-handle_phase vm SnapshotPhase.creating live known e at =
      Keeps-check_snapshot_creation api vm live e
  Keeps-handle_phase vm SnapshotPhase.ready live known e at = Keeps-handle_retention api live e
  Keeps-handle_phase vm SnapshotPhase.failed live known e at = Keeps-stop _
  Keeps-handle_phase vm SnapshotPhase.pending live known e at = Keeps-stop _
  Keeps-handle_phase vm SnapshotPhase.deleting live known e at = Keeps-stop _
  Keeps-handle_phase vm SnapshotPhase.expired live known e at = Keeps-stop _
  Keeps-handle_phase vm (SnapshotPhase.custom p) live known e at = Keeps-stop _

  -- The two branches behind the fetch of the virtual machine.
  Keeps-provisioned :
      (vm : VirtualMachine) (waiting : Bool)
      → v.deleting ≡ false
      → (vm.status.id =t "") ≡ waiting
      → IsVmOf api v vm
      → Keeps
          (IsOnPath api v)
          (if waiting then await_vm api else handle_phase api vm v.status.phase)
  Keeps-provisioned vm true live e at = Keeps-await_vm
  Keeps-provisioned vm false live e at = Keeps-handle_phase vm _ live e refl at

  Keeps-reconcile_live : v.deleting ≡ false → Keeps (IsOnPath api v) (reconcile_live api v)
  unfolding reconcile_live
  Keeps-reconcile_live live =
      Yields-on_error (Yields-query _) Yields-without_vm and_knowing λ vm at.
      Keeps-provisioned vm _ live refl at

  Keeps-branches :
      (deleting : Bool)
      → v.deleting ≡ deleting
      → Keeps (IsOnPath api v) (
          if deleting
          then handle_deletion api
          else if api.has_finalizer finalizer_name v.finalizers
          then reconcile_live api v
          else add_finalizer api)
  Keeps-branches true gone = Keeps-handle_deletion api gone
  Keeps-branches false live = Keeps-if _ _ _ (Keeps-reconcile_live live) Keeps-add_finalizer

-- Whatever the API server, the resolver, the provider and the clock answer, a pass over a snapshot
-- leaves its phase or takes one edge of the phase diagram, in memory and in every write. The provider
-- is asked to create a snapshot only from the empty phase, by the request for that specification; it is
-- asked to delete one only for a snapshot that is being deleted, by the snapshot's own identifier. Both go
-- with the identifier, which is not empty, of the virtual machine that the API server answered for the
-- reference of the snapshot, to the provider that it answered for the reference of that machine. The object
-- is deleted only in the phase Ready under a retention policy.
pub reconcile_object-IsOnPath :
    {W : Type 0} (api : Api W) (v : VmSnapshot) (w : W)
    → let s = (reconcile_object api (record { object = v; world = w; calls = [] })).1 in
      IsOnPath api v s.object s.calls
unfolding reconcile_object ◌>>=◌
reconcile_object-IsOnPath api v w = (Keeps-branches api v.deleting refl).at _ (record {
  edge = stays v.deleting v.status.phase;
  same_name = refl;
  same_namespace = refl;
  same_spec = refl;
  same_id = λ gone. refl;
  steps = tt;
})
