-- ===== src/Snapshot/Reconcile/Tests.antt =====
-- A pass over a small snapshot whose provider creates it at once.
use projectbeskar_virtrigaud.Common.{String, ◌=t◌, Bool, true, false, none, some, List, [], ◌∷◌}
use projectbeskar_virtrigaud.Controller.{ok, fault, plain}
use projectbeskar_virtrigaud.Vm.Types.{VirtualMachine}
use projectbeskar_virtrigaud.Vm.Sample as Vm
use projectbeskar_virtrigaud.Snapshot.Types.{VmSnapshot, SnapshotPhase}
use projectbeskar_virtrigaud.Snapshot.Cluster.{Api}
use projectbeskar_virtrigaud.Snapshot.Removal.{finalizer_name}
use projectbeskar_virtrigaud.Snapshot.Reconcile.{reconcile_object}
use projectbeskar_virtrigaud.Snapshot.Reconcile.Edges.{reconcile_object-IsOnPath}
use projectbeskar_virtrigaud.Snapshot.Steps.{IsOnPath}

has_name : String → List String → Bool
has_name f [] = false
has_name f (g ∷ gs) = g =t f

abbrev running_vm : VirtualMachine
running_vm = record Vm.fresh { status = record Vm.fresh_status { id = "vm-1" } }

abbrev api : Api Unit
unfolding has_name
api = record {
  now = λ w. (7, w);
  has_finalizer = has_name;
  with_finalizer = λ f fs. f ∷ fs;
  without_finalizer = λ f fs. [];
  get_snapshot = λ ns n w. (fault (plain "no snapshot"), w);
  get_vm = λ ns n w. (ok running_vm, w);
  get_provider = λ ns n w. (ok Vm.provider, w);
  update_status = λ o w. (ok tt, w);
  update = λ o w. (ok tt, w);
  delete = λ o w. (ok tt, w);
  resolver = some (λ p w. (ok tt, w));
  snapshot_create = λ p r w. (ok (record { snapshot_id = "snap-1"; task_id = "" }), w);
  snapshot_delete = λ p vm id w. (ok "", w);
  task_status = λ p t w. (ok (record { is_completed = true; error = "" }), w);
}

abbrev fresh : VmSnapshot
fresh = record {
  namespace = "default";
  name = "before-upgrade";
  deleting = false;
  finalizers = finalizer_name ∷ [];
  spec = record { vm_ref = "web"; snapshot_config = none; retention_policy = none };
  status = record {
    snapshot_id = "";
    phase = SnapshotPhase.unset;
    message = "";
    creation_time = none;
    task_ref = "";
    conditions = [];
  };
}

reconcile_object-IsOnPath_example :
    let s = (reconcile_object api (record { object = fresh; world = tt; calls = [] })).1 in
    IsOnPath api fresh s.object s.calls
reconcile_object-IsOnPath_example = reconcile_object-IsOnPath api fresh tt
