-- ===== src/Snapshot/Creation/Rules.antt =====
-- internal/controller/vmsnapshot_controller.go (`createSnapshot`, `checkSnapshotCreation`): the edges
-- that the creation takes, and the request that it makes.
use projectbeskar_virtrigaud.Common.{
  String, ◌<>◌, ◌=t◌, false, Option, none, some, ◌≡◌, refl, ap, ◌∙◌, arith,
}
use projectbeskar_virtrigaud.Controller.{Fault}
use projectbeskar_virtrigaud.Controller.Keeps.{
  Keeps, Keeps-stop, Keeps-ask, Keeps-query, Keeps-the_object, Keeps-on_error, Keeps-if, ◌and_then◌,
}
use projectbeskar_virtrigaud.Controller.Yields.{
  Yields, Yields-stop, Yields-any, Yields-bind, Yields-on_error, Yields-the_object, ◌and_knowing◌,
}
use projectbeskar_virtrigaud.Vm.Types.{VirtualMachine}
use projectbeskar_virtrigaud.Snapshot.Types.{VmSnapshot, SnapshotConfig, SnapshotPhase}
use projectbeskar_virtrigaud.Snapshot.Cluster.{Api, TaskStatus}
use projectbeskar_virtrigaud.Snapshot.Cluster.Rules.{Keeps-get_provider_instance}
use projectbeskar_virtrigaud.Snapshot.Creation.{
  with_config, build_snapshot_create_request, ended_with, start_creating, record_response,
  become_ready, task_failed, save, unreachable, creation_failed, track, create_snapshot,
  finish_task, check_snapshot_creation,
}
use projectbeskar_virtrigaud.Snapshot.Steps.{
  Edge, started, created, completed, EdgeFrom, edge_at, IsStep, IsVmOf, IsOnPath, Keeps-call,
  Keeps-event, Keeps-put_status, Keeps-set_condition, Keeps-update_status, Keeps-try_update_status,
  Yields-get_provider,
}
use projectbeskar_virtrigaud.Snapshot.Steps as Steps

with_config-vm_id :
    (id name : String) (c : Option SnapshotConfig) → (with_config id name c).vm_id ≡ id
unfolding with_config
with_config-vm_id id name none = refl
with_config-vm_id id name (some c) = refl

vm_id_lem :
    (s : VmSnapshot) (vm : VirtualMachine)
    → (build_snapshot_create_request s vm).vm_id ≡ vm.status.id
unfolding build_snapshot_create_request
vm_id_lem s vm = with_config-vm_id vm.status.id s.name s.spec.snapshot_config

module _ {v : VmSnapshot} {W : Type 0} (api : Api W) where
  Keeps-become_ready :
      {E : Type 0}
      → EdgeFrom v SnapshotPhase.ready
      → Keeps {E = E} (IsOnPath api v) (become_ready api)
  unfolding become_ready ended_with
  Keeps-become_ready e = Keeps-put_status _ (λ st h. e) (λ st gone. refl) and_then λ t.
      Keeps-set_condition api _ _ _ _ and_then λ t.
      Keeps-set_condition api _ _ _ _ and_then λ t. Keeps-event _ _ _

  Keeps-task_failed :
      {E : Type 0} (error : String)
      → EdgeFrom v SnapshotPhase.failed
      → Keeps {E = E} (IsOnPath api v) (task_failed api error)
  unfolding task_failed ended_with
  Keeps-task_failed error e = Keeps-put_status _ (λ st h. e) (λ st gone. refl) and_then λ t.
      Keeps-set_condition api _ _ _ _ and_then λ t.
      Keeps-set_condition api _ _ _ _ and_then λ t. Keeps-event _ _ _

  Keeps-save : Keeps (IsOnPath api v) (save api)
  unfolding save
  Keeps-save = Keeps-on_error _ _ (Keeps-update_status api) (λ e. Keeps-stop _)

  Keeps-unreachable : {A : Type 0} (m : String) → Keeps {A = A} (IsOnPath api v) (unreachable api m)
  unfolding unreachable
  Keeps-unreachable m = Keeps-set_condition api _ _ _ _ and_then λ t.
      Keeps-try_update_status api and_then λ t. Keeps-stop _

  Yields-unreachable :
      {A : Type 0} {P : A → Type 0} (e : Fault)
      → Yields {A = A} (IsOnPath api v) P (unreachable api ("Failed to get provider: " <> e.text))
  unfolding unreachable
  Yields-unreachable e =
      Yields-bind (Yields-any (Keeps-set_condition api _ _ _ _))
        λ t u. Yields-bind (Yields-any (Keeps-try_update_status api)) λ t u. Yields-stop _

  Keeps-creation_failed :
      {A : Type 0} (f : Fault)
      → EdgeFrom v SnapshotPhase.failed
      → Keeps {A = A} (IsOnPath api v) (creation_failed api f)
  unfolding creation_failed
  Keeps-creation_failed f e = Keeps-put_status _ (λ st h. e) (λ st gone. refl) and_then λ t.
      Keeps-set_condition api _ _ _ _ and_then λ t. Keeps-set_condition api _ _ _ _ and_then λ t.
      Keeps-event _ _ _ and_then λ t. Keeps-try_update_status api and_then λ t. Keeps-stop _

  Keeps-track :
      (id : String) → EdgeFrom v SnapshotPhase.ready → Keeps (IsOnPath api v) (track api id)
  unfolding track
  Keeps-track id e =
      Keeps-if _ _ _ (Keeps-become_ready e) (Keeps-put_status _ (λ st h. h) (λ st gone. refl))

  pub Keeps-create_snapshot :
      (vm : VirtualMachine)
      → v.deleting ≡ false
      → v.status.phase ≡ SnapshotPhase.unset
      → (vm.status.id =t "") ≡ false
      → IsVmOf api v vm
      → Keeps (IsOnPath api v) (create_snapshot api vm)
  unfolding create_snapshot start_creating record_response IsStep build_snapshot_create_request
  Keeps-create_snapshot vm live fresh known of_snapshot =
      Keeps-put_status _ (λ st h. edge_at v live fresh started) (λ st gone. refl) and_then λ t.
      Keeps-set_condition api _ _ _ _ and_then λ t.
      Yields-on_error (Yields-get_provider api vm) Yields-unreachable and_knowing λ p at.
      Keeps-on_error _ _ (Keeps-get_provider_instance api p) (λ e. Keeps-unreachable _)
      and_then λ resolved. Yields-the_object and_knowing λ s h.
          Keeps-on_error _ _
            (Keeps-call _ _ (
              live,
              fresh,
              record {
                vm = vm;
                vm_found = of_snapshot;
                of_vm = vm_id_lem s vm;
                known = ap (λ id. id =t "") (vm_id_lem s vm) ∙ known;
                provider_found = at;
              },
              (
                vm,
                vm_id_lem s vm,
                λ i.
                    build_snapshot_create_request
                      (record s { name = h.1.same_name i; spec = h.1.same_spec i }) vm,
              ),
            ))
            (λ e. Keeps-creation_failed e (edge_at v live fresh Steps.creation_failed))
          and_then λ resp. Keeps-ask _ and_then λ now.
              Keeps-put_status _ (λ st h. h) (λ st gone. ground (arith, live, gone)) and_then λ t.
              Keeps-track _ (edge_at v live fresh created) and_then λ t. Keeps-save and_then λ t.
              Keeps-the_object and_then λ s. Keeps-if _ _ _ (Keeps-stop _) (Keeps-stop _)

  Keeps-finish_task :
      (t : TaskStatus)
      → v.deleting ≡ false
      → v.status.phase ≡ SnapshotPhase.creating
      → Keeps (IsOnPath api v) (finish_task api t)
  unfolding finish_task
  Keeps-finish_task t live busy =
      Keeps-if _ _ _
        (Keeps-if _ _ _ (Keeps-become_ready (edge_at v live busy completed))
            (Keeps-task_failed _ (edge_at v live busy Steps.task_failed))
          and_then λ t. Keeps-save and_then λ t. Keeps-stop _)
        (Keeps-stop _)

  pub Keeps-check_snapshot_creation :
      (vm : VirtualMachine)
      → v.deleting ≡ false
      → v.status.phase ≡ SnapshotPhase.creating
      → Keeps (IsOnPath api v) (check_snapshot_creation api vm)
  unfolding check_snapshot_creation
  Keeps-check_snapshot_creation vm live busy = Keeps-the_object and_then λ s.
      Keeps-if _ _ _
        (Keeps-become_ready (edge_at v live busy completed) and_then λ t.
          Keeps-save and_then λ t. Keeps-stop _)
        (Keeps-on_error _ _ (Yields-get_provider api vm).keeps (λ e. Keeps-stop _) and_then λ p.
          Keeps-on_error _ _ (Keeps-get_provider_instance api p) (λ e. Keeps-stop _) and_then λ r.
          Keeps-on_error _ _ (Keeps-query _) (λ e. Keeps-stop _) and_then λ t.
          Keeps-finish_task t live busy)
