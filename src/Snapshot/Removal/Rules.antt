-- ===== src/Snapshot/Removal/Rules.antt =====
-- internal/controller/vmsnapshot_controller.go (`handleRetention`, `handleDeletion`): what they delete.
use projectbeskar_virtrigaud.Common.{
  String, Bool, true, false, Option, none, some, is_some, ◌≡◌, refl, ap, sym, subst, arith,
}
use projectbeskar_virtrigaud.Controller.{Reply, ok, fault, query}
use projectbeskar_virtrigaud.Controller.Keeps.{
  Keeps, Keeps-pure, Keeps-stop, Keeps-ask, Keeps-query, Keeps-perform_object, Keeps-settle,
  Keeps-on_error, Keeps-if, ◌and_then◌,
}
use projectbeskar_virtrigaud.Controller.Yields.{
  Answered, IsOk, Yields, Yields-stop, Yields-query, Yields-settle, Yields-on_error,
  Yields-the_object, ◌and_knowing◌,
}
use projectbeskar_virtrigaud.Vm.Types.{VirtualMachine}
use projectbeskar_virtrigaud.Snapshot.Types.{
  VmSnapshot, VmSnapshotSpec, SnapshotRetentionPolicy, SnapshotPhase,
}
use projectbeskar_virtrigaud.Snapshot.Cluster.{Api, object_deleted}
use projectbeskar_virtrigaud.Snapshot.Cluster.Rules.{Keeps-get_provider_instance}
use projectbeskar_virtrigaud.Snapshot.Removal.{
  delete_object, delete_expired, delete_without_vm, check_vm, retain, handle_retention,
  note_failure, delete_from_provider, can_delete, delete_at, handle_deletion,
}
use projectbeskar_virtrigaud.Snapshot.Steps.{
  removed, edge_at, IsStep, IsOnPath, IsOnPath-append, Keeps-call, Keeps-event, Keeps-put_status,
  Keeps-finalizers, Keeps-object_written, Keeps-set_condition, Keeps-try_update_status,
  Yields-get_provider, IsVmOf,
}

module _ {v : VmSnapshot} {W : Type 0} (api : Api W) where
  module _ (live : v.deleting ≡ false) (is_ready : v.status.phase ≡ SnapshotPhase.ready)
      (governed : is_some v.spec.retention_policy ≡ true) where
    Keeps-delete_object : Keeps (IsOnPath api v) (delete_object api)
    unfolding delete_object IsStep
    Keeps-delete_object =
        Keeps-on_error _ _
          (Keeps-perform_object object_deleted api.delete
            (λ o cs h. IsOnPath-append (object_deleted o) o cs (live, is_ready, governed) h))
          (λ e. Keeps-stop _)
        and_then λ t. Keeps-stop _

    Keeps-delete_expired : (o : Option Bool) → Keeps (IsOnPath api v) (delete_expired api o)
    unfolding delete_expired
    Keeps-delete_expired none = Keeps-stop _
    Keeps-delete_expired (some b) = Keeps-if _ _ _ Keeps-delete_object (Keeps-pure _)

    Keeps-delete_without_vm :
        (r : Reply VirtualMachine) → Keeps (IsOnPath api v) (delete_without_vm api r)
    unfolding delete_without_vm
    Keeps-delete_without_vm (ok vm) = Keeps-pure _
    Keeps-delete_without_vm (fault e) = Keeps-if _ _ _ Keeps-delete_object (Keeps-pure _)

    Keeps-check_vm : (s : VmSnapshot) (b : Bool) → Keeps (IsOnPath api v) (check_vm api s b)
    unfolding check_vm
    Keeps-check_vm s false = Keeps-pure _
    Keeps-check_vm s true = Keeps-settle _ (Keeps-query _) and_then λ r. Keeps-delete_without_vm r

    Keeps-retain_governed :
        (s : VmSnapshot) (r : SnapshotRetentionPolicy)
        → Keeps (IsOnPath api v) (retain api s (some r))
    unfolding retain
    Keeps-retain_governed s r = Keeps-ask _ and_then λ now.
        Keeps-delete_expired _ and_then λ t. Keeps-check_vm s r.delete_on_vm_delete

  module _ (live : v.deleting ≡ false) (is_ready : v.status.phase ≡ SnapshotPhase.ready) where
    Keeps-retain :
        (s : VmSnapshot) (o : Option SnapshotRetentionPolicy)
        → v.spec.retention_policy ≡ o
        → Keeps (IsOnPath api v) (retain api s o)
    unfolding retain
    Keeps-retain s none e = Keeps-pure _
    Keeps-retain s (some r) e = Keeps-retain_governed live is_ready (ap is_some e) s r

    pub Keeps-handle_retention : Keeps (IsOnPath api v) (handle_retention api)
    unfolding handle_retention
    Keeps-handle_retention = Yields-the_object and_knowing λ s h.
        Keeps-retain s _ (ap VmSnapshotSpec.retention_policy (sym h.1.same_spec)) and_then λ t.
        Keeps-stop _

  Keeps-note_failure : (r : Reply String) → Keeps (IsOnPath api v) (note_failure api r)
  unfolding note_failure
  Keeps-note_failure (ok t) = Keeps-pure _
  Keeps-note_failure (fault e) = Keeps-event _ _ _

  module _ (gone : v.deleting ≡ true) where
    Keeps-delete_from_provider :
        (s : VmSnapshot) (vm : VirtualMachine) (b : Bool)
        → s.status.snapshot_id ≡ v.status.snapshot_id
        → IsVmOf api v vm
        → can_delete api s vm ≡ b
        → Keeps (IsOnPath api v) (delete_from_provider api s vm b)
    unfolding delete_from_provider can_delete IsStep
    Keeps-delete_from_provider s vm false same of_snapshot e = Keeps-pure _
    Keeps-delete_from_provider s vm true same of_snapshot e =
        Yields-on_error (Yields-get_provider api vm) (λ e. Yields-stop _) and_knowing λ p at.
        Keeps-on_error _ _ (Keeps-get_provider_instance api p) (λ e. Keeps-stop _) and_then λ r.
        Keeps-settle _ (
          Keeps-call _ _ (
            gone,
            same,
            ground (arith, e),
            record {
              vm = vm;
              vm_found = of_snapshot;
              of_vm = refl;
              known = ground (arith, e);
              provider_found = at;
            },
          ))
        and_then λ r. Keeps-note_failure r

    Keeps-delete_at :
        (s : VmSnapshot) (r : Reply VirtualMachine)
        → s.status.snapshot_id ≡ v.status.snapshot_id
        → IsOk (IsVmOf api v) r
        → Keeps (IsOnPath api v) (delete_at api s r)
    unfolding delete_at
    Keeps-delete_at s (ok vm) same of_snapshot =
        Keeps-delete_from_provider s vm _ same of_snapshot refl
    Keeps-delete_at s (fault e) same u = Keeps-if _ _ _ (Keeps-pure _) (Keeps-stop _)

    -- The virtual machine is looked up by what the snapshot refers to.
    Yields-get_vm :
        (s : VmSnapshot)
        → s.namespace ≡ v.namespace
        → s.spec ≡ v.spec
        → Yields (IsOnPath api v) (IsVmOf api v) (query (api.get_vm s.namespace s.spec.vm_ref))
    Yields-get_vm s n e =
        subst {A = String × String}
          (λ x.
            Yields (IsOnPath api v) (Answered (api.get_vm x.0 x.1))
              (query (api.get_vm s.namespace s.spec.vm_ref)))
          (λ i. (n i, (e i).vm_ref)) (Yields-query _)

    pub Keeps-handle_deletion : Keeps (IsOnPath api v) (handle_deletion api)
    unfolding handle_deletion
    Keeps-handle_deletion =
        Keeps-put_status _ (λ st h. edge_at v gone refl (removed v.status.phase)) (λ st d. refl)
        and_then λ t. Keeps-set_condition api _ _ _ _ and_then λ t.
            Keeps-try_update_status api and_then λ t. Keeps-event _ _ _ and_then λ t.
            Yields-the_object and_knowing λ s h.
            Yields-settle (Yields-get_vm s h.1.same_namespace h.1.same_spec)
            and_knowing λ r of_snapshot.
                Keeps-delete_at s r (h.1.same_id gone) of_snapshot and_then λ t.
                Keeps-finalizers _ and_then λ t.
                Keeps-on_error _ _ (Keeps-object_written api) (λ e. Keeps-stop _) and_then λ t.
                Keeps-event _ _ _ and_then λ t. Keeps-stop _
