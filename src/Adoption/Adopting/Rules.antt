-- ===== src/Adoption/Adopting/Rules.antt =====
-- internal/controller/vmadoption_controller.go (`adoptVM`): what it creates is allowed.
use projectbeskar_virtrigaud.Common.{String, List, [], ◌∷◌, ◌≡◌, refl, ap}
use projectbeskar_virtrigaud.Controller.{Reply, ok, fault}
use projectbeskar_virtrigaud.Controller.Keeps.{
  Keeps, Keeps-pure, Keeps-stop, Keeps-query, Keeps-if, Keeps-on_error, Keeps-settle, ◌and_then◌,
}
use projectbeskar_virtrigaud.Migration.Types.{ObjectRef}
use projectbeskar_virtrigaud.Vm.Types.{VirtualMachine}
use projectbeskar_virtrigaud.Adoption.Types.{DiskInfo, VmInfo, Provider, VmClass, Api}
use projectbeskar_virtrigaud.Adoption.Adopting.{
  imported_disk, spec_of, status_of, adopted_vm, new_class, adopted_label, found_or_created,
  class_for, ensure_vm_class, save_status, fix_existing, create_adopted, for_existing, adopt_named,
  adopt_vm,
}
use projectbeskar_virtrigaud.Adoption.Allowed.{
  IsSame, IsWanted, IsAdopted, IsAllowed, IsWithin, Keeps-call,
}

imported_disk-disk_id :
    (info : VmInfo) (disks : List DiskInfo) → (imported_disk info disks).disk_id ≡ info.id
unfolding imported_disk
imported_disk-disk_id info [] = refl
imported_disk-disk_id info (d ∷ ds) = refl

adopted_vm-IsAdopted :
    (v p : Provider) (name : String) (class : ObjectRef) (info : VmInfo)
    → IsSame v p
    → IsAdopted v (adopted_vm p name class info)
unfolding adopted_vm spec_of status_of
adopted_vm-IsAdopted v p name class info same = record {
  same_namespace = ap Provider.namespace same;
  labelled = refl;
  of_provider =
      ap {A = Provider} {B = ObjectRef} (λ q. record { name = q.name; namespace = q.namespace })
        same;
  disk = imported_disk info info.disks;
  imported = refl;
  known = imported_disk-disk_id info info.disks;
}

module _ {v : Provider} {W : Type 0} (api : Api W) (wanted : IsWanted v) where
  Keeps-save_status :
      (info : VmInfo) (vm : VirtualMachine) → Keeps (IsWithin v) (save_status api info vm)
  unfolding save_status IsAllowed
  Keeps-save_status info vm = Keeps-on_error _ _ (Keeps-call _ _ wanted) (λ e. Keeps-stop _)

  Keeps-fix_existing :
      (info : VmInfo) (vm : VirtualMachine) → Keeps (IsWithin v) (fix_existing api info vm)
  unfolding fix_existing
  Keeps-fix_existing info vm =
      Keeps-if _ _ _ (Keeps-if _ _ _ (Keeps-save_status info vm) (Keeps-pure _)) (Keeps-pure _)

  Keeps-found_or_created :
      (new : VmClass) (r : Reply VmClass)
      → new.namespace ≡ v.namespace
      → new.labels ≡ adopted_label
      → Keeps (IsWithin v) (found_or_created api new r)
  unfolding found_or_created IsAllowed
  Keeps-found_or_created new (ok class) e l = Keeps-pure _
  Keeps-found_or_created new (fault f) e l =
      Keeps-if _ _ _ (Keeps-on_error _ _ (Keeps-call _ _ (wanted, e, l)) (λ e. Keeps-stop _))
        (Keeps-stop _)

  Keeps-ensure_vm_class :
      (info : VmInfo) (namespace : String)
      → namespace ≡ v.namespace
      → Keeps (IsWithin v) (ensure_vm_class api info namespace)
  unfolding ensure_vm_class class_for new_class
  Keeps-ensure_vm_class info namespace e =
      Keeps-settle _ (Keeps-query _) and_then λ r. Keeps-found_or_created _ r e refl

  Keeps-create_adopted :
      (p : Provider) (name : String) (info : VmInfo)
      → IsSame v p
      → Keeps (IsWithin v) (create_adopted api p name info)
  unfolding create_adopted IsAllowed
  Keeps-create_adopted p name info same =
      Keeps-on_error _ _ (Keeps-ensure_vm_class info p.namespace (ap Provider.namespace same))
        (λ e. Keeps-stop _)
      and_then λ class.
          Keeps-on_error _ _ (Keeps-call _ _ (wanted, adopted_vm-IsAdopted v p name _ info same))
            (λ e. Keeps-stop _)
          and_then λ created. Keeps-save_status info created

  Keeps-for_existing :
      (p : Provider) (name : String) (info : VmInfo) (r : Reply VirtualMachine)
      → IsSame v p
      → Keeps (IsWithin v) (for_existing api p name info r)
  unfolding for_existing
  Keeps-for_existing p name info (ok vm) same = Keeps-fix_existing info vm
  Keeps-for_existing p name info (fault e) same =
      Keeps-if _ _ _ (Keeps-create_adopted p name info same) (Keeps-stop _)

  pub Keeps-adopt_vm :
      (p : Provider) (info : VmInfo) → IsSame v p → Keeps (IsWithin v) (adopt_vm api p info)
  unfolding adopt_vm adopt_named
  Keeps-adopt_vm p info same =
      Keeps-settle _ (Keeps-query _) and_then λ r. Keeps-for_existing p _ info r same
