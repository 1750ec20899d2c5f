-- ===== src/Adoption/Allowed.antt =====
-- internal/controller/vmadoption_controller.go: what a pass over a provider may create and write.
use projectbeskar_virtrigaud.Common.{
  ◌=t◌, true, none, some, List, [], ◌∷◌, ◌++◌, ◌≡◌, All, All-append,
}
use projectbeskar_virtrigaud.Controller.{Reply, perform}
use projectbeskar_virtrigaud.Controller.Keeps.{Keeps, Keeps-perform}
use projectbeskar_virtrigaud.Vm.Types.{ImportedDiskRef, VirtualMachine}
use projectbeskar_virtrigaud.Adoption.Types.{
  Provider, Call, provider_status_written, class_created, vm_created, vm_status_written,
}
use projectbeskar_virtrigaud.Adoption.Adopting.{adopted_label}
use projectbeskar_virtrigaud.Adoption.Reconcile.{adoption_annotation, is_provider_ready}

-- A provider but for the state of its adoption.
abbrev pub without_adoption : Provider → Provider
without_adoption p = record p { adoption = none }

abbrev pub IsSame : Provider → Provider → Type 0
IsSame v o = without_adoption o ≡ without_adoption v

-- The provider asks for adoption and is available.
abbrev pub IsWanted : Provider → Type 0
IsWanted v = ((adoption_annotation v =t "true") ≡ true) × (is_provider_ready v ≡ true)

-- An object that stands for a machine of the provider: in its namespace, labelled, and with the
-- identifier of its status for its disk, which keeps the machine from being created again.
pub record IsAdopted (v : Provider) (vm : VirtualMachine) : Type 0 where
  pub same_namespace : vm.namespace ≡ v.namespace
  pub labelled : vm.labels ≡ adopted_label
  pub of_provider : vm.spec.provider_ref ≡ record { name = v.name; namespace = v.namespace }
  pub disk : ImportedDiskRef
  pub imported : vm.spec.imported_disk ≡ some disk
  pub known : disk.disk_id ≡ vm.status.id

unfoldable pub IsAllowed : Provider → Call → Type 0
IsAllowed v (provider_status_written q) = IsSame v q
IsAllowed v (class_created c) =
    IsWanted v × (c.namespace ≡ v.namespace) × (c.labels ≡ adopted_label)
IsAllowed v (vm_created vm) = IsWanted v × IsAdopted v vm
IsAllowed v (vm_status_written vm) = IsWanted v

pub record IsWithin (v o : Provider) (cs : List Call) : Type 0 where
  pub same : IsSame v o
  pub calls_allowed : All (IsAllowed v) cs

module _ {v : Provider} where
  pub IsWithin-append :
      (c : Call) (o : Provider) (cs : List Call)
      → IsAllowed v c
      → IsWithin v o cs
      → IsWithin v o (cs ++ c ∷ [])
  IsWithin-append c o cs w h = record {
    same = h.same;
    calls_allowed = All-append (IsAllowed v) cs (c ∷ []) h.calls_allowed (w, tt);
  }

  pub Keeps-call :
      {W A : Type 0} (c : Call) (op : W → Reply A × W)
      → IsAllowed v c
      → Keeps (IsWithin v) (perform c op)
  Keeps-call c op w = Keeps-perform c op (λ o cs h. IsWithin-append c o cs w h)
