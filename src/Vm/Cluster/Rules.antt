-- ===== src/Vm/Cluster/Rules.antt =====
-- internal/controller/virtualmachine_controller.go (`getProviderInstance`): it only reads.
use projectbeskar_virtrigaud.Common.{ℕ, String, Option, none, some, List, ◌≡◌, refl}
use projectbeskar_virtrigaud.Conditions.Condition.{Status}
use projectbeskar_virtrigaud.Controller.{Reply}
use projectbeskar_virtrigaud.Controller.Keeps.{Keeps, Keeps-stop, Keeps-query}
use projectbeskar_virtrigaud.Vm.Cluster.{Api, Call}
use projectbeskar_virtrigaud.Vm.Types.{VirtualMachine, VirtualMachineStatus}
use projectbeskar_virtrigaud.Migration.Cluster.{Provider}
use projectbeskar_virtrigaud.Vm.Cluster.{
  Kind, ready, provisioning, reconfiguring, edit, resolve_with, get_provider_instance,
}

pub edit-id :
    (kind : Kind) (now : ℕ) (s : Status) (reason message : String) (st : VirtualMachineStatus)
    → (edit kind now s reason message st).id ≡ st.id
unfolding edit
edit-id ready now s reason message st = refl
edit-id provisioning now s reason message st = refl
edit-id reconfiguring now s reason message st = refl

module _ {J : VirtualMachine → List Call → Type 0} {W : Type 0} (api : Api W) where
  Keeps-resolve_with :
      (o : Option (Provider → W → Reply Unit × W)) (p : Provider) → Keeps J (resolve_with api o p)
  unfolding resolve_with
  Keeps-resolve_with none p = Keeps-stop _
  Keeps-resolve_with (some resolve) p = Keeps-query _

  pub Keeps-get_provider_instance : (p : Provider) → Keeps J (get_provider_instance api p)
  unfolding get_provider_instance
  Keeps-get_provider_instance p = Keeps-resolve_with api.resolver p
