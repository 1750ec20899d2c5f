-- ===== src/Adoption/Discovery.antt =====
-- internal/controller/vmadoption_controller.go (`discoverUnmanagedVMs`, `getProviderInstance`): the
-- machines of a provider that no object stands for.
pub mod Laws
mod Tests
use projectbeskar_virtrigaud.Common.{
  String, ◌=t◌, Bool, true, false, not, ◌&&◌, ◌||◌, if◌then◌else◌, Option, none, some, List, [],
  ◌∷◌,
}
use projectbeskar_virtrigaud.Controller.{
  Fault, plain, wrap, Reply, ◌>>=◌, pure, stop, query, ◌on_error◌,
}
use projectbeskar_virtrigaud.Vm.Types.{VirtualMachine}
use projectbeskar_virtrigaud.Vm.Dependencies.{namespace_of}
use projectbeskar_virtrigaud.Adoption.Types.{VmInfo, VmAdoptionFilter, Provider, Api, Run}
use projectbeskar_virtrigaud.Adoption.Filter.{matches_filter}

-- Whether the object's provider is this one.
pub is_of_provider : Provider → VirtualMachine → Bool
is_of_provider p vm =
    vm.spec.provider_ref.name =t p.name
    && namespace_of vm.namespace vm.spec.provider_ref =t p.namespace

-- The identifier of its machine, or its name while it has none.
pub vm_id : VirtualMachine → String
vm_id vm = if vm.status.id =t "" then vm.name else vm.status.id

-- Whether the map of managed identifiers has an entry.
pub is_managed : Provider → List VirtualMachine → String → Bool
unfolding is_of_provider vm_id
is_managed p [] id = false
is_managed p (vm ∷ vms) id = is_of_provider p vm && vm_id vm =t id || is_managed p vms id

module _ {W : Type 0} (api : Api W) where
  pub passes_filter : Option VmAdoptionFilter → VmInfo → Bool
  passes_filter none vm = true
  passes_filter (some f) vm = matches_filter api vm f

  pub is_selected : Provider → Option VmAdoptionFilter → List VirtualMachine → VmInfo → Bool
  unfolding is_managed passes_filter
  is_selected p f vms vm = not (is_managed p vms vm.id) && passes_filter f vm

  pub select : Provider → Option VmAdoptionFilter → List VirtualMachine → List VmInfo → List VmInfo
  unfolding is_selected
  select p f vms [] = []
  select p f vms (vm ∷ rest) =
      let selected = select p f vms rest in
      if is_selected p f vms vm then vm ∷ selected else selected

  instance_of : Option (Provider → W → Reply Unit × W) → Provider → Run W Fault Unit
  instance_of none p = stop (plain "remote resolver not configured")
  instance_of (some resolve) p =
      query (resolve p) on_error λ e. stop (wrap "failed to get provider: " e)

  get_provider_instance : Provider → Run W Fault Unit
  unfolding instance_of
  get_provider_instance p = instance_of api.resolver p

  pub discover_unmanaged_vms : Provider → Option VmAdoptionFilter → Run W Fault (List VmInfo)
  unfolding get_provider_instance select
  discover_unmanaged_vms p f = do
    provider ←
        get_provider_instance p on_error λ e. stop (wrap "failed to get provider instance: " e)
    all ← query (api.provider_vms p) on_error λ e. stop (wrap "failed to list VMs: " e)
    vms ← query api.list_vms on_error λ e. stop (wrap "failed to list VirtualMachine CRs: " e)
    pure (select p f vms all)
