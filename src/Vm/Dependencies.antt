-- ===== src/Vm/Dependencies.antt =====
-- internal/controller/virtualmachine_controller.go (`getDependencies`): the objects that a virtual
-- machine refers to.
pub mod Rules
use projectbeskar_virtrigaud.Common.{
  String, ◌<>◌, ◌=t◌, if◌then◌else◌, Option, none, some, List, [], ◌∷◌,
}
use projectbeskar_virtrigaud.Controller.{Fault, wrap, Reply, ◌>>=◌, pure, stop, query, ◌on_error◌}
use projectbeskar_virtrigaud.Migration.Types.{ObjectRef, VmNetworkRef}
use projectbeskar_virtrigaud.Migration.Cluster.{Provider}
use projectbeskar_virtrigaud.Vm.Types.{VirtualMachine, ImageSource, NetworkConfig}
use projectbeskar_virtrigaud.Vm.Cluster.{Api, Run}
use projectbeskar_virtrigaud.Vm.Request.{Parts}

pub record Dependencies : Type 0 where
  pub provider : Provider
  pub parts : Parts

-- The namespace of a reference, or the one of the virtual machine.
unfoldable pub namespace_of : String → ObjectRef → String
namespace_of default r = if r.namespace =t "" then default else r.namespace

missing_provider : String → String → Fault → Fault
missing_provider name namespace e =
    if e.not_found
    then wrap ("provider " <> (name <> (" not found (namespace: " <> (namespace <> "): ")))) e
    else wrap ("failed to get provider " <> (name <> ": ")) e

module _ {W : Type 0} (api : Api W) where
  fetch : {A : Type 0} → String → String → (W → Reply A × W) → Run W Fault A
  fetch what name op =
      query op on_error λ e. stop (wrap ("failed to get " <> (what <> (" " <> (name <> ": ")))) e)

  get_image : String → Option ObjectRef → Run W Fault (Option ImageSource)
  unfolding fetch
  get_image namespace none = pure none
  get_image namespace (some r) = do
    image ← fetch "vmimage" r.name (api.get_image (namespace_of namespace r) r.name)
    pure (some image)

  -- A network is looked up in the namespace of the virtual machine, whatever its reference says.
  get_network : String → Option ObjectRef → Run W Fault (Option NetworkConfig)
  unfolding fetch
  get_network namespace none = pure none
  get_network namespace (some r) = do
    network ← fetch "vmnetworkattachment" r.name (api.get_network namespace r.name)
    pure (some network)

  pub get_networks : String → List VmNetworkRef → Run W Fault (List (Option NetworkConfig))
  unfolding get_network
  get_networks namespace [] = pure []
  get_networks namespace (r ∷ rs) = do
    network ← get_network namespace r.network_ref
    networks ← get_networks namespace rs
    pure (network ∷ networks)

  pub get_dependencies : VirtualMachine → Run W Fault Dependencies
  unfolding get_image get_networks missing_provider
  get_dependencies vm = do
    let p = vm.spec.provider_ref
    let c = vm.spec.class_ref
    provider ← query (api.get_provider (namespace_of vm.namespace p) p.name) on_error λ e.
        stop (missing_provider p.name (namespace_of vm.namespace p) e)
    class ← fetch "vmclass" c.name (api.get_class (namespace_of vm.namespace c) c.name)
    image ← get_image vm.namespace vm.spec.image_ref
    networks ← get_networks vm.namespace vm.spec.networks
    pure (record {
      provider = provider;
      parts = record { class = class; image = image; networks = networks };
    })
