-- ===== src/Vm/Dependencies/Rules.antt =====
-- internal/controller/virtualmachine_controller.go (`getDependencies`): it only reads, and returns what the
-- references lead to.
use projectbeskar_virtrigaud.Common.{String, Option, none, some, List, [], ◌∷◌}
use projectbeskar_virtrigaud.Controller.{Reply}
use projectbeskar_virtrigaud.Controller.Yields.{
  Answered, Yields, Yields-pure, Yields-stop, Yields-query, Yields-bind, Yields-on_error,
}
use projectbeskar_virtrigaud.Vm.Cluster.{Api, Call}
use projectbeskar_virtrigaud.Vm.Types.{VirtualMachine}
use projectbeskar_virtrigaud.Migration.Types.{ObjectRef, VmNetworkRef}
use projectbeskar_virtrigaud.Vm.Dependencies.{
  Dependencies, fetch, get_image, get_network, get_networks, get_dependencies,
}
use projectbeskar_virtrigaud.Vm.Allowed.{
  IsAt, IsImageAt, IsNetworkAt, AreNetworksAt, ArePartsOf, IsProviderOf,
}

module _ {W : Type 0} (api : Api W) where
  pub record AreDependenciesOf (vm : VirtualMachine) (d : Dependencies) : Type 0 where
    pub provider_found : IsProviderOf api vm.namespace vm.spec d.provider
    pub parts_found : ArePartsOf api vm.namespace vm.spec d.parts

module _ {J : VirtualMachine → List Call → Type 0} {W : Type 0} (api : Api W) where
  Yields-fetch :
      {A : Type 0} (what name : String) (op : W → Reply A × W)
      → Yields J (Answered op) (fetch api what name op)
  unfolding fetch
  Yields-fetch what name op = Yields-on_error (Yields-query op) (λ e. Yields-stop _)

  Yields-get_image :
      (namespace : String) (o : Option ObjectRef)
      → Yields J (IsAt (IsImageAt api namespace) o) (get_image api namespace o)
  unfolding get_image IsAt
  Yields-get_image namespace none = Yields-pure _ tt
  Yields-get_image namespace (some r) =
      Yields-bind (Yields-fetch "vmimage" r.name _) λ image h. Yields-pure _ h

  Yields-get_network :
      (namespace : String) (o : Option ObjectRef)
      → Yields J (IsAt (IsNetworkAt api namespace) o) (get_network api namespace o)
  unfolding get_network IsAt
  Yields-get_network namespace none = Yields-pure _ tt
  Yields-get_network namespace (some r) =
      Yields-bind (Yields-fetch "vmnetworkattachment" r.name _) λ network h. Yields-pure _ h

  Yields-get_networks :
      (namespace : String) (rs : List VmNetworkRef)
      → Yields J (AreNetworksAt api namespace rs) (get_networks api namespace rs)
  unfolding get_networks AreNetworksAt
  Yields-get_networks namespace [] = Yields-pure _ tt
  Yields-get_networks namespace (r ∷ rs) =
      Yields-bind (Yields-get_network namespace r.network_ref) λ network h.
        Yields-bind (Yields-get_networks namespace rs) λ networks k. Yields-pure _ (h, k)

  pub Yields-get_dependencies :
      (vm : VirtualMachine) → Yields J (AreDependenciesOf api vm) (get_dependencies api vm)
  unfolding get_dependencies
  Yields-get_dependencies vm =
      Yields-bind (Yields-on_error (Yields-query _) (λ e. Yields-stop _)) λ provider p.
        Yields-bind (Yields-fetch "vmclass" vm.spec.class_ref.name _) λ class c.
          Yields-bind (Yields-get_image vm.namespace vm.spec.image_ref) λ image i.
            Yields-bind (Yields-get_networks vm.namespace vm.spec.networks) λ networks n.
              Yields-pure _ (record {
                provider_found = p;
                parts_found = record { class_found = c; image_found = i; networks_found = n };
              })
