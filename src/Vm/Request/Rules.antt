-- ===== src/Vm/Request/Rules.antt =====
-- internal/controller/virtualmachine_controller.go (`buildCreateRequest`): what it returns is a request
-- of the virtual machine, and it only reads.
use projectbeskar_virtrigaud.Common.{String, subst, Bool, Option, none, some, List, refl, ap}
use projectbeskar_virtrigaud.Controller.Yields.{
  Yields, Yields-stop, Yields-on_error, Yields-pure, Yields-the_object, Yields-bind,
}
use projectbeskar_virtrigaud.Vm.Cluster.{Api, Call}
use projectbeskar_virtrigaud.Vm.Types.{VirtualMachine, VirtualMachineSpec, CloudInit}
use projectbeskar_virtrigaud.Vm.CloudInit.Rules.{
  IsUserDataAt, IsMetaDataAt, Yields-user_data, Yields-meta_data,
}
use projectbeskar_virtrigaud.Vm.Request.{
  Parts, request_of, user_data, meta_data, build_create_request,
}
use projectbeskar_virtrigaud.Vm.Allowed.{
  IsSameSpec, ArePartsOf, IsRequestOf, IsAllowedUnder, IsTextOf,
}

module _ {J : VirtualMachine → List Call → Type 0} {W : Type 0} (api : Api W) where
  Yields-request_user_data :
      (namespace : String) (o : Option CloudInit)
      → Yields J (IsTextOf (IsUserDataAt api namespace) o) (user_data api namespace o)
  unfolding user_data IsTextOf
  Yields-request_user_data namespace none = Yields-pure _ refl
  Yields-request_user_data namespace (some ci) =
      Yields-bind (Yields-on_error (Yields-user_data api _ _) (λ e. Yields-stop _))
        λ text u. Yields-pure _ (text, u, refl)

  Yields-request_meta_data :
      (namespace : String) (o : Option CloudInit)
      → Yields J (IsTextOf (IsMetaDataAt api namespace) o) (meta_data api namespace o)
  unfolding meta_data IsTextOf
  Yields-request_meta_data namespace none = Yields-pure _ refl
  Yields-request_meta_data namespace (some ci) =
      Yields-bind (Yields-on_error (Yields-meta_data api _ _) (λ e. Yields-stop _))
        λ text u. Yields-pure _ (text, u, refl)

module _ {v : VirtualMachine} {W : Type 0} (api : Api W) where
  request_lem :
      (vm : VirtualMachine) (parts : Parts) (user meta : Option String)
      → IsSameSpec v vm
      → ArePartsOf api v.namespace v.spec parts
      → IsTextOf (IsUserDataAt api vm.namespace) vm.spec.user_data user
      → IsTextOf (IsMetaDataAt api vm.namespace) vm.spec.meta_data meta
      → IsRequestOf api v (request_of vm.name vm.spec parts user meta)
  unfolding IsSameSpec request_of
  request_lem vm parts user meta same found u m = record {
    same_name = same.0;
    same_disks = ap VirtualMachineSpec.disks same.1;
    same_placement = ap VirtualMachineSpec.placement same.1;
    same_tags = ap VirtualMachineSpec.tags same.1;
    parts = parts;
    parts_found = found;
    user = user;
    user_found =
        subst (λ (x : String × Option CloudInit). IsTextOf (IsUserDataAt api x.0) x.1 user)
          (λ i. (same.2 i, (same.1 i).user_data)) u;
    meta = meta;
    meta_found =
        subst (λ (x : String × Option CloudInit). IsTextOf (IsMetaDataAt api x.0) x.1 meta)
          (λ i. (same.2 i, (same.1 i).meta_data)) m;
    built = λ i. request_of (same.0 i) (same.1 i) parts user meta;
  }

  -- What a pass asks a provider to create or to become is what the specification says.
  pub Yields-build_create_request :
      {held known : Bool} (parts : Parts)
      → ArePartsOf api v.namespace v.spec parts
      → Yields
          (IsAllowedUnder api held v known)
          (IsRequestOf api v)
          (build_create_request api parts)
  unfolding build_create_request
  Yields-build_create_request parts found = Yields-bind Yields-the_object λ vm h.
      Yields-bind (Yields-request_user_data api vm.namespace vm.spec.user_data) λ user u.
        Yields-bind (Yields-request_meta_data api vm.namespace vm.spec.meta_data)
          λ meta m. Yields-pure _ (request_lem vm parts user meta h.1.same_spec found u m)
