-- ===== src/Vm/Request.antt =====
-- internal/controller/virtualmachine_controller.go (`buildCreateRequest`): what a provider is asked to
-- create, from the specification, the class, the image and the networks.
pub mod Class
pub mod Image
pub mod Networks
pub mod Rules
use projectbeskar_virtrigaud.Common.{String, ◌=t◌, if◌then◌else◌, Option, none, some, List}
use projectbeskar_virtrigaud.Controller.{Fault, wrap, ◌>>=◌, pure, stop, the_object, ◌on_error◌}
use projectbeskar_virtrigaud.Vm.Types.{
  VirtualMachineSpec, CloudInit, ImageSource, NetworkConfig, VmClassSpec,
}
use projectbeskar_virtrigaud.Vm.Contracts.{CreateRequest, UserData}
use projectbeskar_virtrigaud.Vm.Cluster.{Api, Run}
use projectbeskar_virtrigaud.Vm.CloudInit.{
  resolve_cloud_init_user_data, resolve_cloud_init_meta_data,
}
use projectbeskar_virtrigaud.Vm.Request.Class.{convert_class}
use projectbeskar_virtrigaud.Vm.Request.Image.{build_image}
use projectbeskar_virtrigaud.Vm.Request.Networks.{build_networks}

-- The objects that a virtual machine refers to, but for its provider.
pub record Parts : Type 0 where
  pub class : VmClassSpec
  pub image : Option ImageSource
  pub networks : List (Option NetworkConfig)

pub unless_empty : String → Option String
unless_empty s = if s =t "" then none else some s

as_user_data : Option String → Option UserData
as_user_data none = none
as_user_data (some content) = some (record { kind = "cloud-init"; cloud_init_data = content })

pub request_of : String → VirtualMachineSpec → Parts → Option String → Option String → CreateRequest
unfolding as_user_data
request_of name spec parts user_data meta_data = record {
  name = name;
  class = convert_class parts.class;
  image = build_image spec.imported_disk parts.image;
  networks = build_networks spec.networks parts.networks;
  disks = spec.disks;
  user_data = as_user_data user_data;
  meta_data = meta_data;
  placement = spec.placement;
  tags = spec.tags;
}

module _ {W : Type 0} (api : Api W) where
  user_data : String → Option CloudInit → Run W Fault (Option String)
  unfolding unless_empty
  user_data namespace none = pure none
  user_data namespace (some ci) = do
    content ← resolve_cloud_init_user_data api namespace ci on_error λ e.
        stop (wrap "resolving cloud-init user data: " e)
    pure (unless_empty content)

  meta_data : String → Option CloudInit → Run W Fault (Option String)
  unfolding unless_empty
  meta_data namespace none = pure none
  meta_data namespace (some ci) = do
    content ← resolve_cloud_init_meta_data api namespace ci on_error λ e.
        stop (wrap "resolving cloud-init metadata: " e)
    pure (unless_empty content)

  pub build_create_request : Parts → Run W Fault CreateRequest
  unfolding user_data meta_data
  build_create_request parts = do
    vm ← the_object
    user ← user_data vm.namespace vm.spec.user_data
    meta ← meta_data vm.namespace vm.spec.meta_data
    pure (request_of vm.name vm.spec parts user meta)
