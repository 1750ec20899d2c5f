-- ===== src/Adoption/Adopting.antt =====
-- internal/controller/vmadoption_controller.go (`adoptVM`, `ensureVMClass`): the objects that are made
-- for a machine of a provider.
pub mod Rules
use projectbeskar_virtrigaud.Common.{
  ℤ, pos, exceeds, ◌=z◌, decimal, String, ◌<>◌, ◌=t◌, Bool, false, ◌||◌, if◌then◌else◌, Option,
  none, some, List, [], ◌∷◌,
}
use projectbeskar_virtrigaud.Controller.{
  Fault, wrap, Reply, ok, fault, ◌>>=◌, ◌>>◌, pure, stop, query, perform, ◌on_error◌, settle,
}
use projectbeskar_virtrigaud.Migration.Types.{ObjectRef}
use projectbeskar_virtrigaud.Vm.Types.{
  ImportedDiskRef, VirtualMachineResources, VirtualMachineSpec, VirtualMachineStatus,
  VirtualMachine,
}
use projectbeskar_virtrigaud.Adoption.Types.{
  DiskInfo, VmInfo, Provider, VmClass, entry, class_created, vm_created, vm_status_written, Api,
  Run,
}
use projectbeskar_virtrigaud.Adoption.Names.{sanitize_vm_name}

abbrev pub adopted_label : List (String × String)
adopted_label = ("virtrigaud.io/adopted", "true") ∷ []

or_else : ℤ → ℤ → ℤ
or_else n default = if n =z pos 0 then default else n

name_or_id : String → String → String
name_or_id name id = if name =t "" then "vm-" <> id else name

abbrev no_status : VirtualMachineStatus
no_status = record {
  id = "";
  power_state = "";
  ips = [];
  console_url = "";
  conditions = [];
  observed_generation = 0;
  last_task_ref = "";
  provider = [];
  reconfigure_task_ref = "";
  last_reconfigure_time = none;
  current_resources = none;
  phase = "";
}

pub status_of : VmInfo → VirtualMachineStatus → VirtualMachineStatus
status_of info st = record st {
  id = info.id;
  power_state = info.power_state;
  ips = info.ips;
  provider = info.provider_raw;
}

-- The first disk gives the format, and the path where it has one.
imported_disk : VmInfo → List DiskInfo → ImportedDiskRef
imported_disk info [] = record { disk_id = info.id; path = ""; format = "qcow2"; source = "manual" }
imported_disk info (d ∷ ds) = record {
  disk_id = info.id;
  path = d.path;
  format = d.format;
  source = "manual";
}

if_positive : ℤ → Option ℤ
if_positive n = if exceeds n 0 then some n else none

resources_of : VmInfo → Option VirtualMachineResources
unfolding if_positive
resources_of info =
    if exceeds info.cpu 0 || exceeds info.memory_mib 0
    then some (record { cpu = if_positive info.cpu; memory_mib = if_positive info.memory_mib })
    else none

spec_of : Provider → ObjectRef → VmInfo → VirtualMachineSpec
unfolding imported_disk resources_of
spec_of p class info = record {
  provider_ref = record { name = p.name; namespace = p.namespace };
  class_ref = class;
  image_ref = none;
  imported_disk = some (imported_disk info info.disks);
  networks = [];
  disks = [];
  user_data = none;
  meta_data = none;
  placement = none;
  power_state = info.power_state;
  tags = [];
  resources = resources_of info;
}

pub adopted_vm : Provider → String → ObjectRef → VmInfo → VirtualMachine
unfolding spec_of status_of
adopted_vm p name class info = record {
  namespace = p.namespace;
  name = name;
  labels = adopted_label;
  generation = 0;
  deleting = false;
  finalizers = [];
  spec = spec_of p class info;
  status = status_of info no_status;
}

module _ {W : Type 0} (api : Api W) where
  class_name : ℤ → ℤ → String
  class_name cpu memory = "adopted-" <> (decimal cpu <> ("cpu-" <> (decimal memory <> "mb")))

  new_class : String → ℤ → ℤ → VmClass
  unfolding class_name
  new_class namespace cpu memory = record {
    namespace = namespace;
    name = class_name cpu memory;
    labels = adopted_label;
    spec = record {
      cpu = cpu;
      memory = api.parse_quantity (decimal memory <> "Mi");
      firmware = "BIOS";
      disk_defaults = none;
      guest_tools_policy = "";
      extra_config = [];
      resource_limits = none;
      performance_profile = none;
      security_profile = none;
    };
  }

  found_or_created : VmClass → Reply VmClass → Run W Fault VmClass
  found_or_created new (ok class) = pure class
  found_or_created new (fault e) =
      if e.not_found
      then perform (class_created new) (api.create_class new)
        on_error (λ e. stop (wrap "failed to create VMClass: " e))
      else stop (wrap "failed to check for existing VMClass: " e)

  class_for : VmClass → Run W Fault VmClass
  unfolding found_or_created
  class_for new = do
    found ← settle (query (api.get_class new.namespace new.name))
    found_or_created new found

  ensure_vm_class : VmInfo → String → Run W Fault VmClass
  unfolding class_for new_class or_else
  ensure_vm_class info namespace =
      class_for
        (new_class namespace (or_else info.cpu (pos 2)) (or_else info.memory_mib (pos 4096)))

  save_status : VmInfo → VirtualMachine → Run W Fault Unit
  unfolding status_of
  save_status info vm =
      let saved = record vm { status = status_of info vm.status } in
      perform (vm_status_written saved) (api.update_vm_status saved) on_error λ e.
      stop (wrap "failed to update VM status: " e)

  -- An object of the name is left alone, but for an adopted one without an identifier.
  fix_existing : VmInfo → VirtualMachine → Run W Fault Unit
  unfolding save_status
  fix_existing info vm =
      if entry vm.labels "virtrigaud.io/adopted" =t "true"
      then (if vm.status.id =t "" then save_status info vm else pure tt)
      else pure tt

  create_adopted : Provider → String → VmInfo → Run W Fault Unit
  unfolding ensure_vm_class save_status adopted_vm
  create_adopted p name info = do
    class ←
        ensure_vm_class info p.namespace on_error λ e. stop (wrap "failed to ensure VMClass: " e)
    let vm = adopted_vm p name (record { name = class.name; namespace = class.namespace }) info
    created ← perform (vm_created vm) (api.create_vm vm) on_error λ e.
        stop (wrap "failed to create VirtualMachine CR: " e)
    save_status info created

  for_existing : Provider → String → VmInfo → Reply VirtualMachine → Run W Fault Unit
  unfolding fix_existing create_adopted
  for_existing p name info (ok vm) = fix_existing info vm
  for_existing p name info (fault e) =
      if e.not_found
      then create_adopted p name info
      else stop (wrap "failed to check for existing VM: " e)

  adopt_named : Provider → String → VmInfo → Run W Fault Unit
  unfolding for_existing
  adopt_named p name info = do
    existing ← settle (query (api.get_vm p.namespace name))
    for_existing p name info existing

  pub adopt_vm : Provider → VmInfo → Run W Fault Unit
  unfolding adopt_named name_or_id
  adopt_vm p info =
      adopt_named p (name_or_id (sanitize_vm_name (api.to_lower info.name)) info.id) info
