-- ===== src/Vm/Sample.antt =====
-- A small virtual machine, and a world where every call of the controller succeeds at once, for the
-- tests of the VirtualMachine controller.
use projectbeskar_virtrigaud.Common.{
  pos, ◌^◌, String, ◌=t◌, Bool, true, false, none, some, List, [], ◌∷◌,
}
use projectbeskar_virtrigaud.Controller.{plain, ok, fault}
use projectbeskar_virtrigaud.Migration.Cluster.{Provider}
use projectbeskar_virtrigaud.Vm.Types.{
  VirtualMachine, VirtualMachineSpec, VirtualMachineStatus, VmClassSpec, ImageSource,
}
use projectbeskar_virtrigaud.Vm.Cluster.{Api}
use projectbeskar_virtrigaud.Vm.Deletion.{finalizer_name}

abbrev pub provider : Provider
provider = record { namespace = "default"; name = "kvm"; annotations = []; conditions = [] }

abbrev pub class : VmClassSpec
class = record {
  cpu = pos 2;
  memory = pos (2 ^ 32);
  firmware = "UEFI";
  disk_defaults = none;
  guest_tools_policy = "install";
  extra_config = [];
  resource_limits = none;
  performance_profile = none;
  security_profile = none;
}

abbrev pub image : ImageSource
image = record {
  vsphere = none;
  libvirt = some (record {
    path = "/images/base.qcow2";
    url = "";
    format = "qcow2";
    checksum = "";
    checksum_type = "";
  });
  proxmox = none;
}

abbrev pub fresh_status : VirtualMachineStatus
fresh_status = record {
  id = "";
  power_state = "";
  ips = [];
  console_url = "";
  conditions = [];
  observed_generation = 0;
  last_task_ref = "";
  provider = [];
  reconfigure_task_ref = "";
  last_reconfigure_time = none;
  current_resources = none;
  phase = "";
}

abbrev pub spec : VirtualMachineSpec
spec = record {
  provider_ref = record { name = "kvm"; namespace = "" };
  class_ref = record { name = "small"; namespace = "" };
  image_ref = some (record { name = "base"; namespace = "" });
  imported_disk = none;
  networks = [];
  disks = [];
  user_data = none;
  meta_data = none;
  placement = none;
  power_state = "";
  tags = [];
  resources = none;
}

abbrev pub fresh : VirtualMachine
fresh = record {
  namespace = "default";
  name = "web";
  generation = 1;
  labels = [];
  deleting = false;
  finalizers = finalizer_name ∷ [];
  spec = spec;
  status = fresh_status;
}

has_name : String → List String → Bool
has_name f [] = false
has_name f (g ∷ gs) = g =t f

-- A world where everything succeeds at once.
abbrev pub api : Api Unit
unfolding has_name
api = record {
  now = λ w. (7, w);
  has_finalizer = has_name;
  with_finalizer = λ f fs. f ∷ fs;
  without_finalizer = λ f fs. [];
  get_vm = λ ns n w. (ok fresh, w);
  get_provider = λ ns n w. (ok provider, w);
  get_class = λ ns n w. (ok class, w);
  get_image = λ ns n w. (ok image, w);
  get_network = λ ns n w. (fault (plain "no network"), w);
  get_secret = λ ns n w. (fault (plain "no secret"), w);
  update_status = λ o w. (ok tt, w);
  update = λ o w. (ok tt, w);
  resolver = some (λ p w. (ok tt, w));
  validate = λ p w. (ok tt, w);
  is_task_complete = λ p t w. (ok true, w);
  create = λ p r w. (ok (record { id = "vm-1"; task_ref = "" }), w);
  describe = λ p id w. (
    ok (record {
      exists = true;
      power_state = "On";
      ips = [];
      console_url = "";
      provider_raw = [];
    }),
    w,
  );
  delete = λ p id w. (ok "", w);
  power = λ p id op w. (ok "", w);
  reconfigure = λ p id r w. (ok "", w);
}
