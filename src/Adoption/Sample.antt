-- ===== src/Adoption/Sample.antt =====
-- A provider with two machines, one of them known, and a world where every call of the controller
-- succeeds, for the tests.
use projectbeskar_virtrigaud.Common.{pos, none, some, [], ◌∷◌, true}
use projectbeskar_virtrigaud.Conditions.Condition.{met}
use projectbeskar_virtrigaud.Controller.{plain, ok, fault}
use projectbeskar_virtrigaud.Vm.Types.{VirtualMachine}
use projectbeskar_virtrigaud.Vm.Sample.{fresh, fresh_status}
use projectbeskar_virtrigaud.Adoption.Types.{VmInfo, Provider, Api}

abbrev pub provider : Provider
provider = record {
  namespace = "default";
  name = "kvm";
  generation = 1;
  annotations = ("virtrigaud.io/adopt-vms", "true") ∷ [];
  conditions =
      record {
        kind = "ProviderAvailable";
        status = met;
        reason = "";
        message = "";
        last_transition_time = 0;
        observed_generation = 1;
      }
      ∷ [];
  adoption = none;
}

abbrev pub web : VmInfo
web = record {
  id = "vm-1";
  name = "Web_1";
  power_state = "On";
  ips = [];
  cpu = pos 2;
  memory_mib = pos 2048;
  disks = [];
  provider_raw = [];
}

abbrev pub database : VmInfo
database = record web { id = "vm-2"; name = "db" }

abbrev pub known_vm : VirtualMachine
known_vm = record fresh { status = record fresh_status { id = "vm-2" } }

abbrev pub api : Api Unit
api = record {
  now = λ w. (7, w);
  get_vm = λ ns n w. (fault (record (plain "no object") { not_found = true }), w);
  list_vms = λ w. (ok (known_vm ∷ []), w);
  create_vm = λ vm w. (ok vm, w);
  update_vm_status = λ vm w. (ok tt, w);
  get_class = λ ns n w. (fault (record (plain "no class") { not_found = true }), w);
  create_class = λ c w. (ok c, w);
  update_status = λ p w. (ok tt, w);
  resolver = some (λ p w. (ok tt, w));
  provider_vms = λ p w. (ok (database ∷ web ∷ []), w);
  to_lower = λ s. s;
  trim_space = λ s. s;
  parse_filter = λ s. fault (plain "no JSON");
  compile_error = λ s. none;
  match_string = λ s t. ok true;
  parse_quantity = λ s. pos 0;
}
