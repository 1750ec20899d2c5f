-- ===== src/Adoption/Types.antt =====
-- What internal/controller/vmadoption_controller.go works on: the provider
-- (api/infra.virtrigaud.io/v1beta1/provider_types.go), what a provider lists
-- (internal/providers/contracts/provider.go), the filter, and the calls of the controller.
use projectbeskar_virtrigaud.Common.{ℕ, ℤ, String, ◌=t◌, Bool, if◌then◌else◌, Option, List, [], ◌∷◌}
use projectbeskar_virtrigaud.Conditions.Condition.{Condition}
use projectbeskar_virtrigaud.Controller.{Fault, Reply, Outcome, Proc}
use projectbeskar_virtrigaud.Vm.Types.{VirtualMachine, VmClassSpec}

pub record DiskInfo : Type 0 where
  pub path : String
  pub format : String

pub record VmInfo : Type 0 where
  pub id : String
  pub name : String
  pub power_state : String
  pub ips : List String
  pub cpu : ℤ
  pub memory_mib : ℤ
  pub disks : List DiskInfo
  pub provider_raw : List (String × String)

pub record VmAdoptionFilter : Type 0 where
  pub name_pattern : String
  pub power_state : String
  pub min_cpu : ℤ
  pub max_cpu : ℤ
  pub min_memory_mib : ℤ
  pub max_memory_mib : ℤ

pub record ProviderAdoptionStatus : Type 0 where
  pub last_discovery_time : Option ℕ
  pub discovered_vms : ℤ
  pub adopted_vms : ℤ
  pub failed_adoptions : ℤ
  pub message : String

pub record Provider : Type 0 where
  pub namespace : String
  pub name : String
  pub generation : ℕ
  pub annotations : List (String × String)
  pub conditions : List Condition
  pub adoption : Option ProviderAdoptionStatus

pub record VmClass : Type 0 where
  pub namespace : String
  pub name : String
  pub labels : List (String × String)
  pub spec : VmClassSpec

-- A read of a Go map of texts: "" where the key is missing.
pub entry : List (String × String) → String → String
entry [] key = ""
entry ((k, v) ∷ kvs) key = if k =t key then v else entry kvs key

-- The calls that change something outside the controller.
pub data Call : Type 0 where
  provider_status_written : Provider → Call
  class_created : VmClass → Call
  vm_created vm_status_written : VirtualMachine → Call

-- The API server, the resolver and the providers, the clock, and of the libraries: `strings.ToLower` and
-- `TrimSpace`, `json.Unmarshal` of a filter, `regexp.Compile` (its error) and `MatchString`, and the value
-- of `resource.MustParse`. A creation answers the object as the server keeps it.
pub record Api (W : Type 0) : Type 0 where
  pub now : W → ℕ × W
  pub get_vm : String → String → W → Reply VirtualMachine × W
  pub list_vms : W → Reply (List VirtualMachine) × W
  pub create_vm : VirtualMachine → W → Reply VirtualMachine × W
  pub update_vm_status : VirtualMachine → W → Reply Unit × W
  pub get_class : String → String → W → Reply VmClass × W
  pub create_class : VmClass → W → Reply VmClass × W
  pub update_status : Provider → W → Reply Unit × W
  pub resolver : Option (Provider → W → Reply Unit × W)
  pub provider_vms : Provider → W → Reply (List VmInfo) × W
  pub to_lower : String → String
  pub trim_space : String → String
  pub parse_filter : String → Reply VmAdoptionFilter
  pub compile_error : String → Option Fault
  pub match_string : String → String → Reply Bool
  pub parse_quantity : String → ℤ

-- Code of the controller that ends early with an `E`, and a handler of it.
abbrev pub Run : Type 0 → Type 0 → Type 0 → Type 0
Run W E A = Proc Provider Call W E A

abbrev pub Handler : Type 0 → Type 0
Handler W = Run W Outcome (Unit {0})
