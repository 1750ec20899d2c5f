-- ===== src/Vm/Resources.antt =====
-- internal/controller/virtualmachine_controller.go: the resources that a virtual machine should have
-- and those that its status records (`needsReconfigure`, `getCurrentCPU`, `getCurrentMemoryMiB`,
-- `updateCurrentResources`), and the polling intervals (`getRequeueInterval`).
pub mod Laws
mod Tests
use projectbeskar_virtrigaud.Common.{
  ℕ, ℤ, pos, quot, ◌=z◌, ◌=t◌, Bool, false, not, ◌&&◌, ◌||◌, if◌then◌else◌, Option, none, some,
  String, List, [], ◌∷◌,
}
use projectbeskar_virtrigaud.Controller.{seconds}
use projectbeskar_virtrigaud.Vm.Types.{
  VirtualMachineSpec, VirtualMachineStatus, VirtualMachineResources, VmClassSpec,
}
use projectbeskar_virtrigaud.Vm.Contracts.{DescribeResponse}
use projectbeskar_virtrigaud.Vm.Request.Class.{mebibyte}

-- An override of the specification, or the value of the class.
override : (VirtualMachineResources → Option ℤ) → Option VirtualMachineResources → ℤ → ℤ
override field none v = v
override field (some r) v = elim (field r) [ none ↦ v | some w ↦ w ]

pub desired_cpu : VirtualMachineSpec → VmClassSpec → ℤ
unfolding override
desired_cpu spec class = override VirtualMachineResources.cpu spec.resources class.cpu

pub desired_memory_mib : VirtualMachineSpec → VmClassSpec → ℤ
unfolding override
desired_memory_mib spec class =
    override VirtualMachineResources.memory_mib spec.resources (quot class.memory mebibyte)

pub current_cpu : VirtualMachineStatus → ℤ
unfolding override
current_cpu st = override VirtualMachineResources.cpu st.current_resources (pos 0)

pub current_memory_mib : VirtualMachineStatus → ℤ
unfolding override
current_memory_mib st = override VirtualMachineResources.memory_mib st.current_resources (pos 0)

pub needs_reconfigure : VirtualMachineSpec → VmClassSpec → VirtualMachineStatus → Bool
needs_reconfigure spec class st =
    if (current_cpu st =z pos 0) && (current_memory_mib st =z pos 0)
    then false
    else not (current_cpu st =z desired_cpu spec class)
      || not (current_memory_mib st =z desired_memory_mib spec class)

pub update_current_resources :
    VirtualMachineSpec → VmClassSpec → VirtualMachineStatus → VirtualMachineStatus
update_current_resources spec class st = record st {
  current_resources = some (record {
    cpu = some (desired_cpu spec class);
    memory_mib = some (desired_memory_mib spec class);
  });
}

-- Waiting for an address and a state in between are polled alike.
running_interval : List String → ℕ
running_interval [] = seconds 10
running_interval (ip ∷ ips) = seconds 120

pub requeue_interval : DescribeResponse → ℕ
unfolding running_interval
requeue_interval d =
    if d.power_state =t "poweredOn"
    then running_interval d.ips
    else if d.power_state =t "poweredOff"
    then seconds 300
    else if d.power_state =t "suspended"
    then seconds 120
    else seconds 10
