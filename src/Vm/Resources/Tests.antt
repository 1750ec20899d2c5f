-- ===== src/Vm/Resources/Tests.antt =====
-- A virtual machine with an override of its CPUs.
use projectbeskar_virtrigaud.Common.{pos, true, none, some, ◌≡◌, ◌≢◌, ◌↔◌, refl}
use projectbeskar_virtrigaud.Vm.Types.{VirtualMachineSpec}
use projectbeskar_virtrigaud.Vm.Resources.{
  current_cpu, desired_cpu, needs_reconfigure, update_current_resources,
}
use projectbeskar_virtrigaud.Vm.Resources.Laws.{
  desired, nothing_recorded, needs_reconfigure-update_current_resources,
}
use projectbeskar_virtrigaud.Vm.Sample.{class, fresh_status, spec}

abbrev larger : VirtualMachineSpec
larger = record spec { resources = some (record { cpu = some (pos 8); memory_mib = none }) }

needs_reconfigure-update_current_resources_example :
    (needs_reconfigure larger class (update_current_resources spec class fresh_status) ≡ true)
    ↔ ((desired spec class ≢ nothing_recorded) × (desired spec class ≢ desired larger class))
needs_reconfigure-update_current_resources_example =
    needs_reconfigure-update_current_resources spec larger class class fresh_status

resized : needs_reconfigure larger class (update_current_resources spec class fresh_status) ≡ true
unfolding needs_reconfigure update_current_resources current_cpu desired_cpu
resized = refl
