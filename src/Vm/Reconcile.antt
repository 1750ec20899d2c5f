-- ===== src/Vm/Reconcile.antt =====
-- internal/controller/virtualmachine_controller.go: one pass over a virtual machine (`Reconcile`,
-- `reconcileVM`).
pub mod Allowed
mod Tests
use projectbeskar_virtrigaud.Common.{String, ◌<>◌, ◌=t◌, has_part, ◌||◌, if◌then◌else◌, List}
use projectbeskar_virtrigaud.Conditions.Condition.{met, unmet}
use projectbeskar_virtrigaud.Controller.{
  Fault, pass, Outcome, requeue, failed, seconds, ◌>>=◌, ◌>>◌, pure, stop, the_object, query,
  ◌on_error◌,
}
use projectbeskar_virtrigaud.Migration.Cluster.{Provider}
use projectbeskar_virtrigaud.Vm.Types.{VirtualMachine, VirtualMachineStatus}
use projectbeskar_virtrigaud.Vm.Contracts.{DescribeResponse}
use projectbeskar_virtrigaud.Vm.Cluster.{
  Api, Call, Run, Handler, Kind, put_status, set_condition, save_and_wait, report,
  get_provider_instance,
}
use projectbeskar_virtrigaud.Vm.Request.{Parts}
use projectbeskar_virtrigaud.Vm.Dependencies.{get_dependencies}
use projectbeskar_virtrigaud.Vm.Resources.{
  needs_reconfigure, update_current_resources, requeue_interval,
}
use projectbeskar_virtrigaud.Vm.Create.{create_vm, adjust_power_state, reconfigure_vm}
use projectbeskar_virtrigaud.Vm.Deletion.{has_finalizer, add_finalizer, handle_deletion}

pub desired_power_state : String → String
desired_power_state s = if s =t "" then "On" else s

pub describe_in : DescribeResponse → VirtualMachineStatus → VirtualMachineStatus
describe_in d st = record st {
  power_state = d.power_state;
  ips = d.ips;
  console_url = d.console_url;
  provider = d.provider_raw;
}

pub finish_reconfigure : VirtualMachine → Parts → VirtualMachineStatus → VirtualMachineStatus
finish_reconfigure vm parts st = record (update_current_resources vm.spec parts.class st) {
  reconfigure_task_ref = "";
  phase = "Running";
}

module _ {W : Type 0} (api : Api W) where
  without_dependencies : VirtualMachine → Fault → {A : Type 0} → Run W Outcome A
  without_dependencies vm e =
      if e.not_found || has_part e.text "not found"
      then (do
        set_condition api Kind.ready unmet "WaitingForDependencies"
            ("Provider " <> (vm.spec.provider_ref.name <> " not found"))
        save_and_wait api (seconds 30))
      else report api Kind.ready unmet "WaitingForDependencies" e.text

  -- A task that is not done yet, or whose state is unknown, ends the pass.
  pub await_task : Provider → Kind → String → String → String → Run W Outcome (Unit {0})
  await_task p kind what progress task = do
    complete ← query (api.is_task_complete p task) on_error λ e.
        report api kind unmet "ProviderError" ("Failed to check " <> (what <> (": " <> e.text)))
    if complete then pure tt else report api kind met "TaskInProgress" progress

  check_last_task : Provider → String → Run W Outcome (Unit {0})
  unfolding await_task
  check_last_task p task = if task =t "" then pure tt else (do
    await_task p Kind.provisioning "task" "Task in progress" task
    put_status (λ st. record st { last_task_ref = "" }))

  check_reconfigure_task : Provider → Parts → VirtualMachine → Run W Outcome (Unit {0})
  unfolding await_task finish_reconfigure
  check_reconfigure_task p parts vm = if vm.status.reconfigure_task_ref =t "" then pure tt else (do
    await_task p Kind.reconfiguring "reconfigure task" "Reconfiguration in progress"
        vm.status.reconfigure_task_ref
    put_status (finish_reconfigure vm parts)
    set_condition api Kind.reconfiguring unmet "ReconcileSuccess" "VM reconfigured successfully")

  -- The virtual machine exists, and is in the desired power state or not.
  pub adjust : Provider → Parts → DescribeResponse → Handler W
  adjust p parts d = do
    put_status (describe_in d)
    vm ← the_object
    if d.power_state =t desired_power_state vm.spec.power_state
        then if needs_reconfigure vm.spec parts.class vm.status
          then reconfigure_vm api p parts
          else (do
            set_condition api Kind.ready met "ReconcileSuccess" "VM is ready"
            set_condition api Kind.provisioning unmet "ReconcileSuccess" "VM provisioned"
            save_and_wait api (requeue_interval d))
        else adjust_power_state api p (desired_power_state vm.spec.power_state)

  pub ensure_exists : Provider → Parts → String → Handler W
  unfolding adjust
  ensure_exists p parts id = if id =t "" then create_vm api p parts else (do
    d ← query (api.describe p id) on_error λ e.
        report api Kind.ready unmet "ProviderError" ("Failed to describe VM: " <> e.text)
    if d.exists
        then adjust p parts d
        else (do put_status (λ st. record st { id = "" }); create_vm api p parts))

  pub reconcile_with : Provider → Parts → Handler W
  unfolding check_last_task check_reconfigure_task ensure_exists
  reconcile_with p parts = do
    resolved ←
        get_provider_instance api p on_error λ e. report api Kind.ready unmet "ProviderError" e.text
    valid ← query (api.validate p) on_error λ e.
        report api Kind.ready unmet "ProviderError" ("Provider validation failed: " <> e.text)
    vm ← the_object
    check_last_task p vm.status.last_task_ref
    vm ← the_object
    check_reconfigure_task p parts vm
    vm ← the_object
    ensure_exists p parts vm.status.id

  pub reconcile_vm : Handler W
  unfolding reconcile_with without_dependencies
  reconcile_vm = do
    vm ← the_object
    put_status (λ st. record st { observed_generation = vm.generation })
    found ← get_dependencies api vm on_error λ e. without_dependencies vm e
    reconcile_with found.provider found.parts

  pub reconcile_object : Handler W
  unfolding reconcile_vm
  reconcile_object = do
    vm ← the_object
    if vm.deleting
        then handle_deletion api
        else if has_finalizer api vm
        then reconcile_vm
        else (do add_finalizer api on_error λ e. stop (failed e); stop requeue)

  pub reconcile : String → String → W → Outcome × W × List Call
  unfolding reconcile_object
  reconcile namespace name w = pass reconcile_object (api.get_vm namespace name w)
