-- ===== src/Vm/Create.antt =====
-- internal/controller/virtualmachine_controller.go: the calls of the provider that change a virtual
-- machine (`createVM`, `adjustPowerState`, `reconfigureVM`).
pub mod Rules
use projectbeskar_virtrigaud.Common.{
  String, ◌<>◌, ◌=t◌, not, ◌&&◌, if◌then◌else◌, Option, none, some, is_some,
}
use projectbeskar_virtrigaud.Conditions.Condition.{met, unmet}
use projectbeskar_virtrigaud.Controller.{
  Fault, plain, Outcome, requeue_after, failed, seconds, ◌>>=◌, ◌>>◌, pure, stop, the_object, ask,
  perform, ◌on_error◌,
}
use projectbeskar_virtrigaud.Migration.Cluster.{Provider}
use projectbeskar_virtrigaud.Vm.Types.{VirtualMachineSpec, VirtualMachineStatus}
use projectbeskar_virtrigaud.Vm.Contracts.{PowerOp, CreateResponse}
use projectbeskar_virtrigaud.Vm.Cluster.{
  Api, Run, Handler, Kind, vm_created, power_set, reconfigured, put_status, set_condition,
  update_status, save_and_wait, report,
}
use projectbeskar_virtrigaud.Vm.Request.{Parts, build_create_request}
use projectbeskar_virtrigaud.Vm.Resources.{update_current_resources}

pub power_op : String → Option PowerOp
power_op s =
    if s =t "On"
    then some PowerOp.on
    else if s =t "Off"
    then some PowerOp.off
    else if s =t "OffGraceful"
    then some PowerOp.shutdown_graceful
    else none

abbrev pub no_source : Fault
no_source = plain "either imageRef or importedDisk must be specified"

abbrev pub two_sources : Fault
two_sources = plain "imageRef and importedDisk are mutually exclusive"

-- What is wrong with the sources of the disk, if anything.
pub source_error : VirtualMachineSpec → Option Fault
source_error spec =
    if not (is_some spec.image_ref) && not (is_some spec.imported_disk)
    then some no_source
    else if is_some spec.image_ref && is_some spec.imported_disk
    then some two_sources
    else none

pub record_created :
    VirtualMachineSpec → Parts → CreateResponse → VirtualMachineStatus → VirtualMachineStatus
record_created spec parts resp st =
    update_current_resources spec parts.class (record st { id = resp.id })

module _ {W : Type 0} (api : Api W) where
  refuse : Option Fault → Run W Outcome (Unit {0})
  refuse none = pure tt
  refuse (some e) = do
    set_condition api Kind.provisioning unmet "ProviderError" e.text
    update_status api
    stop (failed e)

  pub create_vm : Provider → Parts → Handler W
  unfolding refuse source_error record_created
  create_vm p parts = do
    vm ← the_object
    refuse (source_error vm.spec)
    req ← build_create_request api parts on_error λ e.
        report api Kind.provisioning unmet "ProviderError"
          ("Failed to build create request: " <> e.text)
    resp ← perform (vm_created p req) (api.create p req) on_error λ e.
        report api Kind.provisioning unmet "ProviderError" ("Failed to create VM: " <> e.text)
    put_status (record_created vm.spec parts resp)
    if resp.task_ref =t ""
        then report api Kind.provisioning unmet "ReconcileSuccess" "VM created"
        else (do
          put_status (λ st. record st { last_task_ref = resp.task_ref })
          report api Kind.provisioning met "Creating" "VM creation initiated")

  set_power : Provider → Option PowerOp → Handler W
  set_power p none = stop (requeue_after (seconds 5))
  set_power p (some op) = do
    vm ← the_object
    task ← perform (power_set p vm.status.id op) (api.power p vm.status.id op) on_error λ e.
        report api Kind.ready unmet "ProviderError" ("Failed to adjust power state: " <> e.text)
    if task =t "" then save_and_wait api (seconds 5) else (do
      put_status (λ st. record st { last_task_ref = task })
      report api Kind.reconfiguring met "Updating" "Adjusting power state")

  pub adjust_power_state : Provider → String → Handler W
  unfolding set_power power_op
  adjust_power_state p desired = set_power p (power_op desired)

  pub reconfigure_vm : Provider → Parts → Handler W
  reconfigure_vm p parts = do
    req ← build_create_request api parts on_error λ e. stop (failed e)
    vm ← the_object
    task ←
        perform (reconfigured p vm.status.id req) (api.reconfigure p vm.status.id req) on_error λ e.
        report api Kind.reconfiguring unmet "ProviderError" ("Failed to reconfigure VM: " <> e.text)
    now ← ask api.now
    put_status (λ st. record st { phase = "Reconfiguring"; last_reconfigure_time = some now })
    if task =t ""
        then (do
          put_status
              (λ st. record (update_current_resources vm.spec parts.class st) { phase = "Running" })
          set_condition api Kind.reconfiguring unmet "ReconcileSuccess"
              "VM reconfigured successfully"
          report api Kind.ready met "ReconcileSuccess" "VM is ready")
        else (do
          put_status (λ st. record st { reconfigure_task_ref = task })
          report api Kind.reconfiguring met "Updating" "VM reconfiguration in progress")
