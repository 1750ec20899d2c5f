-- ===== src/Vm/Cluster.antt =====
-- What internal/controller/virtualmachine_controller.go calls: the API server, the finalizer helpers
-- of controller-runtime, the resolver and the providers, and the clock, as an interface over a world
-- `W`.
pub mod Rules
use projectbeskar_virtrigaud.Common.{ℕ, String, Bool, Option, none, some, List}
use projectbeskar_virtrigaud.Conditions.Condition.{Status}
use projectbeskar_virtrigaud.Conditions.Api.{
  set_ready_condition, set_provisioning_condition, set_reconfiguring_condition,
}
use projectbeskar_virtrigaud.Controller.{
  Fault, plain, Reply, Outcome, requeue_after, seconds, Proc, ◌>>=◌, ◌>>◌, pure, stop, modify, ask,
  query, perform_object, settle,
}
use projectbeskar_virtrigaud.Migration.Cluster.{Provider}
use projectbeskar_virtrigaud.Vm.Types.{
  VirtualMachine, VirtualMachineStatus, VmClassSpec, ImageSource, NetworkConfig,
}
use projectbeskar_virtrigaud.Vm.Contracts.{PowerOp, CreateRequest, CreateResponse, DescribeResponse}

-- The calls that change something outside the controller.
pub data Call : Type 0 where
  status_written object_written : VirtualMachine → Call
  vm_created : Provider → CreateRequest → Call
  vm_deleted : Provider → String → Call
  power_set : Provider → String → PowerOp → Call
  reconfigured : Provider → String → CreateRequest → Call

-- Objects are read by namespace and name. Of a class only the specification is used, of an image its
-- sources, of a network its configuration, of a secret its data. `resolver` is none where the
-- controller has no resolver. A task reference is "" where the operation is done.
pub record Api (W : Type 0) : Type 0 where
  pub now : W → ℕ × W
  pub has_finalizer : String → List String → Bool
  pub with_finalizer : String → List String → List String
  pub without_finalizer : String → List String → List String
  pub get_vm : String → String → W → Reply VirtualMachine × W
  pub get_provider : String → String → W → Reply Provider × W
  pub get_class : String → String → W → Reply VmClassSpec × W
  pub get_image : String → String → W → Reply ImageSource × W
  pub get_network : String → String → W → Reply NetworkConfig × W
  pub get_secret : String → String → W → Reply (List (String × String)) × W
  pub update_status : VirtualMachine → W → Reply Unit × W
  pub update : VirtualMachine → W → Reply Unit × W
  pub resolver : Option (Provider → W → Reply Unit × W)
  pub validate : Provider → W → Reply Unit × W
  pub is_task_complete : Provider → String → W → Reply Bool × W
  pub create : Provider → CreateRequest → W → Reply CreateResponse × W
  pub describe : Provider → String → W → Reply DescribeResponse × W
  pub delete : Provider → String → W → Reply String × W
  pub power : Provider → String → PowerOp → W → Reply String × W
  pub reconfigure : Provider → String → CreateRequest → W → Reply String × W

-- Code of the controller that ends early with an `E`, and a handler of it.
abbrev pub Run : Type 0 → Type 0 → Type 0 → Type 0
Run W E A = Proc VirtualMachine Call W E A

abbrev pub Handler : Type 0 → Type 0
Handler W = Run W Outcome (Unit {0})

abbrev pub set_status :
    (VirtualMachineStatus → VirtualMachineStatus) → VirtualMachine → VirtualMachine
set_status f vm = record vm { status = f vm.status }

unfoldable pub put_status :
    {W E : Type 0} → (VirtualMachineStatus → VirtualMachineStatus) → Run W E (Unit {0})
put_status f = modify (set_status f)

-- The setters of internal/k8s/conditions.go that the controller calls.
pub data Kind : Type 0 where
  ready provisioning reconfiguring : Kind

pub edit : Kind → ℕ → Status → String → String → VirtualMachineStatus → VirtualMachineStatus
edit ready now s reason message st = record st {
  conditions = set_ready_condition now s reason message st.conditions;
}
edit provisioning now s reason message st = record st {
  conditions = set_provisioning_condition now s reason message st.conditions;
}
edit reconfiguring now s reason message st = record st {
  conditions = set_reconfiguring_condition now s reason message st.conditions;
}

module _ {W : Type 0} (api : Api W) where
  unfoldable pub set_condition : {E : Type 0} → Kind → Status → String → String → Run W E (Unit {0})
  set_condition kind s reason message = do
    now ← ask api.now
    put_status (edit kind now s reason message)

  -- An error of the write is only logged.
  unfoldable pub update_status : {E : Type 0} → Run W E (Unit {0})
  update_status = do r ← settle (perform_object status_written api.update_status); pure tt

  -- `r.updateStatus(ctx, vm)` and `return ctrl.Result{RequeueAfter: d}, nil`.
  unfoldable pub save_and_wait : {A : Type 0} → ℕ → Run W Outcome A
  unfolding update_status
  save_and_wait d = do update_status; stop (requeue_after d)

  -- A condition is set, the status is written, and the next pass is due in 5 seconds.
  unfoldable pub report : {A : Type 0} → Kind → Status → String → String → Run W Outcome A
  unfolding set_condition save_and_wait
  report kind s reason message = do set_condition kind s reason message; save_and_wait (seconds 5)

  resolve_with : Option (Provider → W → Reply Unit × W) → Provider → Run W Fault Unit
  resolve_with none p = stop (plain "no remote resolver available")
  resolve_with (some resolve) p = query (resolve p)

  pub get_provider_instance : Provider → Run W Fault Unit
  unfolding resolve_with
  get_provider_instance p = resolve_with api.resolver p
