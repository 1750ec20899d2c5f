-- ===== src/Snapshot/Cluster.antt =====
-- What internal/controller/vmsnapshot_controller.go calls: the API server, the finalizer helpers of
-- controller-runtime, the resolver and the providers, and the clock, as an interface over a world
-- `W`.
pub mod Rules
use projectbeskar_virtrigaud.Common.{ℕ, String, Bool, Option, none, some, List}
use projectbeskar_virtrigaud.Conditions.Condition.{Status}
use projectbeskar_virtrigaud.Conditions.Util as Util
use projectbeskar_virtrigaud.Controller.{
  Fault, plain, Reply, Outcome, Proc, ◌>>=◌, pure, stop, modify, ask, query, perform_object, settle,
}
use projectbeskar_virtrigaud.Migration.Cluster.{
  Provider, SnapshotCreateRequest, SnapshotCreateResponse,
}
use projectbeskar_virtrigaud.Vm.Types.{VirtualMachine}
use projectbeskar_virtrigaud.Vm.Dependencies.{namespace_of}
use projectbeskar_virtrigaud.Snapshot.Types.{VmSnapshot, VmSnapshotStatus}

-- The calls that change something outside the controller, and the events that it records.
pub data Call : Type 0 where
  status_written object_written object_deleted : VmSnapshot → Call
  snapshot_created : Provider → SnapshotCreateRequest → Call
  snapshot_deleted : Provider → String → String → Call
  event : String → String → String → Call

-- `TaskStatus` of the provider contract.
pub record TaskStatus : Type 0 where
  pub is_completed : Bool
  pub error : String

-- Objects are read by namespace and name. `resolver` is none where the controller has no resolver.
pub record Api (W : Type 0) : Type 0 where
  pub now : W → ℕ × W
  pub has_finalizer : String → List String → Bool
  pub with_finalizer : String → List String → List String
  pub without_finalizer : String → List String → List String
  pub get_snapshot : String → String → W → Reply VmSnapshot × W
  pub get_vm : String → String → W → Reply VirtualMachine × W
  pub get_provider : String → String → W → Reply Provider × W
  pub update_status : VmSnapshot → W → Reply Unit × W
  pub update : VmSnapshot → W → Reply Unit × W
  pub delete : VmSnapshot → W → Reply Unit × W
  pub resolver : Option (Provider → W → Reply Unit × W)
  pub snapshot_create : Provider → SnapshotCreateRequest → W → Reply SnapshotCreateResponse × W
  pub snapshot_delete : Provider → String → String → W → Reply String × W
  pub task_status : Provider → String → W → Reply TaskStatus × W

-- Code of the controller that ends early with an `E`, and a handler of it.
abbrev pub Run : Type 0 → Type 0 → Type 0 → Type 0
Run W E A = Proc VmSnapshot Call W E A

abbrev pub Handler : Type 0 → Type 0
Handler W = Run W Outcome (Unit {0})

unfoldable pub put_status :
    {W E : Type 0} → (VmSnapshotStatus → VmSnapshotStatus) → Run W E (Unit {0})
put_status f = modify (λ o. record o { status = f o.status })

module _ {W : Type 0} (api : Api W) where
  -- `k8s.SetCondition(&snapshot.Status.Conditions, …)`.
  unfoldable pub set_condition :
      {E : Type 0} → String → Status → String → String → Run W E (Unit {0})
  set_condition kind s reason message = do
    now ← ask api.now
    put_status (λ st. record st {
      conditions = Util.set_condition now kind s reason message st.conditions;
    })

  unfoldable pub update_status : Run W Fault Unit
  update_status = perform_object status_written api.update_status

  -- `_ = r.updateStatus(ctx, snapshot)`.
  unfoldable pub try_update_status : {E : Type 0} → Run W E (Unit {0})
  unfolding update_status
  try_update_status = do r ← settle update_status; pure tt

  -- The provider of a virtual machine.
  unfoldable pub get_provider : VirtualMachine → Run W Fault Provider
  get_provider vm =
      query (
        api.get_provider (namespace_of vm.namespace vm.spec.provider_ref) vm.spec.provider_ref.name)

  resolve_with : Option (Provider → W → Reply Unit × W) → Provider → Run W Fault Unit
  resolve_with none p = stop (plain "no remote resolver available")
  resolve_with (some resolve) p = query (resolve p)

  pub get_provider_instance : Provider → Run W Fault Unit
  unfolding resolve_with
  get_provider_instance p = resolve_with api.resolver p
