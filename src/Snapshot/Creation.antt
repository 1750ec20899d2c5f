-- ===== src/Snapshot/Creation.antt =====
-- internal/controller/vmsnapshot_controller.go: the creation of a snapshot (`createSnapshot`,
-- `checkSnapshotCreation`, `buildSnapshotCreateRequest`).
pub mod Rules
use projectbeskar_virtrigaud.Common.{
  ℕ, String, ◌<>◌, ◌=t◌, true, false, if◌then◌else◌, Option, none, some,
}
use projectbeskar_virtrigaud.Conditions.Condition.{met, unmet}
use projectbeskar_virtrigaud.Controller.{
  Fault, Outcome, finished, requeue_after, failed, seconds, ◌>>=◌, ◌>>◌, stop, the_object, ask,
  note, query, perform, ◌on_error◌,
}
use projectbeskar_virtrigaud.Migration.Cluster.{SnapshotCreateRequest, SnapshotCreateResponse}
use projectbeskar_virtrigaud.Vm.Types.{VirtualMachine}
use projectbeskar_virtrigaud.Snapshot.Types.{
  VmSnapshot, VmSnapshotStatus, SnapshotConfig, SnapshotPhase,
}
use projectbeskar_virtrigaud.Snapshot.Cluster.{
  Api, Run, Handler, TaskStatus, snapshot_created, event, put_status, set_condition, update_status,
  try_update_status, get_provider, get_provider_instance,
}

with_config : String → String → Option SnapshotConfig → SnapshotCreateRequest
with_config vm_id name none = record {
  vm_id = vm_id;
  name_hint = name;
  description = "";
  include_memory = false;
  quiesce = true;
}
with_config vm_id name (some c) = record {
  vm_id = vm_id;
  name_hint = if c.name =t "" then name else c.name;
  description = c.description;
  include_memory = c.include_memory;
  quiesce = c.quiesce;
}

pub build_snapshot_create_request : VmSnapshot → VirtualMachine → SnapshotCreateRequest
unfolding with_config
build_snapshot_create_request s vm = with_config vm.status.id s.name s.spec.snapshot_config

-- `Status.Phase`, `Status.Message` and `Status.TaskRef` of a creation that ended.
pub ended_with : SnapshotPhase → String → VmSnapshotStatus → VmSnapshotStatus
ended_with p message st = record st { phase = p; message = message; task_ref = "" }

pub start_creating : VmSnapshotStatus → VmSnapshotStatus
start_creating st = record st { phase = SnapshotPhase.creating; message = "Creating snapshot" }

pub record_response : SnapshotCreateResponse → ℕ → VmSnapshotStatus → VmSnapshotStatus
record_response resp now st = record st { snapshot_id = resp.snapshot_id; creation_time = some now }

module _ {W : Type 0} (api : Api W) where
  -- The status and the conditions of a snapshot that is there.
  become_ready : {E : Type 0} → Run W E (Unit {0})
  unfolding ended_with
  become_ready = do
    put_status (ended_with SnapshotPhase.ready "Snapshot created successfully")
    set_condition api "Ready" met "Created" "Snapshot created successfully"
    set_condition api "Creating" unmet "Created" "Snapshot creation completed"
    note (event "Normal" "SnapshotReady" "Snapshot created successfully")

  -- The task of a creation has failed.
  task_failed : {E : Type 0} → String → Run W E (Unit {0})
  unfolding ended_with
  task_failed error = do
    put_status (ended_with SnapshotPhase.failed ("Snapshot creation failed: " <> error))
    set_condition api "Ready" unmet "ProviderError" ("Snapshot creation failed: " <> error)
    set_condition api "Creating" unmet "ProviderError" "Snapshot creation failed"
    note (event "Warning" "SnapshotFailed" ("Snapshot creation failed: " <> error))

  save : Run W Outcome Unit
  save = update_status api on_error λ e. stop (failed e)

  -- The provider cannot be reached: the phase Creating is saved all the same.
  unreachable : {A : Type 0} → String → Run W Outcome A
  unreachable message = do
    set_condition api "Ready" unmet "ProviderError" message
    try_update_status api
    stop (requeue_after (seconds 30))

  creation_failed : {A : Type 0} → Fault → Run W Outcome A
  creation_failed e = do
    put_status (λ st. record st {
      phase = SnapshotPhase.failed;
      message = "Failed to create snapshot: " <> e.text;
    })
    set_condition api "Ready" unmet "ProviderError" ("Snapshot creation failed: " <> e.text)
    set_condition api "Creating" unmet "ProviderError" ("Snapshot creation failed: " <> e.text)
    note (event "Warning" "SnapshotFailed" ("Failed to create snapshot: " <> e.text))
    try_update_status api
    stop (requeue_after (seconds 300))

  track : String → Run W Outcome (Unit {0})
  unfolding become_ready
  track task_id =
      if task_id =t "" then become_ready else put_status (λ st. record st { task_ref = task_id })

  pub create_snapshot : VirtualMachine → Handler W
  unfolding start_creating unreachable creation_failed record_response track save
  create_snapshot vm = do
    put_status start_creating
    set_condition api "Creating" met "Creating" "Snapshot creation initiated"
    p ← get_provider api vm on_error λ e. unreachable ("Failed to get provider: " <> e.text)
    resolved ← get_provider_instance api p on_error λ e.
        unreachable ("Failed to get provider instance: " <> e.text)
    s ← the_object
    let req = build_snapshot_create_request s vm
    resp ← perform (snapshot_created p req) (api.snapshot_create p req) on_error creation_failed
    now ← ask api.now
    put_status (record_response resp now)
    track resp.task_id
    written ← save
    s ← the_object
    if s.status.task_ref =t "" then stop finished else stop (requeue_after (seconds 10))

  finish_task : TaskStatus → Handler W
  unfolding task_failed become_ready save
  finish_task t =
      if t.is_completed
      then (do
        if t.error =t "" then become_ready else task_failed t.error
        written ← save
        stop finished)
      else stop (requeue_after (seconds 10))

  pub check_snapshot_creation : VirtualMachine → Handler W
  unfolding finish_task
  check_snapshot_creation vm = do
    s ← the_object
    if s.status.task_ref =t "" then (do become_ready; written ← save; stop finished) else (do
      p ← get_provider api vm on_error λ e. stop (requeue_after (seconds 30))
      resolved ← get_provider_instance api p on_error λ e. stop (requeue_after (seconds 30))
      t ← query (api.task_status p s.status.task_ref) on_error λ e.
          stop (requeue_after (seconds 10))
      finish_task t)
