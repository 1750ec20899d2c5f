-- ===== src/Migration/Preparing.antt =====
-- internal/controller/vmmigration_controller.go: the phases before the disk is moved
-- (`handlePendingPhase`, `handleValidatingPhase`, `handleSnapshottingPhase`).
pub mod Edges
use Prim.Native.String.{slice}
use projectbeskar_virtrigaud.Common.{
  String, ◌<>◌, ◌=t◌, Bool, true, false, not, if◌then◌else◌, Option, none, some,
}
use projectbeskar_virtrigaud.Conditions.Condition.{met, unmet}
use projectbeskar_virtrigaud.Controller.{
  Fault, requeue, requeue_after, ◌>>=◌, ◌>>◌, pure, stop, the_object, note, perform, seconds,
}
use projectbeskar_virtrigaud.Migration.Types.{Migration, MigrationPhase, MigrationStorage}
use projectbeskar_virtrigaud.Migration.Cluster.{
  Api, Provider, VirtualMachine, SnapshotCreateRequest, SnapshotCreateResponse, event,
  snapshot_created,
}
use projectbeskar_virtrigaud.Migration.Store.{
  Handler, put_status, enter, record_condition, save, transition_to_failed, ◌or_fail◌,
  get_source_vm, get_provider, provider_of_source, get_provider_instance, is_provider_ready,
}
use projectbeskar_virtrigaud.Migration.Storage.{validate_storage_config, ensure_migration_pvc}
use projectbeskar_virtrigaud.Migration.Waiting.{wait_for_providers_ready}

-- `migration.UID[:8]`; a UID is longer than that.
abbrev uid_prefix : String → String
uid_prefix uid = slice uid 0 8

module _ {W : Type 0} (api : Api W) where
  pub handle_pending_phase : Handler W
  handle_pending_phase = do
    enter MigrationPhase.validating "Starting validation"
    record_condition api "Validating" met "ValidationStarted" "Migration validation started"
    note (event "Normal" "ValidationStarted" "Starting migration validation")
    save api
    stop requeue

  -- Something is not ready: the reason is recorded, and the phase is tried again in 30 seconds.
  not_ready : String → String → Handler W
  not_ready reason message = do
    record_condition api "Validating" unmet reason message
    save api
    stop (requeue_after (seconds 30))

  require : Bool → String → String → Handler W
  unfolding not_ready
  require true reason message = pure tt
  require false reason message = not_ready reason message

  check_config : Option Fault → Handler W
  check_config none = pure tt
  check_config (some e) = transition_to_failed api ("Invalid storage configuration: " <> e.text)

  -- The claim is stored in the status when the status has none yet, and the providers are then
  -- waited for.
  adopt_pvc : String → Bool → Handler W
  adopt_pvc pvc false = pure tt
  adopt_pvc pvc true = do
    put_status (λ st. record st { storage_pvc_name = pvc })
    save api
    ◌or_fail◌ api (wait_for_providers_ready api pvc) "Providers not ready after PVC mount: "

  prepare_storage : Option MigrationStorage → Handler W
  unfolding check_config adopt_pvc
  prepare_storage none = pure tt
  prepare_storage (some s) = do
    check_config (validate_storage_config s)
    pvc ← ◌or_fail◌ api (ensure_migration_pvc api) "Failed to ensure migration PVC: "
    m ← the_object
    adopt_pvc pvc (m.status.storage_pvc_name =t "")

  choose_first_phase : Bool → Handler W
  choose_first_phase true = enter MigrationPhase.snapshotting "Preparing to snapshot source VM"
  choose_first_phase false = enter MigrationPhase.exporting "Preparing to export source VM"

  pub handle_validating_phase : Handler W
  unfolding require prepare_storage choose_first_phase
  handle_validating_phase = do
    vm ← ◌or_fail◌ api (get_source_vm api) "Failed to get source VM: "
    require (not (vm.id =t "")) "SourceVMNotReady" "Source VM is not yet provisioned"
    source ← ◌or_fail◌ api (provider_of_source api vm) "Failed to get source provider: "
    m ← the_object
    target ←
        ◌or_fail◌ api (get_provider api m.spec.target.provider_ref m.namespace)
          "Failed to get target provider: "
    require (is_provider_ready source.conditions) "SourceProviderNotReady"
        "Source provider is not ready"
    require (is_provider_ready target.conditions) "TargetProviderNotReady"
        "Target provider is not ready"
    prepare_storage m.spec.storage
    m' ← the_object
    choose_first_phase m'.spec.source.create_snapshot
    record_condition api "Validating" met "ValidationComplete"
        "Migration validation completed successfully"
    note (event "Normal" "ValidationComplete" "Migration validation completed")
    save api
    stop requeue

  use_existing_snapshot : String → Handler W
  use_existing_snapshot name = do
    put_status (λ st. record st { snapshot_id = name })
    enter MigrationPhase.exporting ("Using existing snapshot " <> name)
    record_condition api "Snapshotting" met "SnapshotSelected" "Using existing snapshot"
    save api
    stop requeue

  -- A snapshot that was started before is taken to be complete.
  snapshot_ready : Handler W
  snapshot_ready = do
    enter MigrationPhase.exporting "Snapshot ready, starting export"
    record_condition api "Snapshotting" met "SnapshotComplete" "Source VM snapshot created"
    note (event "Normal" "SnapshotComplete" "Source VM snapshot created")
    save api
    stop requeue

  snapshot_started : SnapshotCreateResponse → Handler W
  snapshot_started resp =
      if not (resp.task_id =t "")
      then (do
        put_status (λ st. record st { task_ref = resp.task_id })
        save api
        stop (requeue_after (seconds 10)))
      else (do
        enter MigrationPhase.exporting "Snapshot created, starting export"
        put_status (λ st. record st { task_ref = "" })
        record_condition api "Snapshotting" met "SnapshotComplete" "Source VM snapshot created"
        note (event "Normal" "SnapshotComplete" ("Snapshot " <> (resp.snapshot_id <> " created")))
        save api
        stop requeue)

  migration_snapshot : Migration → VirtualMachine → SnapshotCreateRequest
  migration_snapshot m vm = record {
    vm_id = vm.id;
    name_hint = m.spec.source.vm_name <> ("-migration-" <> uid_prefix m.uid);
    description = "Migration snapshot for " <> m.name;
    include_memory = false;
    quiesce = false;
  }

  create_snapshot : Migration → VirtualMachine → Provider → Handler W
  unfolding snapshot_started migration_snapshot
  create_snapshot m vm p = do
    let req = migration_snapshot m vm
    resp ←
        ◌or_fail◌ api (perform (snapshot_created p req) (api.snapshot_create p req))
          "Failed to create snapshot: "
    put_status (λ st. record st {
      snapshot_id = resp.snapshot_id;
      message = "Snapshot " <> (resp.snapshot_id <> " created");
    })
    snapshot_started resp

  take_snapshot : Option String → VirtualMachine → Handler W
  unfolding use_existing_snapshot snapshot_ready create_snapshot
  take_snapshot (some name) vm = use_existing_snapshot name
  take_snapshot none vm = do
    p ← ◌or_fail◌ api (provider_of_source api vm) "Failed to get source provider: "
    ◌or_fail◌ api (get_provider_instance api p) "Failed to get provider instance: "
    m ← the_object
    if not (m.status.snapshot_id =t "") then snapshot_ready else create_snapshot m vm p

  pub handle_snapshotting_phase : Handler W
  unfolding take_snapshot
  handle_snapshotting_phase = do
    vm ← ◌or_fail◌ api (get_source_vm api) "Failed to get source VM: "
    m ← the_object
    take_snapshot m.spec.source.snapshot_ref vm
