-- ===== src/Migration/Preparing/Edges.antt =====
-- internal/controller/vmmigration_controller.go: the edges that the phases before the move take.
use projectbeskar_virtrigaud.Common.{String, Option, none, some, Bool, true, false}
use projectbeskar_virtrigaud.Controller.{Fault}
use projectbeskar_virtrigaud.Controller.Keeps.{
  Keeps-stop, Keeps-pure, Keeps-the_object, Keeps-if, ◌and_then◌,
}
use projectbeskar_virtrigaud.Migration.Types.{Migration, MigrationPhase, MigrationStorage}
use projectbeskar_virtrigaud.Migration.Edges.{
  started, to_snapshot, to_export, snapshotted, validating_failed, snapshotting_failed,
}
use projectbeskar_virtrigaud.Migration.Edges.Steps.{
  Takes, Takes-put_status, Takes-enter, Takes-event, Takes-call, Takes-condition, Takes-save,
  Takes-transition_to_failed, Takes-or_fail,
}
use projectbeskar_virtrigaud.Migration.Cluster.{
  Api, Provider, VirtualMachine, SnapshotCreateResponse,
}
use projectbeskar_virtrigaud.Migration.Store.Rules.{
  Keeps-get_source_vm, Keeps-provider_of_source, Keeps-get_provider, Keeps-get_provider_instance,
}
use projectbeskar_virtrigaud.Migration.Storage.Rules.{Keeps-ensure_migration_pvc}
use projectbeskar_virtrigaud.Migration.Waiting.Rules.{Keeps-wait_for_providers_ready}
use projectbeskar_virtrigaud.Migration.Preparing.{
  handle_pending_phase, not_ready, require, check_config, adopt_pvc, prepare_storage,
  choose_first_phase, handle_validating_phase, use_existing_snapshot, snapshot_ready,
  snapshot_started, create_snapshot, take_snapshot, handle_snapshotting_phase,
}

module _ {W : Type 0} (api : Api W) where
  pub Takes-pending : Takes MigrationPhase.pending (handle_pending_phase api)
  unfolding handle_pending_phase
  Takes-pending = Takes-enter _ started and_then λ a. Takes-condition api _ _ _ _ and_then λ b.
      Takes-event _ _ _ and_then λ c. Takes-save api and_then λ d. Keeps-stop _

  Takes-require :
      (b : Bool) (reason message : String)
      → Takes MigrationPhase.validating (require api b reason message)
  unfolding require not_ready
  Takes-require true reason message = Keeps-pure tt
  Takes-require false reason message =
      Takes-condition api _ _ _ _ and_then λ a. Takes-save api and_then λ b. Keeps-stop _

  Takes-check_config : (e : Option Fault) → Takes MigrationPhase.validating (check_config api e)
  unfolding check_config
  Takes-check_config none = Keeps-pure tt
  Takes-check_config (some e) = Takes-transition_to_failed api _ validating_failed

  Takes-adopt_pvc :
      (pvc : String) (b : Bool) → Takes MigrationPhase.validating (adopt_pvc api pvc b)
  unfolding adopt_pvc
  Takes-adopt_pvc pvc false = Keeps-pure tt
  Takes-adopt_pvc pvc true = Takes-put_status _ (λ st h. h) and_then λ a.
      Takes-save api and_then λ b.
      Takes-or_fail api _ validating_failed (Keeps-wait_for_providers_ready api _ pvc)

  Takes-prepare_storage :
      (s : Option MigrationStorage) → Takes MigrationPhase.validating (prepare_storage api s)
  unfolding prepare_storage
  Takes-prepare_storage none = Keeps-pure tt
  Takes-prepare_storage (some s) = Takes-check_config _ and_then λ a.
      Takes-or_fail api _ validating_failed (Keeps-ensure_migration_pvc api _) and_then λ pvc.
      Keeps-the_object and_then λ m. Takes-adopt_pvc pvc _

  Takes-choose_first_phase : (b : Bool) → Takes MigrationPhase.validating (choose_first_phase api b)
  unfolding choose_first_phase
  Takes-choose_first_phase true = Takes-enter _ to_snapshot
  Takes-choose_first_phase false = Takes-enter _ to_export

  pub Takes-validating : Takes MigrationPhase.validating (handle_validating_phase api)
  unfolding handle_validating_phase
  Takes-validating = Takes-or_fail api _ validating_failed (Keeps-get_source_vm api) and_then λ vm.
      Takes-require _ _ _ and_then λ a.
      Takes-or_fail api _ validating_failed (Keeps-provider_of_source api vm) and_then λ source.
      Keeps-the_object and_then λ m.
      Takes-or_fail api _ validating_failed (Keeps-get_provider api _ _) and_then λ target.
      Takes-require _ _ _ and_then λ b. Takes-require _ _ _ and_then λ c.
      Takes-prepare_storage _ and_then λ d. Keeps-the_object and_then λ m'.
      Takes-choose_first_phase _ and_then λ e. Takes-condition api _ _ _ _ and_then λ f.
      Takes-event _ _ _ and_then λ g. Takes-save api and_then λ h. Keeps-stop _

  Takes-snapshot_started :
      (resp : SnapshotCreateResponse)
      → Takes MigrationPhase.snapshotting (snapshot_started api resp)
  unfolding snapshot_started
  Takes-snapshot_started resp =
      Keeps-if _ _ _
        (Takes-put_status _ (λ st h. h) and_then λ a. Takes-save api and_then λ b. Keeps-stop _)
        (Takes-enter _ snapshotted and_then λ a. Takes-put_status _ (λ st h. h) and_then λ b.
          Takes-condition api _ _ _ _ and_then λ c.
          Takes-event _ _ _ and_then λ d. Takes-save api and_then λ e. Keeps-stop _)

  Takes-create_snapshot :
      (m : Migration) (vm : VirtualMachine) (p : Provider)
      → Takes MigrationPhase.snapshotting (create_snapshot api m vm p)
  unfolding create_snapshot
  Takes-create_snapshot m vm p =
      Takes-or_fail api _ snapshotting_failed (Takes-call _ _ tt) and_then λ resp.
      Takes-put_status _ (λ st h. h) and_then λ a. Takes-snapshot_started resp

  Takes-take_snapshot :
      (name : Option String) (vm : VirtualMachine)
      → Takes MigrationPhase.snapshotting (take_snapshot api name vm)
  unfolding take_snapshot use_existing_snapshot snapshot_ready
  Takes-take_snapshot (some name) vm = Takes-put_status _ (λ st h. h) and_then λ a.
      Takes-enter _ snapshotted and_then λ b.
      Takes-condition api _ _ _ _ and_then λ c. Takes-save api and_then λ d. Keeps-stop _
  Takes-take_snapshot none vm =
      Takes-or_fail api _ snapshotting_failed (Keeps-provider_of_source api vm) and_then λ p.
      Takes-or_fail api _ snapshotting_failed (Keeps-get_provider_instance api p) and_then λ a.
      Keeps-the_object and_then λ m.
      Keeps-if _ _ _
        (Takes-enter _ snapshotted and_then λ b. Takes-condition api _ _ _ _ and_then λ c.
          Takes-event _ _ _ and_then λ d. Takes-save api and_then λ e. Keeps-stop _)
        (Takes-create_snapshot m vm p)

  pub Takes-snapshotting : Takes MigrationPhase.snapshotting (handle_snapshotting_phase api)
  unfolding handle_snapshotting_phase
  Takes-snapshotting =
      Takes-or_fail api _ snapshotting_failed (Keeps-get_source_vm api) and_then λ vm.
      Keeps-the_object and_then λ m. Takes-take_snapshot _ vm
