-- ===== src/Migration/Moving/Edges.antt =====
-- internal/controller/vmmigration_controller.go: the edges that the phases of the move take.
use projectbeskar_virtrigaud.Common.{String}
use projectbeskar_virtrigaud.Controller.{Reply, ok, fault}
use projectbeskar_virtrigaud.Controller.Keeps.{
  Keeps-stop, Keeps-pure, Keeps-the_object, Keeps-query, Keeps-on_error, Keeps-if, ◌and_then◌,
}
use projectbeskar_virtrigaud.Migration.Types.{Migration, MigrationPhase}
use projectbeskar_virtrigaud.Migration.Edges.{
  Edge, exported, transferred, converted, imported, exporting_failed, importing_failed,
}
use projectbeskar_virtrigaud.Migration.Edges.Steps.{
  Takes, Takes-put_status, Takes-enter, Takes-event, Takes-call, Takes-condition, Takes-save,
  Takes-transition_to_failed, Takes-or_fail,
}
use projectbeskar_virtrigaud.Migration.Cluster.{
  Api, Provider, VirtualMachine, ExportDiskResponse, ImportDiskResponse,
}
use projectbeskar_virtrigaud.Migration.Store.Rules.{
  Keeps-get_source_vm, Keeps-provider_of_source, Keeps-get_provider, Keeps-get_provider_instance,
}
use projectbeskar_virtrigaud.Migration.Moving.{
  in_url, finish_task, finish_task_if_any, export_complete, export_started, start_export,
  handle_exporting_phase, handle_transferring_phase, handle_converting_phase, import_complete,
  import_started, start_import, handle_importing_phase,
}

module _ {W : Type 0} (api : Api W) {p : MigrationPhase}
    (fails : Edge p MigrationPhase.failed) where
  Takes-in_url : {A : Type 0} (r : Reply A) (prefix : String) → Takes p (in_url api r prefix)
  unfolding in_url
  Takes-in_url (ok a) prefix = Keeps-pure a
  Takes-in_url (fault e) prefix = Takes-transition_to_failed api _ fails

  Takes-finish_task :
      (provider : Provider) (task what title : String)
      → Takes p (finish_task_if_any api provider task what title)
  unfolding finish_task_if_any finish_task
  Takes-finish_task provider task what title =
      Keeps-if _ _ _
        (Keeps-on_error _ _ (Keeps-query _) (λ e. Keeps-stop _) and_then λ done.
          Keeps-if _ _ _ (Keeps-pure tt) (Keeps-stop _) and_then λ a.
          Takes-or_fail api _ fails (Keeps-query _) and_then λ error.
          Keeps-if _ _ _ (Keeps-pure tt) (Takes-transition_to_failed api _ fails))
        (Keeps-pure tt)

module _ {W : Type 0} (api : Api W) where
  Takes-export_complete :
      (message : String) → Takes MigrationPhase.exporting (export_complete api message)
  unfolding export_complete
  Takes-export_complete message = Takes-enter _ exported and_then λ a.
      Takes-put_status _ (λ st h. h) and_then λ b. Takes-condition api _ _ _ _ and_then λ c.
      Takes-event _ _ _ and_then λ d. Takes-save api and_then λ e. Keeps-stop _

  Takes-export_started :
      (url : String) (resp : ExportDiskResponse)
      → Takes MigrationPhase.exporting (export_started api url resp)
  unfolding export_started
  Takes-export_started url resp =
      Keeps-if _ _ _
        (Takes-put_status _ (λ st h. h) and_then λ a. Takes-save api and_then λ b. Keeps-stop _)
        (Takes-export_complete _)

  Takes-start_export :
      (m : Migration) (vm : VirtualMachine) (p : Provider)
      → Takes MigrationPhase.exporting (start_export api m vm p)
  unfolding start_export
  Takes-start_export m vm p = Takes-in_url api exporting_failed _ _ and_then λ url.
      Takes-or_fail api _ exporting_failed (Takes-call _ _ tt) and_then λ resp.
      Takes-put_status _ (λ st h. h) and_then λ a. Takes-export_started url resp

  pub Takes-exporting : Takes MigrationPhase.exporting (handle_exporting_phase api)
  unfolding handle_exporting_phase
  Takes-exporting = Takes-or_fail api _ exporting_failed (Keeps-get_source_vm api) and_then λ vm.
      Takes-or_fail api _ exporting_failed (Keeps-provider_of_source api vm) and_then λ p.
      Takes-or_fail api _ exporting_failed (Keeps-get_provider_instance api p) and_then λ a.
      Keeps-the_object and_then λ m.
      Keeps-if _ _ _
        (Takes-finish_task api exporting_failed p _ "export" "Export" and_then λ b.
          Takes-export_complete "Disk exported successfully")
        (Takes-start_export m vm p)

  pub Takes-transferring : Takes MigrationPhase.transferring (handle_transferring_phase api)
  unfolding handle_transferring_phase
  Takes-transferring = Takes-enter _ transferred and_then λ a.
      Takes-condition api _ _ _ _ and_then λ b.
      Takes-event _ _ _ and_then λ c. Takes-save api and_then λ d. Keeps-stop _

  pub Takes-converting : Takes MigrationPhase.converting (handle_converting_phase api)
  unfolding handle_converting_phase
  Takes-converting = Takes-enter _ converted and_then λ a.
      Takes-event _ _ _ and_then λ b. Takes-save api and_then λ c. Keeps-stop _

  Takes-import_complete :
      (message : String) → Takes MigrationPhase.importing (import_complete api message)
  unfolding import_complete
  Takes-import_complete message = Takes-enter _ imported and_then λ a.
      Takes-put_status _ (λ st h. h) and_then λ b. Takes-condition api _ _ _ _ and_then λ c.
      Takes-event _ _ _ and_then λ d. Takes-save api and_then λ e. Keeps-stop _

  Takes-import_started :
      (resp : ImportDiskResponse) → Takes MigrationPhase.importing (import_started api resp)
  unfolding import_started
  Takes-import_started resp =
      Keeps-if _ _ _
        (Takes-put_status _ (λ st h. h) and_then λ a. Takes-save api and_then λ b. Keeps-stop _)
        (Takes-import_complete _)

  Takes-start_import :
      (m : Migration) (p : Provider) → Takes MigrationPhase.importing (start_import api m p)
  unfolding start_import
  Takes-start_import m p = Takes-in_url api importing_failed _ _ and_then λ url.
      Takes-or_fail api _ importing_failed (Takes-call _ _ tt) and_then λ resp.
      Takes-put_status _ (λ st h. h) and_then λ a. Takes-import_started resp

  pub Takes-importing : Takes MigrationPhase.importing (handle_importing_phase api)
  unfolding handle_importing_phase
  Takes-importing = Keeps-the_object and_then λ m.
      Takes-or_fail api _ importing_failed (Keeps-get_provider api _ _) and_then λ p.
      Takes-or_fail api _ importing_failed (Keeps-get_provider_instance api p) and_then λ a.
      Keeps-if _ _ _
        (Takes-finish_task api importing_failed p _ "import" "Import" and_then λ b.
          Takes-import_complete "Disk imported successfully")
        (Takes-start_import m p)
