-- ===== src/Migration/Moving.antt =====
-- internal/controller/vmmigration_controller.go: the phases that move the disk
-- (`handleExportingPhase`, `handleTransferringPhase`, `handleConvertingPhase`,
-- `handleImportingPhase`). An ID or a task reference is "" where there is none.
pub mod Edges
use projectbeskar_virtrigaud.Common.{
  String, ◌<>◌, ◌=t◌, numeral, Bool, true, false, not, if◌then◌else◌, Option, none, some,
}
use projectbeskar_virtrigaud.Conditions.Condition.{met}
use projectbeskar_virtrigaud.Controller.{
  Reply, ok, fault, Outcome, requeue, requeue_after, ◌>>=◌, ◌>>◌, pure, stop, the_object, note,
  perform, query, ◌on_error◌, seconds,
}
use projectbeskar_virtrigaud.Migration.Types.{
  Migration, MigrationPhase, MigrationOptions, MigrationDiskInfo, no_disk_info,
}
use projectbeskar_virtrigaud.Migration.Cluster.{
  Api, Provider, VirtualMachine, event, ExportDiskRequest, ExportDiskResponse, disk_exported,
  ImportDiskRequest, ImportDiskResponse, disk_imported,
}
use projectbeskar_virtrigaud.Migration.Store.{
  Run, Handler, put_status, enter, record_condition, save, transition_to_failed, ◌or_fail◌,
  get_source_vm, get_provider, provider_of_source, get_provider_instance,
}
use projectbeskar_virtrigaud.Migration.Storage.{generate_storage_url}

disk_format : Option MigrationOptions → String
disk_format none = "qcow2"
disk_format (some o) = if not (o.disk_format =t "") then o.disk_format else "qcow2"

compressed : Option MigrationOptions → Bool
compressed none = false
compressed (some o) = o.compress

-- `Options == nil || Options.VerifyChecksums`.
verified : Option MigrationOptions → Bool
verified none = true
verified (some o) = o.verify_checksums

disk_info_or_new : Option MigrationDiskInfo → MigrationDiskInfo
disk_info_or_new none = no_disk_info
disk_info_or_new (some d) = d

-- The checksum that the import is to expect: the one of the export, or "".
expected_checksum : Option MigrationDiskInfo → String
expected_checksum none = ""
expected_checksum (some d) = d.source_checksum

module _ {W : Type 0} (api : Api W) where
  in_url : {A : Type 0} → Reply A → String → Run W Outcome A
  in_url (ok a) prefix = pure a
  in_url (fault e) prefix = transition_to_failed api (prefix <> e.text)

  -- A task that was started before: wait for it, and fail if it failed. `what` names it.
  finish_task : Provider → String → String → String → Handler W
  finish_task p task what title = do
    done ← query (api.is_task_complete p task) on_error λ e. stop (requeue_after (seconds 30))
    if done then pure tt else stop (requeue_after (seconds 30))
    error ←
        ◌or_fail◌ api (query (api.task_error p task))
          ("Failed to get " <> (what <> " task status: "))
    if error =t "" then pure tt else transition_to_failed api (title <> (" failed: " <> error))

  finish_task_if_any : Provider → String → String → String → Handler W
  unfolding finish_task
  finish_task_if_any p task what title =
      if not (task =t "") then finish_task p task what title else pure tt

  export_complete : String → Handler W
  export_complete message = do
    enter MigrationPhase.importing "Disk exported successfully"
    put_status (λ st. record st { task_ref = "" })
    record_condition api "Exporting" met "ExportComplete" "Source VM disk exported"
    note (event "Normal" "ExportComplete" message)
    save api
    stop requeue

  export_request : Migration → VirtualMachine → String → ExportDiskRequest
  unfolding disk_format compressed
  export_request m vm url = record {
    vm_id = vm.id;
    disk_id = "";
    snapshot_id = m.status.snapshot_id;
    destination_url = url;
    format = disk_format m.spec.options;
    compress = compressed m.spec.options;
  }

  export_started : String → ExportDiskResponse → Handler W
  unfolding export_complete
  export_started url resp =
      if not (resp.task_ref =t "")
      then (do
        put_status (λ st. record st { task_ref = resp.task_ref })
        save api
        stop (requeue_after (seconds 30)))
      else export_complete ("Disk exported to " <> url)

  start_export : Migration → VirtualMachine → Provider → Handler W
  unfolding in_url export_request export_started disk_info_or_new
  start_export m vm p = do
    url ← in_url (generate_storage_url m "export") "Failed to generate storage URL: "
    let req = export_request m vm url
    resp ←
        ◌or_fail◌ api (perform (disk_exported p req) (api.export_disk p req))
          "Failed to start disk export: "
    put_status (λ st. record st {
      export_id = resp.export_id;
      message =
          "Exporting disk (estimated size: " <> (numeral resp.estimated_size_bytes <> " bytes)");
      disk_info = some (record (disk_info_or_new st.disk_info) {
        source_disk_id = "";
        source_format = req.format;
        source_checksum = resp.checksum;
      });
    })
    export_started url resp

  pub handle_exporting_phase : Handler W
  unfolding finish_task_if_any start_export
  handle_exporting_phase = do
    vm ← ◌or_fail◌ api (get_source_vm api) "Failed to get source VM: "
    p ← ◌or_fail◌ api (provider_of_source api vm) "Failed to get source provider: "
    ◌or_fail◌ api (get_provider_instance api p) "Failed to get provider instance: "
    m ← the_object
    if not (m.status.export_id =t "")
        then (do
          finish_task_if_any p m.status.task_ref "export" "Export"
          export_complete "Disk exported successfully")
        else start_export m vm p

  pub handle_transferring_phase : Handler W
  handle_transferring_phase = do
    enter MigrationPhase.importing "Transfer complete, starting import"
    record_condition api "Transferring" met "TransferComplete" "Disk transfer completed"
    note (event "Normal" "TransferComplete" "Disk transfer completed")
    save api
    stop requeue

  pub handle_converting_phase : Handler W
  handle_converting_phase = do
    enter MigrationPhase.importing "Conversion complete, starting import"
    note (event "Normal" "ConversionComplete" "Disk format conversion completed")
    save api
    stop requeue

  import_complete : String → Handler W
  import_complete message = do
    enter MigrationPhase.creating "Disk imported, creating target VM"
    put_status (λ st. record st { task_ref = "" })
    record_condition api "Importing" met "ImportComplete" "Disk imported to target provider"
    note (event "Normal" "ImportComplete" message)
    save api
    stop requeue

  import_request : Migration → String → ImportDiskRequest
  unfolding disk_format verified expected_checksum
  import_request m url = record {
    source_url = url;
    storage_hint = "";
    format = disk_format m.spec.options;
    target_name = m.spec.target.name <> "-migrated";
    verify_checksum = verified m.spec.options;
    expected_checksum = expected_checksum m.status.disk_info;
  }

  import_started : ImportDiskResponse → Handler W
  unfolding import_complete
  import_started resp =
      if not (resp.task_ref =t "")
      then (do
        put_status (λ st. record st { task_ref = resp.task_ref })
        save api
        stop (requeue_after (seconds 30)))
      else import_complete ("Disk imported as " <> resp.disk_id)

  start_import : Migration → Provider → Handler W
  unfolding in_url import_request import_started disk_info_or_new
  start_import m p = do
    url ← in_url (generate_storage_url m "export") "Failed to generate source URL: "
    let req = import_request m url
    resp ←
        ◌or_fail◌ api (perform (disk_imported p req) (api.import_disk p req))
          "Failed to start disk import: "
    put_status (λ st. record st {
      import_id = resp.disk_id;
      message = "Importing disk (size: " <> (numeral resp.actual_size_bytes <> " bytes)");
      disk_info = some (record (disk_info_or_new st.disk_info) {
        target_disk_id = resp.disk_id;
        target_format = req.format;
        target_checksum = resp.checksum;
      });
    })
    import_started resp

  pub handle_importing_phase : Handler W
  unfolding finish_task_if_any start_import
  handle_importing_phase = do
    m ← the_object
    p ←
        ◌or_fail◌ api (get_provider api m.spec.target.provider_ref m.namespace)
          "Failed to get target provider: "
    ◌or_fail◌ api (get_provider_instance api p) "Failed to get target provider instance: "
    if not (m.status.import_id =t "")
        then (do
          finish_task_if_any p m.status.task_ref "import" "Import"
          import_complete "Disk imported successfully")
        else start_import m p
