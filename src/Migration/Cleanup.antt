-- ===== src/Migration/Cleanup.antt =====
-- internal/controller/vmmigration_controller.go: what a finished migration removes
-- (`cleanupIntermediateStorage`, `deleteSourceSnapshot`, `deleteSourceVM`, `handleReadyPhase`).
pub mod Edges
pub mod Rules
use projectbeskar_virtrigaud.Common.{
  String, ◌<>◌, ◌=t◌, Bool, true, false, not, ◌&&◌, ◌||◌, if◌then◌else◌, Option, none, some,
  is_some,
}
use projectbeskar_virtrigaud.Controller.{
  Fault, wrap, Reply, ok, fault, finished, requeue_after, ◌>>=◌, ◌>>◌, pure, stop, the_object, note,
  perform, query, ◌on_error◌, settle, seconds,
}
use projectbeskar_virtrigaud.Migration.Types.{Migration, MigrationStorage, PvcStorageConfig}
use projectbeskar_virtrigaud.Migration.Cluster.{
  Api, event, file_deleted, snapshot_deleted, vm_deleted,
}
use projectbeskar_virtrigaud.Migration.Store.{
  Run, Handler, put_status, save, get_source_vm, provider_of_source, get_provider_instance,
}
use projectbeskar_virtrigaud.Migration.Storage.{generate_storage_url}

field_of : (PvcStorageConfig → String) → Option PvcStorageConfig → String
field_of f none = ""
field_of f (some c) = f c

-- The claim: the one in the status, or else the one that the user named.
cleanup_pvc : Migration → MigrationStorage → String
unfolding field_of
cleanup_pvc m s =
    if m.status.storage_pvc_name =t ""
    then field_of (λ c. c.name) s.pvc
    else m.status.storage_pvc_name

cleanup_mount_path : MigrationStorage → String → String
unfolding field_of
cleanup_mount_path s pvc =
    let base = field_of (λ c. c.mount_path) s.pvc in
    (if base =t "" then "/mnt/migration-storage" else base) <> ("/" <> pvc)

-- Whether the snapshot was made by the migration and not named by the user.
pub owns_snapshot : Migration → Bool
owns_snapshot m = not (m.status.snapshot_id =t "") && not (is_some m.spec.source.snapshot_ref)

abbrev pub is_cleaned_up : Option Bool → Bool
is_cleaned_up none = false
is_cleaned_up (some b) = b

module _ {W : Type 0} (api : Api W) where
  delete_export : String → Reply String → Run W Fault (Unit {0})
  delete_export mount (fault e) = pure tt
  delete_export mount (ok url) = do
    deleted ← settle (perform (file_deleted mount url) (api.delete_file mount url))
    pure tt

  cleanup_storage : Migration → Option MigrationStorage → Run W Fault (Unit {0})
  unfolding delete_export cleanup_pvc cleanup_mount_path
  cleanup_storage m none = pure tt
  cleanup_storage m (some s) = do
    let pvc = cleanup_pvc m s
    let mount = cleanup_mount_path s pvc
    query (api.open_storage pvc m.namespace mount) on_error λ e.
        stop (wrap "failed to create storage client: " e)
    delete_export mount (generate_storage_url m "export")

  pub cleanup_intermediate_storage : Run W Fault (Unit {0})
  unfolding cleanup_storage
  cleanup_intermediate_storage = do m ← the_object; cleanup_storage m m.spec.storage

  pub delete_source_snapshot : Run W Fault (Unit {0})
  delete_source_snapshot = do
    vm ← get_source_vm api on_error λ e. stop (wrap "failed to get source VM: " e)
    p ← provider_of_source api vm on_error λ e. stop (wrap "failed to get source provider: " e)
    get_provider_instance api p on_error λ e. stop (wrap "failed to get provider instance: " e)
    m ← the_object
    task ←
        perform (snapshot_deleted p vm.id m.status.snapshot_id)
          (api.snapshot_delete p vm.id m.status.snapshot_id)
        on_error λ e. stop (wrap "failed to delete snapshot: " e)
    pure tt

  pub delete_source_vm : Run W Fault (Unit {0})
  delete_source_vm = do
    vm ← get_source_vm api on_error λ e. stop (wrap "failed to get source VM: " e)
    perform (vm_deleted vm) (api.delete_vm vm) on_error λ e.
        stop (wrap "failed to delete source VM: " e)

  -- A step of the cleanup, where it is wanted: an error tries all again in 5 minutes.
  when_wanted : Bool → Run W Fault (Unit {0}) → Handler W
  when_wanted false m = pure tt
  when_wanted true m = m on_error λ e. stop (requeue_after (seconds 300))

  mark_cleaned : Bool → Handler W
  mark_cleaned false = stop finished
  mark_cleaned true = do
    put_status (λ st. record st {
      cleaned_up = some true;
      message = "Migration completed, cleanup finished";
    })
    save api
    note (event "Normal" "CleanupComplete" "Post-migration cleanup completed")
    stop finished

  pub handle_ready_phase : Handler W
  unfolding when_wanted mark_cleaned cleanup_intermediate_storage
  handle_ready_phase = do
    m ← the_object
    if is_cleaned_up m.status.cleaned_up then stop finished else pure tt
    when_wanted (is_some m.spec.storage) (cleanup_intermediate_storage)
    when_wanted (owns_snapshot m) (delete_source_snapshot)
    when_wanted m.spec.source.delete_after_migration (delete_source_vm)
    mark_cleaned
        (is_some m.spec.storage || (owns_snapshot m || m.spec.source.delete_after_migration))
