-- ===== src/Snapshot/Removal.antt =====
-- internal/controller/vmsnapshot_controller.go: the retention of a snapshot that is ready
-- (`handleRetention`), and its deletion (`handleDeletion`).
pub mod Rules
use projectbeskar_virtrigaud.Common.{
  ℕ, suc, ◌+◌, ℤ, pos, negsuc, ltb, String, ◌<>◌, ◌=t◌, Bool, true, false, not, ◌&&◌, if◌then◌else◌,
  Option, none, some,
}
use projectbeskar_virtrigaud.Conditions.Condition.{met}
use projectbeskar_virtrigaud.Controller.{
  Reply, ok, fault, Outcome, finished, requeue_after, failed, panicked, seconds, ◌>>=◌, ◌>>◌, pure,
  stop, the_object, modify, ask, note, query, perform, perform_object, ◌on_error◌, settle,
}
use projectbeskar_virtrigaud.Vm.Types.{VirtualMachine}
use projectbeskar_virtrigaud.Snapshot.Types.{VmSnapshot, SnapshotRetentionPolicy, SnapshotPhase}
use projectbeskar_virtrigaud.Snapshot.Cluster.{
  Api, Run, Handler, object_written, object_deleted, snapshot_deleted, event, put_status,
  set_condition, try_update_status, get_provider, get_provider_instance,
}

abbrev pub finalizer_name : String
finalizer_name = "snapshot.infra.virtrigaud.io/finalizer"

-- `time.Since(created) > maxAge`.
pub is_older : ℕ → ℕ → ℤ → Bool
is_older now created (pos age) = ltb (created + age) now
is_older now created (negsuc age) = ltb created (now + suc age)

-- Whether a snapshot is to be deleted for its age; none where the creation time is a nil pointer,
-- which panics.
pub is_expired : ℕ → Option ℕ → Option ℤ → Option Bool
unfolding is_older
is_expired now created none = some false
is_expired now none (some age) = none
is_expired now (some created) (some age) = some (is_older now created age)

module _ {W : Type 0} (api : Api W) where
  delete_object : Handler W
  delete_object = do
    deleted ← perform_object object_deleted api.delete on_error λ e. stop (failed e)
    stop finished

  delete_expired : Option Bool → Run W Outcome (Unit {0})
  unfolding delete_object
  delete_expired none = stop panicked
  delete_expired (some b) = if b then delete_object else pure tt

  delete_without_vm : Reply VirtualMachine → Run W Outcome (Unit {0})
  unfolding delete_object
  delete_without_vm (ok vm) = pure tt
  delete_without_vm (fault e) = if e.not_found then delete_object else pure tt

  check_vm : VmSnapshot → Bool → Run W Outcome (Unit {0})
  unfolding delete_without_vm
  check_vm s false = pure tt
  check_vm s true = do
    vm ← settle (query (api.get_vm s.namespace s.spec.vm_ref))
    delete_without_vm vm

  retain : VmSnapshot → Option SnapshotRetentionPolicy → Run W Outcome (Unit {0})
  unfolding delete_expired check_vm
  retain s none = pure tt
  retain s (some r) = do
    now ← ask api.now
    delete_expired (is_expired now s.status.creation_time r.max_age)
    check_vm s r.delete_on_vm_delete

  pub handle_retention : Handler W
  unfolding retain
  handle_retention = do
    s ← the_object
    retain s s.spec.retention_policy
    stop (requeue_after (seconds 3600))

  note_failure : Reply String → Run W Outcome (Unit {0})
  note_failure (ok task) = pure tt
  note_failure (fault e) =
      note (event "Warning" "SnapshotDeleteFailed" ("Failed to delete snapshot: " <> e.text))

  -- The provider is asked to delete; its error is recorded and does not stop the deletion.
  delete_from_provider : VmSnapshot → VirtualMachine → Bool → Run W Outcome (Unit {0})
  unfolding note_failure
  delete_from_provider s vm false = pure tt
  delete_from_provider s vm true = do
    p ← get_provider api vm on_error λ e. stop (requeue_after (seconds 30))
    resolved ← get_provider_instance api p on_error λ e. stop (requeue_after (seconds 30))
    r ← settle (
        perform (snapshot_deleted p vm.status.id s.status.snapshot_id)
          (api.snapshot_delete p vm.status.id s.status.snapshot_id))
    note_failure r

  -- Whether there is anything that the provider could delete.
  can_delete : VmSnapshot → VirtualMachine → Bool
  can_delete s vm = not (s.status.snapshot_id =t "") && not (vm.status.id =t "")

  delete_at : VmSnapshot → Reply VirtualMachine → Run W Outcome (Unit {0})
  unfolding delete_from_provider can_delete
  delete_at s (fault e) = if e.not_found then pure tt else stop (requeue_after (seconds 30))
  delete_at s (ok vm) = delete_from_provider s vm (can_delete s vm)

  pub handle_deletion : Handler W
  unfolding delete_at
  handle_deletion = do
    put_status (λ st. record st { phase = SnapshotPhase.deleting })
    set_condition api "Deleting" met "Deleting" "Snapshot deletion initiated"
    try_update_status api
    note (event "Normal" "SnapshotDeleting" "Started snapshot deletion")
    s ← the_object
    vm ← settle (query (api.get_vm s.namespace s.spec.vm_ref))
    delete_at s vm
    modify (λ o. record o { finalizers = api.without_finalizer finalizer_name o.finalizers })
    written ← perform_object object_written api.update on_error λ e. stop (failed e)
    note (event "Normal" "SnapshotDeleted" "Snapshot deleted successfully")
    stop finished
