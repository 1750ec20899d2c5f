-- ===== src/Migration/Deletion.antt =====
-- internal/controller/vmmigration_controller.go: the deletion of a migration (`handleDeletion`).
-- An error of a step is counted and does not stop the others.
pub mod Guards
pub mod Edges
mod Tests
use projectbeskar_virtrigaud.Common.{
  ℕ, ◌+◌, String, ◌<>◌, ◌=t◌, numeral, Bool, true, false, not, ◌==◌, ◌&&◌, if◌then◌else◌, Option,
  none, some, is_some, List, [], ◌∷◌,
}
use projectbeskar_virtrigaud.Controller.{
  Fault, Reply, ok, fault, Outcome, finished, failed, ◌>>=◌, ◌>>◌, pure, stop, the_object, modify,
  note, perform, perform_object, query, ◌on_error◌, settle,
}
use projectbeskar_virtrigaud.Migration.Types.{Migration, MigrationPhase}
use projectbeskar_virtrigaud.Migration.Cluster.{
  Api, VirtualMachine, event, annotation, object_written, pvc_deleted, vm_deleted,
}
use projectbeskar_virtrigaud.Migration.Store.{Run, Handler, target_vm_name, target_namespace}
use projectbeskar_virtrigaud.Migration.Cleanup.{
  owns_snapshot, is_cleaned_up, cleanup_intermediate_storage, delete_source_snapshot,
}

abbrev pub finalizer_name : String
finalizer_name = "vmmigration.infra.virtrigaud.io/finalizer"

-- `controllerutil.RemoveFinalizer`: every entry of the name goes.
pub remove_finalizer : String → List String → List String
remove_finalizer f [] = []
remove_finalizer f (g ∷ gs) = let rest = remove_finalizer f gs in if g =t f then rest else g ∷ rest

same : Option String → String → Bool
same none t = false
same (some s) t = s =t t

-- Whether the virtual machine carries the mark of a migration that has been completed.
pub is_completed : VirtualMachine → Bool
unfolding same
is_completed vm = same (annotation "virtrigaud.io/migration-completed" vm.annotations) "true"

-- Whether the migration created the virtual machine.
pub is_created_by : Migration → VirtualMachine → Bool
unfolding same
is_created_by m vm =
    same (annotation "virtrigaud.io/migration" vm.annotations) (m.namespace <> ("/" <> m.name))

-- Only in these phases is the target virtual machine a partial one.
may_be_partial : MigrationPhase → Bool
may_be_partial MigrationPhase.failed = true
may_be_partial MigrationPhase.creating = true
may_be_partial _ = false

-- The number of errors of a step.
errors_of : {A : Type 0} → Reply A → ℕ
errors_of (ok a) = 0
errors_of (fault e) = 1

-- A deletion of what is gone already is no error.
errors_unless_gone : {A : Type 0} → Reply A → ℕ
errors_unless_gone (ok a) = 0
errors_unless_gone (fault e) = if e.not_found then 0 else 1

module _ {W : Type 0} (api : Api W) where
  count_errors : Bool → Run W Fault (Unit {0}) → Run W Outcome ℕ
  unfolding errors_of
  count_errors false m = pure 0
  count_errors true m = do r ← settle m; pure (errors_of r)

  delete_found_pvc : Migration → Reply Unit → Run W Outcome ℕ
  unfolding errors_unless_gone
  delete_found_pvc m (ok found) = do
    r ← settle (
        perform (pvc_deleted m.status.storage_pvc_name m.namespace)
          (api.delete_pvc m.status.storage_pvc_name m.namespace))
    pure (errors_unless_gone r)
  delete_found_pvc m (fault e) = pure (if e.not_found then 0 else 1)

  delete_pvc : Migration → Bool → Run W Outcome ℕ
  unfolding delete_found_pvc
  delete_pvc m false = pure 0
  delete_pvc m true = do
    r ← settle (query (api.get_pvc m.status.storage_pvc_name m.namespace))
    delete_found_pvc m r

  delete_found_target : Migration → Reply VirtualMachine → Run W Outcome ℕ
  unfolding is_completed is_created_by errors_of
  delete_found_target m (fault e) = pure 0
  delete_found_target m (ok vm) =
      if is_completed vm
      then pure 0
      else if is_created_by m vm
      then (do r ← settle (perform (vm_deleted vm) (api.delete_vm vm)); pure (errors_of r))
      else pure 0

  delete_target : Migration → Bool → Run W Outcome ℕ
  unfolding delete_found_target
  delete_target m false = pure 0
  delete_target m true = do
    r ← settle (query (api.get_vm (target_namespace m) (target_vm_name m)))
    delete_found_target m r

  report_errors : ℕ → Run W Outcome (Unit {0})
  report_errors n =
      if n == 0
      then pure tt
      else note
          (event "Warning" "CleanupErrors" ("Cleanup completed with " <> (numeral n <> " errors")))

  delete_all : Migration → Handler W
  unfolding count_errors delete_pvc delete_target may_be_partial report_errors remove_finalizer
  delete_all m = do
    storage_errors ←
        count_errors (is_some m.spec.storage && not (is_cleaned_up m.status.cleaned_up))
          (cleanup_intermediate_storage api)
    pvc_errors ← delete_pvc m (not (m.status.storage_pvc_name =t ""))
    snapshot_errors ← count_errors (owns_snapshot m) (delete_source_snapshot api)
    target_errors ← delete_target m (may_be_partial m.status.phase)
    report_errors (storage_errors + pvc_errors + snapshot_errors + target_errors)
    modify (λ o. record o { finalizers = remove_finalizer finalizer_name o.finalizers })
    version ← perform_object object_written api.update on_error λ e. stop (failed e)
    stop finished

  pub handle_deletion : Handler W
  unfolding delete_all
  handle_deletion = do m ← the_object; delete_all m
