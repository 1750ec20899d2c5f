-- ===== src/Migration/Cleanup/Edges.antt =====
-- internal/controller/vmmigration_controller.go: the cleanup leaves the phase.
use projectbeskar_virtrigaud.Common.{Bool, true, false}
use projectbeskar_virtrigaud.Controller.{Fault}
use projectbeskar_virtrigaud.Controller.Keeps.{
  Keeps-stop, Keeps-pure, Keeps-the_object, Keeps-on_error, Keeps-if, ◌and_then◌,
}
use projectbeskar_virtrigaud.Migration.Types.{MigrationPhase}
use projectbeskar_virtrigaud.Migration.Edges.Steps.{
  Takes, Takes-put_status, Takes-event, Takes-call, Takes-save,
}
use projectbeskar_virtrigaud.Migration.Cluster.{Api}
use projectbeskar_virtrigaud.Migration.Store.Rules.{Keeps-get_source_vm}
use projectbeskar_virtrigaud.Migration.Store.{Run}
use projectbeskar_virtrigaud.Migration.Edges.{From}
use projectbeskar_virtrigaud.Migration.Store.Saved.{Saved-append}
use projectbeskar_virtrigaud.Migration.Cluster.{file_deleted, snapshot_deleted}
use projectbeskar_virtrigaud.Migration.Cleanup.Rules.{
  Keeps-cleanup_intermediate_storage, Keeps-delete_source_snapshot,
}
use projectbeskar_virtrigaud.Migration.Cleanup.{
  cleanup_intermediate_storage, delete_source_snapshot, delete_source_vm, when_wanted, mark_cleaned,
  handle_ready_phase,
}

module _ {W : Type 0} (api : Api W) {p : MigrationPhase} where
  pub Takes-cleanup_intermediate_storage : Takes p (cleanup_intermediate_storage api)
  Takes-cleanup_intermediate_storage =
      Keeps-cleanup_intermediate_storage api
        (λ mount url. Saved-append (From p) (file_deleted mount url) tt)

  pub Takes-delete_source_snapshot : Takes p (delete_source_snapshot api)
  Takes-delete_source_snapshot =
      Keeps-delete_source_snapshot api
        (λ q vm name. Saved-append (From p) (snapshot_deleted q vm name) tt)

  Takes-delete_source_vm : Takes p (delete_source_vm api)
  unfolding delete_source_vm
  Takes-delete_source_vm =
      Keeps-on_error _ _ (Keeps-get_source_vm api) (λ e. Keeps-stop _) and_then λ vm.
      Keeps-on_error _ _ (Takes-call _ _ tt) (λ e. Keeps-stop _)

  Takes-when_wanted :
      (b : Bool) (m : Run W Fault (Unit {0})) → Takes p m → Takes p (when_wanted api b m)
  unfolding when_wanted
  Takes-when_wanted false m k = Keeps-pure tt
  Takes-when_wanted true m k = Keeps-on_error _ _ k (λ e. Keeps-stop _)

  Takes-mark_cleaned : (b : Bool) → Takes p (mark_cleaned api b)
  unfolding mark_cleaned
  Takes-mark_cleaned false = Keeps-stop _
  Takes-mark_cleaned true = Takes-put_status _ (λ st h. h) and_then λ a.
      Takes-save api and_then λ b. Takes-event _ _ _ and_then λ c. Keeps-stop _

  pub Takes-ready : Takes p (handle_ready_phase api)
  unfolding handle_ready_phase
  Takes-ready = Keeps-the_object and_then λ m.
      Keeps-if _ _ _ (Keeps-stop _) (Keeps-pure tt) and_then λ a.
      Takes-when_wanted _ _ Takes-cleanup_intermediate_storage and_then λ b.
      Takes-when_wanted _ _ Takes-delete_source_snapshot and_then λ c.
      Takes-when_wanted _ _ Takes-delete_source_vm and_then λ d. Takes-mark_cleaned _
