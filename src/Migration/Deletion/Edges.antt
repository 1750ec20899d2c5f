-- ===== src/Migration/Deletion/Edges.antt =====
-- internal/controller/vmmigration_controller.go: the deletion leaves the phase.
use projectbeskar_virtrigaud.Common.{Bool, true, false}
use projectbeskar_virtrigaud.Controller.{Fault, Reply, ok, fault}
use projectbeskar_virtrigaud.Controller.Keeps.{
  Keeps-stop, Keeps-pure, Keeps-the_object, Keeps-query, Keeps-settle, Keeps-on_error, Keeps-if,
  ◌and_then◌,
}
use projectbeskar_virtrigaud.Migration.Types.{Migration, MigrationPhase}
use projectbeskar_virtrigaud.Migration.Edges.Steps.{Takes, Takes-event, Takes-call}
use projectbeskar_virtrigaud.Migration.Cluster.{Api, VirtualMachine}
use projectbeskar_virtrigaud.Controller.Keeps.{Keeps-modify}
use projectbeskar_virtrigaud.Controller.{perform_object}
use projectbeskar_virtrigaud.Controller.Keeps.{Keeps-perform_object}
use projectbeskar_virtrigaud.Migration.Store.{Run}
use projectbeskar_virtrigaud.Migration.Cluster.{object_written}
use projectbeskar_virtrigaud.Migration.Edges.{From}
use projectbeskar_virtrigaud.Migration.Store.Saved.{Saved-append}
use projectbeskar_virtrigaud.Migration.Cleanup.Edges.{
  Takes-cleanup_intermediate_storage, Takes-delete_source_snapshot,
}
use projectbeskar_virtrigaud.Migration.Deletion.{
  count_errors, delete_found_pvc, delete_pvc, delete_found_target, delete_target, report_errors,
  delete_all, handle_deletion,
}

module _ {W : Type 0} (api : Api W) {p : MigrationPhase} where
  -- The object is written back: that writes no status.
  pub Takes-update : Takes p (perform_object object_written api.update)
  Takes-update =
      Keeps-perform_object _ _ (λ o cs h. Saved-append (From p) (object_written o) tt o cs h)

  Takes-count_errors :
      (b : Bool) (m : Run W Fault (Unit {0})) → Takes p m → Takes p (count_errors api b m)
  unfolding count_errors
  Takes-count_errors false m k = Keeps-pure _
  Takes-count_errors true m k = Keeps-settle _ k and_then λ r. Keeps-pure _

  Takes-delete_found_pvc : (m : Migration) (r : Reply Unit) → Takes p (delete_found_pvc api m r)
  unfolding delete_found_pvc
  Takes-delete_found_pvc m (ok found) =
      Keeps-settle _ (Takes-call _ _ tt) and_then λ r. Keeps-pure _
  Takes-delete_found_pvc m (fault e) = Keeps-pure _

  Takes-delete_pvc : (m : Migration) (b : Bool) → Takes p (delete_pvc api m b)
  unfolding delete_pvc
  Takes-delete_pvc m false = Keeps-pure _
  Takes-delete_pvc m true = Keeps-settle _ (Keeps-query _) and_then λ r. Takes-delete_found_pvc m r

  Takes-delete_found_target :
      (m : Migration) (r : Reply VirtualMachine) → Takes p (delete_found_target api m r)
  unfolding delete_found_target
  Takes-delete_found_target m (fault e) = Keeps-pure _
  Takes-delete_found_target m (ok vm) = Keeps-if _ _ _ (Keeps-pure _) (
      Keeps-if _ _ _ (Keeps-settle _ (Takes-call _ _ tt) and_then λ r. Keeps-pure _) (Keeps-pure _))

  Takes-delete_target : (m : Migration) (b : Bool) → Takes p (delete_target api m b)
  unfolding delete_target
  Takes-delete_target m false = Keeps-pure _
  Takes-delete_target m true =
      Keeps-settle _ (Keeps-query _) and_then λ r. Takes-delete_found_target m r

  Takes-delete_all : (m : Migration) → Takes p (delete_all api m)
  unfolding delete_all report_errors
  Takes-delete_all m = Takes-count_errors _ _ (Takes-cleanup_intermediate_storage api) and_then λ a.
      Takes-delete_pvc m _ and_then λ b.
      Takes-count_errors _ _ (Takes-delete_source_snapshot api) and_then λ c.
      Takes-delete_target m _ and_then λ d.
      Keeps-if _ _ _ (Keeps-pure tt) (Takes-event _ _ _) and_then λ e.
      Keeps-modify _ (λ o cs h. h) and_then λ f.
      Keeps-on_error _ _ Takes-update (λ e. Keeps-stop _) and_then λ version. Keeps-stop _

  pub Takes-deletion : Takes p (handle_deletion api)
  unfolding handle_deletion
  Takes-deletion = Keeps-the_object and_then λ m. Takes-delete_all m
