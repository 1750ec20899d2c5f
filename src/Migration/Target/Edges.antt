-- ===== src/Migration/Target/Edges.antt =====
-- internal/controller/vmmigration_controller.go: the edges that the phases of the target take.
use projectbeskar_virtrigaud.Common.{Option, none, some}
use projectbeskar_virtrigaud.Controller.{Reply, ok, fault}
use projectbeskar_virtrigaud.Controller.Keeps.{
  Keeps-stop, Keeps-the_object, Keeps-ask, Keeps-query, Keeps-settle, Keeps-if, ◌and_then◌,
}
use projectbeskar_virtrigaud.Migration.Types.{Migration, MigrationPhase, MigrationDiskInfo}
use projectbeskar_virtrigaud.Migration.Edges.{
  created, completed, creating_failed, validating_target_failed,
}
use projectbeskar_virtrigaud.Migration.Edges.Steps.{
  Takes, Takes-put_status, Takes-enter, Takes-event, Takes-call, Takes-condition, Takes-save,
  Takes-transition_to_failed, Takes-or_fail,
}
use projectbeskar_virtrigaud.Migration.Cluster.{Api, VirtualMachine}
use projectbeskar_virtrigaud.Migration.Target.{
  target_exists, create_target, look_up_target, handle_creating_phase, target_not_ready, complete,
  handle_validating_target_phase,
}

module _ {W : Type 0} (api : Api W) where
  Takes-target_exists : (vm : VirtualMachine) → Takes MigrationPhase.creating (target_exists api vm)
  unfolding target_exists
  Takes-target_exists vm =
      Keeps-if _ _ _
        (Takes-put_status _ (λ st h. h) and_then λ a.
          Takes-enter _ created and_then λ b. Takes-save api and_then λ c. Keeps-stop _)
        (Keeps-stop _)

  Takes-create_target :
      (m : Migration) (d : Option MigrationDiskInfo)
      → Takes MigrationPhase.creating (create_target api m d)
  unfolding create_target
  Takes-create_target m none = Keeps-stop _
  Takes-create_target m (some d) =
      Takes-or_fail api _ creating_failed (Takes-call _ _ tt) and_then λ a.
      Takes-event _ _ _ and_then λ b.
      Takes-put_status _ (λ st h. h) and_then λ c. Takes-save api and_then λ e. Keeps-stop _

  Takes-look_up_target :
      (m : Migration) (r : Reply VirtualMachine)
      → Takes MigrationPhase.creating (look_up_target api m r)
  unfolding look_up_target
  Takes-look_up_target m (ok vm) = Takes-target_exists vm
  Takes-look_up_target m (fault e) =
      Keeps-if _ _ _ (Takes-transition_to_failed api _ creating_failed) (Takes-create_target m _)

  pub Takes-creating : Takes MigrationPhase.creating (handle_creating_phase api)
  unfolding handle_creating_phase
  Takes-creating = Keeps-the_object and_then λ m.
      Keeps-settle _ (Keeps-query _) and_then λ r. Takes-look_up_target m r

  Takes-target_not_ready :
      (vm : VirtualMachine) → Takes MigrationPhase.validating_target (target_not_ready api vm)
  unfolding target_not_ready
  Takes-target_not_ready vm =
      Takes-put_status _ (λ st h. h) and_then λ a. Takes-save api and_then λ b. Keeps-stop _

  Takes-complete :
      (m : Migration) (vm : VirtualMachine)
      → Takes MigrationPhase.validating_target (complete api m vm)
  unfolding complete
  Takes-complete m vm = Takes-put_status _ (λ st h. h) and_then λ a.
      Takes-enter _ completed and_then λ b. Keeps-ask _ and_then λ c.
      Takes-put_status _ (λ st h. h) and_then λ d. Takes-condition api _ _ _ _ and_then λ e.
      Takes-event _ _ _ and_then λ f. Keeps-ask _ and_then λ g.
      Keeps-settle _ (Takes-call _ _ tt) and_then λ i. Takes-save api and_then λ j. Keeps-stop _

  pub Takes-validating_target :
      Takes MigrationPhase.validating_target (handle_validating_target_phase api)
  unfolding handle_validating_target_phase
  Takes-validating_target = Keeps-the_object and_then λ m.
      Takes-or_fail api _ validating_target_failed (Keeps-query _) and_then λ vm.
      Keeps-if _ _ _ (Takes-target_not_ready vm) (Takes-complete m vm)
