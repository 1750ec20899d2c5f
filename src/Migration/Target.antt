-- ===== src/Migration/Target.antt =====
-- internal/controller/vmmigration_controller.go: the phases that create and check the new virtual
-- machine (`handleCreatingPhase`, `handleValidatingTargetPhase`).
pub mod Edges
use projectbeskar_virtrigaud.Common.{
  String, ◌<>◌, ◌=t◌, Bool, not, ◌&&◌, if◌then◌else◌, Option, none, some, List, [], ◌∷◌,
}
use projectbeskar_virtrigaud.Conditions.Condition.{Condition, met, unmet, unknown, has_status}
use projectbeskar_virtrigaud.Conditions.Util.{get_condition}
use projectbeskar_virtrigaud.Controller.{
  Reply, ok, fault, finished, requeue, requeue_after, panicked, ◌>>=◌, ◌>>◌, stop, the_object, ask,
  note, perform, query, settle, seconds,
}
use projectbeskar_virtrigaud.Migration.Types.{
  Migration, MigrationPhase, MigrationDiskInfo, ObjectRef,
}
use projectbeskar_virtrigaud.Migration.Cluster.{
  Api, Annotations, VirtualMachine, event, vm_created, vm_updated, annotate, merge,
}
use projectbeskar_virtrigaud.Migration.Store.{
  Handler, put_status, enter, record_condition, save, transition_to_failed, ◌or_fail◌,
  target_vm_name, target_namespace,
}

-- `meta.FindStatusCondition(conditions, "Ready")` has status True.
pub is_vm_ready : List Condition → Bool
is_vm_ready cs = has_status met (get_condition cs "Ready")

status_text : Option Condition → String
status_text none = "not set"
status_text (some c) = elim c.status [ met ↦ "True" | unmet ↦ "False" | unknown ↦ "Unknown" ]

class_ref_of : Migration → Option String → ObjectRef
class_ref_of m none = record { name = ""; namespace = "" }
class_ref_of m (some c) = record { name = c; namespace = m.namespace }

-- The annotations of the new virtual machine, those of the user over them.
target_annotations : Migration → MigrationDiskInfo → Annotations
target_annotations m d = merge m.spec.target.annotations (
    ("virtrigaud.io/migrated-from", m.namespace <> ("/" <> m.spec.source.vm_name))
    ∷ ("virtrigaud.io/migration", m.namespace <> ("/" <> m.name))
    ∷ ("virtrigaud.io/imported-disk-id", m.status.import_id)
    ∷ ("virtrigaud.io/disk-checksum", d.target_checksum)
    ∷ [])

pub target_vm : Migration → MigrationDiskInfo → VirtualMachine
unfolding class_ref_of target_annotations
target_vm m d = record {
  namespace = target_namespace m;
  name = target_vm_name m;
  labels = m.spec.target.labels;
  annotations = target_annotations m d;
  provider_ref = m.spec.target.provider_ref;
  class_ref = class_ref_of m m.spec.target.class_ref;
  networks = m.spec.target.networks;
  imported_disk = some (record {
    disk_id = m.status.import_id;
    format = d.target_format;
    source = "migration";
    migration_ref = some m.name;
  });
  placement_ref = m.spec.target.placement_ref;
  id = "";
  conditions = [];
}

module _ {W : Type 0} (api : Api W) where
  target_exists : VirtualMachine → Handler W
  target_exists vm =
      if not (vm.id =t "") && is_vm_ready vm.conditions
      then (do
        put_status (λ st. record st { target_vm_id = vm.id })
        enter MigrationPhase.validating_target "Target VM ready, validating"
        save api
        stop requeue)
      else stop (requeue_after (seconds 30))

  -- The source reads `Status.DiskInfo` without a test: a nil pointer panics.
  create_target : Migration → Option MigrationDiskInfo → Handler W
  create_target m none = stop panicked
  create_target m (some d) = do
    let vm = target_vm m d
    ◌or_fail◌ api (perform (vm_created vm) (api.create_vm vm)) "Failed to create target VM: "
    note (event "Normal" "TargetVMCreated" ("Created target VM " <> target_vm_name m))
    put_status (λ st. record st {
      message = "Target VM " <> (target_vm_name m <> " created, waiting for provisioning");
    })
    save api
    stop (requeue_after (seconds 10))

  look_up_target : Migration → Reply VirtualMachine → Handler W
  unfolding target_exists create_target
  look_up_target m (ok vm) = target_exists vm
  look_up_target m (fault e) =
      if not e.not_found
      then transition_to_failed api ("Failed to check target VM: " <> e.text)
      else create_target m m.status.disk_info

  pub handle_creating_phase : Handler W
  unfolding look_up_target
  handle_creating_phase = do
    m ← the_object
    r ← settle (query (api.get_vm (target_namespace m) (target_vm_name m)))
    look_up_target m r

  target_not_ready : VirtualMachine → Handler W
  unfolding status_text
  target_not_ready vm = do
    put_status (λ st. record st {
      message =
          "Waiting for target VM to be ready (current Ready condition: "
          <> (status_text (get_condition vm.conditions "Ready") <> ")");
    })
    save api
    stop (requeue_after (seconds 30))

  -- The migration is complete. That the virtual machine cannot be marked does not matter.
  complete : Migration → VirtualMachine → Handler W
  complete m vm = do
    put_status (λ st. record st { target_vm_id = vm.id })
    enter MigrationPhase.ready "Migration completed successfully"
    completed ← ask api.now
    put_status (λ st. record st { completion_time = some completed })
    record_condition api "Ready" met "MigrationComplete" "VM migration completed successfully"
    note (
        event "Normal" "MigrationComplete"
          ("VM migrated successfully to " <> (target_namespace m <> ("/" <> target_vm_name m))))
    now ← ask api.now
    let marked = record vm {
      annotations =
          annotate "virtrigaud.io/migration-completed-at" (api.format_time now)
            (annotate "virtrigaud.io/migration-completed" "true" vm.annotations);
    }
    updated ← settle (perform (vm_updated marked) (api.update_vm marked))
    save api
    stop finished

  pub handle_validating_target_phase : Handler W
  unfolding target_not_ready complete
  handle_validating_target_phase = do
    m ← the_object
    vm ←
        ◌or_fail◌ api (query (api.get_vm (target_namespace m) (target_vm_name m)))
          "Failed to get target VM: "
    if not (is_vm_ready vm.conditions) then target_not_ready vm else complete m vm
