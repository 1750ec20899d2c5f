-- ===== src/Migration/Cluster.antt =====
-- What internal/controller/vmmigration_controller.go calls: the API server through the
-- controller-runtime client, the providers through internal/providers/contracts, the mounted
-- storage, the clock and the context. None of it is decided by the controller, so it is an
-- interface over a world `W`; only what the code relies on is fixed by the types.
use projectbeskar_virtrigaud.Common.{
  ℕ, String, Bool, Option, none, some, List, [], ◌∷◌, ◌=t◌, if◌then◌else◌,
}
use projectbeskar_virtrigaud.Conditions.Condition.{Condition}
use projectbeskar_virtrigaud.Controller.{Reply, Fault}
use projectbeskar_virtrigaud.Migration.Types.{Migration, ObjectRef, VmNetworkRef}

-- A `map[string]string`; a nil map reads as an empty one.
abbrev pub Annotations : Type 0
Annotations = List (String × String)

pub annotation : String → Annotations → Option String
annotation k [] = none
annotation k ((j, v) ∷ m) = if j =t k then some v else annotation k m

pub annotate : String → String → Annotations → Annotations
annotate k v [] = (k, v) ∷ []
annotate k v ((j, w) ∷ m) = if j =t k then (k, v) ∷ m else (j, w) ∷ annotate k v m

-- `for k, v := range extra { annotations[k] = v }`.
pub merge : Annotations → Annotations → Annotations
unfolding annotate
merge [] m = m
merge ((k, v) ∷ extra) m = merge extra (annotate k v m)

pub record ImportedDiskRef : Type 0 where
  pub disk_id : String
  pub format : String
  pub source : String
  pub migration_ref : Option String

-- The fields of a `VirtualMachine` that migrations use; `id` is `Status.ID`.
pub record VirtualMachine : Type 0 where
  pub namespace : String
  pub name : String
  pub labels : Annotations
  pub annotations : Annotations
  pub provider_ref : ObjectRef
  pub class_ref : ObjectRef
  pub networks : List VmNetworkRef
  pub imported_disk : Option ImportedDiskRef
  pub placement_ref : Option String
  pub id : String
  pub conditions : List Condition

pub record Provider : Type 0 where
  pub namespace : String
  pub name : String
  pub annotations : Annotations
  pub conditions : List Condition

-- `volumes` are the claim names of the volumes that mount a claim; `replicas` is not
-- nil, since the API server sets it to 1 by default.
pub record Deployment : Type 0 where
  pub volumes : List String
  pub replicas : ℕ
  pub updated_replicas : ℕ
  pub ready_replicas : ℕ

-- `ready` is whether the pod has the condition Ready with status True; `containers` are the
-- `Ready` fields of the container statuses.
pub record Pod : Type 0 where
  pub terminating : Bool
  pub volumes : List String
  pub running : Bool
  pub ready : Bool
  pub containers : List Bool

pub record Pvc : Type 0 where
  pub namespace : String
  pub name : String
  pub labels : Annotations
  pub annotations : Annotations
  pub storage_class_name : String
  pub access_mode : String
  pub size : String
  pub owner : String

pub record SnapshotCreateRequest : Type 0 where
  pub vm_id : String
  pub name_hint : String
  pub description : String
  pub include_memory : Bool
  pub quiesce : Bool

-- `task_id` is "" where `Task` is nil.
pub record SnapshotCreateResponse : Type 0 where
  pub snapshot_id : String
  pub task_id : String

pub record ExportDiskRequest : Type 0 where
  pub vm_id : String
  pub disk_id : String
  pub snapshot_id : String
  pub destination_url : String
  pub format : String
  pub compress : Bool

pub record ExportDiskResponse : Type 0 where
  pub export_id : String
  pub task_ref : String
  pub estimated_size_bytes : ℕ
  pub checksum : String

pub record ImportDiskRequest : Type 0 where
  pub source_url : String
  pub storage_hint : String
  pub format : String
  pub target_name : String
  pub verify_checksum : Bool
  pub expected_checksum : String

pub record ImportDiskResponse : Type 0 where
  pub disk_id : String
  pub task_ref : String
  pub actual_size_bytes : ℕ
  pub checksum : String

-- The calls that change something outside the controller, and the events that it records.
pub data Call : Type 0 where
  status_written : Migration → Call
  object_written : Migration → Call
  vm_created vm_updated vm_deleted : VirtualMachine → Call
  provider_updated : Provider → Call
  pvc_created : Pvc → Call
  pvc_deleted : String → String → Call
  snapshot_created : Provider → SnapshotCreateRequest → Call
  snapshot_deleted : Provider → String → String → Call
  disk_exported : Provider → ExportDiskRequest → Call
  disk_imported : Provider → ImportDiskRequest → Call
  file_deleted : String → String → Call
  event : String → String → String → Call

-- Objects are read by namespace and name, and written as a whole. An update returns the resource
-- version that the server gives the object. `resolve` finds the remote instance of a provider.
pub record Api (W : Type 0) : Type 0 where
  pub now : W → ℕ × W
  pub format_time : ℕ → String
  pub sleep : ℕ → W → W
  pub ctx_err : W → Option Fault × W
  pub get_migration : String → String → W → Reply Migration × W
  pub get_vm : String → String → W → Reply VirtualMachine × W
  pub get_provider : String → String → W → Reply Provider × W
  pub get_pvc : String → String → W → Reply Unit × W
  pub get_deployment : String → String → W → Reply Deployment × W
  pub list_pods : Provider → W → Reply (List Pod) × W
  pub update_status : Migration → W → Reply ℕ × W
  pub update : Migration → W → Reply ℕ × W
  pub create_vm : VirtualMachine → W → Reply Unit × W
  pub update_vm : VirtualMachine → W → Reply Unit × W
  pub delete_vm : VirtualMachine → W → Reply Unit × W
  pub update_provider : Provider → W → Reply Unit × W
  pub parse_quantity : String → Reply String
  pub set_owner : Migration → W → Reply Unit × W
  pub create_pvc : Pvc → W → Reply Unit × W
  pub delete_pvc : String → String → W → Reply Unit × W
  pub resolve : Provider → W → Reply Unit × W
  pub is_task_complete : Provider → String → W → Reply Bool × W
  pub task_error : Provider → String → W → Reply String × W
  pub snapshot_create : Provider → SnapshotCreateRequest → W → Reply SnapshotCreateResponse × W
  pub snapshot_delete : Provider → String → String → W → Reply String × W
  pub export_disk : Provider → ExportDiskRequest → W → Reply ExportDiskResponse × W
  pub import_disk : Provider → ImportDiskRequest → W → Reply ImportDiskResponse × W
  pub open_storage : String → String → String → W → Reply Unit × W
  pub delete_file : String → String → W → Reply Unit × W
