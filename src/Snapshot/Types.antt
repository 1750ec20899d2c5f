-- ===== src/Snapshot/Types.antt =====
-- api/infra.virtrigaud.io/v1beta1/vmsnapshot_types.go: the fields of a snapshot that its controller
-- reads or writes. A pointer that may be nil is an `Option`.
use projectbeskar_virtrigaud.Common.{ℕ, ℤ, String, Bool, Option, List}
use projectbeskar_virtrigaud.Conditions.Condition.{Condition}

-- `unset` is the empty phase of a new object, `custom` any text that is none of the constants.
pub data SnapshotPhase : Type 0 where
  unset pending creating ready deleting failed expired : SnapshotPhase
  custom : String → SnapshotPhase

pub record SnapshotConfig : Type 0 where
  pub name : String
  pub description : String
  pub include_memory : Bool
  pub quiesce : Bool

-- `max_age` in nanoseconds.
pub record SnapshotRetentionPolicy : Type 0 where
  pub max_age : Option ℤ
  pub delete_on_vm_delete : Bool

pub record VmSnapshotSpec : Type 0 where
  pub vm_ref : String
  pub snapshot_config : Option SnapshotConfig
  pub retention_policy : Option SnapshotRetentionPolicy

pub record VmSnapshotStatus : Type 0 where
  pub snapshot_id : String
  pub phase : SnapshotPhase
  pub message : String
  pub creation_time : Option ℕ
  pub task_ref : String
  pub conditions : List Condition

-- `deleting` is whether there is a deletion timestamp.
pub record VmSnapshot : Type 0 where
  pub namespace : String
  pub name : String
  pub deleting : Bool
  pub finalizers : List String
  pub spec : VmSnapshotSpec
  pub status : VmSnapshotStatus
