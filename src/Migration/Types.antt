-- ===== src/Migration/Types.antt =====
-- api/infra.virtrigaud.io/v1beta1/vmmigration_types.go: the fields of a migration that the
-- controller reads or writes. A pointer that may be nil is an `Option`.
use projectbeskar_virtrigaud.Common.{ℕ, String, Bool, Option, none, List, []}
use projectbeskar_virtrigaud.Conditions.Condition.{Condition}

-- `unset` is the empty phase of a new object, `custom` any text that is none of the constants.
pub data MigrationPhase : Type 0 where
  unset pending validating snapshotting exporting transferring converting : MigrationPhase
  importing creating validating_target ready failed : MigrationPhase
  custom : String → MigrationPhase

pub record ObjectRef : Type 0 where
  pub name : String
  pub namespace : String

pub record VmNetworkRef : Type 0 where
  pub name : String
  pub network_ref : Option ObjectRef
  pub ip_address : String
  pub prefix : ℕ
  pub gateway : String
  pub dns : String
  pub mac_address : String

pub record MigrationSource : Type 0 where
  pub vm_name : String
  pub provider_ref : Option ObjectRef
  pub snapshot_ref : Option String
  pub create_snapshot : Bool
  pub delete_after_migration : Bool

pub record MigrationTarget : Type 0 where
  pub name : String
  pub namespace : String
  pub provider_ref : ObjectRef
  pub class_ref : Option String
  pub networks : List VmNetworkRef
  pub placement_ref : Option String
  pub labels : List (String × String)
  pub annotations : List (String × String)

-- `retry_delay` and `backoff_multiplier` are 64-bit patterns: the `time.Duration`, and the `int32`
-- as the code converts it to one.
pub record MigrationRetryPolicy : Type 0 where
  pub max_retries : Option ℕ
  pub retry_delay : Option ℕ
  pub backoff_multiplier : Option ℕ

pub record MigrationOptions : Type 0 where
  pub disk_format : String
  pub compress : Bool
  pub verify_checksums : Bool
  pub retry_policy : Option MigrationRetryPolicy

pub record PvcStorageConfig : Type 0 where
  pub name : String
  pub storage_class_name : String
  pub size : String
  pub access_mode : String
  pub mount_path : String

-- `kind` is the field `Type`.
pub record MigrationStorage : Type 0 where
  pub kind : String
  pub pvc : Option PvcStorageConfig

pub record MigrationSpec : Type 0 where
  pub source : MigrationSource
  pub target : MigrationTarget
  pub options : Option MigrationOptions
  pub storage : Option MigrationStorage

pub record MigrationDiskInfo : Type 0 where
  pub source_disk_id : String
  pub source_format : String
  pub target_disk_id : String
  pub target_format : String
  pub source_checksum : String
  pub target_checksum : String

abbrev pub no_disk_info : MigrationDiskInfo
no_disk_info = record {
  source_disk_id = "";
  source_format = "";
  target_disk_id = "";
  target_format = "";
  source_checksum = "";
  target_checksum = "";
}

-- `cleaned_up` is the field of the `StorageInfo`, none where that is nil.
pub record MigrationStatus : Type 0 where
  pub phase : MigrationPhase
  pub message : String
  pub snapshot_id : String
  pub export_id : String
  pub import_id : String
  pub task_ref : String
  pub target_vm_id : String
  pub start_time : Option ℕ
  pub completion_time : Option ℕ
  pub disk_info : Option MigrationDiskInfo
  pub cleaned_up : Option Bool
  pub storage_pvc_name : String
  pub conditions : List Condition
  pub retry_count : ℕ
  pub last_retry_time : Option ℕ

pub record Migration : Type 0 where
  pub namespace : String
  pub name : String
  pub uid : String
  pub resource_version : ℕ
  pub deleting : Bool
  pub finalizers : List String
  pub spec : MigrationSpec
  pub status : MigrationStatus

-- The status before the controller first writes it.
abbrev pub new_status : MigrationStatus
new_status = record {
  phase = unset;
  message = "";
  snapshot_id = "";
  export_id = "";
  import_id = "";
  task_ref = "";
  target_vm_id = "";
  start_time = none;
  completion_time = none;
  disk_info = none;
  cleaned_up = none;
  storage_pvc_name = "";
  conditions = [];
  retry_count = 0;
  last_retry_time = none;
}
