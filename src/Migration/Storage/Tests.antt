-- ===== src/Migration/Storage/Tests.antt =====
-- internal/controller/vmmigration_controller.go: sample storage configurations.
use projectbeskar_virtrigaud.Common.{refl, ◌≡◌, ◌↔◌, none, some}
use projectbeskar_virtrigaud.Migration.Types.{MigrationStorage}
use projectbeskar_virtrigaud.Migration.Storage.{validate_storage_config}
use projectbeskar_virtrigaud.Migration.Storage.Validation.{
  IsValidStorage, validate_storage_config_lem,
}

abbrev created_claim : MigrationStorage
created_claim = record {
  kind = "pvc";
  pvc = some (record {
    name = "";
    storage_class_name = "fast";
    size = "10Gi";
    access_mode = "ReadWriteMany";
    mount_path = "";
  });
}

validate_storage_config_lem_example :
    (validate_storage_config created_claim ≡ none) ↔ IsValidStorage created_claim
validate_storage_config_lem_example = validate_storage_config_lem created_claim

created_claim_valid : validate_storage_config created_claim ≡ none
unfolding validate_storage_config
created_claim_valid = refl
