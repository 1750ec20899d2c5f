-- ===== src/Migration/Storage/Validation.antt =====
-- internal/controller/vmmigration_controller.go: which storage configurations are valid.
use projectbeskar_virtrigaud.Common.{arith, ◌=t◌, true, false, Option, none, some, ◌≡◌, ◌↔◌, ◌⊎◌}
use projectbeskar_virtrigaud.Migration.Types.{MigrationStorage, PvcStorageConfig}
use projectbeskar_virtrigaud.Migration.Storage.{
  validate_storage_config, validate_pvc, validate_auto_create, is_access_mode,
}

-- What a claim to be created needs: a storage class, a size, and one of three access modes, or "".
pub record IsCreatable (c : PvcStorageConfig) : Type 0 where
  pub has_class : (c.storage_class_name =t "") ≡ false
  pub has_size : (c.size =t "") ≡ false
  pub has_mode :
      ((c.access_mode =t "") ≡ true)
      ⊎ ((c.access_mode =t "ReadWriteOnce") ≡ true)
      ⊎ ((c.access_mode =t "ReadWriteMany") ≡ true)
      ⊎ ((c.access_mode =t "ReadOnlyMany") ≡ true)

-- A configuration of a claim that names one, or describes one to be created.
pub IsValidPvc : Option PvcStorageConfig → Type 0
IsValidPvc none = ⊥
IsValidPvc (some c) = ((c.name =t "") ≡ false) ⊎ IsCreatable c

pub IsValidStorage : MigrationStorage → Type 0
IsValidStorage s = (((s.kind =t "pvc") ≡ true) ⊎ ((s.kind =t "") ≡ true)) × IsValidPvc s.pvc

creatable_lem : (c : PvcStorageConfig) → (validate_auto_create c ≡ none) ↔ IsCreatable c
unfolding validate_auto_create is_access_mode
creatable_lem c = ground arith

pvc_lem : (c : Option PvcStorageConfig) → (validate_pvc c ≡ none) ↔ IsValidPvc c
unfolding validate_pvc IsValidPvc
pvc_lem none = ground arith
pvc_lem (some c) = ground (arith, creatable_lem c)

-- A storage configuration passes the validation exactly if it has the type pvc (or none) and either
-- names a claim (whether it exists is not checked here), or describes one that can be created: with a
-- storage class, a size, and an access mode that is one of the three or is left out.
pub validate_storage_config_lem :
    (s : MigrationStorage) → (validate_storage_config s ≡ none) ↔ IsValidStorage s
unfolding validate_storage_config IsValidStorage
validate_storage_config_lem s = ground (arith, pvc_lem s.pvc)
