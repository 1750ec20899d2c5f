-- ===== src/Storage.antt =====
-- internal/storage: the client of the storage that migrations write disks to.
pub mod Types
pub mod Copy
pub mod Path
pub mod Pvc
