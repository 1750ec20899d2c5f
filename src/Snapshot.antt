-- ===== src/Snapshot.antt =====
-- internal/controller/vmsnapshot_controller.go: the VMSnapshot controller.
pub mod Types
pub mod Cluster
pub mod Creation
pub mod Removal
pub mod Reconcile
pub mod Steps
