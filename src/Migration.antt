-- ===== src/Migration.antt =====
-- internal/controller/vmmigration_controller.go: the controller that moves a virtual machine from
-- one provider to another.
pub mod Types
pub mod Cluster
pub mod Store
pub mod Edges
pub mod Storage
pub mod Waiting
pub mod Preparing
pub mod Moving
pub mod Target
pub mod Cleanup
pub mod Retry
pub mod Deletion
pub mod Reconcile
pub mod Sample
