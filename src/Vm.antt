-- ===== src/Vm.antt =====
-- internal/controller/virtualmachine_controller.go and cloudinit.go: the VirtualMachine controller.
pub mod Types
pub mod Contracts
pub mod Cluster
pub mod CloudInit
pub mod Request
pub mod Resources
pub mod Dependencies
pub mod Create
pub mod Deletion
pub mod Reconcile
pub mod Allowed
pub mod Sample
