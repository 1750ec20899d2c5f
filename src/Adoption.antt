-- ===== src/Adoption.antt =====
-- internal/controller/vmadoption_controller.go: virtual machines that a provider has already become
-- objects of the operator.
pub mod Types
pub mod Names
pub mod Filter
pub mod Discovery
pub mod Adopting
pub mod Reconcile
pub mod Allowed
pub mod Sample
