-- ===== src/Conditions.antt =====
-- The two packages of the repository that edit lists of Kubernetes conditions: `Api` is
-- internal/k8s/conditions.go and `Util` is internal/util/k8s/conditions.go.
pub mod Condition
pub mod Api
pub mod Util
