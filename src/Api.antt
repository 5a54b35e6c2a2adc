-- ===== src/Api.antt =====
-- api/: the custom resource and what is computed from it.
pub mod Kubernetes
pub mod Types
pub mod Names
pub mod Compute
