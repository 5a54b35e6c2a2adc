-- ===== src/Generate.antt =====
-- api/v1alpha1/opensearch_func.go: the generators of the Kubernetes objects of a cluster.
pub mod Common
pub mod Services
pub mod LoadBalancer
pub mod Ingress
pub mod Budgets
pub mod Wiring
pub mod ConfigMaps
pub mod Builder
pub mod StatefulSets
