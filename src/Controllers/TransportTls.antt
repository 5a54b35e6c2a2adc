-- ===== src/Controllers/TransportTls.antt =====
-- controllers/opensearch_controller_transport_tls.go: the steps of
-- `OpensearchTransportTlsReconciler` on the secret of the transport layer.
pub mod Secrets
pub mod Steps
pub mod Handover
pub mod Creation
pub mod Renewal
pub mod Keys
pub mod NewNodes
pub mod Additions
pub mod Loading
pub mod Rounds
pub mod Convergence
pub mod Pods
pub mod Runs
pub mod Assertions
