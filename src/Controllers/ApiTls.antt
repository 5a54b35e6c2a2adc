-- ===== src/Controllers/ApiTls.antt =====
-- controllers/opensearch_controller_api_tls.go: the steps of `OpensearchApiTlsReconciler` on the
-- secret of the API.
pub mod Steps
pub mod Outcomes
pub mod Runs
pub mod Assertions
pub mod Status
pub mod Settled
