-- ===== src/Controllers.antt =====
-- controllers/: the reconcilers of the TLS secrets.
pub mod State
pub mod Shared
pub mod Phases
pub mod TransportTls
pub mod ApiTls
pub mod Conditions
