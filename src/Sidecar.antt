-- ===== src/Sidecar.antt =====
-- src/bin/sql_sidecar_security.rs: who may connect to the SQL sidecar.
pub mod Security
pub mod Password
