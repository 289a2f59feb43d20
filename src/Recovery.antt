-- ===== src/Recovery.antt =====
-- src/application/durable_archive_recovery.rs: one recovery cycle of the archiver.
pub mod Config
pub mod Runner
pub mod Accounts
