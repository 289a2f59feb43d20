-- ===== src/Table.antt =====
-- src/application/durable_table.rs: the fenced router of writes and reads.
pub mod Read
pub mod Join
pub mod Query
pub mod Append
