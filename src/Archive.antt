-- ===== src/Archive.antt =====
-- The archive tier: the object-store port and its in-memory implementation (src/ports/storage.rs),
-- and the fenced cutover (src/application/durable_archive.rs).
pub mod Port
pub mod Memory
pub mod Generations
pub mod Coordinator
pub mod Cutover
