-- ===== src/Cache.antt =====
-- src/adapters/immutable_archive_cache.rs: a bounded cache of archive reads in front of another
-- archive store.
pub mod State
pub mod Adapter
pub mod Bounds
