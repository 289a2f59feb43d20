-- ===== src/Object.antt =====
-- src/adapters/opendal_store.rs: the archive store that keeps immutable objects in an object store,
-- each payload described by a manifest whose key carries its checksum.
pub mod Port
pub mod Config
pub mod Errors
pub mod Keys
pub mod Results
pub mod Columns
pub mod Manifest
pub mod Adapter
pub mod Outcomes
pub mod Evidence
pub mod Durable
pub mod Faithful
