-- ===== src/Domain.antt =====
-- src/domain: records, buckets and table definitions.
pub mod Model
pub mod Calendar
pub mod Buckets
pub mod Schema
pub mod Definitions
