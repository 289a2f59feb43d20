-- ===== src/Cockroach.antt =====
-- src/adapters/cockroach_durable.rs and src/adapters/cockroach_schema.rs: the durable bucket store
-- on two CockroachDB tables.
pub mod Tables
pub mod Statements
pub mod Bodies
pub mod Transaction
pub mod Atomic
pub mod Backoff
pub mod Operations
pub mod Reads
pub mod Entries
pub mod Refinement
pub mod AppendSteps
pub mod CleanupSteps
pub mod History
pub mod Checks
pub mod Routing
pub mod Sound
pub mod RouteBound
pub mod Migrations
pub mod Planning
pub mod Planned
