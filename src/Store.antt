-- ===== src/Store.antt =====
-- src/ports/storage.rs: the durable bucket store of the port, and its in-memory implementation.
pub mod State
pub mod Memory
pub mod Lifecycle
pub mod History
pub mod Outcomes
pub mod Fencing
pub mod Superseded
pub mod Invariant
pub mod Ownership
pub mod Discovery
pub mod Claims
pub mod Due
