-- ===== src/Store.antt =====
-- src/patchloop/persistence_contracts.py: `FakeStore`, the executable form of the persistence
-- contract that the SQLite store is tested against.
pub mod Lifecycle
pub mod State
pub mod Journal
pub mod Leases
pub mod Writers
pub mod Tasks
pub mod Effects
pub mod Settlement
pub mod Preparation
pub mod Batches
pub mod Commands
pub mod Approvals
pub mod Controls
pub mod Recovery
