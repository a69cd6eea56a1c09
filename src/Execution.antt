-- ===== src/Execution.antt =====
-- src/patchloop/execution: ownership, effects, approvals, control requests and recovery.
pub mod Leases
pub mod Effects
pub mod Approvals
pub mod Controls
pub mod Driver
pub mod Recovery
pub mod Commands
