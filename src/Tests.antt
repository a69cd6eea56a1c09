-- ===== src/Tests.antt =====
-- Tests of the code's functions, and the theorems at concrete inputs.
mod Leases
mod Tasks
mod Effects
mod Approvals
mod Cache
mod Memory
mod Ownership
mod Driver
mod Journal
mod Lifecycle
mod Recovery
