-- ===== src/Services.antt =====
-- The services over the store: src/patchloop/execution/ownership.py and its likes.
pub mod Ownership
pub mod Upkeep
pub mod Approvals
pub mod Recovery
