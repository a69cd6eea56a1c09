-- ===== src/Memory.antt =====
-- src/patchloop/memory: the shares of the context that memory may take.
pub mod Budget
