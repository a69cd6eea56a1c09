-- ===== src/Tests/Memory.antt =====
-- The theorems on the memory's shares at concrete inputs.
use patch_loop.Memory.Budget.{ℤ, Shares, allocate, allocate-Shares}
use patch_loop.Common.{some}

allocate-Shares_example : Shares 1000 (some (ℤ.pos 100)) (allocate 1000 (some (ℤ.pos 100)))
allocate-Shares_example = allocate-Shares 1000 (some (ℤ.pos 100))
