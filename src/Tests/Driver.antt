-- ===== src/Tests/Driver.antt =====
-- The theorems on the driver's loop, with a boundary that counts down.
use patch_loop.Execution.Driver.{run}
use patch_loop.Execution.Driver.{AdvanceStatus, RuntimeAdvance}
use patch_loop.Execution.Driver.Loop.{advance_until, left, run-advance_until}
use patch_loop.Common.{suc, zero, ◌≡◌, ℕ}
use patch_loop.Samples.{execution, task}

abbrev reaches : AdvanceStatus → ℕ → RuntimeAdvance × ℕ
reaches status n = (record { status = status; task = task; checkpoint = n; detail = 0 }, n)

abbrev count_down : ℕ → RuntimeAdvance × ℕ
count_down zero = reaches AdvanceStatus.completed 0
count_down (suc n) = reaches AdvanceStatus.progressed n

run-advance_until_example :
    left count_down (run count_down 4 3) ≡ left count_down (advance_until count_down execution 4 3)
run-advance_until_example = run-advance_until count_down execution 4 3
