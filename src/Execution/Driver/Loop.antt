-- ===== src/Execution/Driver/Loop.antt =====
-- The loop of `RuntimeDriver.run` (src/patchloop/execution/driver.py).
use patch_loop.Domain.{Task}
use patch_loop.Execution.Driver.{
  execution_status, resumed, AdvanceResult, RuntimeAdvance, advance, is_progressed, run,
}
use patch_loop.Execution.Leases.{Execution}
use patch_loop.Common.{refl, Option, arith, if◌then◌else◌, none, some, suc, zero, ℕ, ◌≡◌}

module _ {S : Type 0} (boundary : S → RuntimeAdvance × S) where
  -- A caller that calls `advance` until it does not report progress, with the number of calls.
  unfoldable pub advance_until :
      Execution → ℕ → S → Option (AdvanceResult × Option RuntimeAdvance × S)
  unfolding advance
  advance_until e zero s = none
  advance_until e (suc n) s =
      let rest = advance_until e n in
      let (result, last, t) = advance boundary e s in
      if is_progressed result.status then rest t else some (result, last, t)

  -- The driver and the world that either leaves.
  abbrev pub left :
      {A : Type 0} → Option (A × Option RuntimeAdvance × S) → Option (Option RuntimeAdvance × S)
  left none = none
  left (some (a, last, t)) = some (last, t)

  resumed-left :
      (e : Execution) (p : RuntimeAdvance × S) (f : S → Option (Task × Option RuntimeAdvance × S))
      (g : S → Option (AdvanceResult × Option RuntimeAdvance × S))
      → ((t : S) → left (f t) ≡ left (g t))
      → left (resumed boundary p f)
        ≡ left (
            if is_progressed p.0.status
            then g p.1
            else some (
              record {
                status = p.0.status;
                execution = record e { status = execution_status p.0.status };
                detail = p.0.detail;
              },
              some p.0,
              p.1,
            ))
  resumed-left e (o, t) f g h = ground (arith, h t)

  -- On the same fuel, run and a caller that calls advance until it does not report progress both
  -- end or both do not, with the same last outcome and the same world.
  pub run-advance_until :
      (e : Execution) (n : ℕ) (s : S) → left (run boundary n s) ≡ left (advance_until e n s)
  unfolding run advance_until advance
  run-advance_until e zero s = refl
  run-advance_until e (suc n) s =
      resumed-left e (boundary s) (run boundary n) (advance_until e n) (run-advance_until e n)
