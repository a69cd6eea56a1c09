-- ===== src/Execution/Driver.antt =====
-- src/patchloop/execution/driver.py: the projection of a task onto the runtime port's result.
pub mod Loop
use patch_loop.Common.{Bool, Key, Option, false, if◌then◌else◌, none, some, suc, true, zero, ℕ}
use patch_loop.Domain.{Task, TaskOutcome, TaskRuntimeCondition}
use patch_loop.Execution.Leases.{Execution, ExecutionStatus}

pub data AdvanceStatus : Type 0 where
  progressed waiting paused recovery_required completed failed cancelled : AdvanceStatus

abbrev outcome_advance : TaskOutcome → AdvanceStatus
outcome_advance TaskOutcome.active = AdvanceStatus.progressed
outcome_advance TaskOutcome.completed = AdvanceStatus.completed
outcome_advance TaskOutcome.failed = AdvanceStatus.failed
outcome_advance TaskOutcome.cancelled = AdvanceStatus.cancelled

abbrev condition_advance : TaskRuntimeCondition → TaskOutcome → AdvanceStatus
condition_advance TaskRuntimeCondition.waiting_for_approval _ = AdvanceStatus.waiting
condition_advance TaskRuntimeCondition.pausing _ = AdvanceStatus.paused
condition_advance TaskRuntimeCondition.paused _ = AdvanceStatus.paused
condition_advance TaskRuntimeCondition.recovery_required _ = AdvanceStatus.recovery_required
condition_advance _ o = outcome_advance o

unfoldable pub advance_status_for_task : Task → AdvanceStatus
advance_status_for_task t = condition_advance t.runtime_condition t.outcome

unfoldable pub execution_status : AdvanceStatus → ExecutionStatus
execution_status AdvanceStatus.progressed = ExecutionStatus.running
execution_status AdvanceStatus.waiting = ExecutionStatus.waiting_for_approval
execution_status AdvanceStatus.paused = ExecutionStatus.paused
execution_status AdvanceStatus.recovery_required = ExecutionStatus.recovery_required
execution_status AdvanceStatus.completed = ExecutionStatus.completed
execution_status AdvanceStatus.failed = ExecutionStatus.failed
execution_status AdvanceStatus.cancelled = ExecutionStatus.cancelled

-- `RuntimeAdvance`; its checkpoint is opaque.
pub record RuntimeAdvance : Type 0 where
  pub status : AdvanceStatus
  pub task : Task
  pub checkpoint : Key
  pub detail : Key

pub record AdvanceResult : Type 0 where
  pub status : AdvanceStatus
  pub execution : Execution
  pub detail : Key

abbrev pub is_progressed : AdvanceStatus → Bool
is_progressed AdvanceStatus.progressed = true
is_progressed _ = false

-- `RuntimeDriver`, with the state `S` of the world that a boundary is crossed in. `last` is its
-- `_last`.
module _ {S : Type 0} (boundary : S → RuntimeAdvance × S) where
  -- `advance`
  unfoldable pub advance : Execution → S → AdvanceResult × Option RuntimeAdvance × S
  unfolding execution_status
  advance execution s =
      let (outcome, t) = boundary s in
      (
        record {
          status = outcome.status;
          execution = record execution { status = execution_status outcome.status };
          detail = outcome.detail;
        },
        some outcome,
        t,
      )

  -- One round of `run`, and the rest of it.
  abbrev resumed :
      RuntimeAdvance × S
      → (S → Option (Task × Option RuntimeAdvance × S))
      → Option (Task × Option RuntimeAdvance × S)
  resumed (outcome, t) rest =
      if is_progressed outcome.status then rest t else some (outcome.task, some outcome, t)

  -- `run`, on fuel.
  unfoldable pub run : ℕ → S → Option (Task × Option RuntimeAdvance × S)
  run zero s = none
  run (suc n) s = let rest = run n in resumed (boundary s) rest
