-- ===== src/Execution/Leases.antt =====
-- src/patchloop/execution/models.py: `Execution` and `WorkspaceLease`. The creation and update
-- times, which no modelled code reads, are left out.
use patch_loop.Common.{
  ℕ, ◌+◌, Key, Instant, Bool, true, false, not, Option, none, some, if◌then◌else◌,
}

pub data ExecutionStatus : Type 0 where
  claimed running waiting_for_approval paused completed failed cancelled : ExecutionStatus
  recovery_required released : ExecutionStatus

pub record Execution : Type 0 where
  pub id : Key
  pub session_id : Key
  pub task_id : Key
  pub owner_id : Key
  pub lease_token : Key
  pub generation : ℕ
  pub lease_expires_at : Instant
  pub status : ExecutionStatus
  pub version : ℕ

pub record WorkspaceLease : Type 0 where
  pub workspace_id : Key
  pub repository_path : Key
  pub session_id : Key
  pub task_id : Key
  pub execution_id : Key
  pub owner_id : Key
  pub lease_token : Key
  pub generation : ℕ
  pub lease_expires_at : Instant

-- `FakeStore._execution_is_active`, and the statuses that `_assert_guard` lets through.
abbrev pub is_active_status : ExecutionStatus → Bool
is_active_status ExecutionStatus.claimed = true
is_active_status ExecutionStatus.running = true
is_active_status ExecutionStatus.waiting_for_approval = true
is_active_status ExecutionStatus.paused = true
is_active_status _ = false

abbrev pub is_released : ExecutionStatus → Bool
is_released ExecutionStatus.released = true
is_released _ = false

-- The sets of the table, one for each status.
abbrev from_claimed : ExecutionStatus → Bool
from_claimed ExecutionStatus.running = true
from_claimed ExecutionStatus.waiting_for_approval = true
from_claimed ExecutionStatus.paused = true
from_claimed ExecutionStatus.recovery_required = true
from_claimed ExecutionStatus.released = true
from_claimed _ = false

abbrev from_running : ExecutionStatus → Bool
from_running ExecutionStatus.claimed = false
from_running ExecutionStatus.running = false
from_running _ = true

abbrev from_waiting : ExecutionStatus → Bool
from_waiting ExecutionStatus.running = true
from_waiting ExecutionStatus.paused = true
from_waiting ExecutionStatus.cancelled = true
from_waiting ExecutionStatus.recovery_required = true
from_waiting ExecutionStatus.released = true
from_waiting _ = false

abbrev from_paused : ExecutionStatus → Bool
from_paused ExecutionStatus.running = true
from_paused ExecutionStatus.cancelled = true
from_paused ExecutionStatus.released = true
from_paused _ = false

unfoldable pub allowed : ExecutionStatus → ExecutionStatus → Bool
allowed ExecutionStatus.claimed target = from_claimed target
allowed ExecutionStatus.running target = from_running target
allowed ExecutionStatus.waiting_for_approval target = from_waiting target
allowed ExecutionStatus.paused target = from_paused target
allowed ExecutionStatus.recovery_required target = is_released target
allowed _ target = false

unfoldable pub transition : ExecutionStatus → Execution → Option Execution
unfolding allowed
transition target e =
    if not (allowed e.status target)
    then none
    else some (record e { status = target; version = e.version + 1 })
