-- ===== src/Domain.antt =====
-- src/patchloop/domain.py: the task, its three state dimensions and their transitions.
-- A `ValueError` is `none`, and a method that mutates the task returns the new one. The fields that
-- no modelled code reads (goal, budget, execution, plan, report, timestamps) stand in one opaque
-- `body`.
pub mod Lifecycle
pub mod Calls
pub mod Tools
use patch_loop.Common.{
  ℕ, Key, Bool, true, false, not, ◌&&◌, ◌||◌, Option, none, some, if◌then◌else◌,
}

pub data TaskStatus : Type 0 where
  created running completed failed cancelled : TaskStatus

pub data TaskOutcome : Type 0 where
  active completed failed cancelled : TaskOutcome

pub data TaskRuntimeCondition : Type 0 where
  idle running pausing paused waiting_for_approval recovery_required ended : TaskRuntimeCondition

pub record Task : Type 0 where
  pub id : Key
  pub repository : Key
  pub session_id : Option Key
  pub status : TaskStatus
  pub outcome : TaskOutcome
  pub runtime_condition : TaskRuntimeCondition
  pub version : ℕ
  pub result : Option Key
  pub error : Option Key
  pub body : Key

-- The tests `x is MEMBER`.
abbrev pub is_active : TaskOutcome → Bool
is_active TaskOutcome.active = true
is_active _ = false

abbrev pub is_running : TaskRuntimeCondition → Bool
is_running TaskRuntimeCondition.running = true
is_running _ = false

abbrev pub is_recovery : TaskRuntimeCondition → Bool
is_recovery TaskRuntimeCondition.recovery_required = true
is_recovery _ = false

abbrev pub awaits_approval : TaskRuntimeCondition → Bool
awaits_approval TaskRuntimeCondition.waiting_for_approval = true
awaits_approval _ = false

abbrev pub same_outcome : TaskOutcome → TaskOutcome → Bool
same_outcome TaskOutcome.active TaskOutcome.active = true
same_outcome TaskOutcome.completed TaskOutcome.completed = true
same_outcome TaskOutcome.failed TaskOutcome.failed = true
same_outcome TaskOutcome.cancelled TaskOutcome.cancelled = true
same_outcome _ _ = false

-- `project_legacy_status`: the dimensions that a task stored with a status alone is given.
unfoldable pub project_outcome : TaskStatus → TaskOutcome
project_outcome TaskStatus.created = TaskOutcome.active
project_outcome TaskStatus.running = TaskOutcome.active
project_outcome TaskStatus.completed = TaskOutcome.completed
project_outcome TaskStatus.failed = TaskOutcome.failed
project_outcome TaskStatus.cancelled = TaskOutcome.cancelled

unfoldable pub project_condition : TaskStatus → TaskRuntimeCondition
project_condition TaskStatus.created = TaskRuntimeCondition.idle
project_condition TaskStatus.running = TaskRuntimeCondition.running
project_condition TaskStatus.completed = TaskRuntimeCondition.ended
project_condition TaskStatus.failed = TaskRuntimeCondition.ended
project_condition TaskStatus.cancelled = TaskRuntimeCondition.ended

or_outcome : Option TaskOutcome → TaskStatus → TaskOutcome
or_outcome none s = project_outcome s
or_outcome (some o) _ = o

or_condition : Option TaskRuntimeCondition → TaskStatus → TaskRuntimeCondition
or_condition none s = project_condition s
or_condition (some c) _ = c

or_created : Option TaskStatus → TaskStatus
or_created none = TaskStatus.created
or_created (some s) = s

-- The dimensions of the stored record, each given if the record has it.
pub project_legacy_status :
    Option TaskStatus
    → Option TaskOutcome
    → Option TaskRuntimeCondition
    → TaskStatus × TaskOutcome × TaskRuntimeCondition
unfolding or_outcome or_condition or_created project_outcome project_condition
project_legacy_status raw o c =
    let status = or_created raw in (status, or_outcome o status, or_condition c status)

abbrev pub projects_to : TaskOutcome → TaskStatus → Bool
projects_to TaskOutcome.active TaskStatus.created = true
projects_to TaskOutcome.active TaskStatus.running = true
projects_to TaskOutcome.completed TaskStatus.completed = true
projects_to TaskOutcome.failed TaskStatus.failed = true
projects_to TaskOutcome.cancelled TaskStatus.cancelled = true
projects_to _ _ = false

abbrev pub is_final : TaskRuntimeCondition → Bool
is_final TaskRuntimeCondition.ended = true
is_final TaskRuntimeCondition.recovery_required = true
is_final _ = false

-- `validate_state_dimensions`: false where it raises.
unfoldable pub validate_state_dimensions : Task → Bool
validate_state_dimensions t =
    projects_to t.outcome t.status && (is_active t.outcome || is_final t.runtime_condition)

abbrev pub allowed_status : TaskStatus → TaskStatus → Bool
allowed_status TaskStatus.created TaskStatus.running = true
allowed_status TaskStatus.created TaskStatus.cancelled = true
allowed_status TaskStatus.running TaskStatus.completed = true
allowed_status TaskStatus.running TaskStatus.failed = true
allowed_status TaskStatus.running TaskStatus.cancelled = true
allowed_status _ _ = false

next_condition : TaskStatus → TaskRuntimeCondition → TaskRuntimeCondition
next_condition TaskStatus.running _ = TaskRuntimeCondition.running
next_condition TaskStatus.cancelled TaskRuntimeCondition.recovery_required =
    TaskRuntimeCondition.recovery_required
next_condition _ _ = TaskRuntimeCondition.ended

-- The message of a task that ends goes to `result` or to `error`.
record_message : TaskOutcome → Option Key → Task → Task
record_message TaskOutcome.completed message t = record t { result = message }
record_message TaskOutcome.failed message t = record t { error = message }
record_message _ message t = t

unfoldable pub transition : TaskStatus → Option Key → Task → Option Task
unfolding next_condition record_message project_outcome
transition target message t =
    if not (allowed_status t.status target)
    then none
    else some (
        record_message (project_outcome target) message (record t {
          status = target;
          outcome = project_outcome target;
          runtime_condition = next_condition target t.runtime_condition;
        }))

abbrev pub allowed_condition : TaskRuntimeCondition → TaskRuntimeCondition → Bool
allowed_condition TaskRuntimeCondition.idle TaskRuntimeCondition.running = true
allowed_condition TaskRuntimeCondition.idle TaskRuntimeCondition.paused = true
allowed_condition TaskRuntimeCondition.idle TaskRuntimeCondition.ended = true
allowed_condition TaskRuntimeCondition.running TaskRuntimeCondition.pausing = true
allowed_condition TaskRuntimeCondition.running TaskRuntimeCondition.waiting_for_approval = true
allowed_condition TaskRuntimeCondition.running TaskRuntimeCondition.recovery_required = true
allowed_condition TaskRuntimeCondition.running TaskRuntimeCondition.ended = true
allowed_condition TaskRuntimeCondition.pausing TaskRuntimeCondition.paused = true
allowed_condition TaskRuntimeCondition.pausing TaskRuntimeCondition.recovery_required = true
allowed_condition TaskRuntimeCondition.paused TaskRuntimeCondition.running = true
allowed_condition TaskRuntimeCondition.paused TaskRuntimeCondition.ended = true
allowed_condition TaskRuntimeCondition.waiting_for_approval TaskRuntimeCondition.idle = true
allowed_condition TaskRuntimeCondition.waiting_for_approval TaskRuntimeCondition.running = true
allowed_condition TaskRuntimeCondition.waiting_for_approval TaskRuntimeCondition.paused = true
allowed_condition TaskRuntimeCondition.waiting_for_approval TaskRuntimeCondition.recovery_required =
    true
allowed_condition TaskRuntimeCondition.waiting_for_approval TaskRuntimeCondition.ended = true
allowed_condition _ _ = false

unfoldable pub transition_runtime : TaskRuntimeCondition → Task → Option Task
transition_runtime target t =
    if not (allowed_condition t.runtime_condition target)
    then none
    else some (record t { runtime_condition = target })

-- The status that a terminal outcome is stored with; the dictionary has no entry for `active`,
-- which is refused before it is read.
outcome_status : TaskOutcome → TaskStatus
outcome_status TaskOutcome.completed = TaskStatus.completed
outcome_status TaskOutcome.failed = TaskStatus.failed
outcome_status TaskOutcome.cancelled = TaskStatus.cancelled
outcome_status TaskOutcome.active = TaskStatus.running

unfoldable pub set_outcome : TaskOutcome → Option Key → Task → Option Task
unfolding outcome_status record_message
set_outcome target message t =
    if is_active target
    then none
    else if not (is_active t.outcome)
    then none
    else some (
        record_message target message (record t {
          outcome = target;
          status = outcome_status target;
          runtime_condition =
              if is_recovery t.runtime_condition
              then t.runtime_condition
              else TaskRuntimeCondition.ended;
        }))
