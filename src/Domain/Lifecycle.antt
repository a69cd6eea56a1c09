-- ===== src/Domain/Lifecycle.antt =====
-- What the transitions of `Task` (src/patchloop/domain.py) keep, one call at a time.
use patch_loop.Common.{Key, ◌≡◌, true, false, Option, none, some, arith}
use patch_loop.Domain.{
  Task, TaskStatus, TaskOutcome, TaskRuntimeCondition, is_active, validate_state_dimensions,
  transition, transition_runtime, set_outcome, project_legacy_status,
}

-- The cross-field check of the model class.
abbrev pub IsCoherent : Task → Type 0
IsCoherent t = validate_state_dimensions t ≡ true

pub transition-IsCoherent :
    (target : TaskStatus) (m : Option Key) (t : Task) {u : Task}
    → transition target m t ≡ some u
    → IsCoherent u
unfolding transition validate_state_dimensions
transition-IsCoherent target m t h = ground arith

pub set_outcome-IsCoherent :
    (target : TaskOutcome) (m : Option Key) (t : Task) {u : Task}
    → set_outcome target m t ≡ some u
    → IsCoherent u
unfolding set_outcome validate_state_dimensions
set_outcome-IsCoherent target m t h = ground arith

pub transition_runtime-IsCoherent :
    (target : TaskRuntimeCondition) (t : Task) {u : Task}
    → IsCoherent t
    → transition_runtime target t ≡ some u
    → IsCoherent u
unfolding transition_runtime validate_state_dimensions
transition_runtime-IsCoherent target t c h = ground arith

pub transition_terminal :
    (target : TaskStatus) (m : Option Key) (t : Task)
    → IsCoherent t
    → is_active t.outcome ≡ false
    → transition target m t ≡ none
unfolding transition validate_state_dimensions
transition_terminal target m t c e = ground arith

pub set_outcome_terminal :
    (target : TaskOutcome) (m : Option Key) (t : Task)
    → is_active t.outcome ≡ false
    → set_outcome target m t ≡ none
unfolding set_outcome
set_outcome_terminal target m t e = ground arith

pub transition_runtime_terminal :
    (target : TaskRuntimeCondition) (t : Task)
    → IsCoherent t
    → is_active t.outcome ≡ false
    → transition_runtime target t ≡ none
unfolding transition_runtime validate_state_dimensions
transition_runtime_terminal target t c e = ground arith

-- A task stored with its status alone, or without one, is given dimensions that pass the model's
-- own check.
pub project_legacy_status-IsCoherent :
    (raw : Option TaskStatus) (t : Task)
    → let (s, o, c) = project_legacy_status raw none none in
      IsCoherent (record t { status = s; outcome = o; runtime_condition = c })
unfolding project_legacy_status validate_state_dimensions
project_legacy_status-IsCoherent raw t = ground arith
