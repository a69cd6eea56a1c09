-- ===== src/Domain/Calls.antt =====
-- Any sequence of calls of `transition`, `transition_runtime` and `set_outcome` of `Task`
-- (src/patchloop/domain.py), by a caller that catches the `ValueError` of a refused one.
use patch_loop.Common.{
  Key, ◌≡◌, refl, ◌⊎◌, inl, inr, false, Option, none, some, List, [], ◌∷◌, arith,
}
use patch_loop.Domain.{
  Task, TaskStatus, TaskOutcome, TaskRuntimeCondition, is_active, transition, transition_runtime,
  set_outcome,
}
use patch_loop.Domain.Lifecycle.{
  IsCoherent, transition-IsCoherent, set_outcome-IsCoherent, transition_runtime-IsCoherent,
  transition_terminal, set_outcome_terminal, transition_runtime_terminal,
}

pub data Call : Type 0 where
  transits : TaskStatus → Option Key → Call
  transits_runtime : TaskRuntimeCondition → Call
  sets_outcome : TaskOutcome → Option Key → Call

unfoldable pub apply : Call → Task → Option Task
apply (transits s m) t = transition s m t
apply (transits_runtime c) t = transition_runtime c t
apply (sets_outcome o m) t = set_outcome o m t

-- A refused call raises before it writes.
abbrev pub or_same : Task → Option Task → Task
or_same t none = t
or_same t (some u) = u

unfoldable pub run : List Call → Task → Task
run [] t = t
run (c ∷ cs) t = run cs (or_same t (apply c t))

apply-IsCoherent : (c : Call) (t : Task) → IsCoherent t → IsCoherent (or_same t (apply c t))
unfolding apply
apply-IsCoherent (transits s m) t h = grind (arith, transition-IsCoherent)
apply-IsCoherent (transits_runtime c) t h = grind (arith, transition_runtime-IsCoherent)
apply-IsCoherent (sets_outcome o m) t h = grind (arith, set_outcome-IsCoherent)

-- Whatever transitions are called on a task that passes the model's cross-field check, in any
-- order, with refusals caught, the task still passes it.
pub run-IsCoherent : (cs : List Call) (t : Task) → IsCoherent t → IsCoherent (run cs t)
unfolding run
run-IsCoherent [] t h = h
run-IsCoherent (c ∷ cs) t h = run-IsCoherent cs (or_same t (apply c t)) (apply-IsCoherent c t h)

apply_terminal :
    (c : Call) (t : Task) → IsCoherent t → is_active t.outcome ≡ false → apply c t ≡ none
unfolding apply
apply_terminal (transits s m) t h e = transition_terminal s m t h e
apply_terminal (transits_runtime c) t h e = transition_runtime_terminal c t h e
apply_terminal (sets_outcome o m) t h e = set_outcome_terminal o m t e

-- Once its outcome is terminal, a task that passes the cross-field check is frozen: every later
-- sequence of transition calls is refused whole and leaves the task exactly as it was.
pub run_terminal :
    (cs : List Call) (t : Task) → IsCoherent t → is_active t.outcome ≡ false → run cs t ≡ t
unfolding run
run_terminal [] t h e = refl
run_terminal (c ∷ cs) t h e = rw (apply_terminal c t h e) (run_terminal cs t h e)

-- The calls that end a task by its legacy status, which forget a pending recovery.
abbrev pub Forgets : Call → Type 0
Forgets c =
    ((m : Option Key) × (c ≡ transits TaskStatus.completed m))
    ⊎ ((m : Option Key) × (c ≡ transits TaskStatus.failed m))
    ⊎ ((m : Option Key) × (c ≡ transits TaskStatus.running m))

-- A task that requires recovery is left in that condition by every call but one of
-- transition(completed), transition(failed) and transition(running).
pub apply_recovery :
    (c : Call) (t : Task) {u : Task}
    → t.runtime_condition ≡ TaskRuntimeCondition.recovery_required
    → apply c t ≡ some u
    → (u.runtime_condition ≡ TaskRuntimeCondition.recovery_required) ⊎ Forgets c
unfolding apply transition transition_runtime set_outcome
apply_recovery (transits TaskStatus.created m) t e h = ground arith
apply_recovery (transits TaskStatus.running m) t e h = inr (inr (inr (m, refl)))
apply_recovery (transits TaskStatus.completed m) t e h = inr (inl (m, refl))
apply_recovery (transits TaskStatus.failed m) t e h = inr (inr (inl (m, refl)))
apply_recovery (transits TaskStatus.cancelled m) t e h = inl (ground arith)
apply_recovery (transits_runtime c) t e h = ground arith
apply_recovery (sets_outcome o m) t e h = inl (ground arith)

-- On a running task that requires recovery, transition(completed) is accepted and ends it, where
-- set_outcome(completed) keeps the recovery pending; they agree in all else.
pub completed_forgets_recovery :
    (t : Task) (m : Option Key)
    → t.status ≡ TaskStatus.running
    → t.outcome ≡ TaskOutcome.active
    → t.runtime_condition ≡ TaskRuntimeCondition.recovery_required
    → (u v : Task) × (apply (transits TaskStatus.completed m) t ≡ some u)
      × (apply (sets_outcome TaskOutcome.completed m) t ≡ some v)
      × (u.runtime_condition ≡ TaskRuntimeCondition.ended)
      × (v ≡ record u { runtime_condition = TaskRuntimeCondition.recovery_required })
unfolding apply transition set_outcome
completed_forgets_recovery t m s o c = (
  record t {
    status = TaskStatus.completed;
    outcome = TaskOutcome.completed;
    runtime_condition = TaskRuntimeCondition.ended;
    result = m;
  },
  record t {
    status = TaskStatus.completed;
    outcome = TaskOutcome.completed;
    runtime_condition = TaskRuntimeCondition.recovery_required;
    result = m;
  },
  ground arith,
  ground arith,
  refl,
  refl,
)
