-- ===== src/Execution/Recovery/Targets.antt =====
-- The condition that a recovery disposition leads to (`validate_recovery_resolution` of
-- src/patchloop/execution/recovery.py).
use patch_loop.Execution.Approvals.{Approval}
use patch_loop.Contracts.{Error, Result, err, value_error, ok}
use patch_loop.Execution.Effects.{is_require, Effect, Hashing, is_unknown}
use patch_loop.Domain.{is_recovery, Task, TaskRuntimeCondition, is_active}
use patch_loop.Common.{
  Bool, not, refl, ◌==◌, ◌||◌, Option-cases, arith, inl, inr, false, if◌then◌else◌, true, ◌≡◌,
}
use patch_loop.Execution.Recovery.{
  belongs, check_kind, exact_approval, exact_retry, valid_target, both, check_abandon,
  check_confirm, check_pair, check_retry, validate_recovery_resolution, Supplied,
  supplied_confirmation, supplied_retry,
}
use patch_loop.Execution.Controls.{RecoveryDisposition, DispositionKind}

-- What each kind of disposition asks of the task and where it leads.
abbrev pub Leads : DispositionKind → Task → Supplied → TaskRuntimeCondition → Type 0
Leads DispositionKind.confirm_result task s target =
    (target
      ≡ (if is_active task.outcome then TaskRuntimeCondition.idle else TaskRuntimeCondition.ended))
    × (supplied_retry s ≡ false)
Leads DispositionKind.create_retry task s target =
    (target ≡ TaskRuntimeCondition.waiting_for_approval)
    × (is_active task.outcome ≡ true)
    × (supplied_confirmation s ≡ false)
Leads DispositionKind.abandon task s target =
    (target ≡ TaskRuntimeCondition.ended)
    × (supplied_confirmation s ≡ false)
    × (supplied_retry s ≡ false)

pub refused_if :
    {A : Type 0} (t : Bool) (e : Error) (r : Result A) {a : A}
    → (if t then err e else r) ≡ ok a
    → (t ≡ false) × (r ≡ ok a)
refused_if true e r h = cc
refused_if false e r h = (refl, h)

pub valid_target-ok :
    (h : Hashing) (kind : DispositionKind) (r : Result TaskRuntimeCondition)
    {target : TaskRuntimeCondition}
    → valid_target h kind r ≡ ok target
    → r ≡ ok target
valid_target-ok h kind (err e) eq = eq
valid_target-ok h kind (ok t) eq = ground arith

module _ (h : Hashing) (task : Task) (unknown : Effect) (d : RecoveryDisposition) (s : Supplied)
    {target : TaskRuntimeCondition} where
  confirm-Leads :
      check_confirm h task unknown s ≡ ok target
      → Leads DispositionKind.confirm_result task s target
  unfolding check_confirm
  confirm-Leads eq = elim (Option-cases (both s.confirmed_call s.confirmed_result)) [
    | inl missing ↦ absurd (ground (arith, missing))
    | inr (o, given) ↦
        let body : (if supplied_retry s
              then err value_error
              else if not (belongs h unknown o)
              then err value_error
              else ok (
                  if is_active task.outcome
                  then TaskRuntimeCondition.idle
                  else TaskRuntimeCondition.ended))
            ≡ ok target =
          ground (arith, given) in
        let (none_other, rest) = refused_if (supplied_retry s) _ _ body in
        let (_, leads) = refused_if (not (belongs h unknown o)) _ _ rest in (cc, none_other)
  ]

  pair-target :
      (p : Effect × Approval)
      → check_pair h task unknown d p ≡ ok target
      → target ≡ TaskRuntimeCondition.waiting_for_approval
  unfolding check_pair
  pair-target (retry, approval) eq =
      let (_, eq1) = refused_if (not (exact_retry h task unknown d retry)) _ _ eq in
      let (_, eq2) =
        refused_if
          (not (is_require retry.policy_result.decision)
            || not retry.policy_result.approval_required)
          _ _ eq1 in
      let (_, eq3) = refused_if (not (exact_approval h task retry approval)) _ _ eq2 in cc

  retry-Leads :
      check_retry h task unknown d s ≡ ok target → Leads DispositionKind.create_retry task s target
  unfolding check_retry
  retry-Leads eq = elim (Option-cases (both s.retry_effect s.retry_approval)) [
    | inl missing ↦ absurd (ground (arith, missing))
    | inr (o, given) ↦
        let (_, eq1) = refused_if (not d.evidence.duplicate_risk_acknowledged) _ _ eq in
        let (active, eq2) = refused_if (not (is_active task.outcome)) _ _ eq1 in
        let body : (if supplied_confirmation s
              then err value_error
              else check_pair h task unknown d o)
            ≡ ok target =
          ground (arith, given) in
        let (none_other, rest) = refused_if (supplied_confirmation s) _ _ body in
        (pair-target o rest, ground (arith, active), none_other)
  ]

  abandon-Leads : check_abandon h d s ≡ ok target → Leads DispositionKind.abandon task s target
  unfolding check_abandon
  abandon-Leads eq = ground arith

  kind-Leads :
      (kind : DispositionKind)
      → check_kind h kind task unknown d s ≡ ok target
      → Leads kind task s target
  unfolding check_kind
  kind-Leads DispositionKind.confirm_result eq = confirm-Leads eq
  kind-Leads DispositionKind.create_retry eq = retry-Leads eq
  kind-Leads DispositionKind.abandon eq = abandon-Leads eq

-- A recovery resolution that is accepted is for a task that needs recovery and an unknown effect
-- of that task, on evidence, and leads where its kind says: after a confirmed result to idle, or
-- to ended if the task has ended; after a retry, of an active task only, to waiting for approval;
-- after an abandonment to ended. Nothing is supplied that belongs to another kind.
pub validate_recovery_resolution-Leads :
    (h : Hashing) (task : Task) (unknown : Effect) (d : RecoveryDisposition) (s : Supplied)
    {target : TaskRuntimeCondition}
    → validate_recovery_resolution h task unknown d s ≡ ok target
    → (is_recovery task.runtime_condition ≡ true)
      × (unknown.task_id ≡ task.id)
      × (is_unknown unknown.status ≡ true)
      × (d.evidence.is_empty ≡ false)
      × Leads d.kind task s target
unfolding validate_recovery_resolution
validate_recovery_resolution-Leads h task unknown d s eq =
    let (recovery, eq1) = refused_if (not (is_recovery task.runtime_condition)) _ _ eq in
    let (open_effect, eq2) =
      refused_if (not (unknown.task_id == task.id) || not (is_unknown unknown.status)) _ _ eq1 in
    let (evidence, eq3) = refused_if d.evidence.is_empty _ _ eq2 in
    (
      ground (arith, recovery),
      ground (arith, open_effect),
      ground (arith, open_effect),
      evidence,
      kind-Leads h task unknown d s d.kind
          (valid_target-ok h d.kind (check_kind h d.kind task unknown d s) eq3),
    )
