-- ===== src/Execution/Recovery/Retries.antt =====
-- The retry of an accepted recovery resolution (`validate_recovery_resolution` of
-- src/patchloop/execution/recovery.py).
use patch_loop.Execution.Controls.{DispositionKind, RecoveryDisposition}
use patch_loop.Execution.Approvals.{Approval}
use patch_loop.Execution.Recovery.Targets.{refused_if, valid_target-ok}
use patch_loop.Domain.{Task, TaskRuntimeCondition, is_active, is_recovery}
use patch_loop.Contracts.{err, ok, value_error}
use patch_loop.Execution.Effects.{Effect, Hashing, is_require, is_unknown}
use patch_loop.Execution.Recovery.{
  Supplied, belongs, both, check_abandon, check_confirm, check_kind, check_pair, check_retry,
  exact_approval, exact_retry, supplied_confirmation, supplied_retry, validate_recovery_resolution,
}
use patch_loop.Common.{
  Option-cases, arith, false, if◌then◌else◌, inl, inr, none, not, some, ◌==◌, ◌||◌, ◌≡◌,
}

none-both :
    (s : Supplied)
    → supplied_confirmation s ≡ false
    → both s.confirmed_call s.confirmed_result ≡ none
none-both s h = ground arith

some-both :
    (s : Supplied) (p : Effect × Approval)
    → both s.retry_effect s.retry_approval ≡ some p
    → supplied_retry s ≡ false
    → ⊥
some-both s p h g = ground arith

module _ (h : Hashing) (task : Task) (unknown : Effect) (d : RecoveryDisposition) (s : Supplied)
    (p : Effect × Approval) (given : both s.retry_effect s.retry_approval ≡ some p)
    {target : TaskRuntimeCondition} where
  pair-bound : check_pair h task unknown d p ≡ ok target → p.1.effect_id ≡ p.0.id
  unfolding check_pair exact_approval
  pair-bound eq =
      let (_, eq1) = refused_if (not (exact_retry h task unknown d p.0)) _ _ eq in
      let (_, eq2) =
        refused_if
          (not (is_require p.0.policy_result.decision) || not p.0.policy_result.approval_required) _
          _ eq1 in
      let (bound, eq3) = refused_if (not (exact_approval h task p.0 p.1)) _ _ eq2 in
      ground (arith, bound)

  kind-retry :
      (kind : DispositionKind)
      → check_kind h kind task unknown d s ≡ ok target
      → (both s.confirmed_call s.confirmed_result ≡ none) × (p.1.effect_id ≡ p.0.id)
  unfolding check_kind check_confirm check_retry check_abandon
  kind-retry DispositionKind.confirm_result eq =
      elim (Option-cases (both s.confirmed_call s.confirmed_result)) [
        | inl missing ↦ absurd (ground (arith, missing))
        | inr (o, confirmed) ↦
            let body : (if supplied_retry s
                  then err value_error
                  else if not (belongs h unknown o)
                  then err value_error
                  else ok (
                      if is_active task.outcome
                      then TaskRuntimeCondition.idle
                      else TaskRuntimeCondition.ended))
                ≡ ok target =
              ground (arith, confirmed) in
            absurd (some-both s p given (refused_if (supplied_retry s) _ _ body).0)
      ]
  kind-retry DispositionKind.create_retry eq =
      let (_, eq1) = refused_if (not d.evidence.duplicate_risk_acknowledged) _ _ eq in
      let (_, eq2) = refused_if (not (is_active task.outcome)) _ _ eq1 in
      let body : (if supplied_confirmation s
            then err value_error
            else check_pair h task unknown d p)
          ≡ ok target =
        ground (arith, given) in
      let (none_other, rest) = refused_if (supplied_confirmation s) _ _ body in
      (none-both s none_other, pair-bound rest)
  kind-retry DispositionKind.abandon eq = absurd (ground (arith, some-both s p given))

  -- The approval is that of the retry, and no result is confirmed with it.
  pub validate_recovery_resolution-retry :
      validate_recovery_resolution h task unknown d s ≡ ok target
      → (both s.confirmed_call s.confirmed_result ≡ none) × (p.1.effect_id ≡ p.0.id)
  unfolding validate_recovery_resolution
  validate_recovery_resolution-retry eq =
      let (_, eq1) = refused_if (not (is_recovery task.runtime_condition)) _ _ eq in
      let (_, eq2) =
        refused_if (not (unknown.task_id == task.id) || not (is_unknown unknown.status)) _ _ eq1 in
      let (_, eq3) = refused_if d.evidence.is_empty _ _ eq2 in
      kind-retry d.kind (valid_target-ok h d.kind (check_kind h d.kind task unknown d s) eq3)
