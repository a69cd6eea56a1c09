-- ===== src/Execution/Recovery.antt =====
-- src/patchloop/execution/recovery.py: `validate_recovery_resolution`.
pub mod Targets
pub mod Retries
use patch_loop.Common.{
  Key, Bool, not, ◌&&◌, ◌||◌, Option, none, some, if◌then◌else◌, ◌==◌, is_none, same_key,
}
use patch_loop.Contracts.{Result, ok, err, value_error}
use patch_loop.Domain.{Task, TaskRuntimeCondition, is_active, is_recovery}
use patch_loop.Domain.Tools.{ToolCall, ToolResult, Observation}
use patch_loop.Execution.Effects.{
  Effect, Hashing, or_hash, content_fingerprint, is_unknown, is_prepared, is_require,
}
use patch_loop.Execution.Approvals.{Approval, is_pending}
use patch_loop.Execution.Controls.{
  RecoveryDisposition, DispositionKind, confirm_result, create_retry, abandon, validate_target,
}

-- What the caller supplies beside the disposition.
pub record Supplied : Type 0 where
  pub confirmed_call : Option ToolCall
  pub confirmed_result : Option ToolResult
  pub retry_effect : Option Effect
  pub retry_approval : Option Approval

abbrev supplied_confirmation : Supplied → Bool
supplied_confirmation s = not (is_none s.confirmed_call) || not (is_none s.confirmed_result)

abbrev supplied_retry : Supplied → Bool
supplied_retry s = not (is_none s.retry_effect) || not (is_none s.retry_approval)

-- Both values of a pair of arguments, if both are given.
abbrev pub both : {A B : Type 0} → Option A → Option B → Option (A × B)
both (some a) (some b) = some (a, b)
both (some a) none = none
both none _ = none

module _ (h : Hashing) where
  abbrev effective_arguments : Effect → Key
  effective_arguments e = or_hash h e.arguments_fingerprint e.arguments_summary

  -- The confirmed observation is the unknown Effect's own call.
  unfoldable pub belongs : Effect → Observation → Bool
  belongs unknown (call, result) =
      call.id == unknown.provider_call_id
      && (call.name == unknown.tool_name
          && (h.hash_arguments call.arguments == effective_arguments unknown
              && (result.call_id == call.id && result.tool_name == call.name)))

  -- The retry is a new Effect of the same task for the same call.
  unfoldable pub exact_retry : Task → Effect → RecoveryDisposition → Effect → Bool
  exact_retry task unknown d retry =
      same_key d.retry_effect_id (some retry.id)
      && (not (retry.id == unknown.id)
          && (retry.task_id == task.id
              && (same_key retry.retry_of_effect_id (some unknown.id)
                  && (is_prepared retry.status
                      && (is_none retry.preparation_error
                          && (retry.tool_name == unknown.tool_name
                              && effective_arguments retry == effective_arguments unknown))))))

  unfoldable pub exact_approval : Task → Effect → Approval → Bool
  exact_approval task retry approval =
      approval.effect_id == retry.id
      && (is_pending approval.status
          && (approval.effect_fingerprint == content_fingerprint h retry
              && (approval.arguments_fingerprint == retry.arguments_fingerprint
                  && approval.workspace_ref == task.repository)))

  unfoldable pub check_confirm : Task → Effect → Supplied → Result TaskRuntimeCondition
  unfolding belongs
  check_confirm task unknown s = elim (both s.confirmed_call s.confirmed_result) [
    | none ↦ err value_error
    | some o ↦
        if supplied_retry s
        then err value_error
        else if not (belongs unknown o)
        then err value_error
        else ok (
            if is_active task.outcome
            then TaskRuntimeCondition.idle
            else TaskRuntimeCondition.ended)
  ]

  unfoldable pub check_pair :
      Task → Effect → RecoveryDisposition → Effect × Approval → Result TaskRuntimeCondition
  unfolding exact_retry exact_approval
  check_pair task unknown d (retry, approval) =
      if not (exact_retry task unknown d retry)
      then err value_error
      else if not (is_require retry.policy_result.decision)
          || not retry.policy_result.approval_required
      then err value_error
      else if not (exact_approval task retry approval)
      then err value_error
      else ok TaskRuntimeCondition.waiting_for_approval

  unfoldable pub check_retry :
      Task → Effect → RecoveryDisposition → Supplied → Result TaskRuntimeCondition
  unfolding check_pair
  check_retry task unknown d s =
      if not d.evidence.duplicate_risk_acknowledged
      then err value_error
      else if not (is_active task.outcome)
      then err value_error
      else elim (both s.retry_effect s.retry_approval) [
        | none ↦ err value_error
        | some p ↦ if supplied_confirmation s then err value_error else check_pair task unknown d p
      ]

  check_abandon : RecoveryDisposition → Supplied → Result TaskRuntimeCondition
  check_abandon d s =
      if supplied_confirmation s || (supplied_retry s || not (is_none d.retry_effect_id))
      then err value_error
      else ok TaskRuntimeCondition.ended

  unfoldable pub check_kind :
      DispositionKind → Task → Effect → RecoveryDisposition → Supplied → Result TaskRuntimeCondition
  unfolding check_confirm check_retry check_abandon
  check_kind confirm_result task unknown d s = check_confirm task unknown s
  check_kind create_retry task unknown d s = check_retry task unknown d s
  check_kind abandon task unknown d s = check_abandon d s

  abbrev valid_target : DispositionKind → Result TaskRuntimeCondition → Result TaskRuntimeCondition
  valid_target kind (err e) = err e
  valid_target kind (ok target) = if validate_target kind target then ok target else err value_error

  unfoldable pub validate_recovery_resolution :
      Task → Effect → RecoveryDisposition → Supplied → Result TaskRuntimeCondition
  unfolding check_kind validate_target
  validate_recovery_resolution task unknown d s =
      if not (is_recovery task.runtime_condition)
      then err value_error
      else if not (unknown.task_id == task.id) || not (is_unknown unknown.status)
      then err value_error
      else if d.evidence.is_empty
      then err value_error
      else valid_target d.kind (check_kind d.kind task unknown d s)
