-- ===== src/Store/Approvals.antt =====
-- Approvals in `FakeStore` (src/patchloop/persistence_contracts.py): the request that pauses an
-- execution, and its decision.
pub mod Requests
pub mod Resolutions
pub mod Steps
pub mod Settled
use patch_loop.Common.Dict.{has_key, values, lookup}
use patch_loop.Store.Effects.{put_effect_at, put_effect, actual_config, put_approval}
use patch_loop.Session.{EventType}
use patch_loop.Contracts.{stale_version, approval_conflict, value_error, lease_lost, LeaseGuard}
use patch_loop.Store.Leases.{with_condition, put_task, with_status, put_execution, assert_guard}
use patch_loop.Store.Journal.{journal_approval}
use patch_loop.Domain.{is_running, awaits_approval, TaskRuntimeCondition, Task}
use patch_loop.Store.State.{
  raise, from_option, from_result, check_version, get_task, get_approval, get_effect, gets, pure,
  raise_if, ◌>>=◌, ◌>>◌, M, Env,
}
use patch_loop.Execution.Effects.{is_waiting, is_prepared, EffectStatus, Effect}
use patch_loop.Execution.Leases.{ExecutionStatus, Execution}
use patch_loop.Execution.Approvals.{
  repeats_decision, is_pending, same_status, Conditions, matches_execution_conditions, decide,
  Approval, ApprovalStatus, same_request,
}
use patch_loop.Common.{
  any, ◌||◌, or_key, find, not, false, ◌&&◌, if◌then◌else◌, none, same_key, true, ◌+◌, ◌==◌, Bool,
  Instant, some, ℕ, Key, Option,
}

-- The approval of an effect, if any.
abbrev for_effect : Key → Approval → Bool
for_effect k a = a.effect_id == k

abbrev same_instant : Option Instant → Option Instant → Bool
same_instant a b = same_key a b

-- `==` of the model class.
abbrev same_approval : Approval → Approval → Bool
same_approval a b =
    a.id == b.id
    && (a.effect_id == b.effect_id
        && (a.effect_fingerprint == b.effect_fingerprint
            && (a.arguments_fingerprint == b.arguments_fingerprint
                && (a.workspace_ref == b.workspace_ref
                    && (a.action_summary == b.action_summary
                        && (a.resource_summary == b.resource_summary
                            && (a.policy_version == b.policy_version
                                && (a.config_version == b.config_version
                                    && (same_status a.status b.status
                                        && (same_key a.decision_source b.decision_source
                                            && (same_instant a.decided_at b.decided_at
                                                && (a.version == b.version
                                                    && a.created_at == b.created_at))))))))))))

abbrev is_decision : ApprovalStatus → Bool
is_decision ApprovalStatus.approved = true
is_decision ApprovalStatus.denied = true
is_decision ApprovalStatus.expired = true
is_decision _ = false

-- `self.approvals.get(current.approval_id or "")`, if it is the same request.
abbrev repeated_request : Option Approval → Approval → Option Approval
repeated_request none a = none
repeated_request (some e) a = if same_request e a then some e else none

-- The execution and the task wait for the operator.
pause_for_approval : Execution → Task → M (Unit {0})
pause_for_approval execution task = do
  put_execution (with_status ExecutionStatus.waiting_for_approval execution)
  put_task (with_condition TaskRuntimeCondition.waiting_for_approval task)

abbrev waiting_effect : Effect → Approval → Effect
waiting_effect current approval = record current {
  status = EffectStatus.waiting_for_approval;
  approval_id = some approval.id;
  version = current.version + 1;
}

-- A request for an effect that waits already.
request_again : Execution → Effect → Approval → M (Effect × Approval × Task)
unfolding pause_for_approval same_request
request_again execution current approval = do
  existing ←
      gets (λ s. repeated_request (lookup (or_key current.approval_id 0) s.approvals) approval)
      >>= λ o. from_option o (approval_conflict approval.id)
  task ← get_task current.task_id
  pause_for_approval execution task
  pure (current, existing, with_condition TaskRuntimeCondition.waiting_for_approval task)

module _ (env : Env) where
  request_first : Key → Execution → Effect → Approval → M (Effect × Approval × Task)
  unfolding pause_for_approval journal_approval
  request_first effect_id execution current approval = do
    raise_if (not (is_prepared current.status)) value_error
    raise_if (not (is_pending approval.status)) value_error
    raise_if
        (← gets
          (λ s. has_key approval.id s.approvals || any (for_effect effect_id) (values s.approvals)))
        (approval_conflict approval.id)
    task ← get_task current.task_id
    raise_if (not (is_running task.runtime_condition)) value_error
    put_effect_at effect_id (waiting_effect current approval)
    put_approval approval
    pause_for_approval execution task
    journal_approval env approval EventType.approval_requested
    pure (
      waiting_effect current approval,
      approval,
      with_condition TaskRuntimeCondition.waiting_for_approval task,
    )

  unfoldable pub request_effect_approval :
      Key → Approval → ℕ → LeaseGuard → Instant → M (Effect × Approval × Task)
  unfolding assert_guard request_again request_first
  request_effect_approval effect_id approval expected g now = do
    execution ← assert_guard g now
    current ← get_effect effect_id
    raise_if (not (current.task_id == execution.task_id)) (lease_lost current.task_id)
    check_version effect_id current.version (some expected)
    raise_if (not (approval.effect_id == effect_id)) value_error
    if is_waiting current.status
        then request_again execution current approval
        else request_first effect_id execution current approval

  -- What the resolution writes of the approval, the effect and the task.
  write_resolution : Approval → Effect → Task → EventType → M (Approval × Effect × Task)
  unfolding journal_approval
  write_resolution decided effect task type = do
    put_approval decided
    put_effect effect
    put_task task
    journal_approval env decided type
    pure (decided, effect, task)

  abbrev pub resumed_task : Task → Task
  resumed_task task =
      if awaits_approval task.runtime_condition
      then with_condition TaskRuntimeCondition.idle task
      else task

  abbrev pub resolved_effect : Effect → Bool → Effect
  resolved_effect effect approve = record effect {
    status = (if approve then EffectStatus.prepared else EffectStatus.denied);
    version = effect.version + 1;
  }

  abbrev pub released_effect : Effect → Effect
  released_effect effect = record effect {
    status = EffectStatus.prepared;
    approval_id = none;
    version = effect.version + 1;
  }

  abbrev pub expired_approval : Approval → Key → Instant → Approval
  expired_approval a source now = record a {
    status = ApprovalStatus.expired;
    decision_source = some source;
    decided_at = some now;
    version = a.version + 1;
  }

  -- The request still stands for the conditions of the execution.
  abbrev pub still_matches : Approval → Effect → Task → Conditions → Key → Bool
  still_matches a effect task c config =
      c.workspace_ref == task.repository
      && (c.config_version == config && matches_execution_conditions env.hashing a effect c)

  resolve_pending :
      Key
      → Bool
      → Key
      → Conditions
      → Instant
      → Approval
      → Effect
      → Task
      → M (Approval × Effect × Task)
  unfolding write_resolution decide matches_execution_conditions
  resolve_pending default approve source c now current effect task = do
    config ← actual_config default task.session_id (some c.config_version)
    if not (still_matches current effect task c config)
        then write_resolution (expired_approval current source now) (released_effect effect)
            (resumed_task task) EventType.approval_expired
        else (from_result (decide approve source now current) >>= λ decided.
            write_resolution decided (resolved_effect effect approve) (resumed_task task)
              EventType.approval_decided)

  unfoldable pub resolve_effect_approval :
      Key → Key → Bool → Key → ℕ → Conditions → Instant → M (Approval × Effect × Task)
  unfolding resolve_pending
  resolve_effect_approval default approval_id approve source expected c now = do
    current ← get_approval approval_id
    effect ← get_effect current.effect_id
    task ← get_task effect.task_id
    if not (is_pending current.status)
        then (if repeats_decision approve source current
            then pure (current, effect, task)
            else raise (approval_conflict current.id))
        else (check_version current.id current.version (some expected)
            >> resolve_pending default approve source c now current effect task)

  record_decision : Approval → EventType → M Approval
  unfolding journal_approval
  record_decision approval type = do
    put_approval approval
    journal_approval env approval type
    pure approval

  redecide : Approval → Option ℕ → Approval → M Approval
  unfolding record_decision
  redecide approval expected existing =
      if same_approval existing approval
      then pure existing
      else (check_version approval.id existing.version expected
          >> (raise_if (not (is_pending existing.status) || not (is_decision approval.status))
                (approval_conflict approval.id)
              >> (raise_if (not (approval.version == existing.version + 1))
                    (stale_version approval.id (existing.version + 1) approval.version)
                  >> record_decision approval EventType.approval_decided)))

  unfoldable pub decide_approval : Approval → Option ℕ → M Approval
  unfolding redecide record_decision
  decide_approval approval expected = do
    get_effect approval.effect_id
    found ← gets (λ s. find (for_effect approval.effect_id) (values s.approvals))
    elim found [
      | none ↦ record_decision approval EventType.approval_requested
      | some existing ↦ redecide approval expected existing
    ]
