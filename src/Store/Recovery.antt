-- ===== src/Store/Recovery.antt =====
-- `resolve_recovery` and `commit_tool_result` of `FakeStore`
-- (src/patchloop/persistence_contracts.py).
pub mod Observations
pub mod Resolutions
pub mod Steps
pub mod Retries
pub mod Confirmations
use patch_loop.Store.Settlement.{put_observation}
use patch_loop.Contracts.{effect_identity_conflict, Error, value_error, LeaseGuard}
use patch_loop.Store.Effects.{put_approval, put_effect}
use patch_loop.Execution.Approvals.{Approval}
use patch_loop.Common.Dict.{has_key, values, insert, lookup}
use patch_loop.Store.Leases.{require_session_guard}
use patch_loop.Execution.Recovery.{both, Supplied, validate_recovery_resolution}
use patch_loop.Store.Journal.{journal, journal_task}
use patch_loop.Domain.Tools.{same_observation, ToolResult, ToolCall, same_bool, Observation}
use patch_loop.Execution.Effects.{same_identity, is_unknown, EffectStatus, Effect}
use patch_loop.Session.{EventType, Session}
use patch_loop.Domain.{TaskStatus, is_recovery, TaskOutcome, Task, TaskRuntimeCondition}
use patch_loop.Store.State.{
  from_result, fetch, lookup_pair, get_session, raise, gets, check_version, get_task, raise_if,
  ◌>>=◌, ◌>>◌, modify, pure, M, Store, Env,
}
use patch_loop.Common.{
  [], any, ◌∷◌, Instant, none, same_key, ◌||◌, find, not, ◌&&◌, ◌+◌, false, if◌then◌else◌, some,
  true, ◌==◌, Bool, Option, ℕ, Key,
}
use patch_loop.Execution.Controls.{DispositionKind, Evidence, RecoveryDisposition}

abbrev put_disposition : RecoveryDisposition → M (Unit {0})
put_disposition d = modify λ s. record s { recoveries = insert d.id d s.recoveries }

-- `==` of the model class.
abbrev same_kind : DispositionKind → DispositionKind → Bool
same_kind DispositionKind.confirm_result DispositionKind.confirm_result = true
same_kind DispositionKind.create_retry DispositionKind.create_retry = true
same_kind DispositionKind.abandon DispositionKind.abandon = true
same_kind _ _ = false

abbrev same_evidence : Evidence → Evidence → Bool
same_evidence a b =
    same_bool a.is_empty b.is_empty
    && (same_bool a.duplicate_risk_acknowledged b.duplicate_risk_acknowledged
        && a.content == b.content)

abbrev same_disposition : RecoveryDisposition → RecoveryDisposition → Bool
same_disposition a b =
    a.id == b.id
    && (a.unknown_effect_id == b.unknown_effect_id
        && (same_kind a.kind b.kind
            && (same_evidence a.evidence b.evidence
                && (a.decision_source == b.decision_source
                    && (same_key a.retry_effect_id b.retry_effect_id
                        && a.created_at == b.created_at)))))

-- The disposition that is stored under the identifier, or for the effect.
abbrev pub stored_disposition : RecoveryDisposition → Store → Option RecoveryDisposition
stored_disposition d s = elim (lookup d.id s.recoveries) [
  | some found ↦ some found
  | none ↦ find (λ c. c.unknown_effect_id == d.unknown_effect_id) (values s.recoveries)
]

-- The revision of the journal entry is formatted from the kind.
abbrev kind_revision : DispositionKind → ℕ
kind_revision DispositionKind.confirm_result = 0
kind_revision DispositionKind.create_retry = 1
kind_revision DispositionKind.abandon = 2

abbrev is_abandon : DispositionKind → Bool
is_abandon DispositionKind.abandon = true
is_abandon _ = false

abbrev unknown_of_task : Key → Option Effect → Option Effect
unknown_of_task task_id none = none
unknown_of_task task_id (some e) =
    if not (e.task_id == task_id) || not (is_unknown e.status) then none else some e

-- The task after the resolution.
abbrev pub resolved_task : DispositionKind → TaskRuntimeCondition → Task → Task
resolved_task kind target task =
    if is_abandon kind
    then record task {
      runtime_condition = target;
      version = task.version + 1;
      outcome = TaskOutcome.cancelled;
      status = TaskStatus.cancelled;
    }
    else record task { runtime_condition = target; version = task.version + 1 }

-- An abandoned task leaves its session.
abbrev left_by : DispositionKind → Key → Session → Session
left_by kind task_id session =
    if is_abandon kind && same_key session.active_task_id (some task_id)
    then record session { active_task_id = none; version = session.version + 1 }
    else session

module _ (env : Env) where
  abbrev pub confirmed_effect : Task → Effect → RecoveryDisposition → Observation → Effect
  confirmed_effect task unknown d (call, result) = record unknown {
    status = (if result.success then EffectStatus.succeeded else EffectStatus.failed);
    result_ref = some (env.tool_result_ref task.id call.id);
    observation_ref = some (env.tool_result_ref task.id call.id);
    reconciliation_evidence = d.evidence.content;
    version = unknown.version + 1;
  }

  record_confirmation : Task → Effect → RecoveryDisposition → Option Observation → M (Unit {0})
  record_confirmation task unknown d none = pure tt
  record_confirmation task unknown d (some o) = do
    put_effect (confirmed_effect task unknown d o)
    put_observation task.id o

  abbrev pub waiting_retry : Effect → Approval → Effect
  waiting_retry retry approval = record retry {
    status = EffectStatus.waiting_for_approval;
    approval_id = some approval.id;
  }

  -- The observation that the retried call is given; `output` is the JSON text that names the
  -- disposition and the retry, and `detail` the error kind.
  abbrev original_observation : Effect → (output detail : Key) → Observation
  original_observation unknown output detail = (
    record {
      id = unknown.provider_call_id;
      name = unknown.tool_name;
      arguments = unknown.arguments_summary;
      detail = 0;
    },
    record {
      call_id = unknown.provider_call_id;
      tool_name = unknown.tool_name;
      success = false;
      output = output;
      detail = detail;
    },
  )

  record_retry : Observation → Task → Option (Effect × Approval) → M (Unit {0})
  record_retry original task none = pure tt
  record_retry original task (some (retry, approval)) = do
    raise_if
        (← gets
          (λ s. has_key retry.id s.effects || any (λ c. same_identity c retry) (values s.effects)))
        (effect_identity_conflict retry.id)
    put_effect (waiting_retry retry approval)
    put_approval approval
    put_observation task.id original

  follow_resolution : Task → RecoveryDisposition → M (Unit {0})
  unfolding journal
  follow_resolution task d = elim task.session_id [
    | none ↦ pure tt
    | some k ↦ do
      session ← get_session k
      journal env (left_by d.kind task.id session) EventType.recovery_resolved d.id
          (kind_revision d.kind ∷ []) (some task.id) none
      pure tt
  ]

  -- The writes, once the disposition is found to be new and valid.
  apply_resolution :
      (output detail task_id : Key)
      → Task
      → Effect
      → RecoveryDisposition
      → Supplied
      → TaskRuntimeCondition
      → M Task
  unfolding record_confirmation record_retry follow_resolution
  apply_resolution output detail task_id task unknown d given target = do
    record_confirmation task unknown d (both given.confirmed_call given.confirmed_result)
    record_retry (original_observation unknown output detail) task
        (both given.retry_effect given.retry_approval)
    put_disposition d
    modify λ s. record s { tasks = insert task_id (resolved_task d.kind target task) s.tasks }
    follow_resolution task d
    pure (resolved_task d.kind target task)

  pub resolve_new :
      (output detail task_id : Key) → Task → RecoveryDisposition → Supplied → ℕ → M Task
  unfolding apply_resolution validate_recovery_resolution
  resolve_new output detail task_id task d given expected = do
    check_version task_id task.version (some expected)
    raise_if (not (is_recovery task.runtime_condition))
        (Error.recovery_required task_id (some d.unknown_effect_id))
    unknown ←
        fetch (λ s. unknown_of_task task_id (lookup d.unknown_effect_id s.effects))
          (Error.recovery_required task_id (some d.unknown_effect_id))
    target ← from_result (validate_recovery_resolution env.hashing task unknown d given)
    apply_resolution output detail task_id task unknown d given target

  unfoldable pub resolve_recovery :
      (output detail : Key) → RecoveryDisposition → Key → ℕ → Supplied → M Task
  unfolding resolve_new
  resolve_recovery output detail d task_id expected given = do
    task ← get_task task_id
    existing ← gets (stored_disposition d)
    elim existing [
      | none ↦ resolve_new output detail task_id task d given expected
      | some e ↦
          if same_disposition e d
          then pure task
          else raise (Error.recovery_required task_id (some d.unknown_effect_id))
    ]

  commit_new_result : Key → Task → ToolCall → ToolResult → Option ℕ → M ToolResult
  unfolding journal_task
  commit_new_result task_id task call result expected = do
    check_version task_id task.version expected
    put_observation task_id (call, result)
    journal_task env task EventType.tool_result_committed call.id (task_id ∷ []) (some call.id)
    pure result

  unfoldable pub commit_tool_result :
      Key → ToolCall → ToolResult → Option ℕ → Option LeaseGuard → Instant → M ToolResult
  unfolding require_session_guard commit_new_result
  commit_tool_result task_id call result expected guard now = do
    raise_if (not (result.call_id == call.id)) value_error
    task ← get_task task_id
    require_session_guard task guard now
    existing ← gets (λ s. lookup_pair task_id call.id s.tool_results)
    elim existing [
      | none ↦ commit_new_result task_id task call result expected
      | some o ↦ if same_observation o (call, result) then pure o.1 else raise value_error
    ]
