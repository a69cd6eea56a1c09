-- ===== src/Store/Settlement.antt =====
-- The settlement of effects in `FakeStore` (src/patchloop/persistence_contracts.py): `commit_effect`,
-- `settle_unexecuted_effect` and `mark_effect_unknown`.
pub mod Commits
pub mod Steps
pub mod Unexecuted
use patch_loop.Execution.Approvals.{ApprovalStatus, is_pending}
use patch_loop.Store.Effects.{put_approval, put_effect}
use patch_loop.Domain.{TaskRuntimeCondition, is_recovery, Task}
use patch_loop.Store.Journal.{journal}
use patch_loop.Store.Leases.{put_task, with_condition, assert_guard}
use patch_loop.Session.{EventType, SessionCheckpoint}
use patch_loop.Store.State.{
  from_option, lookup_pair, get_session, gets, get_approval, get_effect, get_task, check_version,
  insert_pair, raise, raise_if, ◌>>=◌, modify, pure, ◌>>◌, M, Env,
}
use patch_loop.Contracts.{value_error, LeaseGuard, ok}
use patch_loop.Common.Dict.{insert, lookup}
use patch_loop.Execution.Effects.{
  is_waiting, is_committed, is_prepared, is_unknown, is_executing, EffectStatus, Effect,
}
use patch_loop.Domain.Tools.{same_observation, Observation, ToolResult, ToolCall}
use patch_loop.Common.{
  none, not, ◌&&◌, ◌||◌, [], false, keep, some, true, ◌+◌, ◌==◌, Bool, Instant, if◌then◌else◌, ◌∷◌,
  Key, Option, ℕ,
}

-- A checkpoint follows the journal, and the settled effect is pending no more.
abbrev pub advance_checkpoint : ℕ → Key → SessionCheckpoint → SessionCheckpoint
advance_checkpoint sequence effect_id c = record c {
  event_sequence = sequence;
  pending_effect_ids = keep (λ k. not (k == effect_id)) c.pending_effect_ids;
}

-- The checkpoint of a task, if there is one.
unfoldable pub update_checkpoint : Key → ℕ → Key → M (Unit {0})
update_checkpoint task_id sequence effect_id s = elim (lookup task_id s.checkpoints) [
  | none ↦ (ok tt, s)
  | some c ↦ (
    ok tt,
    record s {
      checkpoints = insert task_id (advance_checkpoint sequence effect_id c) s.checkpoints;
    },
  )
]

abbrev pub put_observation : Key → Observation → M (Unit {0})
put_observation task_id o =
    modify λ s. record s { tool_results = insert_pair task_id o.0.id o s.tool_results }

-- The pair of a call and its result that `commit_effect` is given, if the caller gives both.
pub data Given : Type 0 where
  nothing one : Given
  both_given : ToolCall → ToolResult → Given

abbrev given : Option ToolCall → Option ToolResult → Given
given none none = nothing
given (some c) (some r) = both_given c r
given (some c) none = one
given none (some r) = one

abbrev conflicts : Option Observation → Observation → Bool
conflicts none o = false
conflicts (some p) o = not (same_observation p o)

abbrev belongs_to : Effect → ToolCall → ToolResult → Bool
belongs_to e c r = c.id == e.provider_call_id && r.call_id == c.id

check_given : Key → Effect → Given → M (Unit {0})
check_given task_id current nothing = pure tt
check_given task_id current one = raise value_error
check_given task_id current (both_given c r) = do
  raise_if (not (belongs_to current c r)) value_error
  existing ← gets (λ s. lookup_pair task_id c.id s.tool_results)
  raise_if (conflicts existing (c, r)) value_error

record_given : Key → Given → M (Unit {0})
record_given task_id nothing = pure tt
record_given task_id one = pure tt
record_given task_id (both_given c r) = put_observation task_id (c, r)

module _ (env : Env) where
  unfoldable pub commit_effect :
      Effect
      → ℕ
      → Option Key
      → Option Key
      → LeaseGuard
      → Option ToolCall
      → Option ToolResult
      → Instant
      → M Effect
  unfolding assert_guard check_given record_given update_checkpoint journal
  commit_effect effect expected result_ref observation_ref g call result now = do
    assert_guard g now
    current ← get_effect effect.id
    check_version effect.id current.version (some expected)
    raise_if (not (is_executing current.status)) value_error
    raise_if (not (is_committed effect.status)) value_error
    check_given effect.task_id current (given call result)
    let committed = record effect {
      result_ref = result_ref;
      observation_ref = observation_ref;
      version = current.version + 1;
    }
    task ← get_task effect.task_id
    session_id ← from_option task.session_id value_error
    session ← get_session session_id
    put_effect committed
    record_given effect.task_id (given call result)
    updated ←
        journal env session EventType.effect_committed effect.id ((current.version + 1) ∷ [])
          (some task.id) (some effect.provider_call_id)
    update_checkpoint task.id updated.event_sequence effect.id
    pure committed

  -- The journal entry and the checkpoint that follow a settlement of a session's effect.
  unfoldable pub follow : Task → Effect → EventType → M (Unit {0})
  unfolding journal update_checkpoint
  follow task settled type = elim task.session_id [
    | none ↦ pure tt
    | some k ↦ do
      session ← get_session k
      updated ←
          journal env session type settled.id (settled.version ∷ []) (some task.id)
            (some settled.provider_call_id)
      update_checkpoint task.id updated.event_sequence settled.id
  ]

  abbrev settled_effect : Effect → EffectStatus → Key → Effect
  settled_effect current status call_id = record current {
    status = status;
    result_ref = some (env.tool_result_ref current.task_id call_id);
    observation_ref = some (env.tool_result_ref current.task_id call_id);
    version = current.version + 1;
  }

  -- `source` is the code of the text "effect_settled".
  expire_pending : Key → Instant → Option Key → M (Unit {0})
  expire_pending source now none = pure tt
  expire_pending source now (some k) = do
    approval ← get_approval k
    if is_pending approval.status
        then put_approval (record approval {
          status = ApprovalStatus.expired;
          decision_source = some source;
          decided_at = some now;
          version = approval.version + 1;
        })
        else pure tt

  settle_new : Key → Effect → EffectStatus → ToolCall → ToolResult → Instant → M Effect
  unfolding expire_pending follow
  settle_new source current status call result now = do
    expire_pending source now current.approval_id
    put_effect (settled_effect current status call.id)
    put_observation current.task_id (call, result)
    task ← get_task current.task_id
    follow task (settled_effect current status call.id) EventType.effect_settled
    pure (settled_effect current status call.id)

  abbrev is_unexecuted : EffectStatus → Bool
  is_unexecuted EffectStatus.denied = true
  is_unexecuted EffectStatus.cancelled = true
  is_unexecuted _ = false

  abbrev same_status : EffectStatus → EffectStatus → Bool
  same_status EffectStatus.denied EffectStatus.denied = true
  same_status EffectStatus.cancelled EffectStatus.cancelled = true
  same_status _ _ = false

  settle_existing :
      Option Observation → Key → Effect → EffectStatus → ToolCall → ToolResult → Instant → M Effect
  unfolding settle_new
  settle_existing none source current status call result now =
      settle_new source current status call result now
  settle_existing (some o) source current status call result now =
      if not (same_observation o (call, result)) || not (same_status current.status status)
      then raise value_error
      else pure current

  unfoldable pub settle_unexecuted_effect :
      Key → Key → EffectStatus → ℕ → ToolCall → ToolResult → LeaseGuard → Instant → M Effect
  unfolding assert_guard settle_existing
  settle_unexecuted_effect source effect_id status expected call result g now = do
    assert_guard g now
    current ← get_effect effect_id
    check_version effect_id current.version (some expected)
    raise_if (not (is_unexecuted status)) value_error
    raise_if
        (not (
          is_prepared current.status
          || (is_waiting current.status || same_status current.status status)))
        value_error
    raise_if (not (belongs_to current call result)) value_error
    existing ← gets (λ s. lookup_pair current.task_id call.id s.tool_results)
    settle_existing existing source current status call result now

  abbrev pub unknown_effect : Effect → Key → Effect
  unknown_effect current evidence = record current {
    status = EffectStatus.unknown;
    reconciliation_evidence = evidence;
    version = current.version + 1;
  }

  -- The effect and the task that require recovery; what requires it already is not written again.
  abbrev now_unknown : Effect → Key → Effect
  now_unknown current evidence =
      if is_executing current.status then unknown_effect current evidence else current

  unfoldable pub write_unknown : Effect → Key → M (Unit {0})
  write_unknown current evidence =
      if is_executing current.status then put_effect (unknown_effect current evidence) else pure tt

  abbrev pub now_recovering : Task → Task
  now_recovering task =
      if is_recovery task.runtime_condition
      then task
      else with_condition TaskRuntimeCondition.recovery_required task

  unfoldable pub write_recovering : Task → M (Unit {0})
  write_recovering task =
      if is_recovery task.runtime_condition
      then pure tt
      else put_task (with_condition TaskRuntimeCondition.recovery_required task)

  unfoldable pub mark_effect_unknown : Key → ℕ → Key → LeaseGuard → Instant → M (Effect × Task)
  unfolding assert_guard write_unknown write_recovering follow
  mark_effect_unknown effect_id expected evidence g now = do
    assert_guard g now
    current ← get_effect effect_id
    check_version effect_id current.version (some expected)
    raise_if (not (is_executing current.status || is_unknown current.status)) value_error
    write_unknown current evidence
    task ← get_task current.task_id
    write_recovering task
    follow task (now_unknown current evidence) EventType.effect_recovery_required
    pure (now_unknown current evidence, now_recovering task)
