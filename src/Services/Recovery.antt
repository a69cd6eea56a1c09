-- ===== src/Services/Recovery.antt =====
-- src/patchloop/execution/recovery.py: `RecoveryService` over the store. Identifiers that are drawn, the
-- time and the texts that the store records are arguments.
pub mod Accepted
pub mod Confirmed
use patch_loop.Services.Approvals.{Texts, build_approval, within}
use patch_loop.Store.Recovery.{resolve_recovery}
use patch_loop.Execution.Recovery.{Supplied}
use patch_loop.Store.State.{◌>>=◌, ◌>>◌, Env, M, get_effect, get_task, pure, raise_if}
use patch_loop.Execution.Controls.{DispositionKind, Evidence, RecoveryDisposition}
use patch_loop.Contracts.{value_error}
use patch_loop.Execution.Approvals.{Approval, ApprovalStatus}
use patch_loop.Domain.Tools.{ToolCall, ToolResult}
use patch_loop.Domain.{Task}
use patch_loop.Common.{leb, ◌&&◌, Bool, Instant, Key, Option, false, none, not, some, true, ℕ}
use patch_loop.Execution.Effects.{Decision, Effect, EffectStatus, content_fingerprint}

-- What a call draws, and the texts of the observation that a retry leaves.
pub record Drawn : Type 0 where
  pub disposition_id : Key
  pub effect_id : Key
  pub step_id : Key
  pub call_id : Key
  pub now : Instant
  pub output : Key
  pub detail : Key

pub record RecoveryResolution : Type 0 where
  pub task : Task
  pub disposition : RecoveryDisposition
  pub retry_effect : Option Effect
  pub retry_approval : Option Approval

abbrev pub nothing_supplied : Supplied
nothing_supplied = record {
  confirmed_call = none;
  confirmed_result = none;
  retry_effect = none;
  retry_approval = none;
}

module _ (env : Env) (texts : Texts) where
  -- What the class `RecoveryDisposition` asks of its fields.
  abbrev pub valid_disposition : RecoveryDisposition → Bool
  valid_disposition d =
      within texts 1 128 d.id
      && (leb 1 (texts.length d.unknown_effect_id)
          && (within texts 1 256 d.decision_source
              && elim d.retry_effect_id [ none ↦ true | some k ↦ leb 1 (texts.length k) ]))

  -- The disposition that a method makes.
  abbrev pub disposed :
      Drawn → Key → DispositionKind → Evidence → Key → Option Key → RecoveryDisposition
  disposed drawn unknown_id kind evidence source retry_id = record {
    id = drawn.disposition_id;
    unknown_effect_id = unknown_id;
    kind = kind;
    evidence = evidence;
    decision_source = source;
    retry_effect_id = retry_id;
    created_at = drawn.now;
  }

  -- The class refuses texts that are empty or too long.
  make_disposition :
      Drawn → Key → DispositionKind → Evidence → Key → Option Key → M RecoveryDisposition
  make_disposition drawn unknown_id kind evidence source retry_id = do
    raise_if (not (valid_disposition (disposed drawn unknown_id kind evidence source retry_id)))
        value_error
    pure (disposed drawn unknown_id kind evidence source retry_id)

  abbrev pub acknowledging : Evidence → Evidence
  acknowledging evidence = record {
    is_empty = false;
    duplicate_risk_acknowledged = true;
    content = texts.acknowledged evidence.content;
  }

  unfoldable pub confirm_result :
      Drawn
      → (task_id unknown_id : Key) → ToolCall
      → ToolResult
      → Evidence
      → Key
      → ℕ
      → M RecoveryResolution
  unfolding resolve_recovery make_disposition
  confirm_result drawn task_id unknown_id call result evidence source expected = do
    d ← make_disposition drawn unknown_id DispositionKind.confirm_result evidence source none
    task ←
        resolve_recovery env drawn.output drawn.detail d task_id expected
          (record nothing_supplied { confirmed_call = some call; confirmed_result = some result })
    pure (record { task = task; disposition = d; retry_effect = none; retry_approval = none })

  unfoldable pub abandon :
      Drawn → (task_id unknown_id : Key) → Evidence → Key → ℕ → M RecoveryResolution
  unfolding resolve_recovery make_disposition
  abandon drawn task_id unknown_id evidence source expected = do
    d ← make_disposition drawn unknown_id DispositionKind.abandon evidence source none
    task ← resolve_recovery env drawn.output drawn.detail d task_id expected nothing_supplied
    pure (record { task = task; disposition = d; retry_effect = none; retry_approval = none })

  unfoldable pub create_retry :
      Drawn
      → (task_id unknown_id : Key) → Effect
      → Approval
      → (acknowledged : Bool) → Evidence
      → Key
      → ℕ
      → M RecoveryResolution
  unfolding resolve_recovery make_disposition
  create_retry drawn task_id unknown_id retry approval acknowledged evidence source expected = do
    raise_if (not acknowledged) value_error
    d ←
        make_disposition drawn unknown_id DispositionKind.create_retry (acknowledging evidence)
          source (some retry.id)
    task ←
        resolve_recovery env drawn.output drawn.detail d task_id expected
          (record nothing_supplied { retry_effect = some retry; retry_approval = some approval })
    pure (record {
      task = task;
      disposition = d;
      retry_effect = some (record retry {
        status = EffectStatus.waiting_for_approval;
        approval_id = some approval.id;
      });
      retry_approval = some approval;
    })

  -- The call whose outcome is not known, and what the operator saw of it.
  abbrev pub persisted_call : Effect → ToolCall
  persisted_call e = record {
    id = e.provider_call_id;
    name = e.tool_name;
    arguments = e.arguments_summary;
    detail = 0;
  }

  abbrev pub observed : Effect → Bool → Key → ToolResult
  observed e success output = record {
    call_id = e.provider_call_id;
    tool_name = e.tool_name;
    success = success;
    output = output;
    detail = 0;
  }

  unfoldable pub confirm_persisted_result :
      Drawn
      → (task_id unknown_id : Key) → (success : Bool) → (output : Key) → Evidence
      → Key
      → M RecoveryResolution
  unfolding confirm_result
  confirm_persisted_result drawn task_id unknown_id success output evidence source = do
    task ← get_task task_id
    e ← get_effect unknown_id
    confirm_result drawn task.id e.id (persisted_call e) (observed e success output) evidence source
        task.version

  unfoldable pub abandon_pending :
      Drawn → (task_id unknown_id : Key) → Evidence → Key → M RecoveryResolution
  unfolding abandon
  abandon_pending drawn task_id unknown_id evidence source = do
    task ← get_task task_id
    abandon drawn task.id unknown_id evidence source task.version

  -- The same action once more, as a new effect that needs an approval of its own.
  abbrev pub retry_of : Drawn → Effect → Effect
  retry_of drawn unknown = record unknown {
    id = drawn.effect_id;
    step_id = drawn.step_id;
    provider_call_id = drawn.call_id;
    retry_of_effect_id = some unknown.id;
    policy_result = record unknown.policy_result {
      decision = some Decision.require_approval;
      approval_required = true;
    };
    status = EffectStatus.prepared;
    approval_id = none;
    approval_consumed = false;
    reconciliation_evidence = 0;
    result_ref = none;
    observation_ref = none;
    version = 1;
  }

  unfoldable pub retry_pending :
      Drawn
      → (task_id unknown_id : Key) → (acknowledged : Bool) → Evidence
      → Key
      → (policy_version config_version : Key) → M RecoveryResolution
  unfolding create_retry build_approval
  retry_pending drawn task_id unknown_id acknowledged evidence source policy_version
        config_version =
      do
        raise_if (not acknowledged) value_error
        task ← get_task task_id
        unknown ← get_effect unknown_id
        approval ←
            build_approval env texts task (retry_of drawn unknown) policy_version config_version
              drawn.now
        create_retry drawn task.id unknown.id (retry_of drawn unknown) approval acknowledged
            (acknowledging evidence) source task.version
