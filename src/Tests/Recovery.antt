-- ===== src/Tests/Recovery.antt =====
-- The theorems on the recovery service at concrete inputs: the unknown effect of a task in recovery.
use patch_loop.Services.Approvals.{Texts, requested_approval, stable_approval_id}
use patch_loop.Services.Recovery.Confirmed.{confirm_persisted_result-returns}
use patch_loop.Store.State.{lookup_pair, Store}
use patch_loop.Execution.Controls.{Evidence}
use patch_loop.Contracts.{ok}
use patch_loop.Services.Recovery.Accepted.{retry_pending-returns}
use patch_loop.Domain.{TaskRuntimeCondition}
use patch_loop.Execution.Approvals.{Approval, is_pending, matches_execution_conditions}
use patch_loop.Common.{if◌then◌else◌, ◌==◌, [], any, false, find, refl, some, true, ◌+◌, ◌∷◌, ◌≡◌}
use patch_loop.Services.Recovery.{
  confirm_persisted_result, observed, persisted_call, Drawn, RecoveryResolution, retry_pending,
}
use patch_loop.Execution.Effects.{content_fingerprint, Effect, EffectStatus, is_waiting}
use patch_loop.Common.Dict.{lookup, values}
use patch_loop.Samples.{effect, env, lost_task, session as first_session, store}

abbrev texts : Texts
texts = record {
  approval_id = λ effect_id content policy config. effect_id + content + policy + config;
  action_summary = λ kind name arguments. kind + name + arguments;
  resource_summary = λ repository preconditions. repository + preconditions;
  acknowledged = λ content. content;
  length = λ k. if k == 0 then 0 else 1;
}

abbrev drawn : Drawn
drawn = record {
  disposition_id = 80;
  effect_id = 90;
  step_id = 91;
  call_id = 92;
  now = 20;
  output = 93;
  detail = 94;
}

abbrev lost_effect : Effect
lost_effect = record effect { status = EffectStatus.unknown; arguments_fingerprint = 1024 }

abbrev lost_store : Store
lost_store = record store { tasks = (2, lost_task) ∷ []; effects = (3, lost_effect) ∷ [] }

abbrev evidence : Evidence
evidence = record { is_empty = false; duplicate_risk_acknowledged = false; content = 81 }

retry_pending-returns_example :
    (r : RecoveryResolution) × (s' : Store) × (retry_pending env texts drawn 2 3 true evidence 60 40
        50 lost_store
      ≡ (ok r, s'))
    × (r.task.runtime_condition ≡ TaskRuntimeCondition.waiting_for_approval)
    × ((retry : Effect) × (approval : Approval) × (r.retry_effect ≡ some retry)
        × (r.retry_approval ≡ some approval)
        × (lookup 90 s'.effects ≡ some retry)
        × (lookup approval.id s'.approvals ≡ some approval)
        × (is_waiting retry.status ≡ true)
        × (retry.approval_id ≡ some approval.id)
        × (is_pending approval.status ≡ true)
        × (matches_execution_conditions env.hashing approval retry
              (record { workspace_ref = 8; policy_version = 40; config_version = 50 })
            ≡ true))
unfolding lookup find values any requested_approval stable_approval_id content_fingerprint
retry_pending-returns_example =
    retry_pending-returns env texts drawn lost_task lost_effect evidence 60 40 50 1 first_session
      lost_store refl refl refl refl refl refl refl refl refl refl refl refl refl refl refl

confirm_persisted_result-returns_example :
    (r : RecoveryResolution) × (s' : Store) × (confirm_persisted_result env texts drawn 2 3 true 82
        evidence 60 lost_store
      ≡ (ok r, s'))
    × (r.task.runtime_condition ≡ TaskRuntimeCondition.idle)
    × ((e : Effect) × (lookup 3 s'.effects ≡ some e) × (e.status ≡ EffectStatus.succeeded))
    × (lookup_pair 2 21 s'.tool_results
        ≡ some (persisted_call env texts lost_effect, observed env texts lost_effect true 82))
unfolding lookup find values
confirm_persisted_result-returns_example =
    confirm_persisted_result-returns env texts drawn lost_task lost_effect evidence true 82 60 1
      first_session lost_store refl refl refl refl refl refl refl refl refl refl refl refl
