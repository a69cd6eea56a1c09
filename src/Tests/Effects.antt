-- ===== src/Tests/Effects.antt =====
-- The theorems on effects and observations at concrete inputs, on the store of Samples.antt.
use patch_loop.Store.Recovery.Resolutions.{Resolved, resolve_recovery_records}
use patch_loop.Store.Settlement.{commit_effect}
use patch_loop.Store.Recovery.{resolve_recovery, commit_tool_result}
use patch_loop.Store.Recovery.Observations.{commit_tool_result_keeps}
use patch_loop.Store.State.{Env, Store, insert_pair, lookup_pair}
use patch_loop.Execution.Approvals.{consume, matches_execution_conditions}
use patch_loop.Domain.Tools.{ToolCall, ToolResult}
use patch_loop.Execution.Effects.{Effect, EffectStatus, Hashing, content_fingerprint, is_unknown}
use patch_loop.Execution.Recovery.{Supplied, belongs, validate_recovery_resolution}
use patch_loop.Store.Leases.{with_condition, assert_guard, guard_holds}
use patch_loop.Execution.Controls.{DispositionKind, RecoveryDisposition, validate_target}
use patch_loop.Samples.{effect, env, guard, lost_task, no_conditions, store}
use patch_loop.Store.Effects.{claim_effect, claimed_effect, earliest, pending_control}
use patch_loop.Store.Effects.Claims.{claim_effect-Authorized, claim_effect_once}
use patch_loop.Domain.{Task, TaskRuntimeCondition, is_recovery}
use patch_loop.Store.Effects.Authority.{Authorized}
use patch_loop.Common.{find, [], false, keep, none, refl, some, true, ◌+◌, ◌∷◌, ◌≡◌}
use patch_loop.Store.Settlement.Commits.{commit_effect_once}
use patch_loop.Execution.Recovery.Targets.{Leads, validate_recovery_resolution-Leads}
use patch_loop.Common.Dict.{insert, lookup, values}
use patch_loop.Contracts.{ok}

abbrev claimed : Effect
claimed = claimed_effect env effect true

abbrev after_effect : Store
after_effect = (claim_effect env 50 3 3 guard no_conditions 20 store).1

effect_claims_well :
    claim_effect env 50 3 3 guard no_conditions 20 store ≡ (ok claimed, after_effect)
unfolding claim_effect assert_guard guard_holds pending_control earliest consume
    matches_execution_conditions content_fingerprint lookup values insert keep
effect_claims_well = refl

claim_effect-Authorized_example :
    (current : Effect) × Authorized env 50 3 guard no_conditions 20 store current
    × (current.version ≡ 3)
    × (claimed ≡ claimed_effect env current claimed.approval_consumed)
    × (lookup 3 after_effect.effects ≡ some claimed)
claim_effect-Authorized_example =
    claim_effect-Authorized env 50 3 3 guard no_conditions 20 store effect_claims_well

claim_effect_once_example :
    ¬ (claim_effect env 50 3 4 guard no_conditions 20 after_effect ≡ (ok claimed, after_effect))
claim_effect_once_example =
    claim_effect_once env 50 3 3 4 guard guard no_conditions no_conditions 20 20 store
      effect_claims_well

abbrev unknown : Effect
unknown = record effect { status = EffectStatus.unknown; approval_id = none }

abbrev disposition : RecoveryDisposition
disposition = record {
  id = 80;
  unknown_effect_id = 3;
  kind = DispositionKind.confirm_result;
  evidence = record { is_empty = false; duplicate_risk_acknowledged = false; content = 81 };
  decision_source = 60;
  retry_effect_id = none;
  created_at = 20;
}

abbrev supplied : Supplied
supplied = record {
  confirmed_call = some (record { id = 21; name = 22; arguments = 24; detail = 0 });
  confirmed_result =
      some (record { call_id = 21; tool_name = 22; success = true; output = 82; detail = 0 });
  retry_effect = none;
  retry_approval = none;
}

-- The effect's fingerprint is of the arguments that are confirmed.
abbrev by_arguments : Hashing
by_arguments = record { hash_arguments = λ k. k + 1; hash_content = λ c. c.arguments_summary }

validate_recovery_resolution-Leads_example :
    (is_recovery lost_task.runtime_condition ≡ true)
    × (unknown.task_id ≡ lost_task.id)
    × (is_unknown unknown.status ≡ true)
    × (disposition.evidence.is_empty ≡ false)
    × Leads disposition.kind lost_task supplied TaskRuntimeCondition.idle
unfolding validate_recovery_resolution belongs validate_target
validate_recovery_resolution-Leads_example =
    validate_recovery_resolution-Leads by_arguments lost_task unknown disposition supplied refl

abbrev first_call : ToolCall
first_call = record { id = 21; name = 22; arguments = 24; detail = 0 }

abbrev first_result : ToolResult
first_result = record { call_id = 21; tool_name = 22; success = true; output = 82; detail = 0 }

abbrev observed_store : Store
observed_store = record store { tool_results = ((2, 21), (first_call, first_result)) ∷ [] }

-- A second result for the same call is refused.
commit_tool_result_keeps_example :
    lookup_pair 2 21
      (commit_tool_result env 2 first_call
        (record first_result { output = 83 })
        none
        (some guard)
        20
        observed_store).1.tool_results
    ≡ some (first_call, first_result)
unfolding lookup_pair
commit_tool_result_keeps_example =
    commit_tool_result_keeps env 2 first_call (record first_result { output = 83 }) none
      (some guard) 20 observed_store 2 21 (first_call, first_result) refl

abbrev executing_effect : Effect
executing_effect = record effect {
  status = EffectStatus.executing;
  approval_id = none;
  version = 4;
}

abbrev executing_store : Store
executing_store = record store { effects = (3, executing_effect) ∷ [] }

abbrev finished : Effect
finished = record executing_effect { status = EffectStatus.succeeded }

abbrev committed : Effect
committed = record finished { result_ref = some 91; observation_ref = some 92; version = 5 }

abbrev after_commit : Store
after_commit =
    (commit_effect env finished 4 (some 91) (some 92) guard (some first_call) (some first_result) 20
      executing_store).1

commits_well :
    commit_effect env finished 4
      (some 91)
      (some 92)
      guard
      (some first_call)
      (some first_result)
      20
      executing_store
    ≡ (ok committed, after_commit)
unfolding commit_effect assert_guard guard_holds lookup insert lookup_pair insert_pair
commits_well = refl

commit_effect_once_example : ¬ (
    commit_effect env finished 5 none none guard none none 21 after_commit
    ≡ (ok committed, after_commit))
commit_effect_once_example =
    commit_effect_once env finished 4 (some 91) (some 92) guard (some first_call)
      (some first_result) 20 executing_store finished 5 none none guard none none 21 refl
      commits_well

abbrev by_arguments_env : Env
by_arguments_env = record env { hashing = by_arguments }

abbrev unknown_store : Store
unknown_store = record store { tasks = (2, lost_task) ∷ []; effects = (3, unknown) ∷ [] }

abbrev resolved : Task
resolved = with_condition TaskRuntimeCondition.idle lost_task

abbrev after_resolution : Store
after_resolution =
    (resolve_recovery by_arguments_env 95 96 disposition 2 4 supplied unknown_store).1

recovers_well :
    resolve_recovery by_arguments_env 95 96 disposition 2 4 supplied unknown_store
    ≡ (ok resolved, after_resolution)
unfolding resolve_recovery validate_recovery_resolution belongs validate_target lookup insert values
    find lookup_pair insert_pair
recovers_well = refl

resolve_recovery_records_example :
    (x : Task) × (u : Effect) × (target : TaskRuntimeCondition) × (lookup 2 unknown_store.tasks
      ≡ some x)
    × (x.version ≡ 4)
    × (is_recovery x.runtime_condition ≡ true)
    × (lookup 3 unknown_store.effects ≡ some u)
    × (is_unknown u.status ≡ true)
    × (validate_recovery_resolution by_arguments x u disposition supplied ≡ ok target)
    × Resolved disposition.kind target x resolved
    × (lookup 80 after_resolution.recoveries ≡ some disposition)
    × (lookup 2 after_resolution.tasks ≡ some resolved)
unfolding lookup find values
resolve_recovery_records_example =
    resolve_recovery_records by_arguments_env 95 96 disposition 2 4 supplied unknown_store refl
      recovers_well
