-- ===== src/Tests/Approvals.antt =====
-- The theorems on approvals at concrete inputs, on the store of Samples.antt.
use patch_loop.Store.Approvals.{request_effect_approval, resolve_effect_approval}
use patch_loop.Contracts.{approval_conflict, err, ok}
use patch_loop.Store.Leases.{guard_holds, with_condition}
use patch_loop.Common.Dict.{insert, lookup}
use patch_loop.Store.Approvals.Resolutions.{
  Configured, Idles, Resolves, resolve_effect_approval-Resolves,
}
use patch_loop.Store.State.{Store}
use patch_loop.Execution.Approvals.Binding.{consume_once, decide_again}
use patch_loop.Execution.Effects.{Effect, EffectStatus, content_fingerprint}
use patch_loop.Store.Approvals.Requests.{request_again_pauses}
use patch_loop.Execution.Approvals.{
  Approval, ApprovalStatus, Conditions, consume, decide, matches_execution_conditions, same_request,
}
use patch_loop.Samples.{approval, effect, env, guard, lost_task, request, store, execution}
use patch_loop.Common.{Key, [], false, refl, some, true, ◌∷◌, ◌≡◌}
use patch_loop.Domain.{Task, TaskRuntimeCondition}

abbrev conditions : Conditions
conditions = record { workspace_ref = 8; policy_version = 40; config_version = 50 }

consume_once_example :
    (approval.status ≡ ApprovalStatus.approved)
    × (matches_execution_conditions env.hashing approval effect conditions ≡ true)
    × (consume env.hashing effect conditions
          (record approval { status = ApprovalStatus.consumed; version = 3 })
        ≡ err (approval_conflict 4))
unfolding consume matches_execution_conditions content_fingerprint
consume_once_example = consume_once env.hashing effect effect conditions conditions approval refl

abbrev denied : Approval
denied = record request {
  status = ApprovalStatus.denied;
  decision_source = some 60;
  decided_at = some 12;
  version = 2;
}

decide_again_example :
    (decide false 60 14 denied ≡ ok denied) × (decide true 60 14 denied ≡ err (approval_conflict 4))
unfolding decide
decide_again_example = decide_again false 60 12 14 request refl

-- An approval is asked for again, for a task whose recovery is pending.
abbrev waiting : Effect
waiting = record effect { status = EffectStatus.waiting_for_approval }

abbrev lost_store : Store
lost_store = record store {
  tasks = (2, lost_task) ∷ [];
  effects = (3, waiting) ∷ [];
  approvals = (4, request) ∷ [];
}

abbrev waiting_task : Task
waiting_task = with_condition TaskRuntimeCondition.waiting_for_approval lost_task

request_again_pauses_example :
    (s' : Store) × (t : Task) × (request_effect_approval env 3 request 3 guard 20 lost_store
      ≡ (ok (waiting, request, t), s'))
    × (lookup 2 s'.tasks ≡ some t)
    × (t.runtime_condition ≡ TaskRuntimeCondition.waiting_for_approval)
    × (t.outcome ≡ lost_task.outcome)
    × (s'.effects ≡ lost_store.effects)
    × (s'.recoveries ≡ lost_store.recoveries)
unfolding lookup guard_holds same_request
request_again_pauses_example =
    request_again_pauses env 3 4 request request guard 20 lost_store execution waiting lost_task
      refl refl refl refl refl refl refl refl refl refl refl

abbrev waiting_store : Store
waiting_store = record lost_store { tasks = (2, waiting_task) ∷ [] }

abbrev approved : Approval
approved = record request {
  status = ApprovalStatus.approved;
  decision_source = some 60;
  decided_at = some 22;
  version = 2;
}

abbrev approved_effect : Effect
approved_effect = record waiting { status = EffectStatus.prepared; version = 4 }

abbrev idle_task : Task
idle_task = with_condition TaskRuntimeCondition.idle waiting_task

abbrev after_approval : Store
after_approval = (resolve_effect_approval env 50 4 true 60 1 conditions 22 waiting_store).1

resolves_well :
    resolve_effect_approval env 50 4 true 60 1 conditions 22 waiting_store
    ≡ (ok (approved, approved_effect, idle_task), after_approval)
unfolding resolve_effect_approval decide matches_execution_conditions content_fingerprint lookup
    insert
resolves_well = refl

resolve_effect_approval-Resolves_example :
    (x : Effect) × (u : Task) × (config : Key) × (lookup 3 waiting_store.effects ≡ some x)
    × (lookup x.task_id waiting_store.tasks ≡ some u)
    × (request.version ≡ 1)
    × Configured env 50 u.session_id 50 waiting_store config
    × Resolves env true 60 conditions 22 request x u config approved approved_effect
    × Idles env u.runtime_condition u idle_task
    × (lookup 4 after_approval.approvals ≡ some approved)
    × (lookup 3 after_approval.effects ≡ some approved_effect)
unfolding lookup
resolve_effect_approval-Resolves_example =
    resolve_effect_approval-Resolves env 50 4 true 60 1 conditions 22 waiting_store request refl
      refl resolves_well
