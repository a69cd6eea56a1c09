-- ===== src/Store/Approvals/Requests.antt =====
-- What `request_effect_approval` does to the task (src/patchloop/persistence_contracts.py).
use patch_loop.Execution.Leases.{ExecutionStatus, Execution}
use patch_loop.Execution.Approvals.{same_request, Approval}
use patch_loop.Store.State.{Env, Store}
use patch_loop.Execution.Effects.{Effect, is_waiting}
use patch_loop.Domain.{is_recovery, Task, TaskRuntimeCondition}
use patch_loop.Contracts.{LeaseGuard, ok}
use patch_loop.Common.Dict.{insert, lookup-insert_self, lookup}
use patch_loop.Store.Leases.{assert_guard, guard_holds, with_status}
use patch_loop.Store.Approvals.{pause_for_approval, request_again, request_effect_approval}
use patch_loop.Common.{refl, ◌+◌, arith, Instant, Key, some, true, ◌≡◌}

-- A guard that holds gives the execution.
assert_guard_holds :
    (g : LeaseGuard) (now : Instant) (s : Store) (holder : Execution)
    → lookup g.execution_id s.executions ≡ some holder
    → guard_holds g now holder ≡ true
    → assert_guard g now s ≡ (ok holder, s)
unfolding assert_guard
assert_guard_holds g now s holder found holds = ground (arith, found, holds)

-- The task after its approval was asked for.
abbrev pub paused : Task → Task
paused task = record task {
  runtime_condition = TaskRuntimeCondition.waiting_for_approval;
  version = task.version + 1;
}

again-ok :
    (holder : Execution) (current : Effect) (approval existing : Approval) (i : Key) (task : Task)
    (s : Store)
    → current.approval_id ≡ some i
    → lookup i s.approvals ≡ some existing
    → same_request existing approval ≡ true
    → lookup current.task_id s.tasks ≡ some task
    → (s' : Store) × (request_again holder current approval s
        ≡ (ok (current, existing, paused task), s'))
      × (s'.effects ≡ s.effects)
      × (s'.recoveries ≡ s.recoveries)
      × (lookup task.id s'.tasks ≡ some (paused task))
unfolding request_again pause_for_approval
again-ok holder current approval existing i task s waits_for stored same of_task = (
  record s {
    executions =
        insert holder.id (with_status ExecutionStatus.waiting_for_approval holder) s.executions;
    tasks = insert task.id (paused task) s.tasks;
  },
  ground (arith, waits_for, stored, same, of_task),
  refl,
  refl,
  lookup-insert_self task.id (paused task) s.tasks,
)

-- A request_effect_approval that repeats the stored request of an effect that waits for it, under
-- a guard that holds and at the effect's version, succeeds for a task that needs recovery: the
-- task is then stored as waiting for approval, so it needs recovery no more, with its outcome as
-- it was, while no disposition is recorded and every effect stays as it was.
pub request_again_pauses :
    (env : Env) (effect_id i : Key) (approval existing : Approval) (g : LeaseGuard) (now : Instant)
    (s : Store) (holder : Execution) (current : Effect) (task : Task)
    → lookup g.execution_id s.executions ≡ some holder
    → guard_holds g now holder ≡ true
    → lookup effect_id s.effects ≡ some current
    → current.task_id ≡ holder.task_id
    → is_waiting current.status ≡ true
    → approval.effect_id ≡ effect_id
    → current.approval_id ≡ some i
    → lookup i s.approvals ≡ some existing
    → same_request existing approval ≡ true
    → lookup current.task_id s.tasks ≡ some task
    → is_recovery task.runtime_condition ≡ true
    → (s' : Store) × (t : Task) × (request_effect_approval env effect_id approval current.version g
          now s
        ≡ (ok (current, existing, t), s'))
      × (lookup task.id s'.tasks ≡ some t)
      × (t.runtime_condition ≡ TaskRuntimeCondition.waiting_for_approval)
      × (t.outcome ≡ task.outcome)
      × (s'.effects ≡ s.effects)
      × (s'.recoveries ≡ s.recoveries)
unfolding request_effect_approval
request_again_pauses env effect_id i approval existing g now s holder current task found holds
      at_effect of_holder waits its waits_for stored same of_task recovering =
    let guarded = assert_guard_holds g now s holder found holds in
    let (s', again, effects, recoveries, kept) =
      again-ok holder current approval existing i task s waits_for stored same of_task in
    (
      s',
      paused task,
      ground (arith, guarded, at_effect, of_holder, waits, its, again),
      kept,
      refl,
      refl,
      effects,
      recoveries,
    )
