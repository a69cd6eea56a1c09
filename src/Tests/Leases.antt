-- ===== src/Tests/Leases.antt =====
-- The theorems on leases at concrete inputs, on the store of Samples.antt.
use patch_loop.Store.Leases.Exclusive.{Exclusive}
use patch_loop.Store.Writers.Handover.{acquire_fences}
use patch_loop.Store.Writers.{acquire_workspace_writer, assert_workspace_guard, writer_guard_holds}
use patch_loop.Execution.Leases.{Execution, ExecutionStatus, WorkspaceLease}
use patch_loop.Store.State.{Store}
use patch_loop.Store.Leases.Fencing.{claim_fences, claim_generation, claim_owned}
use patch_loop.Store.Leases.Runs.{
  claims, renews, requires_recovery, LeaseCall, lease_run, lease_run-Exclusive, lease_step,
}
use patch_loop.Contracts.{WorkspaceLeaseGuard, err, lease_lost, ok}
use patch_loop.Store.Leases.Expiry.{execution_id}
use patch_loop.Common.Dict.{Keyed, insert, lookup, values}
use patch_loop.Samples.{candidate, completed_task, env, execution, guard, session, store, writer}
use patch_loop.Domain.{Task, TaskRuntimeCondition, validate_state_dimensions}
use patch_loop.Store.Leases.Ended.{claim_reopens}
use patch_loop.Common.{
  leb, ◌&&◌, ◌==◌, List, [], any, arith, false, inl, ltb, none, refl, some, ◌+◌, ◌<◌, ◌∷◌, ◌≡◌,
}
use patch_loop.Store.Leases.{
  assert_guard, claim_execution, guard_holds, lease_guard, mark_command_recovery_required,
  renew_execution,
}

abbrev taken_over : Execution
taken_over = record candidate { generation = 2; status = ExecutionStatus.running }

abbrev after_claim : Store
after_claim = (claim_execution env candidate none 40 store).1

claims_well : claim_execution env candidate none 40 store ≡ (ok taken_over, after_claim)
unfolding claim_execution lookup values insert any
claims_well = refl

store-Keyed : Keyed execution_id store.executions
unfolding lookup
store-Keyed = (refl, refl, tt)

claim_fences_example : assert_guard guard 50 after_claim ≡ (err (lease_lost 2), after_claim)
unfolding lookup
claim_fences_example =
    claim_fences env candidate none 40 store store-Keyed claims_well guard 50 execution refl refl

claim_generation_example :
    (taken_over ≡ record candidate { generation = 2; status = ExecutionStatus.running })
    × (0 < 2)
    × (any (λ e. e.task_id == 2 && leb 2 e.generation) (values store.executions) ≡ false)
claim_generation_example = claim_generation env candidate none 40 store store-Keyed claims_well

claim_owned_example :
    assert_guard (lease_guard taken_over) 60 after_claim ≡ (ok taken_over, after_claim)
claim_owned_example = claim_owned env candidate none 40 store store-Keyed claims_well 60

-- A crash, a takeover after the lease has run out, and a release.
abbrev calls : List LeaseCall
calls =
    requires_recovery 99
    ∷ renews guard 20 30
    ∷ claims candidate none 25
    ∷ claims candidate none 40
    ∷ []

store-Exclusive : Exclusive store.executions
unfolding lookup
store-Exclusive i j a b at_i at_j live_a live_b conflict = ground arith

lease_run-Exclusive_example : candidate.id ≡ taken_over.id
unfolding lease_run lease_step claim_execution renew_execution mark_command_recovery_required lookup
    values insert any
lease_run-Exclusive_example =
    lease_run-Exclusive env calls store store-Keyed store-Exclusive 15 15 taken_over taken_over refl
      refl refl refl (inl refl)

-- The second writer of a workspace.
abbrev successor : WorkspaceLease
successor = record writer { lease_token = 71; generation = 0; lease_expires_at = 28 }

abbrev stale_writer : WorkspaceLeaseGuard
stale_writer = record {
  workspace_id = 8;
  execution_id = 5;
  token = 70;
  generation = 1;
  owner_id = 6;
}

abbrev after_acquire : Store
after_acquire = (acquire_workspace_writer env successor guard 20 store).1

acquires_well :
    acquire_workspace_writer env successor guard 20 store
    ≡ (ok (record successor { generation = 2 }), after_acquire)
unfolding acquire_workspace_writer assert_guard guard_holds lookup insert
acquires_well = refl

acquire_fences_example :
    (ltb 20 15 ≡ false)
    × (2 ≡ 1 + 1)
    × (lookup 8 after_acquire.workspace_leases ≡ some (record successor { generation = 2 }))
    × (assert_workspace_guard stale_writer 12 after_acquire ≡ (err (lease_lost 8), after_acquire))
unfolding writer_guard_holds lookup
acquire_fences_example =
    acquire_fences env successor guard 20 store writer stale_writer 10 12 refl refl refl
      acquires_well

abbrev ended_task : Task
ended_task = record completed_task { version = 4 }

abbrev ended_store : Store
ended_store = record store {
  tasks = (2, ended_task) ∷ [];
  executions = (5, record execution { status = ExecutionStatus.released }) ∷ [];
}

claim_reopens_example :
    (c : Execution) × (s' : Store) × (u : Task) × (claim_execution env candidate
        (some 4)
        40
        ended_store
      ≡ (ok c, s'))
    × (lookup 2 s'.tasks ≡ some u)
    × (u.runtime_condition ≡ TaskRuntimeCondition.running)
    × (u.outcome ≡ ended_task.outcome)
    × (validate_state_dimensions u ≡ false)
unfolding lookup any values
claim_reopens_example =
    claim_reopens env candidate 40 ended_store session ended_task refl refl refl refl refl refl refl
      refl refl
