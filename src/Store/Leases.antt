-- ===== src/Store/Leases.antt =====
-- The execution leases of `FakeStore` (src/patchloop/persistence_contracts.py): `claim_execution`,
-- `renew_execution`, `release_execution`, `assert_execution`, `mark_command_recovery_required`.
pub mod Expiry
pub mod Claims
pub mod Fencing
pub mod Survival
pub mod Exclusive
pub mod Runs
pub mod Ended
pub mod Guards
pub mod Failures
use Prim.Native.Nat.{max}
use patch_loop.Common.{
  ℕ, ◌+◌, Key, Instant, Bool, true, false, not, ◌&&◌, Option, none, some, List, [], ◌∷◌,
  if◌then◌else◌, ◌==◌, ltb, leb, same_key, any,
}
use patch_loop.Common.Dict.{lookup, insert, values, has_key}
use patch_loop.Contracts.{
  LeaseGuard, lease_conflict, lease_lost, recovery_required, value_error, key_error,
}
use patch_loop.Domain.{Task, TaskRuntimeCondition, is_running, is_recovery}
use patch_loop.Session.{EventType}
use patch_loop.Execution.Leases.{Execution, ExecutionStatus, is_active_status}
use patch_loop.Store.State.{
  Env, M, pure, raise, gets, fetch, modify, raise_if, check_version, ◌>>=◌, ◌>>◌, get_session,
  get_task,
}
use patch_loop.Store.Journal.{journal_task}

-- `self.executions[e.id] = e`, and so for tasks.
abbrev pub put_execution : Execution → M (Unit {0})
put_execution e = modify λ s. record s { executions = insert e.id e s.executions }

abbrev pub put_task : Task → M (Unit {0})
put_task t = modify λ s. record s { tasks = insert t.id t s.tasks }

abbrev pub with_condition : TaskRuntimeCondition → Task → Task
with_condition c t = record t { runtime_condition = c; version = t.version + 1 }

abbrev pub with_status : ExecutionStatus → Execution → Execution
with_status st e = record e { status = st; version = e.version + 1 }

unfoldable pub guard_holds : LeaseGuard → Instant → Execution → Bool
guard_holds g now e =
    e.task_id == g.task_id
    && (e.lease_token == g.token
        && (e.generation == g.generation
            && (e.owner_id == g.owner_id
                && (ltb now e.lease_expires_at && is_active_status e.status))))

abbrev pub held : LeaseGuard → Instant → Option Execution → Option Execution
held g now none = none
held g now (some e) = if guard_holds g now e then some e else none

-- `ExecutionOwnership.lease_guard` of src/patchloop/execution/ownership.py.
unfoldable pub lease_guard : Execution → LeaseGuard
lease_guard e = record {
  execution_id = e.id;
  task_id = e.task_id;
  token = e.lease_token;
  generation = e.generation;
  owner_id = e.owner_id;
}

-- `_assert_guard`, which is `assert_execution` too.
unfoldable pub assert_guard : LeaseGuard → Instant → M Execution
unfolding guard_holds
assert_guard g now =
    fetch (λ s. held g now (lookup g.execution_id s.executions)) (lease_lost g.task_id)

-- `_require_session_guard`
unfoldable pub require_session_guard : Task → Option LeaseGuard → Instant → M (Unit {0})
unfolding assert_guard
require_session_guard task guard now = elim task.session_id [
  | none ↦ pure tt
  | some _ ↦ elim guard [
    | none ↦ raise (lease_lost task.id)
    | some g ↦ do
      raise_if (not (g.task_id == task.id)) (lease_lost task.id)
      assert_guard g now
      pure tt
  ]
]

-- `_expire_execution`
expire_execution : Execution → M (Unit {0})
expire_execution e =
    if is_active_status e.status
    then put_execution (with_status ExecutionStatus.released e)
    else pure tt

-- One round of either loop of `claim_execution` over the executions of a session or a task.
pub expire_one : (Execution → Bool) → Key → Instant → Execution → Bool → M Bool
unfolding expire_execution
expire_one mine resource now e takeover =
    if mine e && is_active_status e.status
    then (raise_if (ltb now e.lease_expires_at) (lease_conflict resource (some e.owner_id))
        >> (expire_execution e >> pure true))
    else pure takeover

pub expire_all : (Execution → Bool) → Key → Instant → List Execution → Bool → M Bool
unfolding expire_one
expire_all mine resource now [] takeover = pure takeover
expire_all mine resource now (e ∷ es) takeover = do
  t ← expire_one mine resource now e takeover
  expire_all mine resource now es t

abbrev in_session : Key → Execution → Bool
in_session k e = e.session_id == k

abbrev of_task : Key → Execution → Bool
of_task k e = e.task_id == k

-- `max(..., default=0)` over the generations of a task's executions.
unfoldable pub max_generation : Key → List Execution → ℕ
max_generation k [] = 0
max_generation k (e ∷ es) =
    let rest = max_generation k es in if e.task_id == k then max e.generation rest else rest

abbrev claimed_by : Execution → List Execution → Execution
claimed_by e es = record e {
  generation = 1 + max_generation e.task_id es;
  status = ExecutionStatus.running;
}

-- `renew_execution`, after its guard.
pub renewed : Instant → Instant → Execution → M Execution
renewed now expires execution = do
  raise_if (leb expires now) value_error
  put_execution (record execution { lease_expires_at = expires; version = execution.version + 1 })
  pure (record execution { lease_expires_at = expires; version = execution.version + 1 })

unfoldable pub renew_execution : LeaseGuard → Instant → Instant → M Execution
unfolding assert_guard renewed
renew_execution g now expires = assert_guard g now >>= renewed now expires

-- A task whose lease is given back goes from running to idle.
settle_idle : Task → M (Unit {0})
settle_idle task =
    if is_running task.runtime_condition
    then put_task (with_condition TaskRuntimeCondition.idle task)
    else pure tt

module _ (env : Env) where
  -- The writes that follow the checks.
  pub record_claim : Execution → Task → Bool → M Execution
  unfolding max_generation journal_task
  record_claim execution task takeover = do
    es ← gets (λ s. values s.executions)
    put_execution (claimed_by execution es)
    put_task (with_condition TaskRuntimeCondition.running task)
    journal_task env task (if takeover then EventType.lease_takeover else EventType.lease_acquired)
        execution.id ((claimed_by execution es).generation ∷ []) none
    pure (claimed_by execution es)

  unfoldable pub claim_execution : Execution → Option ℕ → Instant → M Execution
  unfolding expire_all record_claim
  claim_execution execution expected now = do
    get_session execution.session_id
    before ← gets (λ s. values s.executions)
    by_session ← expire_all (in_session execution.session_id) execution.session_id now before false
    task ← get_task execution.task_id
    check_version task.id task.version expected
    raise_if (not (same_key task.session_id (some execution.session_id))) value_error
    raise_if (is_recovery task.runtime_condition) (recovery_required task.id none)
    after ← gets (λ s. values s.executions)
    takeover ← expire_all (of_task execution.task_id) execution.task_id now after by_session
    raise_if (← gets (λ s. has_key execution.id s.executions)) value_error
    raise_if (← gets (λ s. any (λ e. e.lease_token == execution.lease_token) (values s.executions)))
        value_error
    record_claim execution task takeover

  -- `release_execution`, after its guard.
  pub released : Execution → M (Unit {0})
  unfolding settle_idle journal_task
  released execution = do
    put_execution (with_status ExecutionStatus.released execution)
    task ← get_task execution.task_id
    settle_idle task
    journal_task env task EventType.lease_released execution.id ((execution.version + 1) ∷ []) none

  unfoldable pub release_execution : LeaseGuard → Instant → M (Unit {0})
  unfolding assert_guard released
  release_execution g now = assert_guard g now >>= released

-- `mark_command_recovery_required`, given the execution that ran the command.
unfoldable pub mark_command_recovery_required : Key → M Key
mark_command_recovery_required execution_id = do
  execution ← fetch (λ s. lookup execution_id s.executions) (key_error execution_id)
  put_execution (with_status ExecutionStatus.recovery_required execution)
  task ← get_task execution.task_id
  put_task (with_condition TaskRuntimeCondition.recovery_required task)
  pure task.id
