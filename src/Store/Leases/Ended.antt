-- ===== src/Store/Leases/Ended.antt =====
-- A claim of a task that has ended (`claim_execution` of src/patchloop/persistence_contracts.py).
use patch_loop.Execution.Leases.{Execution, is_active_status}
use patch_loop.Contracts.{ok}
use patch_loop.Store.Leases.{
  claim_execution, claimed_by, expire_all, expire_one, in_session, of_task, record_claim,
}
use patch_loop.Common.Dict.{has_key, lookup, lookup-insert_self, values}
use patch_loop.Domain.{
  Task, TaskRuntimeCondition, is_active, is_recovery, validate_state_dimensions,
}
use patch_loop.Session.{Session}
use patch_loop.Store.State.{Env, Store}
use patch_loop.Store.Journal.{journal_task}
use patch_loop.Common.{
  Bool, Instant, Key, List, [], any, arith, false, refl, some, ◌&&◌, ◌+◌, ◌==◌, ◌∷◌, ◌≡◌,
}

-- The loop over executions none of which is a live rival.
expire_all_idle :
    (mine : Execution → Bool) (resource : Key) (now : Instant) (es : List Execution) (b : Bool)
    (s : Store)
    → any (λ e. mine e && is_active_status e.status) es ≡ false
    → expire_all mine resource now es b s ≡ (ok b, s)
unfolding expire_all expire_one any
expire_all_idle mine resource now [] b s h = refl
expire_all_idle mine resource now (e ∷ es) b s h =
    ground (arith, h, expire_all_idle mine resource now es b s)

-- The task that a claim stores.
abbrev pub reopened : Task → Task
reopened task = record task {
  runtime_condition = TaskRuntimeCondition.running;
  version = task.version + 1;
}

record_claim_stores :
    (env : Env) (v : Execution) (t : Task) (takeover : Bool) (k : Key) (session : Session)
    (s : Store)
    → t.session_id ≡ some k
    → lookup k s.sessions ≡ some session
    → (c : Execution) × (s' : Store) × (record_claim env v t takeover s ≡ (ok c, s'))
      × (lookup t.id s'.tasks ≡ some (reopened t))
unfolding record_claim journal_task
record_claim_stores env v t takeover k session s in_session known =
    let final = (record_claim env v t takeover s).1 in
    (
      claimed_by v (values s.executions),
      final,
      ground (arith, in_session, known),
      ground (arith, in_session, known, lookup-insert_self t.id (reopened t) s.tasks),
    )

-- A claim_execution of a task with a terminal outcome, at its version, in its own stored session,
-- with a new identifier and token, while no execution of the session or the task is active and the
-- task does not need recovery, succeeds: it stores the task as running with that outcome, a state
-- that the cross-field check of Task refuses.
pub claim_reopens :
    (env : Env) (v : Execution) (now : Instant) (s : Store) (session : Session) (t : Task)
    → lookup v.session_id s.sessions ≡ some session
    → any (λ e. e.session_id == v.session_id && is_active_status e.status) (values s.executions)
      ≡ false
    → lookup v.task_id s.tasks ≡ some t
    → t.session_id ≡ some v.session_id
    → is_recovery t.runtime_condition ≡ false
    → any (λ e. e.task_id == v.task_id && is_active_status e.status) (values s.executions) ≡ false
    → has_key v.id s.executions ≡ false
    → any (λ e. e.lease_token == v.lease_token) (values s.executions) ≡ false
    → is_active t.outcome ≡ false
    → (c : Execution) × (s' : Store) × (u : Task) × (claim_execution env v (some t.version) now s
        ≡ (ok c, s'))
      × (lookup t.id s'.tasks ≡ some u)
      × (u.runtime_condition ≡ TaskRuntimeCondition.running)
      × (u.outcome ≡ t.outcome)
      × (validate_state_dimensions u ≡ false)
unfolding claim_execution validate_state_dimensions
claim_reopens env v now s session t at_session quiet_session of_task in_its_session sound quiet_task
      new fresh terminal =
    let by_session =
      expire_all_idle (in_session v.session_id) v.session_id now (values s.executions) false s
        quiet_session in
    let by_task =
      expire_all_idle (λ e. e.task_id == v.task_id) v.task_id now (values s.executions) false s
        quiet_task in
    let (c, s', recorded, kept) =
      record_claim_stores env v t false v.session_id session s in_its_session at_session in
    (
      c,
      s',
      reopened t,
      ground (
        arith, at_session, by_session, of_task, in_its_session, sound, by_task, new, fresh,
        recorded,
      ),
      kept,
      refl,
      refl,
      ground (arith, terminal),
    )
