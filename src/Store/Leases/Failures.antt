-- ===== src/Store/Leases/Failures.antt =====
-- A claim that raises has made nothing active (`claim_execution` of
-- src/patchloop/persistence_contracts.py).
use patch_loop.Store.State.{
  check_version_cases, fetch_cases, raise_if_cases, Env, Store, resume_cases,
}
use patch_loop.Common.Dict.{has_key, values, Dict, insert, lookup, lookup-insert}
use patch_loop.Store.Journal.{journal_task}
use patch_loop.Store.Leases.{
  claim_execution, in_session, of_task, expire_all, expire_one, record_claim, with_status,
}
use patch_loop.Store.Leases.Expiry.{loop_frame, one_writes}
use patch_loop.Execution.Leases.{Execution, ExecutionStatus, is_active_status}
use patch_loop.Session.{Session}
use patch_loop.Domain.{is_recovery, Task}
use patch_loop.Contracts.{Result, Error, err}
use patch_loop.Common.{
  Option, any, ℕ, ◌==◌, Bool, Instant, List, [], ap, arith, false, inl, inr, not, refl, same_key,
  some, sym, true, ◌∙◌, ◌∷◌, ◌≡◌, Key,
}

-- What is active after was there before, as it was.
abbrev pub Kept : Dict Execution → Dict Execution → Type 0
Kept d d' =
    (k : Key) (a : Execution)
    → lookup k d' ≡ some a
    → is_active_status a.status ≡ true
    → lookup k d ≡ some a

pub same-Kept : (d d' : Dict Execution) → d' ≡ d → Kept d d'
same-Kept d d' h k a found live = ap (lookup k) (sym h) ∙ found

pub trans-Kept : (d d1 d2 : Dict Execution) → Kept d d1 → Kept d1 d2 → Kept d d2
trans-Kept d d1 d2 f g k a found live = f k a (g k a found live) live

-- A write that retires an entry.
pub put-Kept :
    (d d' : Dict Execution) (e : Execution)
    → d' ≡ insert e.id e d
    → is_active_status e.status ≡ false
    → Kept d d'
put-Kept d d' e written ended k a found live = ground (arith, written, lookup-insert e.id k e d)

expire_all-Kept :
    (mine : Execution → Bool) (resource : Key) (now : Instant) (es : List Execution) (b : Bool)
    (s : Store)
    → Kept s.executions (expire_all mine resource now es b s).1.executions
unfolding expire_all
expire_all-Kept mine resource now [] b s = same-Kept _ _ refl
expire_all-Kept mine resource now (e ∷ es) b s =
    resume_cases (λ r. Kept s.executions r.1.executions) (expire_one mine resource now e b s) _
      (λ _ _. one-Kept)
      λ t _.
        trans-Kept _ _ _ one-Kept
          (expire_all-Kept mine resource now es t (expire_one mine resource now e b s).1)
  where
    one-Kept : Kept s.executions (expire_one mine resource now e b s).1.executions
    one-Kept = elim (one_writes mine resource now e b s) [
      | inl same ↦ same-Kept _ _ same
      | inr written ↦ put-Kept _ _ (with_status ExecutionStatus.released e) written refl
    ]

expire_all-sessions :
    (mine : Execution → Bool) (resource : Key) (now : Instant) (es : List Execution) (b : Bool)
    (s : Store)
    → (expire_all mine resource now es b s).1.sessions ≡ s.sessions
expire_all-sessions mine resource now es b s =
    ap (λ (t : Store). t.sessions) (loop_frame mine resource now s es b s refl)

-- Once it has come to its writes, a claim returns.
record_claim-err :
    (env : Env) (v : Execution) (task : Task) (t : Bool) (s : Store) (session : Session) (e : Error)
    → lookup v.session_id s.sessions ≡ some session
    → not (same_key task.session_id (some v.session_id)) ≡ false
    → (record_claim env v task t s).0 ≡ err e
    → ⊥
unfolding record_claim journal_task
record_claim-err env v task t s session e found bound h = ground arith

-- What is left by a claim that raises.
pub claim-Kept :
    (env : Env) (v : Execution) (expected : Option ℕ) (now : Instant) (s : Store) (e : Error)
    → (claim_execution env v expected now s).0 ≡ err e
    → Kept s.executions (claim_execution env v expected now s).1.executions
unfolding claim_execution
claim-Kept env v expected now s =
    fetch_cases P s (lookup v.session_id s.sessions) _ _ (λ _ _ _. same-Kept _ _ refl)
      λ session stored.
        resume_cases P
          (expire_all (in_session v.session_id) v.session_id now (values s.executions) false s) _
          (λ _ _. λ _ _. first)
          λ t1 _.
            fetch_cases P s1 (lookup v.task_id s1.tasks) _ _ (λ _ _ _. first)
              λ task _.
                check_version_cases P s1 task.id task.version expected _ (λ _ _ _. first)
                  λ _.
                    raise_if_cases P s1 (not (same_key task.session_id (some v.session_id))) _ _
                      (λ _ _. first)
                      λ bound.
                        raise_if_cases P s1 (is_recovery task.runtime_condition) _ _ (λ _ _. first)
                          λ _.
                            resume_cases P
                              (expire_all (of_task v.task_id) v.task_id now (values s1.executions)
                                t1 s1)
                              _ (λ _ _ _ _. second t1)
                              λ t2 _.
                                raise_if_cases P (s2 t1) (has_key v.id (s2 t1).executions) _ _
                                  (λ _ _. second t1)
                                  λ _.
                                    raise_if_cases P (s2 t1)
                                      (any (λ e. e.lease_token == v.lease_token)
                                        (values (s2 t1).executions))
                                      _ _ (λ _ _. second t1)
                                      λ _. λ e h.
                                        elim (record_claim-err env v task t2 (s2 t1) session e
                                          (ap (lookup v.session_id) (sessions t1) ∙ stored) bound
                                          h) [ ]
  where
    P : Result Execution × Store → Type 0
    P r = (e : Error) → r.0 ≡ err e → Kept s.executions r.1.executions

    s1 : Store
    s1 = (expire_all (in_session v.session_id) v.session_id now (values s.executions) false s).1

    s2 : Bool → Store
    s2 t = (expire_all (of_task v.task_id) v.task_id now (values s1.executions) t s1).1

    first : Kept s.executions s1.executions
    first = expire_all-Kept (in_session v.session_id) v.session_id now (values s.executions) false s

    second : (t : Bool) → Kept s.executions (s2 t).executions
    second t =
        trans-Kept _ s1.executions _ first
          (expire_all-Kept (of_task v.task_id) v.task_id now (values s1.executions) t s1)

    sessions : (t : Bool) → (s2 t).sessions ≡ s.sessions
    sessions t =
        expire_all-sessions (of_task v.task_id) v.task_id now (values s1.executions) t s1
        ∙ expire_all-sessions (in_session v.session_id) v.session_id now (values s.executions) false
            s
