-- ===== src/Store/Leases/Exclusive.antt =====
-- At most one execution of a session, and of a task, is active, whatever lease calls are made in
-- whatever order (src/patchloop/persistence_contracts.py).
use patch_loop.Store.Leases.Claims.{retire_rivals, rivals}
use patch_loop.Contracts.{Result}
use patch_loop.Domain.{is_recovery, Task}
use patch_loop.Store.Leases.Expiry.{execution_id, expire_all_lem, loop_Keyed, retire_entry, IsKeyed}
use patch_loop.Store.Leases.Survival.{expire_all-Survives, Survives}
use patch_loop.Store.Leases.{
  of_task, in_session, claimed_by, expire_all, claim_execution, record_claim,
}
use patch_loop.Store.State.{
  raise_if_cases, check_version_cases, resume_cases, fetch_cases, Env, Store,
}
use patch_loop.Common.Dict.{
  insert-Keyed, Keyed, lookup-insert, has_key, values, insert, lookup, Dict,
}
use patch_loop.Execution.Leases.{is_active_status, Execution}
use patch_loop.Common.{
  refl, sym, subst, ◌∙◌, ap, none, ◌==◌, any, same_key, not, if◌then◌else◌, false, true, some,
  Instant, Option, arith, ◌⊎◌, Bool, Key, ◌≡◌, ℕ,
}

-- Two executions that may not both be active.
abbrev pub Conflict : Execution → Execution → Type 0
Conflict a b = (a.session_id ≡ b.session_id) ⊎ (a.task_id ≡ b.task_id)

abbrev pub Exclusive : Dict Execution → Type 0
Exclusive d =
    (i j : Key) (a b : Execution)
    → lookup i d ≡ some a
    → lookup j d ≡ some b
    → is_active_status a.status ≡ true
    → is_active_status b.status ≡ true
    → Conflict a b
    → i ≡ j

-- An entry that is active after a claim is the claimed one, or an earlier one that is no rival.
claim_survivor :
    (v c : Execution) (k : Key) (o : Option Execution) (a : Execution)
    → (if v.id == k then some c else retire_entry (rivals v) o) ≡ some a
    → is_active_status a.status ≡ true
    → ((v.id ≡ k) × (a ≡ c)) ⊎ ((o ≡ some a) × (rivals v a ≡ false))
claim_survivor v c k none a h active = ground arith
claim_survivor v c k (some e) a h active = ground arith

-- The claimed execution alone is active among its rivals.
after_claim-Exclusive :
    (v c : Execution) (d d1 d' : Dict Execution)
    → Exclusive d
    → ((k : Key) → lookup k d1 ≡ retire_entry (rivals v) (lookup k d))
    → (c.session_id ≡ v.session_id) × (c.task_id ≡ v.task_id)
    → d' ≡ insert v.id c d1
    → Exclusive d'
after_claim-Exclusive v c d d1 d' ex retired shape written i j a b hi hj active_a active_b x =
    ground (
      arith,
      shape,
      claim_survivor v c i (lookup i d) a (sym (entry i) ∙ hi) active_a,
      claim_survivor v c j (lookup j d) b (sym (entry j) ∙ hj) active_b,
      ex i j a b,
      x,
    )
  where
    entry :
        (k : Key)
        → lookup k d' ≡ (if v.id == k then some c else retire_entry (rivals v) (lookup k d))
    entry k =
        ap (lookup k) written
        ∙ lookup-insert v.id k c d1
        ∙ ap (λ (o : Option Execution). if v.id == k then some c else o) (retired k)

pub Survives-Exclusive : (d d' : Dict Execution) → Survives d d' → Exclusive d → Exclusive d'
Survives-Exclusive d d' h ex i j a b hi hj active_a active_b x =
    let (a', found_a, live_a, session_a, task_a) = h i a hi active_a in
    let (b', found_b, live_b, session_b, task_b) = h j b hj active_b in
    ex i j a' b' found_a found_b live_a live_b (ground arith)

abbrev pub IsSound : Store → Type 0
IsSound s = IsKeyed s × Exclusive s.executions

loop-Exclusive :
    (mine : Execution → Bool) (resource : Key) (now : Instant) (b : Bool) (s : Store)
    → IsSound s
    → IsSound (expire_all mine resource now (values s.executions) b s).1
loop-Exclusive mine resource now b s (keyed, ex) = (
  loop_Keyed mine resource now (values s.executions) b s keyed,
  Survives-Exclusive s.executions _
      (expire_all-Survives mine resource now (values s.executions) b s) ex,
)

record_claim_executions :
    (env : Env) (v : Execution) (task : Task) (t : Bool) (s : Store)
    → (record_claim env v task t s).1.executions
      ≡ insert v.id (claimed_by v (values s.executions)) s.executions
unfolding record_claim
record_claim_executions env v task t s = ground arith

pub claim-IsSound :
    (env : Env) (v : Execution) (expected : Option ℕ) (now : Instant) (s : Store)
    → IsSound s
    → IsSound (claim_execution env v expected now s).1
unfolding claim_execution
claim-IsSound env v expected now s sound =
    fetch_cases P s (lookup v.session_id s.sessions) _ _ (λ _. sound)
      λ session _.
        resume_cases P
          (expire_all (in_session v.session_id) v.session_id now (values s.executions) false s) _
          (λ e _. loop-Exclusive _ _ now false s sound)
          λ t1 first.
            let s1 =
              (expire_all (in_session v.session_id) v.session_id now (values s.executions) false
                s).1 in
            let sound1 = loop-Exclusive (in_session v.session_id) v.session_id now false s sound in
            fetch_cases P s1 (lookup v.task_id s1.tasks) _ _ (λ _. sound1)
              λ task _.
                check_version_cases P s1 task.id task.version expected _ (λ _. sound1)
                  λ _.
                    raise_if_cases P s1 (not (same_key task.session_id (some v.session_id))) _ _
                      sound1
                      λ _. raise_if_cases P s1 (is_recovery task.runtime_condition) _ _ sound1 λ _.
                        resume_cases P
                          (expire_all (of_task v.task_id) v.task_id now (values s1.executions) t1
                            s1)
                          _ (λ e _. loop-Exclusive _ _ now t1 s1 sound1)
                          λ t2 second.
                            let s2 =
                              (expire_all (of_task v.task_id) v.task_id now (values s1.executions)
                                t1 s1).1 in
                            let sound2 =
                              loop-Exclusive (of_task v.task_id) v.task_id now t1 s1 sound1 in
                            raise_if_cases P s2 (has_key v.id s2.executions) _ _ sound2 λ _.
                              raise_if_cases P s2
                                (any (λ e. e.lease_token == v.lease_token) (values s2.executions)) _
                                _ sound2
                                λ _.
                                  let (entry1, _, _, _) =
                                    expire_all_lem (in_session v.session_id) v.session_id now false
                                      s sound.0 first in
                                  let (entry2, _, _, _) =
                                    expire_all_lem (of_task v.task_id) v.task_id now t1 s1 sound1.0
                                      second in
                                  let written = record_claim_executions env v task t2 s2 in
                                  (
                                    subst (Keyed execution_id) (sym written) (
                                        insert-Keyed execution_id
                                          (claimed_by v (values s2.executions)) s2.executions
                                          sound2.0),
                                    after_claim-Exclusive v (claimed_by v (values s2.executions))
                                        s.executions s2.executions _ sound.1
                                        (λ k.
                                          entry2 k
                                          ∙ ap (retire_entry (of_task v.task_id)) (entry1 k)
                                          ∙ retire_rivals v now (lookup k s.executions))
                                        (refl, refl) written,
                                  )
  where
    P : Result Execution × Store → Type 0
    P r = IsSound r.1
