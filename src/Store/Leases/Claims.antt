-- ===== src/Store/Leases/Claims.antt =====
-- What a successful `claim_execution` (src/patchloop/persistence_contracts.py) has checked and
-- written.
use patch_loop.Common.{
  ℕ, Key, Instant, ◌≡◌, Bool, true, false, ◌||◌, not, Option, none, some, arith, refl,
  if◌then◌else◌, ◌==◌, same_key, any, subst, ap, not-eq_false, ◌∙◌, is_none,
}
use patch_loop.Common.Dict.{Dict, lookup, insert, values, has_key, lookup-insert}
use patch_loop.Contracts.{ok}
use patch_loop.Domain.{Task, TaskRuntimeCondition, is_recovery}
use patch_loop.Execution.Leases.{Execution}
use patch_loop.Store.State.{
  Store, Env, resume-ok, fetch-ok, raise_if-ok, check_version-ok, is_expected,
}
use patch_loop.Store.Leases.{
  expire_all, record_claim, claim_execution, in_session, of_task, claimed_by, with_condition,
}
use patch_loop.Store.Leases.Expiry.{IsKeyed, retire_entry, has_run_out, expire_all_lem}

-- The executions that a claim of `v` takes over from.
abbrev pub rivals : Execution → Execution → Bool
rivals v e = e.session_id == v.session_id || e.task_id == v.task_id

-- The two loops in a row are one over the rivals.
module _ (v : Execution) (now : Instant) where
  pub retire_rivals :
      (o : Option Execution)
      → retire_entry (of_task v.task_id) (retire_entry (in_session v.session_id) o)
        ≡ retire_entry (rivals v) o
  retire_rivals none = refl
  retire_rivals (some e) = ground arith

  rivals_run_out :
      (o : Option Execution)
      → has_run_out (in_session v.session_id) now o ≡ true
      → has_run_out (of_task v.task_id) now (retire_entry (in_session v.session_id) o) ≡ true
      → has_run_out (rivals v) now o ≡ true
  rivals_run_out none a b = refl
  rivals_run_out (some e) a b = ground arith

  retired_none : (o : Option Execution) → is_none (retire_entry (rivals v) o) ≡ true → o ≡ none
  retired_none none h = refl
  retired_none (some e) h = cc

no_key : (o : Option Execution) → (if is_none o then false else true) ≡ false → is_none o ≡ true
no_key o h = ground arith

module _ (env : Env) where
  -- The writes of a claim.
  pub record_claim-ok :
      (v : Execution) (task : Task) (t : Bool) (s : Store) {c : Execution} {s' : Store}
      → record_claim env v task t s ≡ (ok c, s')
      → (c ≡ claimed_by v (values s.executions))
        × (s'.executions ≡ insert v.id c s.executions)
        × (s'.tasks ≡ insert task.id (with_condition TaskRuntimeCondition.running task) s.tasks)
  unfolding record_claim
  record_claim-ok v task t s h = ground arith

  pub record Claimed (v : Execution) (expected : Option ℕ) (now : Instant) (s : Store)
      (c : Execution) (s' : Store) : Type 0 where
    pub task : Task
    pub by_session : Store
    pub by_task : Store
    pub takeover : Bool
    pub interim : Bool
    pub first :
        expire_all (in_session v.session_id) v.session_id now (values s.executions) false s
        ≡ (ok interim, by_session)
    pub found : lookup v.task_id by_session.tasks ≡ some task
    pub fresh_version : is_expected task.version expected ≡ true
    pub bound : same_key task.session_id (some v.session_id) ≡ true
    pub no_recovery : is_recovery task.runtime_condition ≡ false
    pub second :
        expire_all
          (of_task v.task_id)
          v.task_id
          now
          (values by_session.executions)
          interim
          by_session
        ≡ (ok takeover, by_task)
    pub new_id : has_key v.id by_task.executions ≡ false
    pub new_token : any (λ e. e.lease_token == v.lease_token) (values by_task.executions) ≡ false
    pub written : record_claim env v task takeover by_task ≡ (ok c, s')

  pub claim-Claimed :
      (v : Execution) (expected : Option ℕ) (now : Instant) (s : Store) {c : Execution} {s' : Store}
      → claim_execution env v expected now s ≡ (ok c, s')
      → Claimed v expected now s c s'
  unfolding claim_execution
  claim-Claimed v expected now s h =
      let (session, open_session, h0) = fetch-ok (lookup v.session_id s.sessions) _ s _ h in
      let (t1, s1, p1, h1) =
        resume-ok
          (expire_all (in_session v.session_id) v.session_id now (values s.executions) false s) _
          h0 in
      let (task, found, h2) = fetch-ok (lookup v.task_id s1.tasks) _ s1 _ h1 in
      let (version, h3) = check_version-ok task.id task.version expected s1 _ h2 in
      let (bound, h4) =
        raise_if-ok (not (same_key task.session_id (some v.session_id))) _ s1 _ h3 in
      let (no_recovery, h5) = raise_if-ok (is_recovery task.runtime_condition) _ s1 _ h4 in
      let (t2, s2, p2, h6) =
        resume-ok (expire_all (of_task v.task_id) v.task_id now (values s1.executions) t1 s1) _
          h5 in
      let (new_id, h7) = raise_if-ok (has_key v.id s2.executions) _ s2 _ h6 in
      let (new_token, h8) =
        raise_if-ok (any (λ e. e.lease_token == v.lease_token) (values s2.executions)) _ s2 _ h7 in
      record {
        task = task;
        by_session = s1;
        by_task = s2;
        takeover = t2;
        interim = t1;
        first = p1;
        found = found;
        fresh_version = version;
        bound = not-eq_false _ bound;
        no_recovery = no_recovery;
        second = p2;
        new_id = new_id;
        new_token = new_token;
        written = h8;
      }

  -- What a successful claim leaves in the executions, and what it found there.
  pub claim-entries :
      (v : Execution) (expected : Option ℕ) (now : Instant) (s : Store) {c : Execution} {s' : Store}
      → IsKeyed s
      → claim_execution env v expected now s ≡ (ok c, s')
      → ((k : Key)
          → lookup k s'.executions
            ≡ (if v.id == k then some c else retire_entry (rivals v) (lookup k s.executions)))
        × ((k : Key) → has_run_out (rivals v) now (lookup k s.executions) ≡ true)
        × (lookup v.id s.executions ≡ none)
  claim-entries v expected now s {c} {s'} keyed h =
      let w = claim-Claimed v expected now s h in
      let (entry1, out1, keyed1, frame1) = expire_all_lem _ _ now false s keyed w.first in
      let (entry2, out2, keyed2, frame2) =
        expire_all_lem _ _ now w.interim w.by_session keyed1 w.second in
      let (claimed, executions, tasks) = record_claim-ok v w.task w.takeover w.by_task w.written in
      let retired = λ (k : Key).
        entry2 k
        ∙ ap (retire_entry (of_task v.task_id)) (entry1 k)
        ∙ retire_rivals v now (lookup k s.executions) in
      (
        λ k.
            ap (lookup k) executions
            ∙ lookup-insert v.id k c w.by_task.executions
            ∙ ap (λ (o : Option Execution). if v.id == k then some c else o) (retired k),
        λ k. rivals_run_out v now (lookup k s.executions) (out1 k) (
            subst (λ (o : Option Execution). has_run_out (of_task v.task_id) now o ≡ true)
              (entry1 k) (out2 k)),
        retired_none v now (lookup v.id s.executions) (
            subst (λ (o : Option Execution). is_none o ≡ true) (retired v.id)
              (no_key (lookup v.id w.by_task.executions) w.new_id)),
      )

  -- The dictionary that the claim's generation is counted in.
  pub claim-counted :
      (v : Execution) (expected : Option ℕ) (now : Instant) (s : Store) {c : Execution} {s' : Store}
      → IsKeyed s
      → claim_execution env v expected now s ≡ (ok c, s')
      → (d : Dict Execution) × (c ≡ claimed_by v (values d))
        × ((k : Key) → lookup k d ≡ retire_entry (rivals v) (lookup k s.executions))
  claim-counted v expected now s {c} {s'} keyed h =
      let w = claim-Claimed v expected now s h in
      let (entry1, _, keyed1, _) = expire_all_lem _ _ now false s keyed w.first in
      let (entry2, _, _, _) = expire_all_lem _ _ now w.interim w.by_session keyed1 w.second in
      (
        w.by_task.executions,
        (record_claim-ok v w.task w.takeover w.by_task w.written).0,
        λ k.
            entry2 k
            ∙ ap (retire_entry (of_task v.task_id)) (entry1 k)
            ∙ retire_rivals v now (lookup k s.executions),
      )
