-- ===== src/Store/Leases/Expiry.antt =====
-- What the two loops of `claim_execution` (src/patchloop/persistence_contracts.py) leave behind.
use patch_loop.Common.{
  ◌⊎◌, Key, Instant, ◌≡◌, Bool, true, ◌&&◌, Option, none, some, List, [], ◌∷◌, arith, refl, subst,
  ap, if◌then◌else◌, leb, ◌==◌, ==-refl,
}
use patch_loop.Common.Dict.{insert, Dict, lookup, values, lookup-insert, Keyed, insert-Keyed}
use patch_loop.Contracts.{ok}
use patch_loop.Execution.Leases.{Execution, ExecutionStatus, is_active_status}
use patch_loop.Store.State.{Store, resume-ok, resume_keeps}
use patch_loop.Store.Leases.{expire_one, expire_all, with_status}

abbrev pub execution_id : Execution → Key
execution_id e = e.id

abbrev pub IsKeyed : Store → Type 0
IsKeyed s = Keyed execution_id s.executions

abbrev pub SameButExecutions : Store → Store → Type 0
SameButExecutions s s' = s' ≡ record s { executions = s'.executions }

-- What the loop makes of an execution, and of an entry.
abbrev pub retire : (Execution → Bool) → Execution → Execution
retire mine e =
    if mine e && is_active_status e.status then with_status ExecutionStatus.released e else e

abbrev pub retire_entry : (Execution → Bool) → Option Execution → Option Execution
retire_entry mine none = none
retire_entry mine (some e) = some (retire mine e)

-- Of the entries in `d`, the loop over `d` has been; the others are as they were.
abbrev after_loop : (Execution → Bool) → Option Execution → Option Execution → Option Execution
after_loop mine none current = current
after_loop mine (some e) current = some (retire mine e)

-- An active lease of the loop's does not survive it, unless it had run out.
abbrev pub has_run_out : (Execution → Bool) → Instant → Option Execution → Bool
has_run_out mine now none = true
has_run_out mine now (some e) =
    if mine e && is_active_status e.status then leb e.lease_expires_at now else true

-- The entries of the part of the dictionary that is still to be done are current.
abbrev Current : Dict Execution → Store → Type 0
Current d s = (k : Key) (e : Execution) → lookup k d ≡ some e → lookup k s.executions ≡ some e

module _ (mine : Execution → Bool) (resource : Key) (now : Instant) where
  pub one_writes :
      (e : Execution) (b : Bool) (s : Store)
      → ((expire_one mine resource now e b s).1.executions ≡ s.executions)
        ⊎ ((expire_one mine resource now e b s).1.executions
            ≡ insert e.id (with_status ExecutionStatus.released e) s.executions)
  unfolding expire_one
  one_writes e b s = ground arith

  one_entry :
      (e : Execution) (b : Bool) (s : Store) {t : Bool} {s' : Store}
      → lookup e.id s.executions ≡ some e
      → expire_one mine resource now e b s ≡ (ok t, s')
      → (k : Key)
      → lookup k s'.executions ≡ (if e.id == k then some (retire mine e) else lookup k s.executions)
  unfolding expire_one
  one_entry e b s c h k =
      ground (arith, lookup-insert e.id k (with_status ExecutionStatus.released e) s.executions)

  one_frame :
      (s₀ : Store) (e : Execution) (b : Bool) (s : Store)
      → SameButExecutions s₀ s
      → SameButExecutions s₀ (expire_one mine resource now e b s).1
  unfolding expire_one
  one_frame s₀ e b s h = ground arith

  one_Keyed :
      (e : Execution) (b : Bool) (s : Store)
      → IsKeyed s
      → IsKeyed (expire_one mine resource now e b s).1
  unfolding expire_one
  one_Keyed e b s h =
      ground
        (arith, insert-Keyed execution_id (with_status ExecutionStatus.released e) s.executions h)

  one_run_out :
      (e : Execution) (b : Bool) (s : Store) {t : Bool} {s' : Store}
      → expire_one mine resource now e b s ≡ (ok t, s')
      → has_run_out mine now (some e) ≡ true
  unfolding expire_one
  one_run_out e b s h = ground arith

  loop_entry :
      (d : Dict Execution) (b : Bool) (s : Store) {t : Bool} {s' : Store}
      → Keyed execution_id d
      → Current d s
      → expire_all mine resource now (values d) b s ≡ (ok t, s')
      → (k : Key) → lookup k s'.executions ≡ after_loop mine (lookup k d) (lookup k s.executions)
  unfolding expire_all values lookup
  loop_entry [] b s keyed current h k = ground arith
  loop_entry ((j, w) ∷ d) b s keyed current h k =
      let (t1, s1, first, rest) = resume-ok (expire_one mine resource now w b s) _ h in
      let here = one_entry w b s (current w.id w (ground (arith, ==-refl w.id))) first in
      ground (
        arith,
        here k,
        loop_entry d t1 s1 keyed.2 (λ i e q. ground (arith, here i, current i e)) rest k,
        current j w,
      )

  loop_run_out :
      (d : Dict Execution) (b : Bool) (s : Store) {t : Bool} {s' : Store}
      → expire_all mine resource now (values d) b s ≡ (ok t, s')
      → (k : Key) → has_run_out mine now (lookup k d) ≡ true
  unfolding expire_all values lookup
  loop_run_out [] b s h k = refl
  loop_run_out ((j, w) ∷ d) b s h k =
      let (t1, s1, first, rest) = resume-ok (expire_one mine resource now w b s) _ h in
      ground (arith, one_run_out w b s first, loop_run_out d t1 s1 rest k)

  pub loop_Keyed :
      (es : List Execution) (b : Bool) (s : Store)
      → IsKeyed s
      → IsKeyed (expire_all mine resource now es b s).1
  unfolding expire_all
  loop_Keyed [] b s h = h
  loop_Keyed (e ∷ es) b s h =
      resume_keeps IsKeyed (expire_one mine resource now e b s) _ (one_Keyed e b s h)
        λ t k. loop_Keyed es t (expire_one mine resource now e b s).1 k

  -- Everything but the executions stays as it is in `s₀`.
  pub loop_frame :
      (s₀ : Store) (es : List Execution) (b : Bool) (s : Store)
      → SameButExecutions s₀ s
      → SameButExecutions s₀ (expire_all mine resource now es b s).1
  unfolding expire_all
  loop_frame s₀ [] b s h = h
  loop_frame s₀ (e ∷ es) b s h =
      resume_keeps (SameButExecutions s₀) (expire_one mine resource now e b s) _
        (one_frame s₀ e b s h) λ t k. loop_frame s₀ es t (expire_one mine resource now e b s).1 k

  -- The whole loop, over the executions of the store: it raises, or it retires exactly the active
  -- executions that it looks for, all of which had run out, and writes nothing else.
  pub expire_all_lem :
      (b : Bool) (s : Store) {t : Bool} {s' : Store}
      → IsKeyed s
      → expire_all mine resource now (values s.executions) b s ≡ (ok t, s')
      → ((k : Key) → lookup k s'.executions ≡ retire_entry mine (lookup k s.executions))
        × ((k : Key) → has_run_out mine now (lookup k s.executions) ≡ true)
        × IsKeyed s'
        × SameButExecutions s s'
  expire_all_lem b s keyed h = (
    λ k. ground (arith, loop_entry s.executions b s keyed (λ i e q. q) h k),
    loop_run_out s.executions b s h,
    subst IsKeyed (ap (λ r. r.1) h) (loop_Keyed (values s.executions) b s keyed),
    subst (SameButExecutions s) (ap (λ r. r.1) h) (loop_frame s (values s.executions) b s refl),
  )
