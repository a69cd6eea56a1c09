-- ===== src/Store/Leases/Fencing.antt =====
-- A claim fences off the holders that it takes over from (`claim_execution` and `_assert_guard` of
-- src/patchloop/persistence_contracts.py).
use mathlib.Core.List.{Memᴰ}
use patch_loop.Store.Journal.{entries}
use patch_loop.Common.{
  Bool-cases, List, any, inl, inr, leb, ◌&&◌, ℕ, Key, Instant, ◌≡◌, ◌<◌, ◌≤◌, Bool, true, false,
  Option, none, some, arith, refl, if◌then◌else◌, ◌==◌, [], ◌∷◌, sym, ap, ◌∙◌, ltb,
}
use patch_loop.Common.Dict.{Memᴰ-lookup, Dict, lookup, values}
use patch_loop.Contracts.{ok, err, LeaseGuard, lease_lost}
use patch_loop.Execution.Leases.{Execution, ExecutionStatus, is_active_status}
use patch_loop.Store.State.{Store, Env}
use patch_loop.Store.Leases.{
  claim_execution, assert_guard, guard_holds, lease_guard, max_generation,
}
use patch_loop.Store.Leases.Expiry.{execution_id, IsKeyed, retire, retire_entry}
use patch_loop.Store.Leases.Claims.{rivals, claim-entries, claim-counted}

-- An execution that the loops have been over is inactive if it is one of theirs.
pub retired_inactive :
    (mine : Execution → Bool) (o : Option Execution) (e a : Execution)
    → o ≡ some e
    → mine e ≡ true
    → retire_entry mine o ≡ some a
    → is_active_status a.status ≡ false
retired_inactive mine o e a found m h = ground arith

retire_generation :
    (mine : Execution → Bool) (e : Execution) → (retire mine e).generation ≡ e.generation
retire_generation mine e = ground arith

retire_task : (mine : Execution → Bool) (e : Execution) → (retire mine e).task_id ≡ e.task_id
retire_task mine e = ground arith

none_ne_some : {e : Execution} → none ≡ some e → ⊥
none_ne_some h = cc

if_other : {A : Type 0} (x y : A) (a b : Key) → (a ≡ b → ⊥) → (if a == b then x else y) ≡ y
if_other x y a b h = ground arith

assert_guard_lost :
    (g : LeaseGuard) (now : Instant) (s : Store) (e : Execution)
    → lookup g.execution_id s.executions ≡ some e
    → guard_holds g now e ≡ false
    → assert_guard g now s ≡ (err (lease_lost g.task_id), s)
unfolding assert_guard
assert_guard_lost g now s e found h = rw found (rw h refl)

inactive_guard :
    (g : LeaseGuard) (now : Instant) (e : Execution)
    → is_active_status e.status ≡ false
    → guard_holds g now e ≡ false
unfolding guard_holds
inactive_guard g now e h = ground arith

max_generation-le :
    (t k : Key) (e : Execution) (d : Dict Execution)
    → lookup k d ≡ some e
    → e.task_id ≡ t
    → e.generation ≤ max_generation t (values d)
unfolding max_generation lookup values
max_generation-le t k e [] found same = cc
max_generation-le t k e ((j, w) ∷ d) found same = ground (arith, max_generation-le t k e d)

any-false :
    (p : Execution → Bool) (es : List Execution)
    → ((e : Execution) → Memᴰ e es → p e ≡ false)
    → any p es ≡ false
unfolding any
any-false p [] h = refl
any-false p (e ∷ es) h =
    let here = h e (Memᴰ.head refl) in
    ground (arith, here, any-false p es (λ x m. h x (Memᴰ.tail m)))

module _ (env : Env) (v : Execution) (expected : Option ℕ) (now : Instant) (s : Store)
    {c : Execution} {s' : Store} (keyed : IsKeyed s)
    (claimed : claim_execution env v expected now s ≡ (ok c, s')) where
  -- After a successful claim_execution, in a store whose executions are filed under their
  -- identifiers, the guard of every execution of the same session or the same task that the store
  -- knew before is refused from then on, at any time, with LeaseLost.
  pub claim_fences :
      (g : LeaseGuard) (later : Instant) (e : Execution)
      → lookup g.execution_id s.executions ≡ some e
      → rivals v e ≡ true
      → assert_guard g later s' ≡ (err (lease_lost g.task_id), s')
  claim_fences g later e found rival =
      let (entries, _, new) = claim-entries env v expected now s keyed claimed in
      let other = λ (same : v.id ≡ g.execution_id).
        none_ne_some (sym new ∙ ap (λ (k : Key). lookup k s.executions) same ∙ found) in
      let entry : lookup g.execution_id s'.executions ≡ some (retire (rivals v) e) =
        entries g.execution_id
        ∙ if_other _ _ v.id g.execution_id other
        ∙ ap (retire_entry (rivals v)) found in
      assert_guard_lost g later s' (retire (rivals v) e) entry (
        inactive_guard g later (retire (rivals v) e)
          (retired_inactive (rivals v) (some e) e (retire (rivals v) e) refl rival refl))

  pub claim_shape : c ≡ record v { generation = c.generation; status = ExecutionStatus.running }
  claim_shape =
      let (_, written, _) = claim-counted env v expected now s keyed claimed in
      ground (arith, written)

  claim_above :
      (k : Key) (e : Execution)
      → lookup k s.executions ≡ some e
      → e.task_id ≡ v.task_id
      → e.generation < c.generation
  claim_above k e found same =
      let (d, written, entries) = claim-counted env v expected now s keyed claimed in
      ground (
        arith,
        written,
        max_generation-le v.task_id k (retire (rivals v) e) d
            (entries k ∙ ap (retire_entry (rivals v)) found) (retire_task (rivals v) e ∙ same),
        retire_generation (rivals v) e,
      )

  -- After a successful claim_execution, in a store whose executions are filed under their
  -- identifiers, the claimed execution is the candidate, running, with a positive generation, and
  -- no execution that the store had of its task has that generation or a higher one.
  pub claim_generation :
      (c ≡ record v { generation = c.generation; status = ExecutionStatus.running })
      × (0 < c.generation)
      × (any (λ e. e.task_id == v.task_id && leb c.generation e.generation) (values s.executions)
          ≡ false)
  claim_generation =
      let (_, written, _) = claim-counted env v expected now s keyed claimed in
      (
        claim_shape,
        ground (arith, written),
        any-false (λ e. e.task_id == v.task_id && leb c.generation e.generation)
            (values s.executions)
            λ e m.
              let found = Memᴰ-lookup execution_id e s.executions keyed m in
              elim (Bool-cases (e.task_id == v.task_id)) [
                | inl same ↦
                    let above = claim_above e.id e found (ground (arith, same)) in
                    ground (arith, above)
                | inr other ↦ ground (arith, other)
              ],
      )

  -- After a successful claim_execution, in a store whose executions are filed under their
  -- identifiers, the claimant's guard passes until its lease runs out, and not from then on.
  pub claim_owned :
      (later : Instant)
      → assert_guard (lease_guard c) later s'
        ≡ (if ltb later c.lease_expires_at then ok c else err (lease_lost c.task_id), s')
  unfolding assert_guard lease_guard
  claim_owned later =
      let (entries, _, _) = claim-entries env v expected now s keyed claimed in
      let shape = claim_shape in ground (arith, entries v.id, shape)
