-- ===== src/Store/Leases/Guards.antt =====
-- What a method that begins with `_assert_guard` (src/patchloop/persistence_contracts.py) has
-- checked when it returns.
use patch_loop.Common.Dict.{lookup}
use patch_loop.Execution.Leases.{Execution}
use patch_loop.Store.State.{fetch-ok, resume, M, Store}
use patch_loop.Common.{
  Bool-cases, ap, arith, inl, inr, none, sym, true, ◌∙◌, some, ◌≡◌, Option, Instant,
}
use patch_loop.Store.Leases.{guard_holds, held, assert_guard}
use patch_loop.Contracts.{ok, LeaseGuard}

held-ok :
    (g : LeaseGuard) (now : Instant) (o : Option Execution) (e : Execution)
    → held g now o ≡ some e
    → (o ≡ some e) × (guard_holds g now e ≡ true)
held-ok g now none e h = cc
held-ok g now (some x) e h = elim (Bool-cases (guard_holds g now x)) [
  | inl holds ↦
      let same : x ≡ e = ground (arith, holds) in
      (ap some same, ap (guard_holds g now) (sym same) ∙ holds)
  | inr fails ↦ ground (arith, fails)
]

pub assert_guard-ok :
    {B : Type 0} (g : LeaseGuard) (now : Instant) (s : Store) (f : Execution → M B) {b : B}
    {s' : Store}
    → resume (assert_guard g now s) f ≡ (ok b, s')
    → (e : Execution) × (lookup g.execution_id s.executions ≡ some e)
      × (guard_holds g now e ≡ true)
      × (f e s ≡ (ok b, s'))
unfolding assert_guard
assert_guard-ok g now s f h =
    let (e, found, rest) = fetch-ok (held g now (lookup g.execution_id s.executions)) _ s f h in
    let (stored, holds) = held-ok g now (lookup g.execution_id s.executions) e found in
    (e, stored, holds, rest)
