-- ===== src/Store/Leases/Runs.antt =====
-- Any sequence of lease calls, by any number of owners
-- (src/patchloop/persistence_contracts.py).
use patch_loop.Store.Leases.Exclusive.{IsSound}
use patch_loop.Contracts.{value_error, LeaseGuard}
use patch_loop.Store.Leases.Expiry.{execution_id, IsKeyed}
use patch_loop.Store.Leases.Survival.{
  release_writes, guard_store, recovery-Survives, release-Survives, renew-Survives,
}
use patch_loop.Store.Leases.{
  with_status, assert_guard, renewed, mark_command_recovery_required, release_execution,
  renew_execution, claim_execution,
}
use patch_loop.Store.State.{raise_if_store, raise_if, resume_keeps, Env, Store}
use patch_loop.Common.Dict.{insert-Keyed, Keyed, lookup}
use patch_loop.Execution.Leases.{ExecutionStatus, is_active_status, Execution}
use patch_loop.Common.{
  refl, ◌∷◌, [], leb, inr, inl, Option-cases, List, sym, subst, true, some, Instant, Option, arith,
  Key, ◌≡◌, ℕ,
}
use patch_loop.Store.Leases.Exclusive.{Conflict, Exclusive, claim-IsSound, Survives-Exclusive}

-- The lease calls that a process may make, in any order.
pub data LeaseCall : Type 0 where
  claims : Execution → Option ℕ → Instant → LeaseCall
  renews : LeaseGuard → Instant → Instant → LeaseCall
  releases : LeaseGuard → Instant → LeaseCall
  requires_recovery : Key → LeaseCall

-- The store after a call, whether it returned or raised.
unfoldable pub lease_step : Env → LeaseCall → Store → Store
lease_step env (claims v expected now) s = (claim_execution env v expected now s).1
lease_step env (renews g now expires) s = (renew_execution g now expires s).1
lease_step env (releases g now) s = (release_execution env g now s).1
lease_step env (requires_recovery k) s = (mark_command_recovery_required k s).1

unfoldable pub lease_run : Env → List LeaseCall → Store → Store
lease_run env [] s = s
lease_run env (c ∷ cs) s = lease_run env cs (lease_step env c s)

renew-Keyed :
    (g : LeaseGuard) (now expires : Instant) (s : Store)
    → IsKeyed s
    → IsKeyed (renew_execution g now expires s).1
unfolding renew_execution renewed
renew-Keyed g now expires s keyed =
    resume_keeps IsKeyed (assert_guard g now s) _ (subst IsKeyed (sym (guard_store g now s)) keyed)
      λ e k.
        resume_keeps IsKeyed (raise_if (leb expires now) value_error (assert_guard g now s).1) _
          (subst IsKeyed (sym (raise_if_store (leb expires now) value_error _)) k)
          λ _ k'. insert-Keyed execution_id _ _ k'

release-Keyed :
    (env : Env) (g : LeaseGuard) (now : Instant) (s : Store)
    → IsKeyed s
    → IsKeyed (release_execution env g now s).1
unfolding release_execution
release-Keyed env g now s keyed =
    resume_keeps IsKeyed (assert_guard g now s) _ (subst IsKeyed (sym (guard_store g now s)) keyed)
      λ e k.
        subst (Keyed execution_id)
          (sym (release_writes env g now e _ (assert_guard g now s).1 refl))
          (insert-Keyed execution_id _ _ k)

pub recovery-Keyed :
    (k : Key) (s : Store) → IsKeyed s → IsKeyed (mark_command_recovery_required k s).1
unfolding mark_command_recovery_required
recovery-Keyed k s keyed = elim (Option-cases (lookup k s.executions)) [
  | inl missing ↦ ground arith
  | inr (e, found) ↦ subst (Keyed execution_id) (ground arith) (
      insert-Keyed execution_id (with_status ExecutionStatus.recovery_required e) s.executions
        keyed)
]

lease_step-IsSound :
    (env : Env) (c : LeaseCall) (s : Store) → IsSound s → IsSound (lease_step env c s)
unfolding lease_step
lease_step-IsSound env (claims v expected now) s h = claim-IsSound env v expected now s h
lease_step-IsSound env (renews g now expires) s (keyed, ex) = (
  renew-Keyed g now expires s keyed,
  Survives-Exclusive _ _ (renew-Survives g now expires s keyed) ex,
)
lease_step-IsSound env (releases g now) s (keyed, ex) = (
  release-Keyed env g now s keyed,
  Survives-Exclusive _ _ (release-Survives env g now s keyed) ex,
)
lease_step-IsSound env (requires_recovery k) s (keyed, ex) =
    (recovery-Keyed k s keyed, Survives-Exclusive _ _ (recovery-Survives k s keyed) ex)

lease_run-IsSound :
    (env : Env) (cs : List LeaseCall) (s : Store) → IsSound s → IsSound (lease_run env cs s)
unfolding lease_run
lease_run-IsSound env [] s h = h
lease_run-IsSound env (c ∷ cs) s h =
    lease_run-IsSound env cs (lease_step env c s) (lease_step-IsSound env c s h)

-- From a store whose executions are filed under their identifiers and of which no two active ones
-- share a session or a task, any sequence of claims, renewals, releases and recovery marks,
-- whether each call returns or raises, leaves no two active executions that share a session or a
-- task.
pub lease_run-Exclusive :
    (env : Env) (cs : List LeaseCall) (s : Store)
    → IsKeyed s
    → Exclusive s.executions
    → (i j : Key) (a b : Execution) → lookup i (lease_run env cs s).executions ≡ some a
    → lookup j (lease_run env cs s).executions ≡ some b
    → is_active_status a.status ≡ true
    → is_active_status b.status ≡ true
    → Conflict a b
    → i ≡ j
lease_run-Exclusive env cs s keyed ex = (lease_run-IsSound env cs s (keyed, ex)).1
