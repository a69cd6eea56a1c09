-- ===== src/Services/Ownership/Owned.antt =====
-- What a successful acquisition may do (src/patchloop/execution/ownership.py).
use patch_loop.Common.Dict.{lookup}
use patch_loop.Services.Ownership.Rollback.{own_guard, reconcile_commands-Tidy}
use patch_loop.Store.Writers.Acquired.{acquired-passes, acquired-stored}
use patch_loop.Store.Leases.Claims.{claim-entries}
use patch_loop.Store.Leases.Fencing.{claim_shape}
use patch_loop.Store.Leases.Expiry.{IsKeyed}
use patch_loop.Services.Upkeep.{assert_lease, assert_owned}
use patch_loop.Store.Writers.{assert_workspace_guard, workspace_guard, acquire_workspace_writer}
use patch_loop.Execution.Leases.{is_active_status, Execution, WorkspaceLease}
use patch_loop.Store.Leases.{
  assert_guard, claim_execution, lease_guard, mark_command_recovery_required,
}
use patch_loop.Contracts.{Error, Result, err, ok}
use patch_loop.Store.Commands.{
  recovery_commands_for_task, recovery_commands_for_workspace, finish_managed_command,
}
use patch_loop.Execution.Commands.{ManagedCommand}
use patch_loop.Services.Ownership.{
  Acquisition, ExecutionOwnership, Scope, acquire, acquire_workspace, acquire_writer, candidate_of,
  lease_of, rethrow, Reconciled, reconcile_commands, reconcile_one,
}
use patch_loop.Store.State.{Env, M, raise, raise_if-ok, resume, Store, resume-ok}
use patch_loop.Common.{
  ==-refl, Option, ap, ltb, none, some, subst, true, Instant, Key, refl, ◌+◌, ◌<◌, ◌==◌, ◌||◌, List,
  [], arith, ◌∙◌, ◌∷◌, ◌≡◌,
}

reconcile_one-ok :
    (report : Reconciled) (c : ManagedCommand) (s t : Store)
    → reconcile_one report c s ≡ (ok tt, t)
    → t.executions ≡ s.executions
unfolding reconcile_one finish_managed_command mark_command_recovery_required
reconcile_one-ok (Reconciled.reconciled r) c s t h = ground arith
reconcile_one-ok (Reconciled.cleanup_error reason) c s t h = ground arith

reconcile_commands-ok :
    (report : ManagedCommand → Reconciled) (cs : List ManagedCommand) (s t : Store)
    → reconcile_commands report cs s ≡ (ok tt, t)
    → t.executions ≡ s.executions
unfolding reconcile_commands
reconcile_commands-ok report [] s t h = ground arith
reconcile_commands-ok report (c ∷ cs) s t h =
    let (u, s1, first, rest) = resume-ok (reconcile_one (report c) c s) _ h in
    reconcile_commands-ok report cs s1 t rest ∙ reconcile_one-ok (report c) c s s1 (first)

some_inj : {A : Type 0} {a b : A} → some a ≡ some b → a ≡ b
some_inj h = cc

rethrow-ok :
    {A B : Type 0} (r : Result A × Store) (handler : Error → M (Unit {0})) (f : A → M B) {b : B}
    {t : Store}
    → resume (rethrow r handler) f ≡ (ok b, t)
    → (a : A) × (s : Store) × (r ≡ (ok a, s)) × (f a s ≡ (ok b, t))
rethrow-ok {A} (ok a, s) handler f h = (a, s, refl, h)
rethrow-ok {A} (err e, s) handler f {b} {t} h = elim (failed (handler e s) h) [ ]
  where
    failed : (q : Result (Unit {0}) × Store) → resume (resume q λ _. raise e) f ≡ (ok b, t) → ⊥
    failed (ok tt, u) h = cc
    failed (err x, u) h = cc

module _ (env : Env) where
  acquire_writer-ok :
      (r : Acquisition) (report : ManagedCommand → Reconciled) (path k : Key) (c : Execution)
      (now : Instant) (s : Store) {l : WorkspaceLease} {t : Store}
      → acquire_writer env r report path k c now s ≡ (ok l, t)
      → (u : Store) × (u.executions ≡ s.executions)
        × (acquire_workspace_writer env (lease_of r path k c) (lease_guard c) now u ≡ (ok l, t))
  unfolding acquire_writer
  acquire_writer-ok r report path k c now s h =
      let (_, u, cleaned, h1) =
        resume-ok (reconcile_commands report (recovery_commands_for_workspace k now s) s) _ h in
      let (_, h2) =
        raise_if-ok (r.workspace_token == 0 || r.workspace_token == r.execution_token) _ u _ h1 in
      (u, reconcile_commands-ok report (recovery_commands_for_workspace k now s) s u cleaned, h2)

  own-passes :
      (e : Execution) (now : Instant) (s : Store)
      → lookup e.id s.executions ≡ some e
      → ltb now e.lease_expires_at ≡ true
      → is_active_status e.status ≡ true
      → assert_guard (lease_guard e) now s ≡ (ok e, s)
  unfolding assert_guard lease_guard
  own-passes e now s stored in_time live = ground (arith, own_guard env now e in_time live)

  -- An ownership whose guards pass.
  assert_owned-passes :
      (c : Execution) (o : Option WorkspaceLease) (now : Instant) (s : Store)
      → assert_guard (lease_guard c) now s ≡ (ok c, s)
      → ((l : WorkspaceLease)
          → o ≡ some l
          → assert_workspace_guard (workspace_guard l) now s ≡ (ok l, s))
      → assert_owned env (record { execution = c; workspace_lease = o }) now s ≡ (ok tt, s)
  unfolding assert_owned assert_lease
  assert_owned-passes c none now s passes writer = ground arith
  assert_owned-passes c (some l) now s passes writer = ground (arith, writer l refl)

  acquire_workspace-owned :
      (r : Acquisition) (report : Scope → ManagedCommand → Reconciled) (now : Instant)
      (c : Execution) (p : Option (Key × Key)) (s : Store) {o : ExecutionOwnership} {s' : Store}
      (later : Instant)
      → lookup c.id s.executions ≡ some c
      → ltb later c.lease_expires_at ≡ true
      → is_active_status c.status ≡ true
      → acquire_workspace env r report now c p s ≡ (ok o, s')
      → assert_owned env o later s' ≡ (ok tt, s')
  unfolding acquire_workspace
  acquire_workspace-owned r report now c none s {o} {s'} later stored in_time live h =
      let passed =
        assert_owned-passes c none later s (own-passes c later s stored in_time live)
          (λ l same. cc) in
      ground (arith, passed)
  acquire_workspace-owned r report now c (some (path, k)) s {o} {s'} later stored in_time live h =
      let (l, t, written, rest) =
        rethrow-ok (acquire_writer env r (report Scope.workspace) path k c now s) _ _ h in
      let (u, same, wrote) = acquire_writer-ok r (report Scope.workspace) path k c now s written in
      let (_, _, kept) = acquired-stored env (lease_of r path k c) (lease_guard c) now u wrote in
      let passed =
        assert_owned-passes c (some l) later t
          (own-passes c later t (ap (lookup c.id) (kept ∙ same) ∙ stored) in_time live)
          (λ x q.
            subst
              (λ (y : WorkspaceLease).
                assert_workspace_guard (workspace_guard y) later t ≡ (ok y, t))
              (some_inj q)
              (acquired-passes env (lease_of r path k c) (lease_guard c) now u wrote later
                in_time)) in
      ground (arith, passed)

  -- After a successful acquire, in a store whose executions are filed under their identifiers,
  -- assert_owned passes for the ownership that it gave, and writes nothing, until the lease that
  -- was asked for runs out.
  pub acquire-owned :
      (r : Acquisition) (report : Scope → ManagedCommand → Reconciled) (now : Instant) (s : Store)
      {o : ExecutionOwnership} {s' : Store} (later : Instant)
      → IsKeyed s
      → acquire env r report now s ≡ (ok o, s')
      → later < now + r.ttl
      → assert_owned env o later s' ≡ (ok tt, s')
  unfolding acquire acquire_workspace assert_owned
  acquire-owned r report now s later keyed acquired in_time =
      let (_, t, cleaned, h1) =
        resume-ok
          (reconcile_commands (report Scope.task) (recovery_commands_for_task r.task_id now s) s) _
          acquired in
      let (_, h2) = raise_if-ok (r.execution_token == 0) _ t _ h1 in
      let (c, u, claimed, h3) =
        rethrow-ok (claim_execution env (candidate_of r now) r.expected_version now t) _ _ h2 in
      let keyed_t = subst IsKeyed (ap (λ q. q.1) cleaned) (
        (reconcile_commands-Tidy (report Scope.task) (recovery_commands_for_task r.task_id now s)
            s).keyed
          keyed) in
      let v = candidate_of r now in
      let shape = claim_shape env v r.expected_version now t keyed_t claimed in
      let (entries, _, _) = claim-entries env v r.expected_version now t keyed_t claimed in
      acquire_workspace-owned r report now c r.workspace u later
        (ground (arith, shape, entries r.new_id, ==-refl r.new_id)) (ground (arith, shape))
        (ground (arith, shape)) h3
