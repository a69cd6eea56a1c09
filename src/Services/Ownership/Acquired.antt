-- ===== src/Services/Ownership/Acquired.antt =====
-- What an acquisition leaves (`acquire` of src/patchloop/execution/ownership.py).
use patch_loop.Store.Leases.Failures.{claim-Kept, same-Kept, trans-Kept}
use patch_loop.Store.Leases.Fencing.{claim_shape}
use patch_loop.Store.Commands.{recovery_commands_for_task}
use patch_loop.Store.Leases.Claims.{claim-entries}
use patch_loop.Store.Leases.{claim_execution}
use patch_loop.Common.Dict.{lookup}
use patch_loop.Store.Leases.Expiry.{IsKeyed}
use patch_loop.Contracts.{Error, Result, err, lease_conflict, ok}
use patch_loop.Services.Ownership.{
  holder_of, claim_contended, ExecutionOwnership, acquire_workspace, acquire_writer, candidate_of,
  reconcile_commands, Acquisition, Reconciled, Scope, acquire, give_back, lease_contended,
  record_lease_event, rethrow,
}
use patch_loop.Execution.Commands.{ManagedCommand}
use patch_loop.Services.Ownership.Rollback.{
  contended-executions, Kept-Gone, Tidy, acquire_writer-Kept, reconcile_commands-Tidy, Gone, Only,
  event-executions, release-Gone,
}
use patch_loop.Store.State.{raise_if_cases, resume_cases, Env, M, Store, raise, resume}
use patch_loop.Execution.Leases.{is_active_status, Execution}
use patch_loop.Common.{
  false, subst, ==-refl, List, Option, arith, some, ◌==◌, Instant, ap, ltb, none, refl, sym, true,
  ◌<◌, ◌∙◌, ◌≡◌, Key,
}

some_ne_none : {A : Type 0} {a : A} → some a ≡ none → ⊥
some_ne_none h = cc

rethrow_cases :
    {A B : Type 0} (P : Result B × Store → Type 0) (r : Result A × Store)
    (handler : Error → M (Unit {0})) (f : A → M B)
    → ((a : A) → r ≡ (ok a, r.1) → P (f a r.1))
    → ((e x : Error) → r ≡ (err e, r.1) → P (err x, (handler e r.1).1))
    → P (resume (rethrow r handler) f)
rethrow_cases {A} P (ok a, s) handler f went failed = went a refl
rethrow_cases {A} P (err e, s) handler f went failed = handled (handler e s) λ x. failed e x refl
  where
    handled :
        (q : Result (Unit {0}) × Store)
        → ((x : Error) → P (err x, q.1))
        → P (resume (resume q λ _. raise e) f)
    handled (ok tt, t) h = h e
    handled (err x, t) h = h x

module _ (env : Env) where
  give_back-Gone :
      (c : Execution) (now : Instant) (e : Error) (s : Store)
      → ltb now c.lease_expires_at ≡ true
      → Only c.id c s
      → Gone c.id (give_back env c now e s).1
  unfolding give_back
  give_back-Gone c now (lease_conflict resource owner) s in_time only =
      let t =
        (record_lease_event env c lease_contended Scope.workspace resource c.generation now
          (holder_of owner) s).1 in
      release-Gone env c now t in_time λ a found live.
        only a
          (ap (lookup c.id) (
              sym (
                event-executions env c lease_contended Scope.workspace resource c.generation now
                  (holder_of owner) s))
            ∙ found)
          live
  give_back-Gone c now _ s in_time only = release-Gone env c now s in_time only

  -- The claimed execution is the only one under its identifier, with the lease that was asked for.
  claimed-Only :
      (r : Acquisition) (now : Instant) (s : Store) (c : Execution) (t : Store)
      → IsKeyed s
      → 0 < r.ttl
      → claim_execution env (candidate_of r now) r.expected_version now s ≡ (ok c, t)
      → (c.id ≡ r.new_id) × (ltb now c.lease_expires_at ≡ true) × Only r.new_id c t
  claimed-Only r now s c t keyed ttl claimed =
      let v = candidate_of r now in
      let shape = claim_shape env v r.expected_version now s keyed claimed in
      let (entries, _, _) = claim-entries env v r.expected_version now s keyed claimed in
      (
        ap (λ (x : Execution). x.id) shape,
        ground (arith, shape),
        λ a found live. ground (arith, entries r.new_id, ==-refl r.new_id),
      )

  acquire_workspace-Gone :
      (r : Acquisition) (report : Scope → ManagedCommand → Reconciled) (now : Instant)
      (c : Execution) (o : Option (Key × Key)) (s : Store) (e : Error)
      → ltb now c.lease_expires_at ≡ true
      → Only c.id c s
      → (acquire_workspace env r report now c o s).0 ≡ err e
      → Gone c.id (acquire_workspace env r report now c o s).1
  unfolding acquire_workspace
  acquire_workspace-Gone r report now c none s e in_time only = λ h. cc
  acquire_workspace-Gone r report now c (some (path, k)) s e in_time only =
      let m = acquire_writer env r (report Scope.workspace) path k c now s in
      rethrow_cases (λ q. q.0 ≡ err e → Gone c.id q.1) m _ _ (λ _ _ h. cc)
        λ x _ _ _. give_back-Gone c now x m.1 in_time λ a found live.
          only a
            (acquire_writer-Kept env r (report Scope.workspace) path k c now s c.id a found live)
            live

  acquire-Gone :
      (r : Acquisition) (report : Scope → ManagedCommand → Reconciled) (now : Instant) (s : Store)
      (e : Error)
      → IsKeyed s
      → lookup r.new_id s.executions ≡ none
      → 0 < r.ttl
      → (acquire env r report now s).0 ≡ err e
      → Gone r.new_id (acquire env r report now s).1
  unfolding acquire
  acquire-Gone r report now s e keyed fresh ttl =
      resume_cases P (reconcile_commands (report Scope.task) commands s) _ (λ _ _ _. gone)
        λ _ _.
          raise_if_cases P t (r.execution_token == 0) _ _ (λ _. gone)
            λ _.
              rethrow_cases P claim _ _
                (λ c claimed h.
                  let (same, in_time, only) =
                    claimed-Only r now t c claim.1 (tidy.keyed keyed) ttl claimed in
                  subst
                    (λ (k : Key).
                      Gone k (acquire_workspace env r report now c r.workspace claim.1).1)
                    same
                    (acquire_workspace-Gone r report now c r.workspace claim.1 e in_time
                      (subst (λ (k : Key). Only k c claim.1) (sym same) only) h))
                λ x y failed _.
                  Kept-Gone r.new_id t (claim_contended env (candidate_of r now) now x claim.1).1
                    (trans-Kept t.executions claim.1.executions _
                      (claim-Kept env (candidate_of r now) r.expected_version now t x
                        (ap (λ q. q.0) failed))
                      (same-Kept _ _ (contended-executions env (candidate_of r now) now x claim.1)))
                    gone
    where
      P : Result ExecutionOwnership × Store → Type 0
      P q = q.0 ≡ err e → Gone r.new_id q.1

      commands : List ManagedCommand
      commands = recovery_commands_for_task r.task_id now s

      t : Store
      t = (reconcile_commands (report Scope.task) commands s).1

      tidy : Tidy s t
      tidy = reconcile_commands-Tidy (report Scope.task) commands s

      gone : Gone r.new_id t
      gone = Kept-Gone r.new_id s t tidy.kept λ a found. elim (some_ne_none (sym found ∙ fresh)) [ ]

      claim : Result Execution × Store
      claim = claim_execution env (candidate_of r now) r.expected_version now t

  -- An acquire that raises, for whatever reason and after whichever of its steps, leaves no active
  -- execution under the identifier that it meant to claim: in a store whose executions are filed
  -- under their identifiers, for a new identifier and a lease that is not empty, an execution
  -- stored there afterwards is not active.
  pub acquire_releases :
      (r : Acquisition) (report : Scope → ManagedCommand → Reconciled) (now : Instant) (s : Store)
      (e : Error) (a : Execution)
      → IsKeyed s
      → lookup r.new_id s.executions ≡ none
      → 0 < r.ttl
      → (acquire env r report now s).0 ≡ err e
      → lookup r.new_id (acquire env r report now s).1.executions ≡ some a
      → is_active_status a.status ≡ false
  acquire_releases r report now s e a keyed fresh ttl failed =
      acquire-Gone r report now s e keyed fresh ttl failed a
