-- ===== src/Store/Writers/Handover.antt =====
-- Who may write a workspace (`acquire_workspace_writer` and `assert_workspace_writer` of
-- src/patchloop/persistence_contracts.py).
use patch_loop.Store.Leases.Guards.{assert_guard-ok}
use patch_loop.Session.{EventType, Session}
use patch_loop.Store.Journal.{journal}
use patch_loop.Common.Dict.{insert, lookup-insert_self, lookup}
use patch_loop.Store.Writers.{
  acquired_after, acquisition, next_generation, takes_over, is_claimants, reuses_token, holder,
  raise_if_held, acquire_workspace_writer, assert_workspace_guard, writer_guard_holds,
}
use patch_loop.Contracts.{Result, LeaseGuard, WorkspaceLeaseGuard, err, lease_lost, ok}
use patch_loop.Store.State.{pure, fetch-ok, resume-ok, M, raise_if-ok, resume, Env, Store}
use patch_loop.Execution.Leases.{WorkspaceLease}
use patch_loop.Common.{
  subst, [], ap, sym, ◌∙◌, ◌∷◌, Key, List, Option, none, not, refl, ℕ, ◌==◌, arith, Instant, false,
  ltb, some, true, ◌+◌, ◌≡◌,
}

raise_if_held-ok :
    {B : Type 0} (workspace : Key) (o : Option Key) (s : Store) (f : Unit {0} → M B) {b : B}
    {s' : Store}
    → resume (raise_if_held workspace o s) f ≡ (ok b, s')
    → (o ≡ none) × (f tt s ≡ (ok b, s'))
raise_if_held-ok workspace none s f h = (refl, h)
raise_if_held-ok workspace (some k) s f h = cc

run_out :
    (now : Instant) (l : WorkspaceLease)
    → holder now (some l) ≡ none
    → ltb now l.lease_expires_at ≡ false
run_out now l h = ground arith

-- A guard that the earlier lease answered to does not answer to one with another token.
stale_token :
    (stale : WorkspaceLeaseGuard) (then later : Instant) (old l : WorkspaceLease)
    → writer_guard_holds stale then old ≡ true
    → (old.lease_token == l.lease_token) ≡ false
    → writer_guard_holds stale later l ≡ false
unfolding writer_guard_holds
stale_token stale then later old l old_holds other = ground arith

guard_refused :
    (g : WorkspaceLeaseGuard) (now : Instant) (s : Store) (l : WorkspaceLease)
    → lookup g.workspace_id s.workspace_leases ≡ some l
    → writer_guard_holds g now l ≡ false
    → assert_workspace_guard g now s ≡ (err (lease_lost g.workspace_id), s)
unfolding assert_workspace_guard
guard_refused g now s l stored refused = ground (arith, stored, refused)

module _ (env : Env) where
  journal_leases :
      (session : Session) (type : EventType) (k : Key) (r : List ℕ) (task trace : Option Key)
      (s : Store)
      → (journal env session type k r task trace s).1.workspace_leases ≡ s.workspace_leases
  unfolding journal
  journal_leases session type k r task trace s = ground arith

module _ (env : Env) (lease : WorkspaceLease) (g : LeaseGuard) (now : Instant) (s : Store) where
  -- A successful acquire_workspace_writer over an earlier lease of the workspace found that lease
  -- run out, is stored with the next generation, and no guard that the earlier lease answered to
  -- is accepted from then on, at any time.
  pub acquire_fences :
      {l : WorkspaceLease} {s' : Store} (old : WorkspaceLease) (stale : WorkspaceLeaseGuard)
      (then later : Instant)
      → lookup lease.workspace_id s.workspace_leases ≡ some old
      → stale.workspace_id ≡ lease.workspace_id
      → writer_guard_holds stale then old ≡ true
      → acquire_workspace_writer env lease g now s ≡ (ok l, s')
      → (ltb now old.lease_expires_at ≡ false)
        × (l.generation ≡ old.generation + 1)
        × (lookup lease.workspace_id s'.workspace_leases ≡ some l)
        × (assert_workspace_guard stale later s' ≡ (err (lease_lost lease.workspace_id), s'))
  unfolding acquire_workspace_writer
  acquire_fences {l} {s'} old stale then later stored same old_holds h =
      let (free, h1) =
        raise_if_held-ok lease.workspace_id
          (holder now (lookup lease.workspace_id s.workspace_leases)) s _ h in
      let (execution, _, _, h2) = assert_guard-ok g now s _ h1 in
      let (_, h3) = raise_if-ok (not (is_claimants lease execution)) _ s _ h2 in
      let (fresh, h4) =
        raise_if-ok (reuses_token lease.lease_token (lookup lease.workspace_id s.workspace_leases))
          _ s _ h3 in
      let before = lookup lease.workspace_id s.workspace_leases in
      let taken = acquired_after before lease in
      let s1 : Store = record s {
        workspace_leases = insert lease.workspace_id taken s.workspace_leases;
      } in
      let (session, _, h5) = fetch-ok (lookup lease.session_id s.sessions) _ s1 _ h4 in
      let (_, s2, journaled, h6) =
        resume-ok
          (journal env session (acquisition (takes_over s before)) lease.workspace_id
            (next_generation before ∷ []) (some lease.task_id) none s1)
          (λ _. pure taken) h5 in
      let shape : taken ≡ l = cc in
      let frame : s'.workspace_leases ≡ s1.workspace_leases =
        sym (ap (λ (q : Result WorkspaceLease × Store). q.1.workspace_leases) h6)
        ∙ sym (ap (λ (q : Result Session × Store). q.1.workspace_leases) journaled)
        ∙ journal_leases env session (acquisition (takes_over s before)) lease.workspace_id
            (next_generation before ∷ []) (some lease.task_id) none s1 in
      let kept : lookup lease.workspace_id s'.workspace_leases ≡ some l =
        ap (lookup lease.workspace_id) frame
        ∙ lookup-insert_self lease.workspace_id taken s.workspace_leases
        ∙ ap some shape in
      let token : l.lease_token ≡ lease.lease_token =
        ap (λ (x : WorkspaceLease). x.lease_token) (sym shape) in
      let fresh_old : (old.lease_token == lease.lease_token) ≡ false =
        ground (arith, stored, fresh) in
      let refused : writer_guard_holds stale later l ≡ false =
        stale_token stale then later old l old_holds
          (subst (λ k. (old.lease_token == k) ≡ false) (sym token) fresh_old) in
      (
        run_out now old (sym (ap (holder now) stored) ∙ free),
        ap (λ (x : WorkspaceLease). x.generation) (sym shape) ∙ ap next_generation stored,
        kept,
        guard_refused stale later s' l (ap (λ k. lookup k s'.workspace_leases) same ∙ kept) refused
            ∙ ap (λ k. (err (lease_lost k), s')) same,
      )
