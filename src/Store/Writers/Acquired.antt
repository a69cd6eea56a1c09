-- ===== src/Store/Writers/Acquired.antt =====
-- The writer lease that `acquire_workspace_writer` of src/patchloop/persistence_contracts.py stores.
use patch_loop.Execution.Leases.{WorkspaceLease}
use patch_loop.Store.Journal.{journal}
use patch_loop.Store.Writers.{
  acquire_workspace_writer, acquired_after, assert_workspace_guard, workspace_guard,
  writer_guard_holds,
}
use patch_loop.Store.State.{Env, Store}
use patch_loop.Common.Dict.{lookup, lookup-insert_self}
use patch_loop.Contracts.{LeaseGuard, ok}
use patch_loop.Common.{==-refl, Instant, arith, ltb, some, true, ◌≡◌}

module _ (env : Env) (lease : WorkspaceLease) (g : LeaseGuard) (now : Instant) (s : Store)
    {l : WorkspaceLease} {s' : Store}
    (acquired : acquire_workspace_writer env lease g now s ≡ (ok l, s')) where
  pub acquired-stored :
      (l ≡ acquired_after (lookup lease.workspace_id s.workspace_leases) lease)
      × (lookup lease.workspace_id s'.workspace_leases ≡ some l)
      × (s'.executions ≡ s.executions)
  unfolding acquire_workspace_writer journal
  acquired-stored =
      let taken = acquired_after (lookup lease.workspace_id s.workspace_leases) lease in
      ground (arith, lookup-insert_self lease.workspace_id taken s.workspace_leases)

  pub acquired-passes :
      (later : Instant)
      → ltb later lease.lease_expires_at ≡ true
      → assert_workspace_guard (workspace_guard l) later s' ≡ (ok l, s')
  unfolding assert_workspace_guard writer_guard_holds workspace_guard
  acquired-passes later in_time =
      let (shape, stored, _) = acquired-stored in
      ground (
        arith,
        shape,
        stored,
        ==-refl l.execution_id,
        ==-refl l.lease_token,
        ==-refl l.generation,
        ==-refl l.owner_id,
      )
