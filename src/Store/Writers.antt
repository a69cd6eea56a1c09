-- ===== src/Store/Writers.antt =====
-- The workspace writer leases of `FakeStore` (src/patchloop/persistence_contracts.py):
-- `acquire_workspace_writer`, `renew_workspace_writer`, `release_workspace_writer`.
pub mod Handover
pub mod Acquired
use patch_loop.Store.Leases.Expiry.{execution_id}
use patch_loop.Common.Dict.{insert, lookup}
use patch_loop.Store.Journal.{journal}
use patch_loop.Store.Leases.{assert_guard}
use patch_loop.Session.{EventType}
use patch_loop.Store.State.{
  get_session, raise_if, gets, ◌>>◌, ◌>>=◌, raise, fetch, modify, pure, M, Env, Store,
}
use patch_loop.Common.{
  [], leb, not, ◌∷◌, ltb, if◌then◌else◌, none, ◌&&◌, ◌+◌, false, some, ℕ, ◌==◌, Bool, Instant, Key,
  Option,
}
use patch_loop.Contracts.{value_error, lease_conflict, lease_lost, LeaseGuard, WorkspaceLeaseGuard}
use patch_loop.Execution.Leases.{is_active_status, Execution, WorkspaceLease}

abbrev put_lease : WorkspaceLease → M (Unit {0})
put_lease l = modify λ s. record s { workspace_leases = insert l.workspace_id l s.workspace_leases }

-- `ExecutionOwnership.workspace_guard` of src/patchloop/execution/ownership.py, of its lease.
unfoldable pub workspace_guard : WorkspaceLease → WorkspaceLeaseGuard
workspace_guard l = record {
  workspace_id = l.workspace_id;
  execution_id = l.execution_id;
  token = l.lease_token;
  generation = l.generation;
  owner_id = l.owner_id;
}

unfoldable pub writer_guard_holds : WorkspaceLeaseGuard → Instant → WorkspaceLease → Bool
writer_guard_holds g now l =
    l.execution_id == g.execution_id
    && (l.lease_token == g.token
        && (l.generation == g.generation
            && (l.owner_id == g.owner_id && ltb now l.lease_expires_at)))

abbrev writer_held : WorkspaceLeaseGuard → Instant → Option WorkspaceLease → Option WorkspaceLease
writer_held g now none = none
writer_held g now (some l) = if writer_guard_holds g now l then some l else none

-- `_assert_workspace_guard`, which is `assert_workspace_writer` too.
unfoldable pub assert_workspace_guard : WorkspaceLeaseGuard → Instant → M WorkspaceLease
unfolding writer_guard_holds
assert_workspace_guard g now =
    fetch (λ s. writer_held g now (lookup g.workspace_id s.workspace_leases))
      (lease_lost g.workspace_id)

-- The holder of a lease that has not run out.
abbrev holder : Instant → Option WorkspaceLease → Option Key
holder now none = none
holder now (some l) = if ltb now l.lease_expires_at then some l.owner_id else none

abbrev reuses_token : Key → Option WorkspaceLease → Bool
reuses_token token none = false
reuses_token token (some l) = l.lease_token == token

abbrev next_generation : Option WorkspaceLease → ℕ
next_generation none = 1
next_generation (some l) = l.generation + 1

abbrev pub acquired_after : Option WorkspaceLease → WorkspaceLease → WorkspaceLease
acquired_after existing l = record l { generation = next_generation existing }

abbrev is_claimants : WorkspaceLease → Execution → Bool
is_claimants l e =
    l.execution_id == e.id
    && (l.session_id == e.session_id && (l.task_id == e.task_id && l.owner_id == e.owner_id))

-- The prior writer's execution is still active.
abbrev takes_over : Store → Option WorkspaceLease → Bool
takes_over s none = false
takes_over s (some l) = elim (lookup l.execution_id s.executions) [
  | none ↦ false
  | some prior ↦ is_active_status prior.status
]

abbrev acquisition : Bool → EventType
acquisition takeover = if takeover then EventType.lease_takeover else EventType.lease_acquired

-- A raise if there is a key to raise with.
abbrev raise_if_held : Key → Option Key → M (Unit {0})
raise_if_held workspace none = pure tt
raise_if_held workspace (some owner) = raise (lease_conflict workspace (some owner))

module _ (env : Env) where
  unfoldable pub acquire_workspace_writer : WorkspaceLease → LeaseGuard → Instant → M WorkspaceLease
  unfolding assert_guard journal
  acquire_workspace_writer lease g now = do
    existing ← gets (λ s. lookup lease.workspace_id s.workspace_leases)
    raise_if_held lease.workspace_id (holder now existing)
    execution ← assert_guard g now
    raise_if (not (is_claimants lease execution)) (lease_lost lease.workspace_id)
    raise_if (reuses_token lease.lease_token existing) value_error
    takeover ← gets (λ s. takes_over s existing)
    put_lease (acquired_after existing lease)
    session ← get_session lease.session_id
    journal env session (acquisition takeover) lease.workspace_id (next_generation existing ∷ [])
        (some lease.task_id) none
    pure (acquired_after existing lease)

  unfoldable pub renew_workspace_writer : WorkspaceLeaseGuard → Instant → Instant → M WorkspaceLease
  unfolding assert_workspace_guard
  renew_workspace_writer g now expires = do
    existing ← assert_workspace_guard g now
    raise_if (leb expires now) value_error
    put_lease (record existing { lease_expires_at = expires })
    pure (record existing { lease_expires_at = expires })

  unfoldable pub release_workspace_writer : WorkspaceLeaseGuard → Instant → M (Unit {0})
  unfolding assert_workspace_guard journal
  release_workspace_writer g now = do
    existing ← assert_workspace_guard g now
    put_lease (record existing { lease_expires_at = now })
    session ← get_session existing.session_id
    journal env session EventType.lease_released existing.workspace_id
        (existing.generation ∷ existing.execution_id ∷ []) (some existing.task_id) none
    pure tt
