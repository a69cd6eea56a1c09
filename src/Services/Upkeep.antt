-- ===== src/Services/Upkeep.antt =====
-- src/patchloop/execution/ownership.py: `renew`, `assert_owned` and `release` of
-- `ExecutionOwnershipManager`.
use patch_loop.Execution.Leases.{Execution, WorkspaceLease}
use patch_loop.Store.Writers.{
  assert_workspace_guard, release_workspace_writer, renew_workspace_writer, workspace_guard,
}
use patch_loop.Store.State.{◌>>=◌, Env, M, pure, ◌>>◌}
use patch_loop.Contracts.{Error, lease_lost}
use patch_loop.Services.Ownership.{
  ExecutionOwnership, Scope, lease_lost_event, lease_renew_failed, on_error, record_lease_event,
  suppressed,
}
use patch_loop.Store.Leases.{assert_guard, lease_guard, release_execution, renew_execution, renewed}
use patch_loop.Common.{[], ◌∷◌, Instant, Option, if◌then◌else◌, none, some, ℕ, ◌+◌, ◌==◌}

-- The name of an exception's class.
abbrev error_code : Error → ℕ
error_code (Error.stale_version _ _ _) = 0
error_code (Error.lease_conflict _ _) = 1
error_code (Error.lease_lost _) = 2
error_code (Error.approval_conflict _) = 3
error_code (Error.effect_identity_conflict _) = 4
error_code (Error.recovery_required _ _) = 5
error_code (Error.submission_conflict _ _) = 6
error_code (Error.input_revision_conflict _ _ _) = 7
error_code (Error.control_requested _ _) = 8
error_code Error.value_error = 9
error_code (Error.key_error _) = 10

module _ (env : Env) where
  -- The `except` clauses of `renew` and `assert_owned`.
  record_loss : Execution → Scope → Instant → Error → M (Unit {0})
  unfolding record_lease_event
  record_loss e scope now (lease_lost resource) =
      record_lease_event env e lease_lost_event scope resource e.generation now []
  record_loss e scope now _ = pure tt

  renewal_failed : Execution → Instant → Error → M (Unit {0})
  unfolding record_lease_event record_loss
  renewal_failed e now error = suppressed (
      record_lease_event env e lease_renew_failed Scope.execution e.task_id e.generation now
        (error_code error ∷ [])
      >> record_loss e Scope.execution now error)

  renew_lease : Option WorkspaceLease → Instant → Instant → M (Option WorkspaceLease)
  unfolding renew_workspace_writer workspace_guard
  renew_lease none now expires = pure none
  renew_lease (some l) now expires = do
    renewed ← renew_workspace_writer env (workspace_guard l) now expires
    pure (some renewed)

  -- `renew`
  unfoldable pub renew : ExecutionOwnership → ℕ → Instant → M ExecutionOwnership
  unfolding renew_execution lease_guard renew_lease renewal_failed
  renew o ttl now =
      on_error
        (do
          e ← renew_execution (lease_guard o.execution) now (now + ttl)
          l ← renew_lease o.workspace_lease now (now + ttl)
          pure (record { execution = e; workspace_lease = l }))
        (renewal_failed o.execution now)

  unfoldable pub assert_lease : Option WorkspaceLease → Instant → M (Unit {0})
  unfolding assert_workspace_guard workspace_guard
  assert_lease none now = pure tt
  assert_lease (some l) now = assert_workspace_guard (workspace_guard l) now >> pure tt

  -- The scope that a lost lease is recorded with.
  abbrev loss_scope : Option WorkspaceLease → Error → Scope
  loss_scope (some l) (lease_lost resource) =
      if resource == l.workspace_id then Scope.workspace else Scope.execution
  loss_scope _ _ = Scope.execution

  -- `assert_owned`
  unfoldable pub assert_owned : ExecutionOwnership → Instant → M (Unit {0})
  unfolding assert_guard lease_guard assert_lease record_loss
  assert_owned o now =
      on_error (assert_guard (lease_guard o.execution) now >> assert_lease o.workspace_lease now)
        (λ e. suppressed (record_loss o.execution (loss_scope o.workspace_lease e) now e))

  release_lease : Option WorkspaceLease → Instant → M (Unit {0})
  unfolding release_workspace_writer workspace_guard
  release_lease none now = pure tt
  release_lease (some l) now = release_workspace_writer env (workspace_guard l) now

  -- `release`
  unfoldable pub release : ExecutionOwnership → Instant → M (Unit {0})
  unfolding release_lease release_execution lease_guard
  release o now = do
    release_lease o.workspace_lease now
    release_execution env (lease_guard o.execution) now
