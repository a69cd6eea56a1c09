-- ===== src/Services/Ownership.antt =====
-- src/patchloop/execution/ownership.py: `ExecutionOwnershipManager` over the store. The clock, the new
-- identifier and the new tokens are arguments, and so are the canonical path of the workspace and
-- its digest. `reconcile_managed_command` of src/patchloop/sandbox.py, which stops a process, is a
-- parameter: what it reports of a command.
pub mod Rollback
pub mod Acquired
pub mod Owned
use patch_loop.Store.Leases.Expiry.{execution_id}
use patch_loop.Session.{EventType, SessionEvent}
use patch_loop.Execution.Commands.{ManagedCommand, ManagedCommandStatus, is_finished}
use patch_loop.Store.Journal.Append.{append_event}
use patch_loop.Execution.Leases.{Execution, ExecutionStatus, WorkspaceLease}
use patch_loop.Contracts.{Error, Result, err, lease_conflict, ok, value_error}
use patch_loop.Store.State.{◌>>=◌, Env, M, Store, gets, pure, raise, raise_if, resume, ◌>>◌}
use patch_loop.Store.Writers.{acquire_workspace_writer}
use patch_loop.Store.Leases.{
  claim_execution, lease_guard, mark_command_recovery_required, release_execution,
}
use patch_loop.Store.Commands.{
  finish_managed_command, recovery_commands_for_task, recovery_commands_for_workspace,
}
use patch_loop.Common.{
  ◌++◌, Instant, [], if◌then◌else◌, ℕ, ◌+◌, ◌==◌, ◌||◌, ◌∷◌, Key, List, Option, none, some,
}

pub data Scope : Type 0 where
  session task workspace execution : Scope

abbrev scope_code : Scope → ℕ
scope_code Scope.session = 0
scope_code Scope.task = 1
scope_code Scope.workspace = 2
scope_code Scope.execution = 3

abbrev pub lease_contended : EventType
lease_contended = EventType.other_event 0

abbrev pub lease_renew_failed : EventType
lease_renew_failed = EventType.other_event 1

abbrev pub lease_lost_event : EventType
lease_lost_event = EventType.other_event 2

pub record ExecutionOwnership : Type 0 where
  pub execution : Execution
  pub workspace_lease : Option WorkspaceLease

-- What stopping a command reports, or the text of its exception.
pub data Reconciled : Type 0 where
  reconciled : ManagedCommand → Reconciled
  cleanup_error : Key → Reconciled

pub record Acquisition : Type 0 where
  pub session_id : Key
  pub task_id : Key
  pub owner_id : Key
  -- The canonical path and its digest, for a workspace writer.
  pub workspace : Option (Key × Key)
  pub expected_version : Option ℕ
  pub new_id : Key
  pub execution_token : Key
  pub workspace_token : Key
  pub ttl : ℕ

-- `try: m` with a handler that ends in `raise`.
abbrev pub rethrow : {A : Type 0} → Result A × Store → (Error → M (Unit {0})) → Result A × Store
rethrow (ok a, s) handler = (ok a, s)
rethrow (err e, s) handler = resume (handler e s) λ _. raise e

abbrev pub on_error : {A : Type 0} → M A → (Error → M (Unit {0})) → M A
on_error m handler s = rethrow (m s) handler

-- `with suppress(Exception)`
abbrev pub suppressed : {A : Type 0} → M A → M (Unit {0})
suppressed m s = (ok tt, (m s).1)

abbrev pub failed_command : ManagedCommand → Key → ManagedCommand
failed_command c reason = record c {
  status = ManagedCommandStatus.cleanup_failed;
  cleanup_reason = some reason;
}

-- One round of `_reconcile_commands`.
pub reconcile_one : Reconciled → ManagedCommand → M (Unit {0})
unfolding finish_managed_command mark_command_recovery_required
reconcile_one (Reconciled.reconciled r) identity = finish_managed_command r >> pure tt
reconcile_one (Reconciled.cleanup_error reason) identity = do
  recorded ← finish_managed_command (failed_command identity reason)
  if is_finished recorded.status
      then pure tt
      else (mark_command_recovery_required identity.execution_id >>= λ task_id.
          raise (Error.recovery_required task_id (some identity.id)))

-- `_reconcile_commands`
unfoldable pub reconcile_commands :
    (ManagedCommand → Reconciled) → List ManagedCommand → M (Unit {0})
unfolding reconcile_one
reconcile_commands report [] = pure tt
reconcile_commands report (c ∷ cs) = do reconcile_one (report c) c; reconcile_commands report cs

-- The `Execution` and the `WorkspaceLease` that `acquire` asks for.
abbrev pub candidate_of : Acquisition → Instant → Execution
candidate_of r now = record {
  id = r.new_id;
  session_id = r.session_id;
  task_id = r.task_id;
  owner_id = r.owner_id;
  lease_token = r.execution_token;
  generation = 1;
  lease_expires_at = now + r.ttl;
  status = ExecutionStatus.claimed;
  version = 1;
}

abbrev pub lease_of : Acquisition → Key → Key → Execution → WorkspaceLease
lease_of r path workspace_id e = record {
  workspace_id = workspace_id;
  repository_path = path;
  session_id = r.session_id;
  task_id = r.task_id;
  execution_id = e.id;
  owner_id = r.owner_id;
  lease_token = r.workspace_token;
  generation = 1;
  lease_expires_at = e.lease_expires_at;
}

abbrev pub holder_of : Option Key → List ℕ
holder_of none = []
holder_of (some k) = k ∷ []

module _ (env : Env) where
  abbrev lease_event : Execution → EventType → Scope → Key → ℕ → Instant → List ℕ → SessionEvent
  lease_event e type scope resource generation now about =
      let revision = scope_code scope ∷ resource ∷ generation ∷ now ∷ [] in
      record {
        id = env.journal_event_id type e.id revision;
        session_id = e.session_id;
        type = type;
        task_id = some e.task_id;
        trace_id = none;
        sequence = 0;
        body = env.journal_body type e.id (revision ++ (e.owner_id ∷ about));
      }

  -- `_record_lease_event`
  unfoldable pub record_lease_event :
      Execution → EventType → Scope → Key → ℕ → Instant → List ℕ → M (Unit {0})
  unfolding append_event
  record_lease_event e type scope resource generation now about =
      append_event (lease_event e type scope resource generation now about) none >> pure tt

  -- The `except LeaseConflict` of the claim.
  unfoldable pub claim_contended : Execution → Instant → Error → M (Unit {0})
  unfolding record_lease_event
  claim_contended candidate now (lease_conflict resource owner) = suppressed (
      record_lease_event candidate lease_contended
        (if resource == candidate.session_id then Scope.session else Scope.task) resource
        candidate.generation now (holder_of owner))
  claim_contended candidate now _ = pure tt

  -- The `except BaseException` of the writer lease: the execution is given back.
  unfoldable pub give_back : Execution → Instant → Error → M (Unit {0})
  unfolding record_lease_event release_execution
  give_back e now (lease_conflict resource owner) = do
    suppressed (
        record_lease_event e lease_contended Scope.workspace resource e.generation now
          (holder_of owner))
    release_execution env (lease_guard e) now
  give_back e now _ = release_execution env (lease_guard e) now

  -- The `try` of the writer lease.
  unfoldable pub acquire_writer :
      Acquisition
      → (ManagedCommand → Reconciled)
      → Key
      → Key
      → Execution
      → Instant
      → M WorkspaceLease
  unfolding recovery_commands_for_workspace reconcile_commands acquire_workspace_writer lease_guard
  acquire_writer r report path workspace_id e now = do
    commands ← gets (recovery_commands_for_workspace workspace_id now)
    reconcile_commands report commands
    raise_if (r.workspace_token == 0 || r.workspace_token == r.execution_token) value_error
    acquire_workspace_writer env (lease_of r path workspace_id e) (lease_guard e) now

  -- `acquire`, once the execution is claimed.
  unfoldable pub acquire_workspace :
      Acquisition
      → (Scope → ManagedCommand → Reconciled)
      → Instant
      → Execution
      → Option (Key × Key)
      → M ExecutionOwnership
  unfolding acquire_writer give_back
  acquire_workspace r report now e none = pure (record { execution = e; workspace_lease = none })
  acquire_workspace r report now e (some (path, workspace_id)) = do
    lease ←
        on_error (acquire_writer r (report Scope.workspace) path workspace_id e now)
          (give_back e now)
    pure (record { execution = e; workspace_lease = some lease })

  -- `acquire`
  unfoldable pub acquire :
      Acquisition → (Scope → ManagedCommand → Reconciled) → Instant → M ExecutionOwnership
  unfolding recovery_commands_for_task reconcile_commands claim_execution claim_contended
      acquire_writer give_back
  acquire r report now = do
    commands ← gets (recovery_commands_for_task r.task_id now)
    reconcile_commands (report Scope.task) commands
    raise_if (r.execution_token == 0) value_error
    e ←
        on_error (claim_execution env (candidate_of r now) r.expected_version now)
          (claim_contended (candidate_of r now) now)
    acquire_workspace r report now e r.workspace
