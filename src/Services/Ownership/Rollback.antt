-- ===== src/Services/Ownership/Rollback.antt =====
-- An acquisition that fails leaves nothing behind that is active
-- (src/patchloop/execution/ownership.py).
use patch_loop.Store.Leases.Expiry.{IsKeyed, execution_id}
use patch_loop.Store.Leases.Runs.{recovery-Keyed}
use patch_loop.Store.Leases.Survival.{guard_store, guarded, release_writes}
use patch_loop.Store.Leases.{
  assert_guard, guard_holds, lease_guard, release_execution, mark_command_recovery_required,
  with_status,
}
use patch_loop.Store.State.{
  resume_keeps, raise_if_cases, pure, raise, ◌>>=◌, Env, Store, resume_cases,
}
use patch_loop.Store.Journal.Append.{append_event}
use patch_loop.Execution.Commands.{is_finished, ManagedCommand}
use patch_loop.Contracts.{err, Error, LeaseGuard, lease_conflict}
use patch_loop.Store.Journal.{journal, journal_event}
use patch_loop.Store.Leases.Failures.{Kept, put-Kept, same-Kept, trans-Kept}
use patch_loop.Store.Writers.{acquire_workspace_writer}
use patch_loop.Store.Commands.{recovery_commands_for_workspace, finish_managed_command}
use patch_loop.Services.Ownership.{
  holder_of, Acquisition, acquire_writer, lease_of, failed_command, Reconciled, Scope,
  claim_contended, reconcile_commands, reconcile_one, record_lease_event,
}
use patch_loop.Common.Dict.{Keyed, lookup-insert, lookup}
use patch_loop.Session.{EventType}
use patch_loop.Execution.Leases.{Execution, ExecutionStatus, WorkspaceLease, is_active_status}
use patch_loop.Common.{
  subst, ap, sym, ◌∙◌, ==-refl, ltb, ◌==◌, ◌||◌, Bool, if◌then◌else◌, true, Bool-cases, Instant,
  List, Option-cases, [], arith, false, inl, inr, refl, some, ℕ, ◌∷◌, ◌≡◌, Key,
}

-- Under the key nothing is active.
abbrev pub Gone : Key → Store → Type 0
Gone k s = (a : Execution) → lookup k s.executions ≡ some a → is_active_status a.status ≡ false

pub Kept-Gone : (k : Key) (s t : Store) → Kept s.executions t.executions → Gone k s → Gone k t
Kept-Gone k s t kept gone a found = elim (Bool-cases (is_active_status a.status)) [
  | inl live ↦ gone a (kept k a found live)
  | inr ended ↦ ended
]

finish-executions :
    (c : ManagedCommand) (s : Store) → (finish_managed_command c s).1.executions ≡ s.executions
unfolding finish_managed_command
finish-executions c s = ground arith

recovery-Kept :
    (k : Key) (s : Store) → Kept s.executions (mark_command_recovery_required k s).1.executions
unfolding mark_command_recovery_required
recovery-Kept k s = elim (Option-cases (lookup k s.executions)) [
  | inl missing ↦ same-Kept _ _ (ground arith)
  | inr (e, found) ↦
      put-Kept _ _ (with_status ExecutionStatus.recovery_required e) (ground arith) refl
]

-- Nothing is made active, and executions stay filed under their identifiers.
pub record Tidy (s t : Store) : Type 0 where
  pub kept : Kept s.executions t.executions
  pub keyed : IsKeyed s → IsKeyed t

same-Tidy : (s t : Store) → t.executions ≡ s.executions → Tidy s t
same-Tidy s t h = record { kept = same-Kept _ _ h; keyed = subst (Keyed execution_id) (sym h) }

trans-Tidy : (s t u : Store) → Tidy s t → Tidy t u → Tidy s u
trans-Tidy s t u f g = record {
  kept = trans-Kept s.executions t.executions u.executions f.kept g.kept;
  keyed = λ h. g.keyed (f.keyed h);
}

reconcile_one-Tidy :
    (report : Reconciled) (c : ManagedCommand) (s : Store) → Tidy s (reconcile_one report c s).1
unfolding reconcile_one
reconcile_one-Tidy (Reconciled.reconciled r) c s =
    resume_keeps (Tidy s) (finish_managed_command r s) _ (same-Tidy s _ (finish-executions r s))
      λ _ h. h
reconcile_one-Tidy (Reconciled.cleanup_error reason) c s =
    resume_keeps (Tidy s) (finish_managed_command failed s) _ finished
      λ recorded _. if_tidy (is_finished recorded.status)
  where
    failed : ManagedCommand
    failed = failed_command c reason

    t : Store
    t = (finish_managed_command failed s).1

    finished : Tidy s t
    finished = same-Tidy s t (finish-executions failed s)

    marked : Tidy s (mark_command_recovery_required c.execution_id t).1
    marked =
        trans-Tidy s t _ finished (record {
          kept = recovery-Kept c.execution_id t;
          keyed = recovery-Keyed c.execution_id t;
        })

    if_tidy :
        (b : Bool)
        → Tidy s
            ((if b
                then pure tt
                else (mark_command_recovery_required c.execution_id >>= λ task_id.
                    raise (Error.recovery_required task_id (some c.id))))
              t).1
    if_tidy true = finished
    if_tidy false =
        resume_keeps (Tidy s) (mark_command_recovery_required c.execution_id t) _ marked λ _ h. h

pub reconcile_commands-Tidy :
    (report : ManagedCommand → Reconciled) (cs : List ManagedCommand) (s : Store)
    → Tidy s (reconcile_commands report cs s).1
unfolding reconcile_commands
reconcile_commands-Tidy report [] s = same-Tidy s s refl
reconcile_commands-Tidy report (c ∷ cs) s =
    resume_keeps (Tidy s) (reconcile_one (report c) c s) _ (reconcile_one-Tidy (report c) c s)
      λ _ h. trans-Tidy s _ _ h (reconcile_commands-Tidy report cs (reconcile_one (report c) c s).1)

-- Under the key there is at most the given execution that is active.
abbrev pub Only : Key → Execution → Store → Type 0
Only k e s =
    (a : Execution) → lookup k s.executions ≡ some a → is_active_status a.status ≡ true → a ≡ e

module _ (env : Env) where
  pub event-executions :
      (e : Execution) (type : EventType) (scope : Scope) (k : Key) (n : ℕ) (now : Instant)
      (about : List ℕ) (s : Store)
      → (record_lease_event env e type scope k n now about s).1.executions ≡ s.executions
  unfolding record_lease_event append_event journal_event
  event-executions e type scope k n now about s = ground arith

  pub contended-executions :
      (v : Execution) (now : Instant) (e : Error) (s : Store)
      → (claim_contended env v now e s).1.executions ≡ s.executions
  unfolding claim_contended
  contended-executions v now (lease_conflict resource owner) s =
      event-executions v _ _ _ _ now (holder_of owner) s
  contended-executions v now _ s = refl

  writer-executions :
      (lease : WorkspaceLease) (g : LeaseGuard) (now : Instant) (s : Store)
      → (acquire_workspace_writer env lease g now s).1.executions ≡ s.executions
  unfolding acquire_workspace_writer journal
  writer-executions lease g now s = ground arith

  pub acquire_writer-Kept :
      (r : Acquisition) (report : ManagedCommand → Reconciled) (path k : Key) (e : Execution)
      (now : Instant) (s : Store)
      → Kept s.executions (acquire_writer env r report path k e now s).1.executions
  unfolding acquire_writer
  acquire_writer-Kept r report path k e now s =
      resume_cases (λ q. Kept s.executions q.1.executions)
        (reconcile_commands report (recovery_commands_for_workspace k now s) s) _ (λ _ _. cleaned)
        λ _ _.
          raise_if_cases (λ q. Kept s.executions q.1.executions) t
            (r.workspace_token == 0 || r.workspace_token == r.execution_token) _ _ cleaned
            λ _.
              trans-Kept s.executions t.executions _ cleaned
                (same-Kept _ _ (writer-executions (lease_of r path k e) (lease_guard e) now t))
    where
      t : Store
      t = (reconcile_commands report (recovery_commands_for_workspace k now s) s).1

      cleaned : Kept s.executions t.executions
      cleaned = (reconcile_commands-Tidy report (recovery_commands_for_workspace k now s) s).kept

  pub own_guard :
      (now : Instant) (e : Execution)
      → ltb now e.lease_expires_at ≡ true
      → is_active_status e.status ≡ true
      → guard_holds (lease_guard e) now e ≡ true
  unfolding guard_holds lease_guard
  own_guard now e in_time live =
      ground
        (arith, ==-refl e.task_id, ==-refl e.lease_token, ==-refl e.generation, ==-refl e.owner_id)

  -- A guard of the one that is active passes.
  guard-passes :
      (e : Execution) (now : Instant) (s : Store) (x : Error) (t : Store)
      → ltb now e.lease_expires_at ≡ true
      → is_active_status e.status ≡ true
      → lookup e.id s.executions ≡ some e
      → assert_guard (lease_guard e) now s ≡ (err x, t)
      → ⊥
  unfolding assert_guard lease_guard
  guard-passes e now s x t in_time live found failed = ground (arith, own_guard now e in_time live)

  pub release-Gone :
      (e : Execution) (now : Instant) (s : Store)
      → ltb now e.lease_expires_at ≡ true
      → Only e.id e s
      → Gone e.id (release_execution env (lease_guard e) now s).1
  unfolding release_execution lease_guard
  release-Gone e now s in_time only =
      resume_cases (λ r. Gone e.id r.1) (assert_guard (lease_guard e) now s) _
        (λ x failed a found. elim (Bool-cases (is_active_status a.status)) [
          | inl live ↦
              let stored =
                ap (λ (t : Store). lookup e.id t.executions)
                  (sym (guard_store (lease_guard e) now s))
                ∙ found in
              let same = only a stored live in
              elim (guard-passes e now s x _ in_time
                (ap (λ (y : Execution). is_active_status y.status) (sym same) ∙ live)
                (stored ∙ ap some same) failed) [ ]
          | inr ended ↦ ended
        ])
        λ x passed a found.
          let (stored, live) = guarded (lease_guard e) now s passed in
          let same = only x stored live in
          let written =
            release_writes env (lease_guard e) now x s _ (guard_store (lease_guard e) now s) in
          ground (
            arith,
            written,
            same,
            lookup-insert x.id e.id (with_status ExecutionStatus.released x) s.executions,
            ==-refl e.id,
          )
