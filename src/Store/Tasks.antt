-- ===== src/Store/Tasks.antt =====
-- Sessions, turns and tasks of `FakeStore` (src/patchloop/persistence_contracts.py).
pub mod Updates
use patch_loop.Common.Dict.{has_key, insert}
use patch_loop.Contracts.{Error, lease_conflict, value_error, submission_conflict, LeaseGuard}
use patch_loop.Store.Leases.{put_task, require_session_guard}
use patch_loop.Domain.{is_recovery, same_outcome, is_active, Task}
use patch_loop.Store.Journal.{journal_task, entries, journal}
use patch_loop.Store.State.{
  gets, modify, check_version, get_session, get_task, raise_if, ◌>>=◌, ◌>>◌, raise, pure, M, Env,
}
use patch_loop.Common.{
  [], ◌++◌, ◌∷◌, or_key, ◌||◌, is_none, same_key, ◌+◌, Instant, false, find, length, none, not,
  ◌&&◌, List, if◌then◌else◌, some, true, ◌==◌, Bool, Key, ℕ, Option,
}
use patch_loop.Session.{SessionStatus, EventType, is_closed, Session, Turn, TurnRole}

abbrev same_role : TurnRole → TurnRole → Bool
same_role TurnRole.user TurnRole.user = true
same_role TurnRole.assistant TurnRole.assistant = true
same_role TurnRole.system TurnRole.system = true
same_role _ _ = false

-- The stored turn of a submission, and whether it is a repetition of it.
abbrev submission_of : Option Key → List Turn → Option Turn
submission_of none turns = none
submission_of (some k) turns = find (λ t. same_key t.client_submission_id (some k)) turns

abbrev repeats_turn : Turn → Turn → Bool
repeats_turn existing turn =
    existing.content == turn.content
    && (same_role existing.role turn.role
        && (existing.resource_refs == turn.resource_refs
            && (is_none turn.task_id || same_key existing.task_id turn.task_id)))

-- A turn may name a task of its own session only.
check_turn_task : Option Key → Session → M (Unit {0})
check_turn_task none session = pure tt
check_turn_task (some k) session = do
  task ← get_task k
  raise_if (not (same_key task.session_id (some session.id))) value_error

abbrev or_active : Option Key → Option Key → Option Key
or_active none active = active
or_active (some k) active = some k

abbrev assigned_turn : Turn → Session → List Turn → Turn
assigned_turn turn session turns = record turn {
  sequence = length turns + 1;
  task_id = or_active turn.task_id session.active_task_id;
}

module _ (env : Env) where
  unfoldable pub create_session : Session → M Session
  unfolding journal
  create_session session = do
    raise_if (← gets (λ s. has_key session.id s.sessions)) value_error
    modify λ s. record s {
      sessions = insert session.id session s.sessions;
      turns = insert session.id [] s.turns;
      events = insert session.id [] s.events;
    }
    journal env session EventType.session_created session.id (session.version ∷ []) none none

  -- The session of a new task is known.
  check_bound : Option Key → M (Unit {0})
  check_bound none = pure tt
  check_bound (some k) = get_session k >> pure tt

  unfoldable pub create_task : Task → M Task
  unfolding check_bound journal_task
  create_task task = do
    raise_if (← gets (λ s. has_key task.id s.tasks)) value_error
    check_bound task.session_id
    put_task task
    journal_task env task EventType.task_created task.id (task.version ∷ []) none
    pure task

  unfoldable pub close_session : Key → ℕ → M Session
  unfolding journal
  close_session session_id expected = do
    session ← get_session session_id
    check_version session.id session.version (some expected)
    raise_if (not (is_none session.active_task_id)) value_error
    let closed = record session { status = SessionStatus.closed; version = session.version + 1 }
    journal env closed EventType.session_closed session.id ((session.version + 1) ∷ []) none none

  -- The turn is new: it is checked, numbered and appended.
  add_turn : Turn → Option ℕ → Session → List Turn → M Turn
  unfolding check_turn_task journal
  add_turn turn expected session turns = do
    check_version session.id session.version expected
    check_turn_task turn.task_id session
    modify λ s. record s {
      turns = insert session.id (turns ++ assigned_turn turn session turns ∷ []) s.turns;
    }
    journal env (record session { version = session.version + 1 }) EventType.turn_appended turn.id
        ((length turns + 1) ∷ []) (or_active turn.task_id session.active_task_id) none
    pure (assigned_turn turn session turns)

  submit_turn : Turn → Option ℕ → Session → List Turn → Option Turn → M Turn
  unfolding add_turn
  submit_turn turn expected session turns none = add_turn turn expected session turns
  submit_turn turn expected session turns (some existing) =
      if repeats_turn existing turn
      then pure existing
      else raise (submission_conflict session.id (or_key turn.client_submission_id 0))

  unfoldable pub append_turn : Turn → Option ℕ → M Turn
  unfolding submit_turn
  append_turn turn expected = do
    session ← get_session turn.session_id
    raise_if (is_closed session.status) value_error
    turns ← gets (λ s. entries session.id s.turns)
    submit_turn turn expected session turns (submission_of turn.client_submission_id turns)

  unfoldable pub start_task : Key → Task → ℕ → M Task
  unfolding journal
  start_task session_id task expected = do
    session ← get_session session_id
    check_version session.id session.version (some expected)
    raise_if (is_closed session.status) value_error
    raise_if (not (is_none session.active_task_id))
        (lease_conflict session_id session.active_task_id)
    raise_if (not (is_active task.outcome)) value_error
    raise_if (← gets (λ s. has_key task.id s.tasks)) value_error
    put_task (record task { session_id = some session_id })
    journal env (record session { active_task_id = some task.id; version = session.version + 1 })
        EventType.task_started task.id (task.version ∷ []) (some task.id) none
    pure (record task { session_id = some session_id })

  -- The session gives up a task that has ended.
  abbrev unbind : Task → Session → Session
  unbind task session =
      if not (is_active task.outcome) && same_key session.active_task_id (some task.id)
      then record session { active_task_id = none; version = session.version + 1 }
      else session

  journal_update : Task → Option Key → M (Unit {0})
  unfolding journal
  journal_update updated none = pure tt
  journal_update updated (some k) = do
    session ← get_session k
    journal env (unbind updated session) EventType.task_updated updated.id (updated.version ∷ [])
        (some updated.id) none
    pure tt

  unfoldable pub update_task : Task → ℕ → Option LeaseGuard → Instant → M Task
  unfolding require_session_guard journal_update
  update_task task expected guard now = do
    current ← get_task task.id
    check_version task.id current.version (some expected)
    require_session_guard current guard now
    raise_if (not (same_key current.session_id task.session_id)) value_error
    raise_if (not (is_active current.outcome) && not (same_outcome task.outcome current.outcome))
        value_error
    raise_if (is_recovery current.runtime_condition && not (is_recovery task.runtime_condition))
        (Error.recovery_required current.id none)
    put_task (record task { version = current.version + 1 })
    journal_update (record task { version = current.version + 1 }) task.session_id
    pure (record task { version = current.version + 1 })
