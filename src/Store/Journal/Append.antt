-- ===== src/Store/Journal/Append.antt =====
-- `append_event` of `FakeStore` (src/patchloop/persistence_contracts.py): an event from outside of the
-- store, appended once.
use patch_loop.Contracts.{value_error}
use patch_loop.Store.Journal.{entries, journal_event}
use patch_loop.Session.{Session, SessionEvent, type_code}
use patch_loop.Common.{Bool, Option, find, if◌then◌else◌, none, same_key, some, ℕ, ◌&&◌, ◌+◌, ◌==◌}
use patch_loop.Store.State.{◌>>◌, ◌>>=◌, M, check_version, get_session, gets, pure, raise}

-- `==` of the model class, the sequence aside.
abbrev pub same_event : SessionEvent → SessionEvent → Bool
same_event a b =
    a.id == b.id
    && (a.session_id == b.session_id
        && (type_code a.type == type_code b.type
            && (same_key a.task_id b.task_id
                && (same_key a.trace_id b.trace_id && a.body == b.body))))

-- The event, numbered after those of its session.
abbrev pub next_numbered : Session → SessionEvent → SessionEvent
next_numbered session event = record event { sequence = session.event_sequence + 1 }

unfoldable pub append_found :
    Session → SessionEvent → Option ℕ → Option SessionEvent → M SessionEvent
unfolding type_code journal_event
append_found session event expected (some x) =
    if same_event x event then pure x else raise value_error
append_found session event expected none = do
  check_version session.id session.event_sequence expected
  journal_event session (next_numbered session event)
  pure (next_numbered session event)

unfoldable pub append_event : SessionEvent → Option ℕ → M SessionEvent
unfolding append_found
append_event event expected = do
  session ← get_session event.session_id
  existing ← gets (λ s. find (λ x. x.id == event.id) (entries session.id s.events))
  append_found session event expected existing
