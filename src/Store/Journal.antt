-- ===== src/Store/Journal.antt =====
-- `FakeStore._journal`, `_journal_approval` and `append_event`
-- (src/patchloop/persistence_contracts.py): every session has its own numbered event list.
pub mod Numbering
pub mod Append
pub mod Repeats
use patch_loop.Common.{ℕ, ◌+◌, Key, Option, none, some, List, [], ◌∷◌, ◌++◌}
use patch_loop.Common.Dict.{Dict, lookup, insert}
use patch_loop.Domain.{Task}
use patch_loop.Session.{Session, SessionEvent, EventType}
use patch_loop.Execution.Approvals.{Approval}
use patch_loop.Store.State.{Env, M, pure, modify, ◌>>=◌, ◌>>◌, get_session, get_task, get_effect}

-- `d.setdefault(k, []).append(v)`
abbrev pub entries : {V : Type 0} → Key → Dict (List V) → List V
entries k d = elim (lookup k d) [ none ↦ [] | some xs ↦ xs ]

abbrev pub append_at : {V : Type 0} → Key → V → Dict (List V) → Dict (List V)
append_at k v d = insert k (entries k d ++ v ∷ []) d

-- An event is appended and the session is written with the event's number.
unfoldable pub journal_event : Session → SessionEvent → M Session
journal_event session e = do
  let updated = record session { event_sequence = e.sequence }
  modify λ s. record s {
    events = append_at session.id e s.events;
    sessions = insert session.id updated s.sessions;
  }
  pure updated

module _ (env : Env) where
  abbrev next_event : Session → EventType → Key → List ℕ → Option Key → Option Key → SessionEvent
  next_event session type entity revision task_id trace_id = record {
    id = env.journal_event_id type entity revision;
    session_id = session.id;
    type = type;
    task_id = task_id;
    trace_id = trace_id;
    sequence = session.event_sequence + 1;
    body = env.journal_body type entity revision;
  }

  unfoldable pub journal : Session → EventType → Key → List ℕ → Option Key → Option Key → M Session
  unfolding journal_event
  journal session type entity revision task_id trace_id =
      journal_event session (next_event session type entity revision task_id trace_id)

  -- Journals under the session of a task, if it has one.
  unfoldable pub journal_task : Task → EventType → Key → List ℕ → Option Key → M (Unit {0})
  unfolding journal
  journal_task task type entity revision trace_id = elim task.session_id [
    | none ↦ pure tt
    | some k ↦ do
      session ← get_session k
      journal session type entity revision (some task.id) trace_id
      pure tt
  ]

  unfoldable pub journal_approval : Approval → EventType → M (Unit {0})
  unfolding journal_task
  journal_approval approval type = do
    effect ← get_effect approval.effect_id
    task ← get_task effect.task_id
    journal_task task type approval.id (approval.version ∷ []) none
