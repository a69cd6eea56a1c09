-- ===== src/Tests/Tasks.antt =====
-- The theorems on tasks at concrete inputs, on the store of Samples.antt.
use patch_loop.Store.Journal.{entries, journal}
use patch_loop.Session.{EventType, Session, SessionEvent}
use patch_loop.Store.Journal.Numbering.{InOrder, journal-InOrder, numbered}
use patch_loop.Contracts.{ok}
use patch_loop.Store.State.{Store}
use patch_loop.Store.Tasks.Updates.{update_task-ok}
use patch_loop.Common.Dict.{insert, lookup}
use patch_loop.Store.Tasks.{update_task}
use patch_loop.Store.Leases.{guard_holds, require_session_guard}
use patch_loop.Domain.Lifecycle.{IsCoherent, project_legacy_status-IsCoherent}
use patch_loop.Domain.Calls.{
  sets_outcome, transits, Call, Forgets, apply, apply_recovery, completed_forgets_recovery, run,
  run-IsCoherent, run_terminal,
}
use patch_loop.Domain.{
  Task, TaskOutcome, TaskRuntimeCondition, TaskStatus, is_active, is_recovery,
  project_legacy_status, same_outcome, set_outcome, validate_state_dimensions,
}
use patch_loop.Samples.{session, completed_task, env, guard, lost_task, store, task}
use patch_loop.Common.{
  arith, List, [], false, none, not, refl, same_key, some, true, ◌+◌, ◌||◌, ◌∷◌, ◌≡◌, ◌⊎◌,
}

-- A task that completes, is asked to run again and to be cancelled.
abbrev task_calls : List Call
task_calls =
    transits TaskStatus.completed (some 9)
    ∷ transits TaskStatus.running none
    ∷ sets_outcome TaskOutcome.cancelled none
    ∷ []

run-IsCoherent_example : IsCoherent (run task_calls task)
unfolding validate_state_dimensions
run-IsCoherent_example = run-IsCoherent task_calls task refl

run_terminal_example : run task_calls completed_task ≡ completed_task
unfolding validate_state_dimensions
run_terminal_example = run_terminal task_calls completed_task refl refl

apply_recovery_example :
    (TaskRuntimeCondition.recovery_required ≡ TaskRuntimeCondition.recovery_required)
    ⊎ Forgets (sets_outcome TaskOutcome.failed (some 9))
unfolding apply set_outcome
apply_recovery_example =
    apply_recovery (sets_outcome TaskOutcome.failed (some 9)) lost_task
      {u = record lost_task {
        status = TaskStatus.failed;
        outcome = TaskOutcome.failed;
        error = some 9;
      }}
      refl refl

completed_forgets_recovery_example :
    (u v : Task) × (apply (transits TaskStatus.completed (some 9)) lost_task ≡ some u)
    × (apply (sets_outcome TaskOutcome.completed (some 9)) lost_task ≡ some v)
    × (u.runtime_condition ≡ TaskRuntimeCondition.ended)
    × (v ≡ record u { runtime_condition = TaskRuntimeCondition.recovery_required })
completed_forgets_recovery_example = completed_forgets_recovery lost_task (some 9) refl refl refl

abbrev edited_task : Task
edited_task = record task { body = 90 }

abbrev updated_task : Task
updated_task = record edited_task { version = 5 }

abbrev after_update : Store
after_update = (update_task env edited_task 4 (some guard) 20 store).1

updates_well : update_task env edited_task 4 (some guard) 20 store ≡ (ok updated_task, after_update)
unfolding update_task require_session_guard guard_holds lookup insert
updates_well = refl

update_task-ok_example :
    (current : Task) × (lookup 2 store.tasks ≡ some current)
    × (current.version ≡ 4)
    × (same_key current.session_id (some 1) ≡ true)
    × ((is_active current.outcome || same_outcome TaskOutcome.active current.outcome) ≡ true)
    × ((not (is_recovery current.runtime_condition) || false) ≡ true)
    × (updated_task ≡ record edited_task { version = 4 + 1 })
    × (lookup 2 after_update.tasks ≡ some updated_task)
update_task-ok_example = update_task-ok env edited_task 4 (some guard) 20 store updates_well

project_legacy_status-IsCoherent_example :
    let (s, o, c) = project_legacy_status (some TaskStatus.failed) none none in
    IsCoherent (record task { status = s; outcome = o; runtime_condition = c })
unfolding validate_state_dimensions
project_legacy_status-IsCoherent_example =
    project_legacy_status-IsCoherent (some TaskStatus.failed) task

abbrev first_event : SessionEvent
first_event = record {
  id = 3001;
  session_id = 1;
  type = EventType.session_created;
  task_id = none;
  trace_id = none;
  sequence = 1;
  body = 3001;
}

abbrev begun : Session
begun = record session { event_sequence = 1 }

abbrev begun_store : Store
begun_store = record store { sessions = (1, begun) ∷ []; events = (1, first_event ∷ []) ∷ [] }

abbrev continued : Session
continued = record session { event_sequence = 2 }

abbrev after_event : Store
after_event = (journal env begun EventType.task_started 2 (4 ∷ []) (some 2) none begun_store).1

journals_well :
    journal env begun EventType.task_started 2 (4 ∷ []) (some 2) none begun_store
    ≡ (ok continued, after_event)
unfolding journal
journals_well = refl

journal-InOrder_example :
    InOrder (entries 1 after_event.events) 2
    × (lookup 1 after_event.sessions ≡ some continued)
    × (continued.event_sequence ≡ begun.event_sequence + 1)
    × (entries 9 after_event.events ≡ entries 9 begun_store.events)
    × (lookup 9 after_event.sessions ≡ lookup 9 begun_store.sessions)
unfolding lookup numbered
journal-InOrder_example =
    journal-InOrder env begun EventType.task_started 2 (4 ∷ []) (some 2) none begun_store 9
      (refl, refl) (λ h. omega (arith, h)) journals_well
