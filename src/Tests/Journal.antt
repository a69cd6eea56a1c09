-- ===== src/Tests/Journal.antt =====
-- The theorems on appended events and on commands at a concrete store.
use patch_loop.Common.Dict.{Keyed, lookup}
use patch_loop.Contracts.{ok}
use patch_loop.Store.State.{Store}
use patch_loop.Store.Commands.{finish_managed_command}
use patch_loop.Store.Journal.Append.{append_event, append_found, next_numbered}
use patch_loop.Session.{EventType, SessionEvent}
use patch_loop.Store.Journal.Repeats.{session_id_of, append_event_again}
use patch_loop.Store.Commands.Ended.{finish_managed_command_keeps}
use patch_loop.Execution.Commands.{ManagedCommand, ManagedCommandStatus}
use patch_loop.Common.{[], find, none, refl, some, ◌∷◌, ◌≡◌}
use patch_loop.Samples.{session, store}

abbrev event : SessionEvent
event = record {
  id = 90;
  session_id = 1;
  type = EventType.other_event 4;
  task_id = some 2;
  trace_id = none;
  sequence = 0;
  body = 91;
}

abbrev appended : Store
appended = (append_event event (some 0) store).1

appends : append_event event (some 0) store ≡ (ok (next_numbered session event), appended)
unfolding append_event append_found lookup find
appends = refl

sessions-Keyed : Keyed session_id_of store.sessions
unfolding lookup
sessions-Keyed = (refl, refl, tt)

append_event_again_example :
    append_event event (some 7) appended ≡ (ok (next_numbered session event), appended)
append_event_again_example = append_event_again event (some 0) (some 7) store sessions-Keyed appends

abbrev command : ManagedCommand
command = record {
  id = 80;
  execution_id = 5;
  backend = 81;
  process_id = 82;
  process_start_marker = 83;
  container_name = none;
  status = ManagedCommandStatus.exited;
  cleanup_reason = none;
}

abbrev with_command : Store
with_command = record store { managed_commands = (80, command) ∷ [] }

abbrev late : ManagedCommand
late = record command { status = ManagedCommandStatus.cleanup_failed; cleanup_reason = some 84 }

command_known : lookup 80 with_command.managed_commands ≡ some command
unfolding lookup
command_known = refl

finish_managed_command_keeps_example :
    lookup 80 (finish_managed_command late with_command).1.managed_commands ≡ some command
finish_managed_command_keeps_example =
    finish_managed_command_keeps late command 80 with_command command_known refl
