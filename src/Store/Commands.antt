-- ===== src/Store/Commands.antt =====
-- The managed commands of `FakeStore` (src/patchloop/persistence_contracts.py):
-- `recovery_commands_for_task`, `recovery_commands_for_workspace` and `finish_managed_command`.
pub mod Ended
use patch_loop.Execution.Leases.{Execution}
use patch_loop.Execution.Commands.{ManagedCommand, is_finished, needs_cleanup}
use patch_loop.Common.{
  Bool, Instant, Key, List, Option, [], false, if◌then◌else◌, keep, ltb, none, not, some, ◌&&◌,
  ◌==◌,
}
use patch_loop.Common.Dict.{insert, lookup, values}
use patch_loop.Store.State.{◌>>=◌, M, Store, gets, modify, pure, ◌>>◌}

abbrev put_command : ManagedCommand → M (Unit {0})
put_command c = modify λ s. record s { managed_commands = insert c.id c s.managed_commands }

-- The command is of an execution of the task whose lease has run out.
abbrev left_over : Key → Instant → Option Execution → Bool
left_over task_id now none = false
left_over task_id now (some e) = e.task_id == task_id && not (ltb now e.lease_expires_at)

unfoldable pub recovery_commands_for_task : Key → Instant → Store → List ManagedCommand
recovery_commands_for_task task_id now s =
    keep (λ c. left_over task_id now (lookup c.execution_id s.executions) && needs_cleanup c.status)
      (values s.managed_commands)

unfoldable pub recovery_commands_for_workspace : Key → Instant → Store → List ManagedCommand
recovery_commands_for_workspace workspace_id now s = elim (lookup workspace_id s.workspace_leases) [
  | none ↦ []
  | some lease ↦
      if ltb now lease.lease_expires_at
      then []
      else keep (λ c. c.execution_id == lease.execution_id && needs_cleanup c.status)
          (values s.managed_commands)
]

-- A command that has ended keeps its record.
abbrev ended_command : Option ManagedCommand → Option ManagedCommand
ended_command none = none
ended_command (some c) = if is_finished c.status then some c else none

unfoldable pub finish_managed_command : ManagedCommand → M ManagedCommand
finish_managed_command identity = do
  current ← gets (λ s. ended_command (lookup identity.id s.managed_commands))
  elim current [ some c ↦ pure c | none ↦ put_command identity >> pure identity ]
