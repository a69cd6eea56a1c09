-- ===== src/Store/Commands/Ended.antt =====
-- A command that has ended stays as it was recorded (src/patchloop/persistence_contracts.py).
use patch_loop.Store.State.{Store}
use patch_loop.Store.Commands.{finish_managed_command}
use patch_loop.Common.Dict.{lookup, lookup-insert}
use patch_loop.Execution.Commands.{ManagedCommand, is_finished}
use patch_loop.Common.{arith, some, true, ◌≡◌, Key}

-- The record of a managed command that has exited or was terminated stays as it is whatever
-- finish_managed_command is called with.
pub finish_managed_command_keeps :
    (c old : ManagedCommand) (k : Key) (s : Store)
    → lookup k s.managed_commands ≡ some old
    → is_finished old.status ≡ true
    → lookup k (finish_managed_command c s).1.managed_commands ≡ some old
unfolding finish_managed_command
finish_managed_command_keeps c old k s found ended =
    ground (arith, lookup-insert c.id k c s.managed_commands)
