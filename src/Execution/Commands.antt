-- ===== src/Execution/Commands.antt =====
-- src/patchloop/sandbox.py: `ManagedCommandIdentity`, the record of a process that a sandbox runs for
-- an execution. Its times are left out.
use patch_loop.Common.{Bool, Key, Option, false, true, ℕ}

pub data ManagedCommandStatus : Type 0 where
  running exited terminated cleanup_failed : ManagedCommandStatus

pub record ManagedCommand : Type 0 where
  pub id : Key
  pub execution_id : Key
  pub backend : Key
  pub process_id : ℕ
  pub process_start_marker : Key
  pub container_name : Option Key
  pub status : ManagedCommandStatus
  pub cleanup_reason : Option Key

-- The statuses that a command ends in.
abbrev pub is_finished : ManagedCommandStatus → Bool
is_finished ManagedCommandStatus.exited = true
is_finished ManagedCommandStatus.terminated = true
is_finished _ = false

-- The statuses that ask for recovery.
abbrev pub needs_cleanup : ManagedCommandStatus → Bool
needs_cleanup ManagedCommandStatus.running = true
needs_cleanup ManagedCommandStatus.cleanup_failed = true
needs_cleanup _ = false
