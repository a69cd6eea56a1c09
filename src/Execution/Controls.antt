-- ===== src/Execution/Controls.antt =====
-- src/patchloop/execution/models.py: `ControlRequest` and `RecoveryDisposition`.
use patch_loop.Common.{
  ℕ, ◌+◌, Key, Instant, Bool, true, false, not, Option, none, some, if◌then◌else◌,
}
use patch_loop.Domain.{TaskRuntimeCondition}

pub data ControlKind : Type 0 where
  pause cancel : ControlKind

pub data ControlStatus : Type 0 where
  requested acknowledged settled cleanup_failed : ControlStatus

pub record ControlRequest : Type 0 where
  pub id : Key
  pub task_id : Key
  pub execution_id : Option Key
  pub kind : ControlKind
  pub status : ControlStatus
  pub requested_at : Instant
  pub acknowledged_at : Option Instant
  pub settled_at : Option Instant
  pub cleanup_info : Option Key
  pub version : ℕ

unfoldable pub allowed : ControlStatus → ControlStatus → Bool
allowed ControlStatus.requested ControlStatus.acknowledged = true
allowed ControlStatus.requested ControlStatus.cleanup_failed = true
allowed ControlStatus.acknowledged ControlStatus.settled = true
allowed ControlStatus.acknowledged ControlStatus.cleanup_failed = true
allowed _ _ = false

stamp : ControlStatus → Instant → ControlRequest → ControlRequest
stamp ControlStatus.acknowledged now r = record r { acknowledged_at = some now }
stamp ControlStatus.settled now r = record r { settled_at = some now }
stamp _ now r = r

unfoldable pub transition :
    ControlStatus → Option Key → Instant → ControlRequest → Option ControlRequest
unfolding allowed stamp
transition target info now r =
    if not (allowed r.status target)
    then none
    else some (
        stamp target now
          (record r { status = target; version = r.version + 1; cleanup_info = info }))

-- A control request that the runtime has still to act on.
abbrev pub is_open : ControlStatus → Bool
is_open ControlStatus.requested = true
is_open ControlStatus.acknowledged = true
is_open _ = false

pub data DispositionKind : Type 0 where
  confirm_result create_retry abandon : DispositionKind

-- The operator's evidence is opaque but for the two facts that the code reads.
pub record Evidence : Type 0 where
  pub is_empty : Bool
  pub duplicate_risk_acknowledged : Bool
  pub content : Key

pub record RecoveryDisposition : Type 0 where
  pub id : Key
  pub unknown_effect_id : Key
  pub kind : DispositionKind
  pub evidence : Evidence
  pub decision_source : Key
  pub retry_effect_id : Option Key
  pub created_at : Instant

-- `RecoveryDisposition.validate_target`: false where it raises.
unfoldable pub validate_target : DispositionKind → TaskRuntimeCondition → Bool
validate_target DispositionKind.confirm_result TaskRuntimeCondition.idle = true
validate_target DispositionKind.confirm_result TaskRuntimeCondition.running = true
validate_target DispositionKind.confirm_result TaskRuntimeCondition.paused = true
validate_target DispositionKind.confirm_result TaskRuntimeCondition.ended = true
validate_target DispositionKind.create_retry TaskRuntimeCondition.waiting_for_approval = true
validate_target DispositionKind.abandon TaskRuntimeCondition.ended = true
validate_target _ _ = false
