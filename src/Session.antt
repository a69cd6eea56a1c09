-- ===== src/Session.antt =====
-- src/patchloop/session/models.py: sessions, turns and checkpoints, and `SessionEvent` of
-- src/patchloop/events.py. Timestamps, the payload of an event and the runtime snapshots of a
-- checkpoint, which no modelled code reads, are left out or stand in one opaque `body`.
use patch_loop.Common.{ℕ, ◌+◌, Key, Instant, Bool, Option, List, if◌then◌else◌, is_none}
use patch_loop.Contracts.{Result, ok, err, value_error}

pub data SessionStatus : Type 0 where
  open_session closed : SessionStatus

pub data TurnRole : Type 0 where
  user assistant system : TurnRole

pub record Session : Type 0 where
  pub id : Key
  pub workspace_ref : Key
  pub status : SessionStatus
  pub active_task_id : Option Key
  pub config_version : Key
  pub version : ℕ
  pub event_sequence : ℕ

abbrev pub is_closed : SessionStatus → Bool
is_closed SessionStatus.closed = Bool.true
is_closed SessionStatus.open_session = Bool.false

-- `Session.close`
unfoldable pub close : Session → Result Session
close s =
    if is_closed s.status
    then ok s
    else if is_none s.active_task_id
    then ok (record s { status = SessionStatus.closed; version = s.version + 1 })
    else err value_error

pub record Turn : Type 0 where
  pub id : Key
  pub session_id : Key
  pub task_id : Option Key
  pub role : TurnRole
  pub content : Key
  pub resource_refs : Key
  pub sequence : ℕ
  pub client_submission_id : Option Key

pub record SessionCheckpoint : Type 0 where
  pub session_id : Key
  pub task_id : Key
  pub turn_id : Option Key
  pub consumed_input_sequence : ℕ
  pub event_sequence : ℕ
  pub pending_effect_ids : List Key
  pub body : Key
  pub updated_at : Instant

pub data EventType : Type 0 where
  session_created session_closed turn_appended task_created task_started task_updated : EventType
  lease_acquired lease_takeover lease_released effects_prepared effect_claimed : EventType
  effect_committed effect_settled effect_recovery_required tool_result_committed : EventType
  approval_requested approval_decided approval_expired approval_consumed : EventType
  control_requested control_updated recovery_resolved checkpoint_committed : EventType
  other_event : Key → EventType

-- The text of an event type, as a number: for comparison.
unfoldable pub type_code : EventType → ℕ
type_code EventType.session_created = 0
type_code EventType.session_closed = 1
type_code EventType.turn_appended = 2
type_code EventType.task_created = 3
type_code EventType.task_started = 4
type_code EventType.task_updated = 5
type_code EventType.lease_acquired = 6
type_code EventType.lease_takeover = 7
type_code EventType.lease_released = 8
type_code EventType.effects_prepared = 9
type_code EventType.effect_claimed = 10
type_code EventType.effect_committed = 11
type_code EventType.effect_settled = 12
type_code EventType.effect_recovery_required = 13
type_code EventType.tool_result_committed = 14
type_code EventType.approval_requested = 15
type_code EventType.approval_decided = 16
type_code EventType.approval_expired = 17
type_code EventType.approval_consumed = 18
type_code EventType.control_requested = 19
type_code EventType.control_updated = 20
type_code EventType.recovery_resolved = 21
type_code EventType.checkpoint_committed = 22
type_code (EventType.other_event k) = 23 + k

-- `body` is the event's data and timestamp.
pub record SessionEvent : Type 0 where
  pub id : Key
  pub session_id : Key
  pub type : EventType
  pub task_id : Option Key
  pub trace_id : Option Key
  pub sequence : ℕ
  pub body : Key
