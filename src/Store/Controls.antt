-- ===== src/Store/Controls.antt =====
-- Control requests and checkpoints of `FakeStore` (src/patchloop/persistence_contracts.py).
use patch_loop.Store.Effects.{last_sequence}
use patch_loop.Contracts.{key_error, LeaseGuard, value_error}
use patch_loop.Common.Dict.{has_key, lookup, insert}
use patch_loop.Store.Leases.{assert_guard}
use patch_loop.Store.Journal.{entries, journal, journal_task}
use patch_loop.Execution.Effects.{Effect}
use patch_loop.Session.{EventType, SessionCheckpoint, Turn}
use patch_loop.Store.State.{
  pure, from_option, get_session, gets, check_version, fetch, ◌>>◌, get_task, modify, raise_if,
  ◌>>=◌, M, Env,
}
use patch_loop.Common.{
  ltb, [], is_none, same_key, none, ◌||◌, any, find, ◌==◌, Instant, not, some, ◌∷◌, false, true,
  Bool, ℕ, Key, List, Option,
}
use patch_loop.Execution.Controls.{transition, ControlStatus, ControlKind, ControlRequest}

abbrev is_pause : ControlKind → Bool
is_pause ControlKind.pause = true
is_pause ControlKind.cancel = false

abbrev put_control : ControlRequest → M (Unit {0})
put_control r = modify λ s. record s { controls = insert r.id r s.controls }

-- The turn that a checkpoint names is in its session, and of its task if it has one.
abbrev turn_fits : Option Key → Key → List Turn → Bool
turn_fits none task_id turns = true
turn_fits (some k) task_id turns = elim (find (λ t. t.id == k) turns) [
  | none ↦ false
  | some t ↦ is_none t.task_id || same_key t.task_id (some task_id)
]

-- `len(xs) != len(set(xs))`
abbrev repeats : List Key → Bool
repeats [] = false
repeats (k ∷ ks) = any (λ j. j == k) ks || repeats ks

abbrev effect_of_task : Key → Option Effect → Bool
effect_of_task task_id none = false
effect_of_task task_id (some e) = e.task_id == task_id

module _ (env : Env) where
  unfoldable pub request_control : ControlRequest → ℕ → M ControlRequest
  unfolding journal_task
  request_control request expected = do
    task ← get_task request.task_id
    check_version request.task_id task.version (some expected)
    raise_if (← gets (λ s. has_key request.id s.controls)) value_error
    put_control request
    journal_task env task EventType.control_requested request.id (request.version ∷ []) none
    pure request

  unfoldable pub request_pause : ControlRequest → ℕ → M ControlRequest
  unfolding request_control
  request_pause request expected =
      raise_if (not (is_pause request.kind)) value_error >> request_control request expected

  unfoldable pub request_cancel : ControlRequest → ℕ → M ControlRequest
  unfolding request_control
  request_cancel request expected =
      raise_if (is_pause request.kind) value_error >> request_control request expected

  unfoldable pub settle_control : Key → ControlStatus → ℕ → Option Key → Instant → M ControlRequest
  unfolding transition journal_task
  settle_control request_id status expected info now = do
    current ← fetch (λ s. lookup request_id s.controls) (key_error request_id)
    check_version request_id current.version (some expected)
    settled ← from_option (transition status info now current) value_error
    put_control settled
    task ← get_task current.task_id
    journal_task env task EventType.control_updated settled.id (settled.version ∷ []) none
    pure settled

  unfoldable pub commit_checkpoint :
      SessionCheckpoint → ℕ → LeaseGuard → Instant → M SessionCheckpoint
  unfolding assert_guard journal
  commit_checkpoint checkpoint expected g now = do
    assert_guard g now
    task ← get_task checkpoint.task_id
    check_version checkpoint.task_id task.version (some expected)
    raise_if (not (same_key task.session_id (some checkpoint.session_id))) value_error
    session ← get_session checkpoint.session_id
    raise_if (ltb session.event_sequence checkpoint.event_sequence) value_error
    turns ← gets (λ s. entries session.id s.turns)
    raise_if (ltb (last_sequence turns) checkpoint.consumed_input_sequence) value_error
    raise_if (not (turn_fits checkpoint.turn_id checkpoint.task_id turns)) value_error
    raise_if (repeats checkpoint.pending_effect_ids) value_error
    raise_if
        (← gets (λ s.
          any (λ k. not (effect_of_task checkpoint.task_id (lookup k s.effects)))
            checkpoint.pending_effect_ids))
        value_error
    modify λ s. record s { checkpoints = insert checkpoint.task_id checkpoint s.checkpoints }
    journal env session EventType.checkpoint_committed checkpoint.task_id
        (checkpoint.updated_at ∷ []) (some checkpoint.task_id) none
    pure checkpoint
