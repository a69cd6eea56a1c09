-- ===== src/Store/Effects.antt =====
-- The effects of `FakeStore` (src/patchloop/persistence_contracts.py): preparation, the claim that
-- precedes an execution, and the three ways to settle one.
pub mod Authority
pub mod Claims
pub mod Steps
use Prim.Native.Nat.{max}
use patch_loop.Contracts.{
  value_error, Error, approval_conflict, input_revision_conflict, lease_conflict,
  effect_identity_conflict, LeaseGuard,
}
use patch_loop.Common.Dict.{values, insert}
use patch_loop.Store.Leases.{assert_guard}
use patch_loop.Store.Journal.{entries, journal_task, journal_approval}
use patch_loop.Session.{EventType, Turn}
use patch_loop.Execution.Controls.{is_open, ControlRequest}
use patch_loop.Store.State.{
  get_task, from_result, check_version, get_approval, get_effect, get_session, raise, gets,
  raise_if, modify, pure, ◌>>=◌, ◌>>◌, M, Store, Env,
}
use patch_loop.Domain.{Task}
use patch_loop.Common.{
  [], ltb, ◌∷◌, ◌||◌, is_none, Instant, not, or_key, ◌&&◌, ◌+◌, false, keep, none, true, ◌==◌, Bool,
  if◌then◌else◌, some, ℕ, Key, List, Option,
}
use patch_loop.Execution.Approvals.{consume, Approval}
use patch_loop.Execution.Effects.{
  is_prepared, persisted_decision, same_decision, EffectStatus, content_fingerprint, Decision,
  Effect,
}

abbrev pub put_effect : Effect → M (Unit {0})
put_effect e = modify λ s. record s { effects = insert e.id e s.effects }

-- `self.effects[effect_id] = e`
abbrev pub put_effect_at : Key → Effect → M (Unit {0})
put_effect_at k e = modify λ s. record s { effects = insert k e s.effects }

abbrev pub put_approval : Approval → M (Unit {0})
put_approval a = modify λ s. record s { approvals = insert a.id a s.approvals }

-- `get_pending_control`: the open request that was made first.
unfoldable pub earliest : List ControlRequest → Option ControlRequest
earliest [] = none
earliest (r ∷ rs) = elim (earliest rs) [
  | none ↦ some r
  | some q ↦ if ltb q.requested_at r.requested_at then some q else some r
]

unfoldable pub pending_control : Key → Store → Option ControlRequest
unfolding earliest
pending_control task_id s =
    earliest (keep (λ r. r.task_id == task_id && is_open r.status) (values s.controls))

-- The number of the last turn of a session, 0 before the first.
unfoldable pub last_sequence : List Turn → ℕ
last_sequence [] = 0
last_sequence (t ∷ ts) = max t.sequence (last_sequence ts)

-- The optional conditions of `claim_effect`.
pub record ClaimConditions : Type 0 where
  pub effect_fingerprint : Option Key
  pub workspace_ref : Option Key
  pub policy_version : Option Key
  pub config_version : Option Key
  pub policy_decision : Option Decision
  pub expected_input_sequence : Option ℕ

abbrev differs : Option Key → Key → Bool
differs none k = false
differs (some j) k = not (j == k)

abbrev decision_differs : Option Decision → Decision → Bool
decision_differs none d = false
decision_differs (some c) d = not (same_decision c d)

abbrev is_deny : Decision → Bool
is_deny Decision.deny = true
is_deny _ = false

-- `x or d`, where the empty text is false too.
abbrev or_text : Option Key → Key → Key
or_text none d = d
or_text (some k) d = if k == 0 then d else k

-- `... or "1"`: the configuration that the task runs under; `default` is the code of "1".
abbrev pub nonempty : Key → Key → Key
nonempty k default = if k == 0 then default else k

check_control : Task → M (Unit {0})
unfolding pending_control
check_control task = do
  pending ← gets (pending_control task.id)
  elim pending [ none ↦ pure tt | some r ↦ raise (Error.control_requested task.id r.id) ]

check_input : Option ℕ → Option Key → M (Unit {0})
unfolding last_sequence
check_input none session_id = pure tt
check_input (some n) none = pure tt
check_input (some n) (some k) = do
  actual ← gets (λ s. last_sequence (entries k s.turns))
  raise_if (not (actual == n)) (input_revision_conflict k n actual)

-- The configuration version that holds now: the session's, or what the caller says.
abbrev pub actual_config : Key → Option Key → Option Key → M Key
actual_config default none given = pure (nonempty (or_key given 0) default)
actual_config default (some k) given = do
  session ← get_session k
  pure (nonempty session.config_version default)

module _ (env : Env) where
  -- The approval that a claim uses up, if the effect has one.
  consume_approval : Effect → Task → ClaimConditions → Key → M (Option Approval)
  unfolding consume
  consume_approval current task c config = elim current.approval_id [
    | none ↦
        if same_decision (persisted_decision current) Decision.require_approval
        then raise (approval_conflict current.id)
        else pure none
    | some k ↦ do
      approval ← get_approval k
      consumed ← from_result (
          consume env.hashing current
            (record {
              workspace_ref = or_text c.workspace_ref task.repository;
              policy_version = or_text c.policy_version approval.policy_version;
              config_version = or_text c.config_version config;
            })
            approval)
      pure (some consumed)
  ]

  abbrev pub claimed_effect : Effect → Bool → Effect
  claimed_effect e consumed = record e {
    status = EffectStatus.executing;
    approval_id = none;
    approval_consumed = consumed;
    version = e.version + 1;
  }

  pub record_consumed : Option Approval → M (Unit {0})
  unfolding journal_approval
  record_consumed none = pure tt
  record_consumed (some a) = put_approval a >> journal_approval env a EventType.approval_consumed

  -- The checks of `claim_effect` between its guard and its writes.
  pub check_claim :
      (default effect_id : Key) → Effect → Task → ClaimConditions → M (Option Approval)
  unfolding check_control check_input consume_approval content_fingerprint
  check_claim default effect_id current task c = do
    check_control task
    check_input c.expected_input_sequence task.session_id
    config ← actual_config default task.session_id c.config_version
    raise_if (differs c.effect_fingerprint (content_fingerprint env.hashing current))
        (effect_identity_conflict current.id)
    raise_if (differs c.workspace_ref task.repository) (lease_conflict effect_id none)
    raise_if (differs c.config_version config) (lease_conflict effect_id none)
    raise_if (not (is_none current.preparation_error) || is_deny (persisted_decision current))
        value_error
    raise_if (decision_differs c.policy_decision (persisted_decision current)) value_error
    consume_approval current task c config

  unfoldable pub claim_effect : Key → Key → ℕ → LeaseGuard → ClaimConditions → Instant → M Effect
  unfolding assert_guard check_claim record_consumed journal_task
  claim_effect default effect_id expected g c now = do
    assert_guard g now
    current ← get_effect effect_id
    check_version effect_id current.version (some expected)
    raise_if (not (is_prepared current.status)) (lease_conflict effect_id none)
    task ← get_task current.task_id
    consumed ← check_claim default effect_id current task c
    put_effect_at effect_id (claimed_effect current (not (is_none consumed)))
    record_consumed consumed
    journal_task env task EventType.effect_claimed current.id ((current.version + 1) ∷ [])
        (some current.provider_call_id)
    pure (claimed_effect current (not (is_none consumed)))
