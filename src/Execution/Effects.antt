-- ===== src/Execution/Effects.antt =====
-- src/patchloop/execution/models.py: `Effect`, a tool call that the runtime means to execute.
-- A dictionary that is only hashed and carried along is a `Key`; of the policy result the code reads
-- two entries. SHA-256 over canonical JSON is a parameter.
use patch_loop.Common.{
  ℕ, Key, Bool, true, false, not, ◌&&◌, ◌||◌, Option, none, some, if◌then◌else◌, ◌==◌,
}
use patch_loop.Contracts.{Error, effect_identity_conflict}

pub data EffectStatus : Type 0 where
  prepared waiting_for_approval executing succeeded failed denied unknown cancelled : EffectStatus

pub data Decision : Type 0 where
  allow require_approval deny : Decision

pub record PolicyResult : Type 0 where
  pub decision : Option Decision
  pub approval_required : Bool
  pub other : Key

pub record Effect : Type 0 where
  pub id : Key
  pub task_id : Key
  pub step_id : Key
  pub batch_position : ℕ
  pub provider_call_id : Key
  pub retry_of_effect_id : Option Key
  pub tool_name : Key
  pub action_kind : Key
  pub arguments_summary : Key
  pub arguments_fingerprint : Key
  pub policy_result : PolicyResult
  pub preparation_error : Option Key
  pub file_preconditions : Key
  pub credential_bindings : Key
  pub redacted_argument_paths : Key
  pub status : EffectStatus
  pub approval_id : Option Key
  pub approval_consumed : Bool
  pub reconciliation_evidence : Key
  pub result_ref : Option Key
  pub observation_ref : Option Key
  pub version : ℕ

-- The dictionary that `content_fingerprint` hashes.
pub record Content : Type 0 where
  pub action_kind : Key
  pub arguments_summary : Key
  pub arguments_fingerprint : Key
  pub credential_bindings : Key
  pub redacted_argument_paths : Key
  pub policy_result : PolicyResult
  pub preparation_error : Option Key
  pub file_preconditions : Key
  pub tool_name : Key

-- `hashlib.sha256` of `json.dumps` with sorted keys.
pub record Hashing : Type 0 where
  pub hash_arguments : Key → Key
  pub hash_content : Content → Key

abbrev pub same_identity : Effect → Effect → Bool
same_identity a b =
    a.task_id == b.task_id && (a.step_id == b.step_id && a.batch_position == b.batch_position)

-- `fingerprint or sha256(arguments)`: the empty text is false.
abbrev pub or_hash : Hashing → Key → Key → Key
or_hash h fingerprint arguments =
    if fingerprint == 0 then h.hash_arguments arguments else fingerprint

unfoldable pub content_fingerprint : Hashing → Effect → Key
content_fingerprint h e = h.hash_content (record {
  action_kind = e.action_kind;
  arguments_summary = e.arguments_summary;
  arguments_fingerprint = or_hash h e.arguments_fingerprint e.arguments_summary;
  credential_bindings = e.credential_bindings;
  redacted_argument_paths = e.redacted_argument_paths;
  policy_result = e.policy_result;
  preparation_error = e.preparation_error;
  file_preconditions = e.file_preconditions;
  tool_name = e.tool_name;
})

-- What `assert_identity_compatible` raises, if anything.
unfoldable pub assert_identity_compatible : Hashing → Effect → Effect → Option Error
assert_identity_compatible h a b =
    if a.id == b.id && not (same_identity a b)
    then some (effect_identity_conflict a.id)
    else if (a.id == b.id || same_identity a b)
        && not (content_fingerprint h a == content_fingerprint h b)
    then some (effect_identity_conflict a.id)
    else none

-- The sets of the table.
abbrev from_prepared : EffectStatus → Bool
from_prepared EffectStatus.waiting_for_approval = true
from_prepared EffectStatus.executing = true
from_prepared EffectStatus.denied = true
from_prepared _ = false

abbrev from_waiting : EffectStatus → Bool
from_waiting EffectStatus.prepared = true
from_waiting EffectStatus.denied = true
from_waiting EffectStatus.cancelled = true
from_waiting _ = false

abbrev pub is_committed : EffectStatus → Bool
is_committed EffectStatus.succeeded = true
is_committed EffectStatus.failed = true
is_committed EffectStatus.unknown = true
is_committed _ = false

unfoldable pub allowed : EffectStatus → EffectStatus → Bool
allowed EffectStatus.prepared target = from_prepared target
allowed EffectStatus.waiting_for_approval target = from_waiting target
allowed EffectStatus.executing target = is_committed target
allowed _ target = false

unfoldable pub transition : EffectStatus → Effect → Option Effect
unfolding allowed
transition target e =
    if not (allowed e.status target) then none else some (record e { status = target })

-- The tests `status is MEMBER`.
abbrev pub is_prepared : EffectStatus → Bool
is_prepared EffectStatus.prepared = true
is_prepared _ = false

abbrev pub is_waiting : EffectStatus → Bool
is_waiting EffectStatus.waiting_for_approval = true
is_waiting _ = false

abbrev pub is_executing : EffectStatus → Bool
is_executing EffectStatus.executing = true
is_executing _ = false

abbrev pub is_unknown : EffectStatus → Bool
is_unknown EffectStatus.unknown = true
is_unknown _ = false

abbrev pub is_require : Option Decision → Bool
is_require (some Decision.require_approval) = true
is_require _ = false

-- `str(policy_result.get("decision", "allow"))`
abbrev pub persisted_decision : Effect → Decision
persisted_decision e = elim e.policy_result.decision [ none ↦ Decision.allow | some d ↦ d ]

abbrev pub same_decision : Decision → Decision → Bool
same_decision Decision.allow Decision.allow = true
same_decision Decision.require_approval Decision.require_approval = true
same_decision Decision.deny Decision.deny = true
same_decision _ _ = false
