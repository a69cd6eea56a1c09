-- ===== src/Execution/Approvals.antt =====
-- src/patchloop/execution/models.py: `Approval`, with the request binding that it is decided and
-- consumed under.
pub mod Binding
use patch_loop.Common.{
  ℕ, ◌+◌, Key, Instant, Bool, true, false, not, ◌&&◌, Option, some, if◌then◌else◌, ◌==◌, same_key,
}
use patch_loop.Contracts.{approval_conflict, Result, ok, err}
use patch_loop.Execution.Effects.{Effect, Hashing, content_fingerprint}

pub data ApprovalStatus : Type 0 where
  pending approved consumed denied expired : ApprovalStatus

pub record Approval : Type 0 where
  pub id : Key
  pub effect_id : Key
  pub effect_fingerprint : Key
  pub arguments_fingerprint : Key
  pub workspace_ref : Key
  pub action_summary : Key
  pub resource_summary : Key
  pub policy_version : Key
  pub config_version : Key
  pub status : ApprovalStatus
  pub decision_source : Option Key
  pub decided_at : Option Instant
  pub version : ℕ
  pub created_at : Instant

abbrev pub same_status : ApprovalStatus → ApprovalStatus → Bool
same_status ApprovalStatus.pending ApprovalStatus.pending = true
same_status ApprovalStatus.approved ApprovalStatus.approved = true
same_status ApprovalStatus.consumed ApprovalStatus.consumed = true
same_status ApprovalStatus.denied ApprovalStatus.denied = true
same_status ApprovalStatus.expired ApprovalStatus.expired = true
same_status _ _ = false

abbrev pub is_pending : ApprovalStatus → Bool
is_pending s = same_status s ApprovalStatus.pending

unfoldable pub same_request : Approval → Approval → Bool
same_request a b =
    a.id == b.id
    && (a.effect_id == b.effect_id
        && (a.effect_fingerprint == b.effect_fingerprint
            && (a.arguments_fingerprint == b.arguments_fingerprint
                && (a.workspace_ref == b.workspace_ref
                    && (a.action_summary == b.action_summary
                        && (a.resource_summary == b.resource_summary
                            && (a.policy_version == b.policy_version
                                && (a.config_version == b.config_version
                                    && (same_status a.status b.status
                                        && is_pending b.status)))))))))

-- What an approval binds the execution to.
pub record Conditions : Type 0 where
  pub workspace_ref : Key
  pub policy_version : Key
  pub config_version : Key

unfoldable pub matches_execution_conditions : Hashing → Approval → Effect → Conditions → Bool
matches_execution_conditions h a e c =
    a.effect_id == e.id
    && (a.effect_fingerprint == content_fingerprint h e
        && (a.arguments_fingerprint == e.arguments_fingerprint
            && (a.workspace_ref == c.workspace_ref
                && (a.policy_version == c.policy_version && a.config_version == c.config_version))))

abbrev pub decision_target : Bool → ApprovalStatus
decision_target approve = if approve then ApprovalStatus.approved else ApprovalStatus.denied

-- A decision that was made before, repeated by its source.
abbrev pub repeats_decision : Bool → Key → Approval → Bool
repeats_decision approve source a =
    same_key a.decision_source (some source)
    && (if same_status a.status (decision_target approve)
        then true
        else approve && same_status a.status ApprovalStatus.consumed)

unfoldable pub decide : Bool → Key → Instant → Approval → Result Approval
decide approve source now a =
    if not (is_pending a.status)
    then if repeats_decision approve source a then ok a else err (approval_conflict a.id)
    else ok (record a {
      status = decision_target approve;
      decision_source = some source;
      decided_at = some now;
      version = a.version + 1;
    })

unfoldable pub consume : Hashing → Effect → Conditions → Approval → Result Approval
unfolding matches_execution_conditions
consume h e c a =
    if not (same_status a.status ApprovalStatus.approved)
    then err (approval_conflict a.id)
    else if not (matches_execution_conditions h a e c)
    then err (approval_conflict a.id)
    else ok (record a { status = ApprovalStatus.consumed; version = a.version + 1 })
