-- ===== src/Services/Approvals.antt =====
-- src/patchloop/execution/approvals.py: the approvals that `build_approval` makes, with what the class
-- `Approval` of src/patchloop/execution/models.py asks of the texts in them. Texts that are put together
-- from others are parameters.
use patch_loop.Domain.{Task}
use patch_loop.Execution.Approvals.{Approval, ApprovalStatus}
use patch_loop.Contracts.{value_error}
use patch_loop.Execution.Effects.{Effect, content_fingerprint}
use patch_loop.Store.State.{◌>>◌, Env, M, pure, raise_if}
use patch_loop.Common.{Bool, Instant, Key, leb, none, not, ◌&&◌, ℕ}

-- The texts that the code puts together.
pub record Texts : Type 0 where
  -- `stable_approval_id`: of the effect's id, its content, the policy and the configuration.
  pub approval_id : Key → Key → Key → Key → Key
  pub action_summary : (kind name arguments : Key) → Key
  pub resource_summary : (repository preconditions : Key) → Key
  -- The evidence with the acknowledgement put in.
  pub acknowledged : Key → Key
  -- The length of a text.
  pub length : Key → ℕ

-- `min_length` and `max_length` of a field.
abbrev pub within : Texts → ℕ → ℕ → Key → Bool
within texts low high k = leb low (texts.length k) && leb (texts.length k) high

module _ (env : Env) (texts : Texts) where
  unfoldable pub stable_approval_id : Effect → (policy_version config_version : Key) → Key
  unfolding content_fingerprint
  stable_approval_id e policy_version config_version =
      texts.approval_id e.id (content_fingerprint env.hashing e) policy_version config_version

  -- What the class `Approval` asks of its fields.
  abbrev pub valid_approval : Approval → Bool
  valid_approval a =
      within texts 1 128 a.id
      && (leb 1 (texts.length a.effect_id)
          && (within texts 1 2000 a.action_summary
              && (within texts 0 2000 a.resource_summary
                  && (within texts 1 128 a.policy_version && within texts 1 128 a.config_version))))

  unfoldable pub requested_approval :
      Task → Effect → (policy_version config_version : Key) → Instant → Approval
  unfolding stable_approval_id content_fingerprint
  requested_approval task e policy_version config_version now = record {
    id = stable_approval_id e policy_version config_version;
    effect_id = e.id;
    effect_fingerprint = content_fingerprint env.hashing e;
    arguments_fingerprint = e.arguments_fingerprint;
    workspace_ref = task.repository;
    action_summary =
        texts.action_summary e.action_kind e.tool_name
          (env.hashing.hash_arguments e.arguments_summary);
    resource_summary = texts.resource_summary task.repository e.file_preconditions;
    policy_version = policy_version;
    config_version = config_version;
    status = ApprovalStatus.pending;
    decision_source = none;
    decided_at = none;
    version = 1;
    created_at = now;
  }

  unfoldable pub build_approval :
      Task → Effect → (policy_version config_version : Key) → Instant → M Approval
  unfolding requested_approval
  build_approval task e policy_version config_version now = do
    raise_if (not (valid_approval (requested_approval task e policy_version config_version now)))
        value_error
    pure (requested_approval task e policy_version config_version now)
