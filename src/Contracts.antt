-- ===== src/Contracts.antt =====
-- src/patchloop/persistence_contracts.py: the errors of the persistence boundary, and the fencing
-- data that a lease holder presents. The text of an error and its `details` are left out but for
-- the identifiers that a caller reads.
use patch_loop.Common.{ℕ, Key, Option}

pub data Error : Type 0 where
  stale_version : Key → ℕ → ℕ → Error
  lease_conflict : Key → Option Key → Error
  lease_lost : Key → Error
  approval_conflict : Key → Error
  effect_identity_conflict : Key → Error
  recovery_required : Key → Option Key → Error
  submission_conflict : Key → Key → Error
  input_revision_conflict : Key → ℕ → ℕ → Error
  control_requested : Key → Key → Error
  value_error : Error
  key_error : Key → Error

pub data Result (A : Type 0) : Type 0 where
  ok : A → Result A
  err : Error → Result A

pub record LeaseGuard : Type 0 where
  pub execution_id : Key
  pub task_id : Key
  pub token : Key
  pub generation : ℕ
  pub owner_id : Key

pub record WorkspaceLeaseGuard : Type 0 where
  pub workspace_id : Key
  pub execution_id : Key
  pub token : Key
  pub generation : ℕ
  pub owner_id : Key
