-- ===== src/Store/Lifecycle/Runs.antt =====
-- Sequences of the calls that write effects, by any number of owners and operators
-- (src/patchloop/persistence_contracts.py).
use patch_loop.Store.Recovery.{resolve_recovery}
use patch_loop.Execution.Recovery.{Supplied}
use patch_loop.Contracts.{LeaseGuard, ok}
use patch_loop.Domain.{Task}
use patch_loop.Execution.Controls.{RecoveryDisposition}
use patch_loop.Store.Batches.Steps.{prepare_effect_batch-Adds}
use patch_loop.Store.Recovery.Steps.{resolve_recovery-Change}
use patch_loop.Store.Approvals.Steps.{request_effect_approval-Change}
use patch_loop.Store.Approvals.Settled.{resolve_effect_approval-Change}
use patch_loop.Store.Approvals.{request_effect_approval, resolve_effect_approval}
use patch_loop.Store.Settlement.Unexecuted.{settle_unexecuted_effect-Change}
use patch_loop.Store.Settlement.Steps.{commit_effect-Writes, mark_effect_unknown-Change}
use patch_loop.Store.Preparation.Steps.{Adds, Adds-Progress, Adds-Sound, prepare_effects-Adds}
use patch_loop.Domain.Tools.{AgentStep, ToolCall, ToolResult}
use patch_loop.Store.State.{Env, Store}
use patch_loop.Store.Lifecycle.{
  Change, Progress, Sound, Writes-Progress, Writes-Sound, quiet-Sound, refl-Progress,
  trans-Progress,
}
use patch_loop.Execution.Approvals.{Approval, Conditions}
use patch_loop.Store.Settlement.{commit_effect, mark_effect_unknown, settle_unexecuted_effect}
use patch_loop.Execution.Effects.{Effect, EffectStatus}
use patch_loop.Store.Preparation.{prepare_effects}
use patch_loop.Store.Batches.{prepare_effect_batch}
use patch_loop.Store.Effects.Steps.{claim_effect-Writes}
use patch_loop.Store.Effects.{ClaimConditions, claim_effect}
use patch_loop.Common.{Bool, Instant, List, Option, inl, inr, refl, ℕ, ◌≡◌, Key}

-- The calls that write effects, each with what it returned and the store that it left.
pub data EffectCall (env : Env) : Store → Store → Type 0 where
  prepares :
      {s t : Store} (es : List Effect) (expected : ℕ) (guard : Option LeaseGuard) (now : Instant)
      (r : List Effect)
      → prepare_effects env es expected guard now s ≡ (ok r, t)
      → EffectCall env s t
  prepares_batch :
      {s t : Store} (step : AgentStep) (es : List Effect) (expected : ℕ) (guard : Option LeaseGuard)
      (now : Instant) (r : List Effect)
      → prepare_effect_batch env step es expected guard now s ≡ (ok r, t)
      → EffectCall env s t
  requests :
      {s t : Store} (k : Key) (a : Approval) (expected : ℕ) (g : LeaseGuard) (now : Instant)
      (r : Effect × Approval × Task)
      → request_effect_approval env k a expected g now s ≡ (ok r, t)
      → EffectCall env s t
  resolves :
      {s t : Store} (default k : Key) (approve : Bool) (source : Key) (expected : ℕ)
      (c : Conditions) (now : Instant) (r : Approval × Effect × Task)
      → resolve_effect_approval env default k approve source expected c now s ≡ (ok r, t)
      → EffectCall env s t
  claims :
      {s t : Store} (default k : Key) (expected : ℕ) (g : LeaseGuard) (c : ClaimConditions)
      (now : Instant) (r : Effect)
      → claim_effect env default k expected g c now s ≡ (ok r, t)
      → EffectCall env s t
  commits :
      {s t : Store} (e : Effect) (expected : ℕ) (result_ref observation_ref : Option Key)
      (g : LeaseGuard) (call : Option ToolCall) (result : Option ToolResult) (now : Instant)
      (r : Effect)
      → commit_effect env e expected result_ref observation_ref g call result now s ≡ (ok r, t)
      → EffectCall env s t
  settles :
      {s t : Store} (source k : Key) (status : EffectStatus) (expected : ℕ) (call : ToolCall)
      (result : ToolResult) (g : LeaseGuard) (now : Instant) (r : Effect)
      → settle_unexecuted_effect env source k status expected call result g now s ≡ (ok r, t)
      → EffectCall env s t
  marks_unknown :
      {s t : Store} (k : Key) (expected : ℕ) (evidence : Key) (g : LeaseGuard) (now : Instant)
      (r : Effect × Task)
      → mark_effect_unknown env k expected evidence g now s ≡ (ok r, t)
      → EffectCall env s t
  recovers :
      {s t : Store} (output detail : Key) (d : RecoveryDisposition) (task_id : Key) (expected : ℕ)
      (given : Supplied) (r : Task)
      → resolve_recovery env output detail d task_id expected given s ≡ (ok r, t)
      → EffectCall env s t

pub data EffectCalls (env : Env) : Store → Store → Type 0 where
  done : {s : Store} → EffectCalls env s s
  next : {s t u : Store} → EffectCall env s t → EffectCalls env t u → EffectCalls env s u

-- What a call leaves of a sound store.
pub record Leaves (s t : Store) : Type 0 where
  pub sound : Sound t
  pub progress : Progress s t

Change-Leaves : (s t : Store) → Sound s → Change s t → Leaves s t
Change-Leaves s t sound (inl w) = record {
  sound = Writes-Sound s t sound w;
  progress = Writes-Progress s t w;
}
Change-Leaves s t sound (inr (effects, approvals)) = record {
  sound = quiet-Sound s t sound effects approvals;
  progress = refl-Progress s t effects;
}

Adds-Leaves : (s t : Store) → Sound s → Adds s t → Leaves s t
Adds-Leaves s t sound a = record { sound = Adds-Sound s t sound a; progress = Adds-Progress s t a }

module _ (env : Env) where
  call-Leaves : (s t : Store) → Sound s → EffectCall env s t → Leaves s t
  call-Leaves s t sound (EffectCall.prepares es n g now r h) =
      Adds-Leaves s t sound (prepare_effects-Adds env es n g now s h)
  call-Leaves s t sound (EffectCall.prepares_batch step es n g now r h) =
      Adds-Leaves s t sound (prepare_effect_batch-Adds env step es n g now s sound.effects h)
  call-Leaves s t sound (EffectCall.requests k a n g now r h) =
      Change-Leaves s t sound (request_effect_approval-Change env k a n g now s sound h)
  call-Leaves s t sound (EffectCall.resolves d k b source n c now r h) =
      Change-Leaves s t sound (resolve_effect_approval-Change env d k b source n c now s sound h)
  call-Leaves s t sound (EffectCall.claims d k n g c now r h) =
      Change-Leaves s t sound (inl (claim_effect-Writes env d k n g c now s sound h))
  call-Leaves s t sound (EffectCall.commits e n x o g call result now r h) =
      Change-Leaves s t sound (inl (commit_effect-Writes env e n x o g call result now s sound h))
  call-Leaves s t sound (EffectCall.settles source k status n call result g now r h) =
      Change-Leaves s t sound
        (settle_unexecuted_effect-Change env source k status n call result g now s sound h)
  call-Leaves s t sound (EffectCall.marks_unknown k n evidence g now r h) =
      Change-Leaves s t sound (mark_effect_unknown-Change env k n evidence g now s sound h)
  call-Leaves s t sound (EffectCall.recovers output detail d k n given r h) =
      Change-Leaves s t sound (resolve_recovery-Change env output detail d k n given s sound h)

  pub calls-Leaves : (s t : Store) → Sound s → EffectCalls env s t → Leaves s t
  calls-Leaves s _ sound EffectCalls.done = record {
    sound = sound;
    progress = refl-Progress s s refl;
  }
  calls-Leaves s u sound (EffectCalls.next {t = t} c cs) =
      let first = call-Leaves s t sound c in
      let rest = calls-Leaves t u first.sound cs in
      record { sound = rest.sound; progress = trans-Progress s t u first.progress rest.progress }
