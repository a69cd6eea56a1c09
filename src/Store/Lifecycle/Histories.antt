-- ===== src/Store/Lifecycle/Histories.antt =====
-- What holds of effects over any sequence of the calls that write them, by any owners
-- (src/patchloop/persistence_contracts.py).
use patch_loop.Store.Effects.Steps.{claim_effect-Writes}
use patch_loop.Common.Dict.{lookup}
use patch_loop.Store.Effects.{ClaimConditions, claim_effect}
use patch_loop.Contracts.{LeaseGuard, ok}
use patch_loop.Store.Effects.Claims.{claim_effect-Authorized, claim_parts}
use patch_loop.Execution.Approvals.{Approval, is_pending}
use patch_loop.Store.Lifecycle.Runs.{EffectCalls, calls-Leaves}
use patch_loop.Store.State.{Env, Store}
use patch_loop.Execution.Effects.{Effect, EffectStatus, is_prepared, is_waiting}
use patch_loop.Store.Lifecycle.{Sound, Step, Steps, Writes-Sound}
use patch_loop.Common.{Bool, Instant, Key, ap, arith, false, refl, some, true, ◌∙◌, ◌≡◌, ℕ}

-- The action of the effect has been let out.
abbrev pub is_started : EffectStatus → Bool
is_started EffectStatus.executing = true
is_started EffectStatus.unknown = true
is_started EffectStatus.succeeded = true
is_started EffectStatus.failed = true
is_started _ = false

-- Nothing follows.
abbrev pub is_settled : EffectStatus → Bool
is_settled EffectStatus.succeeded = true
is_settled EffectStatus.failed = true
is_settled EffectStatus.denied = true
is_settled EffectStatus.cancelled = true
is_settled _ = false

Step-is_started : {a b : EffectStatus} → Step a b → is_started a ≡ true → is_started b ≡ true
Step-is_started Step.starts h = refl
Step-is_started Step.succeeds h = refl
Step-is_started Step.fails h = refl
Step-is_started Step.loses h = refl
Step-is_started Step.turns_out_well h = refl
Step-is_started Step.turns_out_badly h = refl
Step-is_started Step.asks h = absurd (ground (arith, h))
Step-is_started Step.allows h = absurd (ground (arith, h))
Step-is_started Step.refuses h = absurd (ground (arith, h))
Step-is_started Step.drops_waiting h = absurd (ground (arith, h))
Step-is_started Step.denies h = absurd (ground (arith, h))
Step-is_started Step.drops h = absurd (ground (arith, h))

Steps-is_started : {a b : EffectStatus} → Steps a b → is_started a ≡ true → is_started b ≡ true
Steps-is_started Steps.stays h = h
Steps-is_started (Steps.goes x p) h = Steps-is_started p (Step-is_started x h)

open-Step : {a b : EffectStatus} → Step a b → is_settled a ≡ false
open-Step Step.asks = refl
open-Step Step.allows = refl
open-Step Step.refuses = refl
open-Step Step.drops_waiting = refl
open-Step Step.denies = refl
open-Step Step.drops = refl
open-Step Step.starts = refl
open-Step Step.succeeds = refl
open-Step Step.fails = refl
open-Step Step.loses = refl
open-Step Step.turns_out_well = refl
open-Step Step.turns_out_badly = refl

settled-Steps : {a b : EffectStatus} → Steps a b → is_settled a ≡ true → b ≡ a
settled-Steps Steps.stays h = refl
settled-Steps (Steps.goes x p) h = let still = open-Step x in absurd (ground (arith, still))

started_unprepared : (a : EffectStatus) → is_started a ≡ true → is_prepared a ≡ true → ⊥
started_unprepared a h p = ground (arith, h, p)

module _ (env : Env) where
  -- From a store in which effects and approvals stand under their ids and each pending approval is
  -- that of an effect that waits for it, after any sequence of successful calls of the nine
  -- methods that write effects, in any order and by any owners, an approval that is pending is
  -- still that of a stored effect that waits for this approval.
  pub pending_approval_waits :
      (s t : Store) (i : Key) (a : Approval)
      → Sound s
      → EffectCalls env s t
      → lookup i t.approvals ≡ some a
      → is_pending a.status ≡ true
      → (e : Effect) × (lookup a.effect_id t.effects ≡ some e)
        × (is_waiting e.status ≡ true)
        × (e.approval_id ≡ some i)
  pending_approval_waits s t i a sound calls found pending =
      let left = calls-Leaves env s t sound calls in left.sound.awaited i a found pending

  -- From a store in which effects and approvals stand under their ids and each pending approval is
  -- that of an effect that waits for it, after any sequence of successful calls of the nine
  -- methods that write effects, an effect that was stored is stored still, and its status is the
  -- old one or follows it by the steps of an effect's life: from prepared to waiting and back,
  -- from either to denied or cancelled, from prepared to executing, from there to succeeded,
  -- failed or unknown, and from unknown to succeeded or failed.
  pub effect_status-Steps :
      (s t : Store) (k : Key) (e : Effect)
      → Sound s
      → EffectCalls env s t
      → lookup k s.effects ≡ some e
      → (f : Effect) × (lookup k t.effects ≡ some f) × Steps e.status f.status
  effect_status-Steps s t k e sound calls found =
      let left = calls-Leaves env s t sound calls in left.progress k e found

  -- From a store in which effects and approvals stand under their ids and each pending approval is
  -- that of an effect that waits for it, after any sequence of successful calls of the nine
  -- methods that write effects, an effect that had succeeded, failed or been denied or cancelled
  -- is stored still, with the same status.
  pub settled_effect_stays :
      (s t : Store) (k : Key) (e : Effect)
      → Sound s
      → EffectCalls env s t
      → lookup k s.effects ≡ some e
      → is_settled e.status ≡ true
      → (f : Effect) × (lookup k t.effects ≡ some f) × (f.status ≡ e.status)
  settled_effect_stays s t k e sound calls found settled =
      let (f, stored, steps) = effect_status-Steps s t k e sound calls found in
      (f, stored, settled-Steps steps settled)

  -- An effect is claimed at most once: from a store in which effects and approvals stand under
  -- their ids and each pending approval is that of an effect that waits for it, after a successful
  -- claim_effect and any sequence of successful calls of the nine methods that write effects, in
  -- any order and by any owners, no claim of the same effect succeeds, with any guard, version,
  -- conditions and time.
  pub effect_executes_once :
      (default k : Key) (expected again : ℕ) (g h : LeaseGuard) (c d : ClaimConditions)
      (now later : Instant) (s t : Store) {e f : Effect} {s' t' : Store}
      → Sound s
      → claim_effect env default k expected g c now s ≡ (ok e, s')
      → EffectCalls env s' t
      → ¬ (claim_effect env default k again h d later t ≡ (ok f, t'))
  effect_executes_once default k expected again g h c d now later s t {e} {f} {s'} sound first calls
        second =
      let writes = claim_effect-Writes env default k expected g c now s sound first in
      let (_, _, _, shape, stored) =
        claim_effect-Authorized env default k expected g c now s first in
      let (x, found, steps) =
        effect_status-Steps s' t k e (Writes-Sound s s' sound writes) calls stored in
      let (current, authorized, _, _, _, _) = claim_parts env default k again h d later t second in
      let again_stored = authorized.stored in
      let same : x ≡ current = cc in
      let executing : is_started e.status ≡ true = ap (λ (y : Effect). is_started y.status) shape in
      let prepared : is_prepared x.status ≡ true =
        ap (λ (y : Effect). is_prepared y.status) same ∙ authorized.prepared in
      started_unprepared x.status (Steps-is_started steps executing) prepared
