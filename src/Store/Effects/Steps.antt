-- ===== src/Store/Effects/Steps.antt =====
-- What `claim_effect` of src/patchloop/persistence_contracts.py writes of the effects and the approvals.
use patch_loop.Store.Effects.Claims.{claim_parts}
use patch_loop.Contracts.{LeaseGuard, ok}
use patch_loop.Store.State.{Env, Store}
use patch_loop.Common.Dict.{insert, lookup, lookup-Keyed}
use patch_loop.Store.Effects.{ClaimConditions, claim_effect}
use patch_loop.Execution.Effects.{Effect, EffectStatus, is_prepared, is_waiting}
use patch_loop.Store.Lifecycle.{Sound, Step, Steps, Writes, effect_key, idle-Writes, one-Steps}
use patch_loop.Common.{Instant, ap, arith, false, subst, sym, true, ℕ, ◌∙◌, ◌≡◌, Key}

is_prepared-step :
    (a b : EffectStatus) → is_prepared a ≡ true → b ≡ EffectStatus.executing → Steps a b
is_prepared-step EffectStatus.prepared b h same =
    subst (Steps EffectStatus.prepared) (sym same) (one-Steps Step.starts)
is_prepared-step _ b h same = absurd (ground arith)

prepared_idle : (a : EffectStatus) → is_prepared a ≡ true → is_waiting a ≡ false
prepared_idle a h = ground arith

module _ (env : Env) where
  pub claim_effect-Writes :
      (default effect_id : Key) (expected : ℕ) (g : LeaseGuard) (c : ClaimConditions)
      (now : Instant) (s : Store) {e : Effect} {s' : Store}
      → Sound s
      → claim_effect env default effect_id expected g c now s ≡ (ok e, s')
      → Writes s s'
  claim_effect-Writes default effect_id expected g c now s {e} {s'} sound h =
      let (current, authorized, _, shape, effects, (o, over, approvals)) =
        claim_parts env default effect_id expected g c now s h in
      let key =
        lookup-Keyed effect_key effect_id current s.effects sound.effects authorized.stored in
      let same : e.id ≡ effect_id = ap effect_key shape ∙ key in
      idle-Writes s s' current e o sound (ap (λ k. lookup k s.effects) same ∙ authorized.stored)
        (prepared_idle current.status authorized.prepared)
        (is_prepared-step current.status e.status authorized.prepared
          (ap (λ (x : Effect). x.status) shape))
        over (effects ∙ ap (λ k. insert k e s.effects) (sym same)) approvals
