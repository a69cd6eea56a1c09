-- ===== src/Store/Approvals/Settled.antt =====
-- What `resolve_effect_approval` of src/patchloop/persistence_contracts.py writes of the effects and
-- the approvals.
use patch_loop.Store.Approvals.Steps.{journal-end}
use patch_loop.Store.Effects.Authority.{config_frame}
use patch_loop.Store.Effects.{actual_config}
use patch_loop.Session.{EventType}
use patch_loop.Domain.{Task}
use patch_loop.Contracts.{ok}
use patch_loop.Execution.Approvals.{Conditions, decide, Approval, is_pending}
use patch_loop.Execution.Effects.{is_waiting, Effect, EffectStatus}
use patch_loop.Store.Lifecycle.{
  Before, Change, Sound, Writes, approval_key, effect_key, Step, Steps, one-Steps,
}
use patch_loop.Store.Approvals.{
  expired_approval, released_effect, resolve_effect_approval, resolve_pending, resolved_effect,
  resumed_task, still_matches, write_resolution,
}
use patch_loop.Store.State.{
  check_version, from_result, from_result-ok, read-ok, check_version-ok, resume, resume-ok, Env,
  Store, fetch-ok,
}
use patch_loop.Common.Dict.{Keyed, insert-Keyed, lookup-Keyed, lookup-insert, lookup}
use patch_loop.Common.{
  Bool, if◌then◌else◌, ==-refl, Bool-cases, Instant, Option, ap, false, inl, inr, refl, some, ℕ,
  ◌==◌, ◌∙◌, arith, subst, sym, true, ◌≡◌, Key,
}

module _ (env : Env) where
  -- A pending approval that is settled, with the effect that waits for it.
  module _ (s : Store) (sound : Sound s) (approval_id : Key) (current : Approval) (effect : Effect)
      (stored : lookup approval_id s.approvals ≡ some current)
      (pending : is_pending current.status ≡ true)
      (at_effect : lookup current.effect_id s.effects ≡ some effect) where
    waits_for : (is_waiting effect.status ≡ true) × (effect.approval_id ≡ some approval_id)
    waits_for =
        let (e, at, waits, its) = sound.awaited approval_id current stored pending in
        let same : e ≡ effect = ground (arith, at, at_effect) in
        (
          ap (λ (x : Effect). is_waiting x.status) (sym same) ∙ waits,
          ap (λ (x : Effect). x.approval_id) (sym same) ∙ its,
        )

    resolution-Writes :
        (d : Approval) (x : Effect) (u : Task) (type : EventType) {r : Approval × Effect × Task}
        {s' : Store}
        → d.id ≡ current.id
        → is_pending d.status ≡ false
        → x.id ≡ effect.id
        → Steps effect.status x.status
        → write_resolution env d x u type s ≡ (ok r, s')
        → Writes s s'
    unfolding write_resolution
    resolution-Writes d x u type {r} {s'} same_id over same steps h =
        let (effects, approvals) = journal-end env d type (d, x, u) _ h in
        let key =
          lookup-Keyed effect_key current.effect_id effect s.effects sound.effects at_effect in
        let its =
          lookup-Keyed approval_key approval_id current s.approvals sound.approvals stored in
        let found_effect : lookup x.id s.effects ≡ some effect =
          ap (λ k. lookup k s.effects) (same ∙ key) ∙ at_effect in
        record {
          written = x;
          effects = effects;
          approvals =
              subst (Keyed approval_key) (sym approvals)
                (insert-Keyed approval_key d s.approvals sound.approvals);
          before = subst (λ (q : Option Effect). Before q x) (sym found_effect) steps;
          fits = λ i a found waiting.
              let other : (d.id == i) ≡ false =
                ground (arith, approvals, over, waiting, lookup-insert d.id i d s.approvals) in
              let old : lookup i s.approvals ≡ some a =
                ground (arith, approvals, other, lookup-insert d.id i d s.approvals) in
              inl (
                old,
                λ of_it.
                    let (e, at, _, awaits) = sound.awaited i a old waiting in
                    let is_it : e ≡ effect = ground (arith, at, of_it, found_effect) in
                    let twice : i ≡ approval_id = ground (arith, awaits, is_it, waits_for.1) in
                    ground (arith, other, twice, its, same_id, ==-refl i),
              );
        }

    decided_over :
        (approve : Bool) (source : Key) (now : Instant) (d : Approval)
        → decide approve source now current ≡ ok d
        → (d.id ≡ current.id) × (is_pending d.status ≡ false)
    unfolding decide
    decided_over approve source now d h = ground arith

    resolved-step :
        (a : EffectStatus) (approve : Bool)
        → is_waiting a ≡ true
        → Steps a (if approve then EffectStatus.prepared else EffectStatus.denied)
    resolved-step EffectStatus.waiting_for_approval true h = one-Steps Step.allows
    resolved-step EffectStatus.waiting_for_approval false h = one-Steps Step.refuses
    resolved-step _ approve h = absurd (ground arith)

    resolve_pending-Writes :
        (default : Key) (approve : Bool) (source : Key) (c : Conditions) (now : Instant)
        (task : Task) {r : Approval × Effect × Task} {s' : Store}
        → resolve_pending env default approve source c now current effect task s ≡ (ok r, s')
        → Writes s s'
    unfolding resolve_pending
    resolve_pending-Writes default approve source c now task {r} {s'} h =
        let (config, _, h1) =
          read-ok (actual_config default task.session_id (some c.config_version) s) s _
            (config_frame default task.session_id (some c.config_version) s) h in
        elim (Bool-cases (still_matches env current effect task c config)) [
          | inl matches ↦
              let h2 : resume (from_result (decide approve source now current) s) (λ d.
                write_resolution env d (resolved_effect env effect approve) (resumed_task env task)
                  EventType.approval_decided)
                  ≡ (ok r, s') =
                ground (arith, matches) in
              let (d, t, given, h3) =
                resume-ok (from_result (decide approve source now current) s) _ h2 in
              let decided = from_result-ok (decide approve source now current) s given in
              let (same, over) = decided_over approve source now d decided in
              let kept : t ≡ s = ground (arith, decided, given) in
              resolution-Writes d (resolved_effect env effect approve) (resumed_task env task)
                EventType.approval_decided same over refl
                (resolved-step effect.status approve waits_for.0)
                (subst
                  (λ (q : Store).
                    write_resolution env d (resolved_effect env effect approve)
                      (resumed_task env task) EventType.approval_decided q
                    ≡ (ok r, s'))
                  kept h3)
          | inr fails ↦
              let h2 : write_resolution env (expired_approval env current source now)
                    (released_effect env effect) (resumed_task env task) EventType.approval_expired
                    s
                  ≡ (ok r, s') =
                ground (arith, fails) in
              resolution-Writes (expired_approval env current source now)
                (released_effect env effect) (resumed_task env task) EventType.approval_expired refl
                refl refl (resolved-step effect.status true waits_for.0) h2
        ]

  pub resolve_effect_approval-Change :
      (default approval_id : Key) (approve : Bool) (source : Key) (expected : ℕ) (c : Conditions)
      (now : Instant) (s : Store) {r : Approval × Effect × Task} {s' : Store}
      → Sound s
      → resolve_effect_approval env default approval_id approve source expected c now s ≡ (ok r, s')
      → Change s s'
  unfolding resolve_effect_approval
  resolve_effect_approval-Change default approval_id approve source expected c now s {r} {s'} sound
        h =
      let (current, stored, h1) = fetch-ok (lookup approval_id s.approvals) _ s _ h in
      let (effect, at_effect, h2) = fetch-ok (lookup current.effect_id s.effects) _ s _ h1 in
      let (task, _, h3) = fetch-ok (lookup effect.task_id s.tasks) _ s _ h2 in
      elim (Bool-cases (is_pending current.status)) [
        | inl pending ↦
            let checked : resume (check_version current.id current.version (some expected) s)
                  (λ _. resolve_pending env default approve source c now current effect task)
                ≡ (ok r, s') =
              ground (arith, pending) in
            let (_, h4) = check_version-ok current.id current.version (some expected) s _ checked in
            inl (
              resolve_pending-Writes s sound approval_id current effect stored pending at_effect
                default approve source c now task h4)
        | inr over ↦ inr (ground (arith, over), ground (arith, over))
      ]
