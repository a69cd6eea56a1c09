-- ===== src/Store/Settlement/Steps.antt =====
-- What `commit_effect` and `mark_effect_unknown` of src/patchloop/persistence_contracts.py write of
-- the effects and the approvals.
use patch_loop.Store.Leases.Guards.{assert_guard-ok}
use patch_loop.Domain.{Task}
use patch_loop.Session.{EventType}
use patch_loop.Store.Journal.{journal}
use patch_loop.Contracts.{Result, LeaseGuard, ok}
use patch_loop.Store.Settlement.{
  mark_effect_unknown, now_recovering, now_unknown, unknown_effect, write_unknown, write_recovering,
  follow, update_checkpoint, commit_effect,
}
use patch_loop.Domain.Tools.{ToolCall, ToolResult}
use patch_loop.Store.Lifecycle.{
  Change, Sound, Step, Steps, Writes, effect_key, idle-Writes, one-Steps,
}
use patch_loop.Store.Settlement.Commits.{commit_effect-ok}
use patch_loop.Execution.Effects.{
  is_unknown, Effect, EffectStatus, is_committed, is_executing, is_waiting,
}
use patch_loop.Store.State.{
  ◌>>◌, ◌>>=◌, M, get_task, check_version-ok, raise_if-ok, pure, resume-ok, fetch-ok, Env, Store,
}
use patch_loop.Common.Dict.{lookup-Keyed, insert, lookup}
use patch_loop.Common.{
  not, ◌||◌, Bool-cases, inl, inr, some, Instant, Option, ap, arith, false, none, refl, sym, true,
  ℕ, ◌∙◌, ◌≡◌, Key,
}

executing-step : (a b : EffectStatus) → is_executing a ≡ true → is_committed b ≡ true → Steps a b
executing-step EffectStatus.executing EffectStatus.succeeded h g = one-Steps Step.succeeds
executing-step EffectStatus.executing EffectStatus.failed h g = one-Steps Step.fails
executing-step EffectStatus.executing EffectStatus.unknown h g = one-Steps Step.loses
executing-step EffectStatus.executing _ h g = absurd (ground arith)
executing-step _ b h g = absurd (ground arith)

executing_idle : (a : EffectStatus) → is_executing a ≡ true → is_waiting a ≡ false
executing_idle a h = ground arith

module _ (env : Env) where
  pub commit_effect-Writes :
      (effect : Effect) (expected : ℕ) (result_ref observation_ref : Option Key) (g : LeaseGuard)
      (call : Option ToolCall) (result : Option ToolResult) (now : Instant) (s : Store) {e : Effect}
      {s' : Store}
      → Sound s
      → commit_effect env effect expected result_ref observation_ref g call result now s
        ≡ (ok e, s')
      → Writes s s'
  commit_effect-Writes effect expected result_ref observation_ref g call result now s {e} {s'} sound
        h =
      let (current, stored, _, executing, committed, shape, _, effects, approvals) =
        commit_effect-ok env effect expected result_ref observation_ref g call result now s h in
      let same : e.id ≡ effect.id = ap effect_key shape in
      idle-Writes s s' current e none sound (ap (λ k. lookup k s.effects) same ∙ stored)
        (executing_idle current.status executing)
        (executing-step current.status e.status executing
          (ap (λ (x : Effect). is_committed x.status) shape ∙ committed))
        refl (effects ∙ ap (λ k. insert k e s.effects) (sym same)) approvals

  pub follow-frame :
      (task : Task) (e : Effect) (type : EventType) (s : Store)
      → ((follow env task e type s).1.effects ≡ s.effects)
        × ((follow env task e type s).1.approvals ≡ s.approvals)
  unfolding follow journal update_checkpoint
  follow-frame task e type s = (ground arith, ground arith)

  recovering-frame :
      (task : Task) (s : Store)
      → ((write_recovering env task s).1.effects ≡ s.effects)
        × ((write_recovering env task s).1.approvals ≡ s.approvals)
  unfolding write_recovering
  recovering-frame task s = (ground arith, ground arith)

  -- The effect apart, `mark_effect_unknown` writes no effect and no approval.
  abbrev mark_rest : Effect → Key → M (Effect × Task)
  mark_rest current evidence = do
    task ← get_task current.task_id
    write_recovering env task
    follow env task (now_unknown env current evidence) EventType.effect_recovery_required
    pure (now_unknown env current evidence, now_recovering env task)

  mark_rest-frame :
      (current : Effect) (evidence : Key) (s : Store) {r : Effect × Task} {s' : Store}
      → mark_rest current evidence s ≡ (ok r, s')
      → (s'.effects ≡ s.effects) × (s'.approvals ≡ s.approvals)
  mark_rest-frame current evidence s {r} {s'} h =
      let (task, _, h1) = fetch-ok (lookup current.task_id s.tasks) _ s _ h in
      let (_, t, marked, h2) = resume-ok (write_recovering env task s) _ h1 in
      let unknown = now_unknown env current evidence in
      let (_, u, followed, h3) =
        resume-ok (follow env task unknown EventType.effect_recovery_required t)
          (λ _. pure (unknown, now_recovering env task)) h2 in
      let (effects, approvals) = recovering-frame task s in
      let (effects_too, approvals_too) =
        follow-frame task unknown EventType.effect_recovery_required t in
      let first : (write_recovering env task s).1 ≡ t =
        ap (λ (q : Result (Unit {0}) × Store). q.1) marked in
      let last : u ≡ s' = cc in
      let second : (follow env task unknown EventType.effect_recovery_required t).1 ≡ s' =
        ap (λ (q : Result (Unit {0}) × Store). q.1) followed ∙ last in
      (
        ap (λ (q : Store). q.effects) (sym second)
            ∙ effects_too
            ∙ ap (λ (q : Store). q.effects) (sym first)
            ∙ effects,
        ap (λ (q : Store). q.approvals) (sym second)
            ∙ approvals_too
            ∙ ap (λ (q : Store). q.approvals) (sym first)
            ∙ approvals,
      )

  lost-step : (a : EffectStatus) → is_executing a ≡ true → Steps a EffectStatus.unknown
  lost-step EffectStatus.executing h = one-Steps Step.loses
  lost-step _ h = absurd (ground arith)

  pub mark_effect_unknown-Change :
      (effect_id : Key) (expected : ℕ) (evidence : Key) (g : LeaseGuard) (now : Instant) (s : Store)
      {r : Effect × Task} {s' : Store}
      → Sound s
      → mark_effect_unknown env effect_id expected evidence g now s ≡ (ok r, s')
      → Change s s'
  unfolding mark_effect_unknown write_unknown
  mark_effect_unknown-Change effect_id expected evidence g now s {r} {s'} sound h =
      let (_, _, _, h1) = assert_guard-ok g now s _ h in
      let (current, stored, h2) = fetch-ok (lookup effect_id s.effects) _ s _ h1 in
      let (_, h3) = check_version-ok effect_id current.version (some expected) s _ h2 in
      let (_, h4) =
        raise_if-ok (not (is_executing current.status || is_unknown current.status)) _ s _ h3 in
      let key = lookup-Keyed effect_key effect_id current s.effects sound.effects stored in
      let lost = unknown_effect env current evidence in
      elim (Bool-cases (is_executing current.status)) [
        | inl executing ↦
            let h5 : mark_rest current evidence
                  (record s { effects = insert current.id lost s.effects })
                ≡ (ok r, s') =
              ground (arith, executing) in
            let (effects, approvals) = mark_rest-frame current evidence _ h5 in
            inl (
              idle-Writes s s' current lost none sound (ap (λ k. lookup k s.effects) key ∙ stored)
                (executing_idle current.status executing) (lost-step current.status executing) refl
                effects approvals)
        | inr other ↦
            let h5 : mark_rest current evidence s ≡ (ok r, s') = ground (arith, other) in
            inr (mark_rest-frame current evidence s h5)
      ]
