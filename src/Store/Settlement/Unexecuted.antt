-- ===== src/Store/Settlement/Unexecuted.antt =====
-- What `settle_unexecuted_effect` of src/patchloop/persistence_contracts.py writes of the effects and
-- the approvals.
use patch_loop.Store.Settlement.Steps.{follow-frame}
use patch_loop.Store.Leases.Guards.{assert_guard-ok}
use patch_loop.Session.{EventType}
use patch_loop.Execution.Approvals.{Approval, ApprovalStatus, is_pending}
use patch_loop.Contracts.{Result, LeaseGuard, ok}
use patch_loop.Store.Settlement.{
  belongs_to, same_status, settle_existing, settle_unexecuted_effect, is_unexecuted, settle_new,
  settled_effect, expire_pending, follow,
}
use patch_loop.Domain.Tools.{ToolCall, ToolResult}
use patch_loop.Store.Lifecycle.{
  stays, Change, Before, put_some-Keyed, put_some-old, approval_key, is_over, put_some, Sound, Step,
  Steps, Writes, effect_key, one-Steps,
}
use patch_loop.Execution.Effects.{is_prepared, Effect, EffectStatus, is_waiting}
use patch_loop.Store.State.{
  check_version-ok, lookup_pair, raise_if-ok, insert_pair, pure, resume-ok, fetch-ok, Env, Store,
}
use patch_loop.Common.Dict.{Keyed, lookup-Keyed, lookup-insert_self, insert, lookup}
use patch_loop.Common.{
  Option-cases, not, not-eq_false, ◌||◌, subst, Bool-cases, inl, inr, some, ◌+◌, Instant, Option,
  ap, arith, false, none, refl, sym, true, ℕ, ◌∙◌, ◌≡◌, Key,
}

abbrev expired_by : Key → Instant → Approval → Approval
expired_by source now a = record a {
  status = ApprovalStatus.expired;
  decision_source = some source;
  decided_at = some now;
  version = a.version + 1;
}

module _ (env : Env) where
  -- What expiring the pending approval of an effect leaves.
  record Expired (o : Option Key) (s t : Store) : Type 0 where
    over : Option Approval
    is_it : is_over over ≡ true
    approvals : t.approvals ≡ put_some over s.approvals
    effects : t.effects ≡ s.effects
    cleared :
        (i : Key) (b : Approval)
        → o ≡ some i
        → Keyed approval_key s.approvals
        → lookup i t.approvals ≡ some b
        → is_pending b.status ≡ false

  expire_pending-Expired :
      (source : Key) (now : Instant) (o : Option Key) (s t : Store)
      → expire_pending env source now o s ≡ (ok tt, t)
      → Expired o s t
  unfolding expire_pending
  expire_pending-Expired source now none s t h = record {
    over = none;
    is_it = refl;
    approvals = ground arith;
    effects = ground arith;
    cleared = λ i b same keyed found. cc;
  }
  expire_pending-Expired source now (some k) s t h =
      let (a, stored, h1) = fetch-ok (lookup k s.approvals) _ s _ h in
      elim (Bool-cases (is_pending a.status)) [
        | inl pending ↦ record {
          over = some (expired_by source now a);
          is_it = refl;
          approvals = ground (arith, pending);
          effects = ground (arith, pending);
          cleared = λ i b same keyed found. ground (
            arith,
            pending,
            lookup-Keyed approval_key k a s.approvals keyed stored,
            lookup-insert_self a.id (expired_by source now a) s.approvals,
          );
        }
        | inr over ↦ record {
          over = none;
          is_it = refl;
          approvals = ground (arith, over);
          effects = ground (arith, over);
          cleared = λ i b same keyed found. ground (arith, over, stored);
        }
      ]

  settle_new-effects :
      (source : Key) (current : Effect) (status : EffectStatus) (call : ToolCall)
      (result : ToolResult) (now : Instant) (s : Store) {e : Effect} {s' : Store}
      → settle_new env source current status call result now s ≡ (ok e, s')
      → Expired current.approval_id s (record s' { effects = s.effects })
        × (s'.effects ≡ insert current.id (settled_effect env current status call.id) s.effects)
  unfolding settle_new
  settle_new-effects source current status call result now s {e} {s'} h =
      let settled = settled_effect env current status call.id in
      let (_, t, expired, h1) =
        resume-ok (expire_pending env source now current.approval_id s) _ h in
      let x = expire_pending-Expired source now current.approval_id s t expired in
      let u : Store = record t {
        effects = insert current.id settled t.effects;
        tool_results = insert_pair current.task_id call.id (call, result) t.tool_results;
      } in
      let (task, _, h2) = fetch-ok (lookup current.task_id u.tasks) _ u _ h1 in
      let (_, v, followed, h3) =
        resume-ok (follow env task settled EventType.effect_settled u) (λ _. pure settled) h2 in
      let (effects, approvals) = follow-frame env task settled EventType.effect_settled u in
      let last : v ≡ s' = cc in
      let end : (follow env task settled EventType.effect_settled u).1 ≡ s' =
        ap (λ (q : Result (Unit {0}) × Store). q.1) followed ∙ last in
      let kept : s'.approvals ≡ t.approvals =
        ap (λ (q : Store). q.approvals) (sym end) ∙ approvals in
      (
        record {
          over = x.over;
          is_it = x.is_it;
          approvals = kept ∙ x.approvals;
          effects = refl;
          cleared =
              λ i b same keyed found. x.cleared i b same keyed (ap (lookup i) (sym kept) ∙ found);
        },
        ap (λ (q : Store). q.effects) (sym end)
            ∙ effects
            ∙ ap (insert current.id settled) x.effects,
      )

  unexecuted-step :
      (a b : EffectStatus)
      → (is_prepared a || (is_waiting a || same_status env a b)) ≡ true
      → is_unexecuted env b ≡ true
      → Steps a b
  unexecuted-step EffectStatus.prepared EffectStatus.denied h g = one-Steps Step.denies
  unexecuted-step EffectStatus.prepared EffectStatus.cancelled h g = one-Steps Step.drops
  unexecuted-step EffectStatus.waiting_for_approval EffectStatus.denied h g = one-Steps Step.refuses
  unexecuted-step EffectStatus.waiting_for_approval EffectStatus.cancelled h g =
      one-Steps Step.drops_waiting
  unexecuted-step EffectStatus.denied EffectStatus.denied h g = stays
  unexecuted-step EffectStatus.cancelled EffectStatus.cancelled h g = stays
  unexecuted-step _ b h g = absurd (ground arith)

  settled-Writes :
      (source : Key) (current : Effect) (status : EffectStatus) (call : ToolCall)
      (result : ToolResult) (now : Instant) (s : Store) {e : Effect} {s' : Store}
      → Sound s
      → lookup current.id s.effects ≡ some current
      → Steps current.status status
      → settle_new env source current status call result now s ≡ (ok e, s')
      → Writes s s'
  settled-Writes source current status call result now s {e} {s'} sound stored steps h =
      let (x, effects) = settle_new-effects source current status call result now s h in
      record {
        written = settled_effect env current status call.id;
        effects = effects;
        approvals =
            subst (Keyed approval_key) (sym x.approvals)
              (put_some-Keyed x.over s.approvals sound.approvals);
        before =
            subst (λ (q : Option Effect). Before q (settled_effect env current status call.id))
              (sym stored) steps;
        fits = λ i a found pending.
            let old =
              put_some-old x.over s.approvals i a x.is_it (ap (lookup i) (sym x.approvals) ∙ found)
                pending in
            inl (
              old,
              λ its.
                  let (f, at, waits, awaits) = sound.awaited i a old pending in
                  let same : f ≡ current = ground (arith, at, its, stored) in
                  let ended =
                    x.cleared i a (ap (λ (y : Effect). y.approval_id) (sym same) ∙ awaits)
                      sound.approvals found in
                  ground (arith, ended, pending),
            );
      }

  pub settle_unexecuted_effect-Change :
      (source effect_id : Key) (status : EffectStatus) (expected : ℕ) (call : ToolCall)
      (result : ToolResult) (g : LeaseGuard) (now : Instant) (s : Store) {e : Effect} {s' : Store}
      → Sound s
      → settle_unexecuted_effect env source effect_id status expected call result g now s
        ≡ (ok e, s')
      → Change s s'
  unfolding settle_unexecuted_effect settle_existing
  settle_unexecuted_effect-Change source effect_id status expected call result g now s {e} {s'}
        sound h =
      let (_, _, _, h1) = assert_guard-ok g now s _ h in
      let (current, stored, h2) = fetch-ok (lookup effect_id s.effects) _ s _ h1 in
      let (_, h3) = check_version-ok effect_id current.version (some expected) s _ h2 in
      let (target, h4) = raise_if-ok (not (is_unexecuted env status)) _ s _ h3 in
      let (open_effect, h5) =
        raise_if-ok
          (not (
            is_prepared current.status
            || (is_waiting current.status || same_status env current.status status)))
          _ s _ h4 in
      let (_, h6) = raise_if-ok (not (belongs_to current call result)) _ s _ h5 in
      let key = lookup-Keyed effect_key effect_id current s.effects sound.effects stored in
      let steps =
        unexecuted-step current.status status (not-eq_false _ open_effect)
          (not-eq_false _ target) in
      elim (Option-cases (lookup_pair current.task_id call.id s.tool_results)) [
        | inl fresh ↦
            let made : settle_new env source current status call result now s ≡ (ok e, s') =
              ground (arith, fresh) in
            inl (
              settled-Writes source current status call result now s sound
                (ap (λ k. lookup k s.effects) key ∙ stored) steps made)
        | inr (o, known) ↦ inr (ground (arith, known), ground (arith, known))
      ]
