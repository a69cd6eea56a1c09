-- ===== src/Store/Approvals/Steps.antt =====
-- What `request_effect_approval` of src/patchloop/persistence_contracts.py writes of the effects and
-- the approvals.
use patch_loop.Store.Approvals.Resolutions.{journal_approval_frame}
use patch_loop.Store.Leases.Guards.{assert_guard-ok}
use patch_loop.Store.Leases.{with_condition}
use patch_loop.Session.{EventType}
use patch_loop.Store.Journal.{journal_approval}
use patch_loop.Execution.Leases.{Execution}
use patch_loop.Domain.{TaskRuntimeCondition, Task, is_running}
use patch_loop.Contracts.{LeaseGuard, Result, ok}
use patch_loop.Execution.Approvals.{Approval, is_pending}
use patch_loop.Execution.Effects.{is_waiting, Effect, EffectStatus, is_prepared}
use patch_loop.Store.Lifecycle.{
  Before, Change, Sound, Writes, approval_key, effect_key, unawaited, Step, Steps, one-Steps,
}
use patch_loop.Store.Approvals.{
  request_effect_approval, for_effect, pause_for_approval, request_again, request_first,
  waiting_effect,
}
use patch_loop.Store.State.{
  check_version-ok, pure, resume, resume-ok, Env, Store, fetch-ok, raise_if-ok,
}
use patch_loop.Common.Dict.{
  Keyed, insert-Keyed, lookup-Keyed, lookup-insert, has_key, insert, lookup, values,
}
use patch_loop.Common.{
  Bool-cases, Instant, Option, ap, false, inl, inr, not-eq_false, refl, some, ℕ, ◌==◌, ◌∙◌, any,
  arith, not, subst, sym, true, ◌||◌, ◌≡◌, Key,
}

asked-step :
    (a b : EffectStatus) → is_prepared a ≡ true → b ≡ EffectStatus.waiting_for_approval → Steps a b
asked-step EffectStatus.prepared b h same =
    subst (Steps EffectStatus.prepared) (sym same) (one-Steps Step.asks)
asked-step _ b h same = absurd (ground arith)

again-frame :
    (holder : Execution) (current : Effect) (approval : Approval) (s : Store)
    → ((request_again holder current approval s).1.effects ≡ s.effects)
      × ((request_again holder current approval s).1.approvals ≡ s.approvals)
unfolding request_again pause_for_approval
again-frame holder current approval s = (ground arith, ground arith)

module _ (env : Env) where
  pub journal-end :
      {A : Type 0} (a : Approval) (type : EventType) (x : A) (t : Store) {r : A} {s' : Store}
      → resume (journal_approval env a type t) (λ _. pure x) ≡ (ok r, s')
      → (s'.effects ≡ t.effects) × (s'.approvals ≡ t.approvals)
  journal-end {A} a type x t {r} {s'} h =
      let (_, u, journaled, h1) = resume-ok (journal_approval env a type t) (λ _. pure x) h in
      let (approvals, effects) = journal_approval_frame env a type t in
      let first : (journal_approval env a type t).1 ≡ u =
        ap (λ (q : Result (Unit {0}) × Store). q.1) journaled in
      let last : u ≡ s' = ap (λ (q : Result A × Store). q.1) h1 in
      (
        ap (λ (q : Store). q.effects) (sym (first ∙ last)) ∙ effects,
        ap (λ (q : Store). q.approvals) (sym (first ∙ last)) ∙ approvals,
      )

  first-writes :
      (effect_id : Key) (holder : Execution) (current : Effect) (approval : Approval) (s : Store)
      {r : Effect × Approval × Task} {s' : Store}
      → request_first env effect_id holder current approval s ≡ (ok r, s')
      → (is_prepared current.status ≡ true)
        × (s'.effects ≡ insert effect_id (waiting_effect current approval) s.effects)
        × (s'.approvals ≡ insert approval.id approval s.approvals)
  unfolding request_first pause_for_approval
  first-writes effect_id holder current approval s {r} {s'} h =
      let (prepared, h1) = raise_if-ok (not (is_prepared current.status)) _ s _ h in
      let (_, h2) = raise_if-ok (not (is_pending approval.status)) _ s _ h1 in
      let (_, h3) =
        raise_if-ok
          (has_key approval.id s.approvals || any (for_effect effect_id) (values s.approvals)) _ s _
          h2 in
      let (task, _, h4) = fetch-ok (lookup current.task_id s.tasks) _ s _ h3 in
      let (_, h5) = raise_if-ok (not (is_running task.runtime_condition)) _ s _ h4 in
      let (effects, approvals) =
        journal-end approval EventType.approval_requested
          (
            waiting_effect current approval,
            approval,
            with_condition TaskRuntimeCondition.waiting_for_approval task,
          )
          _ h5 in
      (not-eq_false _ prepared, effects, approvals)

  asked-Writes :
      (effect_id : Key) (holder : Execution) (current : Effect) (approval : Approval) (s : Store)
      {r : Effect × Approval × Task} {s' : Store}
      → Sound s
      → lookup effect_id s.effects ≡ some current
      → is_waiting current.status ≡ false
      → approval.effect_id ≡ effect_id
      → request_first env effect_id holder current approval s ≡ (ok r, s')
      → Writes s s'
  asked-Writes effect_id holder current approval s {r} {s'} sound stored idle its h =
      let (prepared, effects, approvals) = first-writes effect_id holder current approval s h in
      let key = lookup-Keyed effect_key effect_id current s.effects sound.effects stored in
      let asked = waiting_effect current approval in
      record {
        written = asked;
        effects = effects ∙ ap (λ k. insert k asked s.effects) (sym key);
        approvals =
            subst (Keyed approval_key) (sym approvals)
              (insert-Keyed approval_key approval s.approvals sound.approvals);
        before =
            subst (λ (q : Option Effect). Before q asked)
              (sym (ap (λ k. lookup k s.effects) key ∙ stored))
              (asked-step current.status asked.status prepared refl);
        fits = λ i a found pending. elim (Bool-cases (approval.id == i)) [
          | inl same ↦
              let is_it : a ≡ approval =
                ground (arith, approvals, lookup-insert approval.id i approval s.approvals) in
              inr (
                ap (λ (x : Approval). x.effect_id) is_it ∙ its ∙ sym key,
                refl,
                ap some (ground arith),
              )
          | inr other ↦
              let old : lookup i s.approvals ≡ some a =
                ground (arith, approvals, lookup-insert approval.id i approval s.approvals) in
              inl (
                old,
                unawaited s current asked.id i a sound (ap (λ k. lookup k s.effects) key ∙ stored)
                    idle old pending,
              )
        ];
      }

  pub request_effect_approval-Change :
      (effect_id : Key) (approval : Approval) (expected : ℕ) (g : LeaseGuard) (now : Instant)
      (s : Store) {r : Effect × Approval × Task} {s' : Store}
      → Sound s
      → request_effect_approval env effect_id approval expected g now s ≡ (ok r, s')
      → Change s s'
  unfolding request_effect_approval
  request_effect_approval-Change effect_id approval expected g now s {r} {s'} sound h =
      let (holder, _, _, h1) = assert_guard-ok g now s _ h in
      let (current, stored, h2) = fetch-ok (lookup effect_id s.effects) _ s _ h1 in
      let (_, h3) = raise_if-ok (not (current.task_id == holder.task_id)) _ s _ h2 in
      let (_, h4) = check_version-ok effect_id current.version (some expected) s _ h3 in
      let (its, h5) = raise_if-ok (not (approval.effect_id == effect_id)) _ s _ h4 in
      elim (Bool-cases (is_waiting current.status)) [
        | inl waits ↦
            let again : request_again holder current approval s ≡ (ok r, s') =
              ground (arith, waits) in
            let end : (request_again holder current approval s).1 ≡ s' =
              ap (λ (q : Result (Effect × Approval × Task) × Store). q.1) again in
            let (effects, approvals) = again-frame holder current approval s in
            inr (
              ap (λ (q : Store). q.effects) (sym end) ∙ effects,
              ap (λ (q : Store). q.approvals) (sym end) ∙ approvals,
            )
        | inr idle ↦
            let first : request_first env effect_id holder current approval s ≡ (ok r, s') =
              ground (arith, idle) in
            inl (
              asked-Writes effect_id holder current approval s sound stored idle
                (ground (arith, its)) first)
      ]
