-- ===== src/Store/Recovery/Steps.antt =====
-- What `resolve_recovery` of src/patchloop/persistence_contracts.py writes of the effects and the
-- approvals.
use patch_loop.Store.Recovery.Resolutions.{after_lookup, unknown_of_task-ok}
use patch_loop.Execution.Recovery.Retries.{validate_recovery_resolution-retry}
use patch_loop.Execution.Recovery.{validate_recovery_resolution, Supplied, both}
use patch_loop.Execution.Controls.{RecoveryDisposition}
use patch_loop.Execution.Approvals.{Approval}
use patch_loop.Store.Journal.{journal}
use patch_loop.Execution.Effects.{same_identity, Effect, EffectStatus, is_unknown, is_waiting}
use patch_loop.Domain.{is_recovery, Task, TaskRuntimeCondition}
use patch_loop.Domain.Tools.{Observation}
use patch_loop.Contracts.{effect_identity_conflict, Result, ok}
use patch_loop.Store.Recovery.{
  resolve_new, resolve_recovery, stored_disposition, unknown_of_task, apply_resolution,
  original_observation, record_confirmation, record_retry, confirmed_effect, follow_resolution,
  put_disposition, resolved_task, waiting_retry,
}
use patch_loop.Common.Dict.{
  has_key, lookup-Keyed, values, Keyed, insert, insert-Keyed, lookup, lookup-insert,
}
use patch_loop.Store.State.{
  check_version-ok, fetch-ok, from_result, from_result-ok, insert_pair, raise_if, raise_if-ok,
  resume, ◌>>◌, Env, M, Store, modify, pure, resume-ok,
}
use patch_loop.Store.Lifecycle.{
  effect_key, Change, Before, Sound, Step, Steps, Writes, approval_key, idle-Writes, one-Steps,
}
use patch_loop.Common.{
  any, not, ℕ, ◌||◌, Option-cases, Bool, Bool-cases, Option, ap, arith, false, if◌then◌else◌, inl,
  inr, is_none, none, refl, some, subst, sym, true, ◌==◌, ◌∙◌, ◌≡◌, Key,
}

confirmed-step :
    (a : EffectStatus) (success : Bool)
    → is_unknown a ≡ true
    → Steps a (if success then EffectStatus.succeeded else EffectStatus.failed)
confirmed-step EffectStatus.unknown true h = one-Steps Step.turns_out_well
confirmed-step EffectStatus.unknown false h = one-Steps Step.turns_out_badly
confirmed-step _ success h = absurd (ground arith)

unknown_idle : (a : EffectStatus) → is_unknown a ≡ true → is_waiting a ≡ false
unknown_idle a h = ground arith

or_false : (a b : Bool) → (a || b) ≡ false → a ≡ false
or_false a b h = ground arith

no_entry : {V : Type 0} (o : Option V) → (if is_none o then false else true) ≡ false → o ≡ none
no_entry none h = refl
no_entry (some v) h = cc

module _ (env : Env) where
  resolution-frame :
      (task : Task) (d : RecoveryDisposition) (s : Store)
      → ((follow_resolution env task d s).1.effects ≡ s.effects)
        × ((follow_resolution env task d s).1.approvals ≡ s.approvals)
  unfolding follow_resolution journal
  resolution-frame task d s = (ground arith, ground arith)

  -- What follows the writes of effects and approvals.
  abbrev last_part : (task_id : Key) → Task → RecoveryDisposition → TaskRuntimeCondition → M Task
  last_part task_id task d target = do
    put_disposition d
    modify λ s. record s { tasks = insert task_id (resolved_task d.kind target task) s.tasks }
    follow_resolution env task d
    pure (resolved_task d.kind target task)

  last-frame :
      (task_id : Key) (task : Task) (d : RecoveryDisposition) (target : TaskRuntimeCondition)
      (s : Store) {t : Task} {s' : Store}
      → last_part task_id task d target s ≡ (ok t, s')
      → (s'.effects ≡ s.effects) × (s'.approvals ≡ s.approvals)
  last-frame task_id task d target s {t} {s'} h =
      let after = resolved_task d.kind target task in
      let u : Store = record s {
        recoveries = insert d.id d s.recoveries;
        tasks = insert task_id after s.tasks;
      } in
      let (_, v, followed, h1) = resume-ok (follow_resolution env task d u) (λ _. pure after) h in
      let (effects, approvals) = resolution-frame task d u in
      let first : (follow_resolution env task d u).1 ≡ v =
        ap (λ (q : Result (Unit {0}) × Store). q.1) followed in
      let last : v ≡ s' = ap (λ (q : Result Task × Store). q.1) h1 in
      (
        ap (λ (q : Store). q.effects) (sym (first ∙ last)) ∙ effects,
        ap (λ (q : Store). q.approvals) (sym (first ∙ last)) ∙ approvals,
      )

  confirmed-Writes :
      (task : Task) (unknown : Effect) (d : RecoveryDisposition) (o : Observation) (s s' : Store)
      → Sound s
      → lookup unknown.id s.effects ≡ some unknown
      → is_unknown unknown.status ≡ true
      → s'.effects ≡ insert unknown.id (confirmed_effect env task unknown d o) s.effects
      → s'.approvals ≡ s.approvals
      → Writes s s'
  confirmed-Writes task unknown d o s s' sound stored is_it effects approvals =
      idle-Writes s s' unknown (confirmed_effect env task unknown d o) none sound stored
        (unknown_idle unknown.status is_it) (confirmed-step unknown.status o.1.success is_it) refl
        effects approvals

  retry-Writes :
      (retry : Effect) (approval : Approval) (s s' : Store)
      → Sound s
      → lookup retry.id s.effects ≡ none
      → approval.effect_id ≡ retry.id
      → s'.effects ≡ insert retry.id (waiting_retry env retry approval) s.effects
      → s'.approvals ≡ insert approval.id approval s.approvals
      → Writes s s'
  retry-Writes retry approval s s' sound fresh its effects approvals = record {
    written = waiting_retry env retry approval;
    effects = effects;
    approvals =
        subst (Keyed approval_key) (sym approvals)
          (insert-Keyed approval_key approval s.approvals sound.approvals);
    before =
        subst (λ (q : Option Effect). Before q (waiting_retry env retry approval)) (sym fresh) tt;
    fits = λ i a found pending. elim (Bool-cases (approval.id == i)) [
      | inl same ↦
          let is_it : a ≡ approval =
            ground (arith, approvals, lookup-insert approval.id i approval s.approvals) in
          inr (ap (λ (x : Approval). x.effect_id) is_it ∙ its, refl, ap some (ground arith))
      | inr other ↦
          let old : lookup i s.approvals ≡ some a =
            ground (arith, approvals, lookup-insert approval.id i approval s.approvals) in
          inl (
            old,
            λ of_it.
                let (f, at, _, _) = sound.awaited i a old pending in
                ground (arith, at, of_it, fresh),
          )
    ];
  }

  apply_resolution-Change :
      (output detail task_id : Key) (task : Task) (unknown : Effect) (d : RecoveryDisposition)
      (given : Supplied) (target : TaskRuntimeCondition) (s : Store) {t : Task} {s' : Store}
      → Sound s
      → lookup unknown.id s.effects ≡ some unknown
      → is_unknown unknown.status ≡ true
      → ((p : Effect × Approval)
          → both given.retry_effect given.retry_approval ≡ some p
          → (both given.confirmed_call given.confirmed_result ≡ none) × (p.1.effect_id ≡ p.0.id))
      → apply_resolution env output detail task_id task unknown d given target s ≡ (ok t, s')
      → Change s s'
  unfolding apply_resolution record_confirmation record_retry
  apply_resolution-Change output detail task_id task unknown d given target s {t} {s'} sound stored
        is_it alone h =
      elim (Option-cases (both given.retry_effect given.retry_approval)) [
        | inr ((retry, approval), supplied) ↦
            let (unconfirmed, its) = alone (retry, approval) supplied in
            let original = original_observation env unknown output detail in
            let u : Store = record s {
              effects = insert retry.id (waiting_retry env retry approval) s.effects;
              approvals = insert approval.id approval s.approvals;
              tool_results = insert_pair task.id original.0.id original s.tool_results;
            } in
            let taken =
              has_key retry.id s.effects || any (λ c. same_identity c retry) (values s.effects) in
            let h1 : resume (raise_if taken (effect_identity_conflict retry.id) s)
                  (λ _ _. last_part task_id task d target u)
                ≡ (ok t, s') =
              ground (arith, supplied, unconfirmed) in
            let (free, h2) = raise_if-ok taken _ s _ h1 in
            let (effects, approvals) = last-frame task_id task d target u h2 in
            inl (
              retry-Writes retry approval s s' sound
                (no_entry (lookup retry.id s.effects)
                  (or_false (has_key retry.id s.effects) _ free))
                its effects approvals)
        | inl unsupplied ↦ elim (Option-cases (both given.confirmed_call given.confirmed_result)) [
          | inl unconfirmed ↦
              let h1 : last_part task_id task d target s ≡ (ok t, s') =
                ground (arith, unsupplied, unconfirmed) in
              inr (last-frame task_id task d target s h1)
          | inr (o, confirmed) ↦
              let u : Store = record s {
                effects = insert unknown.id (confirmed_effect env task unknown d o) s.effects;
                tool_results = insert_pair task.id o.0.id o s.tool_results;
              } in
              let h1 : last_part task_id task d target u ≡ (ok t, s') =
                ground (arith, unsupplied, confirmed) in
              let (effects, approvals) = last-frame task_id task d target u h1 in
              inl (confirmed-Writes task unknown d o s s' sound stored is_it effects approvals)
        ]
      ]

  pub resolve_recovery-Change :
      (output detail : Key) (d : RecoveryDisposition) (task_id : Key) (expected : ℕ)
      (given : Supplied) (s : Store) {t : Task} {s' : Store}
      → Sound s
      → resolve_recovery env output detail d task_id expected given s ≡ (ok t, s')
      → Change s s'
  unfolding resolve_recovery resolve_new
  resolve_recovery-Change output detail d task_id expected given s {t} {s'} sound h =
      let (task, _, h1) = fetch-ok (lookup task_id s.tasks) _ s _ h in
      elim (Option-cases (stored_disposition d s)) [
        | inr (e, known) ↦
            let again : after_lookup env output detail d task_id expected given task (some e) s
                ≡ (ok t, s') =
              subst
                (λ (o : Option RecoveryDisposition).
                  after_lookup env output detail d task_id expected given task o s ≡ (ok t, s'))
                known h1 in
            inr (ground (arith, again), ground (arith, again))
        | inl fresh ↦
            let h2 : resolve_new env output detail task_id task d given expected s ≡ (ok t, s') =
              subst
                (λ (o : Option RecoveryDisposition).
                  after_lookup env output detail d task_id expected given task o s ≡ (ok t, s'))
                fresh h1 in
            let (_, h3) = check_version-ok task_id task.version (some expected) s _ h2 in
            let (_, h4) = raise_if-ok (not (is_recovery task.runtime_condition)) _ s _ h3 in
            let (unknown, found, h5) =
              fetch-ok (unknown_of_task task_id (lookup d.unknown_effect_id s.effects)) _ s _ h4 in
            let (stored, is_it) =
              unknown_of_task-ok task_id (lookup d.unknown_effect_id s.effects) unknown found in
            let valid = validate_recovery_resolution env.hashing task unknown d given in
            let (target, u, validated, h6) = resume-ok (from_result valid s) _ h5 in
            let accepted = from_result-ok valid s validated in
            let kept : u ≡ s = ground (arith, accepted, validated) in
            let key =
              lookup-Keyed effect_key d.unknown_effect_id unknown s.effects sound.effects stored in
            apply_resolution-Change output detail task_id task unknown d given target s sound
              (ap (λ k. lookup k s.effects) key ∙ stored) is_it
              (λ p supplied.
                validate_recovery_resolution-retry env.hashing task unknown d given p supplied
                  accepted)
              (subst
                (λ (q : Store).
                  apply_resolution env output detail task_id task unknown d given target q
                  ≡ (ok t, s'))
                kept h6)
      ]
