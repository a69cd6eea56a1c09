-- ===== src/Tests/Lifecycle.antt =====
-- The theorems on sequences of effect calls at concrete inputs: a prepared effect is claimed, and
-- its outcome is lost.
use patch_loop.Store.Lifecycle.{Sound, Steps}
use patch_loop.Store.Lifecycle.Histories.{
  pending_approval_waits, settled_effect_stays, effect_executes_once, effect_status-Steps,
}
use patch_loop.Store.Lifecycle.Runs.{EffectCall, EffectCalls}
use patch_loop.Store.Journal.{journal}
use patch_loop.Store.Leases.{assert_guard, guard_holds}
use patch_loop.Store.Settlement.{
  follow, now_recovering, unknown_effect, update_checkpoint, write_recovering, write_unknown,
  mark_effect_unknown,
}
use patch_loop.Contracts.{ok}
use patch_loop.Execution.Approvals.{
  is_pending, Approval, ApprovalStatus, consume, matches_execution_conditions,
}
use patch_loop.Domain.{Task}
use patch_loop.Common.Dict.{insert, lookup, values}
use patch_loop.Store.State.{Store}
use patch_loop.Execution.Effects.{is_waiting, EffectStatus, Effect, content_fingerprint}
use patch_loop.Common.{Key, [], ap, sym, ◌∷◌, arith, none, some, keep, refl, true, ◌≡◌}
use patch_loop.Store.Effects.{claim_effect, claimed_effect, earliest, pending_control}
use patch_loop.Samples.{approval, effect, env, guard, no_conditions, store, task as first_task}

abbrev claimed : Effect
claimed = claimed_effect env effect true

abbrev after_claim : Store
after_claim = (claim_effect env 50 3 3 guard no_conditions 20 store).1

claims_well : claim_effect env 50 3 3 guard no_conditions 20 store ≡ (ok claimed, after_claim)
unfolding claim_effect assert_guard guard_holds pending_control earliest consume
    matches_execution_conditions content_fingerprint lookup values insert keep
claims_well = refl

abbrev after_loss : Store
after_loss = (mark_effect_unknown env 3 4 81 guard 20 after_claim).1

abbrev lost : Effect × Task
lost = (unknown_effect env claimed 81, now_recovering env first_task)

loses_well : mark_effect_unknown env 3 4 81 guard 20 after_claim ≡ (ok lost, after_loss)
unfolding mark_effect_unknown write_unknown write_recovering follow update_checkpoint journal
    claim_effect assert_guard guard_holds pending_control earliest consume
    matches_execution_conditions content_fingerprint lookup values insert keep
loses_well = refl

-- No approval of the store is pending, and its dictionaries are keyed by the ids.
store-Sound : Sound store
unfolding lookup
store-Sound = record {
  effects = (refl, refl, tt);
  approvals = (refl, refl, tt);
  awaited = λ i a found pending. ground (arith, found, pending);
}

claims_and_loses : EffectCalls env store after_loss
claims_and_loses =
    EffectCalls.next (EffectCall.claims 50 3 3 guard no_conditions 20 claimed claims_well)
      (EffectCalls.next (EffectCall.marks_unknown 3 4 81 guard 20 lost loses_well) EffectCalls.done)

effect_executes_once_example :
    ¬ (claim_effect env 50 3 4 guard no_conditions 20 after_loss ≡ (ok claimed, after_loss))
effect_executes_once_example =
    effect_executes_once env 50 3 3 4 guard guard no_conditions no_conditions 20 20 store after_loss
      store-Sound claims_well
      (EffectCalls.next (EffectCall.marks_unknown 3 4 81 guard 20 lost loses_well) EffectCalls.done)

stored_effect : lookup 3 store.effects ≡ some effect
unfolding lookup
stored_effect = refl

effect_status-Steps_example :
    (f : Effect) × (lookup 3 after_loss.effects ≡ some f) × Steps EffectStatus.prepared f.status
effect_status-Steps_example =
    effect_status-Steps env store after_loss 3 effect store-Sound claims_and_loses stored_effect

-- The same store with an effect that was denied, and one that waits for its approval.
abbrev denied_effect : Effect
denied_effect = record effect { id = 33; approval_id = none; status = EffectStatus.denied }

abbrev waiting_effect : Effect
waiting_effect = record effect {
  id = 43;
  approval_id = some 44;
  status = EffectStatus.waiting_for_approval;
}

abbrev pending_approval : Approval
pending_approval = record approval { id = 44; effect_id = 43; status = ApprovalStatus.pending }

abbrev mixed : Store
mixed = record store {
  effects = (3, effect) ∷ (33, denied_effect) ∷ (43, waiting_effect) ∷ [];
  approvals = (4, approval) ∷ (44, pending_approval) ∷ [];
}

waiting_found :
    (i : Key) (a : Approval)
    → lookup i mixed.approvals ≡ some a
    → is_pending a.status ≡ true
    → (a ≡ pending_approval) × (i ≡ 44)
unfolding lookup
waiting_found i a found pending = (ground (arith, found, pending), ground (arith, found, pending))

mixed-Sound : Sound mixed
unfolding lookup
mixed-Sound = record {
  effects = (refl, refl, (refl, refl, (refl, refl, tt)));
  approvals = (refl, refl, (refl, refl, tt));
  awaited = λ i a found pending.
      let (its, key) = waiting_found i a found pending in
      (
        waiting_effect,
        ap (λ (b : Approval). lookup b.effect_id mixed.effects) its,
        refl,
        ap some (sym key),
      );
}

abbrev after_mixed : Store
after_mixed = (claim_effect env 50 3 3 guard no_conditions 20 mixed).1

claims_mixed : claim_effect env 50 3 3 guard no_conditions 20 mixed ≡ (ok claimed, after_mixed)
unfolding claim_effect assert_guard guard_holds pending_control earliest consume
    matches_execution_conditions content_fingerprint lookup values insert keep
claims_mixed = refl

mixed_calls : EffectCalls env mixed after_mixed
mixed_calls =
    EffectCalls.next (EffectCall.claims 50 3 3 guard no_conditions 20 claimed claims_mixed)
      EffectCalls.done

stored_denied : lookup 33 mixed.effects ≡ some denied_effect
unfolding lookup
stored_denied = refl

settled_effect_stays_example :
    (f : Effect) × (lookup 33 after_mixed.effects ≡ some f) × (f.status ≡ EffectStatus.denied)
settled_effect_stays_example =
    settled_effect_stays env mixed after_mixed 33 denied_effect mixed-Sound mixed_calls
      stored_denied refl

found_pending : lookup 44 after_mixed.approvals ≡ some pending_approval
unfolding claim_effect assert_guard guard_holds pending_control earliest consume
    matches_execution_conditions content_fingerprint lookup values insert keep
found_pending = refl

pending_approval_waits_example :
    (e : Effect) × (lookup 43 after_mixed.effects ≡ some e)
    × (is_waiting e.status ≡ true)
    × (e.approval_id ≡ some 44)
pending_approval_waits_example =
    pending_approval_waits env mixed after_mixed 44 pending_approval mixed-Sound mixed_calls
      found_pending refl
