-- ===== src/Store/Batches/Steps.antt =====
-- What `prepare_effect_batch` of src/patchloop/persistence_contracts.py writes: effects that were not
-- stored.
use patch_loop.Domain.{Task}
use patch_loop.PromptCache.Publication.{made}
use patch_loop.Store.Lifecycle.{effect_key}
use patch_loop.Domain.Tools.{AgentStep}
use patch_loop.Store.Batches.{
  clashes, journal_prepared, misplaced, place_all, prepare_effect_batch, same_keys,
}
use patch_loop.Store.Preparation.{clash, continue_with, ids, insert_all}
use patch_loop.Store.Preparation.Steps.{Adds, Fresh, journal_task_frame, session_guard_store}
use patch_loop.Store.Leases.{require_session_guard}
use patch_loop.Store.State.{
  Env, Store, check_version-ok, fetch-ok, from_result, from_result-ok, insert_pair, lookup_pair,
  pure, raise_if-ok, read-ok, resume-ok,
}
use patch_loop.Common.Dict.{Dict, Keyed, lookup, lookup-Keyed, values}
use patch_loop.Execution.Effects.{Effect, Hashing, assert_identity_compatible}
use patch_loop.Contracts.{LeaseGuard, Result, err, ok}
use patch_loop.Common.{
  ==-refl, Bool, Instant, List, Option, Option-cases, [], ap, arith, false, find, inl, inr, is_none,
  none, not, refl, some, subst, sym, ℕ, ◌∙◌, ◌∷◌, ◌≡◌, Key,
}

find-lookup :
    (p : Effect → Bool) (d : Dict Effect) (k : Key) (e : Effect)
    → find p (values d) ≡ none
    → lookup k d ≡ some e
    → p e ≡ false
unfolding find values lookup
find-lookup p [] k e missed found = cc
find-lookup p ((j, w) ∷ d) k e missed found = ground (arith, find-lookup p d k e)

unknown_key :
    (d : Dict Effect) (e : Effect)
    → Keyed effect_key d
    → find (clash e) (values d) ≡ none
    → lookup e.id d ≡ none
unknown_key d e keyed missed = elim (Option-cases (lookup e.id d)) [
  | inl missing ↦ missing
  | inr (x, found) ↦
      let same : x.id ≡ e.id = lookup-Keyed effect_key e.id x d keyed found in
      let differs : clash e x ≡ false = find-lookup (clash e) d e.id x missed found in
      absurd (ground (arith, same, differs, ==-refl e.id))
]

continue-ok :
    (r : Result (List Effect × List Effect))
    (f : List Effect → List Effect → Result (List Effect × List Effect))
    {q : List Effect × List Effect}
    → continue_with r f ≡ ok q
    → (xs : List Effect) × (ys : List Effect) × (r ≡ ok (xs, ys)) × (f xs ys ≡ ok q)
continue-ok (ok (xs, ys)) f h = (xs, ys, refl, h)
continue-ok (err e) f h = cc

place_all-Fresh :
    (h : Hashing) (d : Dict Effect) (es : List Effect) {r a : List Effect}
    → Keyed effect_key d
    → place_all h d es ≡ ok (r, a)
    → Fresh d a
unfolding place_all Fresh
place_all-Fresh h d [] {r} {a} keyed eq =
    let empty : [] ≡ a = ground arith in subst (Fresh d) empty tt
place_all-Fresh h d (e ∷ es) {r} {a} keyed eq = elim (Option-cases (find (clash e) (values d))) [
  | inl new ↦
      let body : continue_with (place_all h d es) (λ prepared added. ok (e ∷ prepared, e ∷ added))
          ≡ ok (r, a) =
        ground (arith, new) in
      let (xs, ys, rest, made) = continue-ok (place_all h d es) _ body in
      let is_it : e ∷ ys ≡ a = ground (arith, made) in
      subst (Fresh d) is_it (unknown_key d e keyed new, place_all-Fresh h d es keyed rest)
  | inr (x, stored) ↦ elim (Option-cases (assert_identity_compatible h x e)) [
    | inl same ↦
        let body : continue_with (place_all h d es) (λ prepared added. ok (x ∷ prepared, added))
            ≡ ok (r, a) =
          ground (arith, stored, same) in
        let (xs, ys, rest, made) = continue-ok (place_all h d es) _ body in
        let is_it : ys ≡ a = ground (arith, made) in
        subst (Fresh d) is_it (place_all-Fresh h d es keyed rest)
    | inr (error, other) ↦ absurd (ground (arith, stored, other))
  ]
]

module _ (env : Env) where
  prepared-frame :
      (task : Task) (es : List Effect) (s : Store)
      → ((journal_prepared env task es s).1.effects ≡ s.effects)
        × ((journal_prepared env task es s).1.approvals ≡ s.approvals)
  unfolding journal_prepared
  prepared-frame task [] s = (refl, refl)
  prepared-frame task (e ∷ es) s = journal_task_frame env task _ _ _ _ s

  pub prepare_effect_batch-Adds :
      (step : AgentStep) (es : List Effect) (expected : ℕ) (guard : Option LeaseGuard)
      (now : Instant) (s : Store) {r : List Effect} {s' : Store}
      → Keyed effect_key s.effects
      → prepare_effect_batch env step es expected guard now s ≡ (ok r, s')
      → Adds s s'
  unfolding prepare_effect_batch
  prepare_effect_batch-Adds step es expected guard now s {r} {s'} keyed h =
      let (_, h1) = raise_if-ok (is_none step.model_response) _ s _ h in
      let (_, h2) = raise_if-ok (not (same_keys step.effect_ids (ids es))) _ s _ h1 in
      let (_, h3) = raise_if-ok (misplaced step 0 es) _ s _ h2 in
      let (task, _, h4) = fetch-ok (lookup step.task_id s.tasks) _ s _ h3 in
      let (_, _, h5) =
        read-ok (require_session_guard task guard now s) s _
          (session_guard_store env task guard now s) h4 in
      let (_, h6) = check_version-ok task.id task.version (some expected) s _ h5 in
      let (_, h7) =
        raise_if-ok (clashes (lookup_pair step.task_id step.index s.steps) step) _ s _ h6 in
      let all = place_all env.hashing s.effects es in
      let ((result, added), t, given, h8) = resume-ok (from_result all s) _ h7 in
      let prepared = from_result-ok all s given in
      let kept : t ≡ s = ground (arith, prepared, given) in
      let u : Store = record t {
        steps = insert_pair step.task_id step.index step t.steps;
        effects = insert_all added t.effects;
      } in
      let (_, v, journaled, h9) =
        resume-ok (journal_prepared env task added u) (λ _. pure result) h8 in
      let (effects, approvals) = prepared-frame task added u in
      let first : (journal_prepared env task added u).1 ≡ v =
        ap (λ (q : Result (Unit {0}) × Store). q.1) journaled in
      let last : v ≡ s' = ap (λ (q : Result (List Effect) × Store). q.1) h9 in
      record {
        added = added;
        fresh = place_all-Fresh env.hashing s.effects es keyed prepared;
        effects =
            ap (λ (q : Store). q.effects) (sym (first ∙ last))
            ∙ effects
            ∙ ap (λ (q : Store). insert_all added q.effects) kept;
        approvals =
            ap (λ (q : Store). q.approvals) (sym (first ∙ last))
            ∙ approvals
            ∙ ap (λ (q : Store). q.approvals) kept;
      }
