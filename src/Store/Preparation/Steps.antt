-- ===== src/Store/Preparation/Steps.antt =====
-- What `prepare_effects` of src/patchloop/persistence_contracts.py writes: effects that were not
-- stored.
use patch_loop.Session.{EventType}
use patch_loop.Domain.{Task}
use patch_loop.Store.Leases.{require_session_guard}
use patch_loop.Store.Journal.{journal_task}
use patch_loop.Store.Lifecycle.{stays, Progress, Sound, approval_key, effect_key}
use patch_loop.Store.Preparation.{
  ids, prepare_effects, write_prepared, insert_all, prepare_all, stored_for,
}
use patch_loop.Execution.Effects.{Effect, Hashing, assert_identity_compatible}
use patch_loop.Store.State.{
  Env, check_version-ok, fetch-ok, from_result, from_result-ok, pure, raise_if-ok, read-ok,
  resume-ok, Store,
}
use patch_loop.Contracts.{LeaseGuard, Result, ok}
use patch_loop.Common.Dict.{Dict, Keyed, insert, insert-Keyed, lookup, lookup-insert}
use patch_loop.Common.{
  Instant, Option, any, not, ℕ, ◌==◌, List, Option-cases, [], ap, arith, inl, inr, none, some,
  subst, sym, ◌++◌, ◌∙◌, ◌∷◌, ◌≡◌, Key,
}

-- None of the effects is stored.
unfoldable pub Fresh : Dict Effect → List Effect → Type 0
Fresh d [] = Unit
Fresh d (e ∷ es) = (lookup e.id d ≡ none) × Fresh d es

pub Fresh-snoc :
    (d : Dict Effect) (es : List Effect) (e : Effect)
    → Fresh d es
    → lookup e.id d ≡ none
    → Fresh d (es ++ (e ∷ []))
unfolding Fresh
Fresh-snoc d [] e h new = (new, tt)
Fresh-snoc d (x ∷ es) e (first, rest) new = (first, Fresh-snoc d es e rest new)

insert_all-kept :
    (d c : Dict Effect) (es : List Effect) (k : Key) (e : Effect)
    → Fresh d es
    → lookup k d ≡ some e
    → lookup k c ≡ some e
    → lookup k (insert_all es c) ≡ some e
unfolding Fresh insert_all
insert_all-kept d c [] k e fresh old now = now
insert_all-kept d c (x ∷ es) k e (first, rest) old now =
    insert_all-kept d (insert x.id x c) es k e rest old
      (ground (arith, first, old, now, lookup-insert x.id k x c))

insert_all-Keyed :
    (c : Dict Effect) (es : List Effect) → Keyed effect_key c → Keyed effect_key (insert_all es c)
unfolding insert_all
insert_all-Keyed c [] h = h
insert_all-Keyed c (x ∷ es) h =
    insert_all-Keyed (insert x.id x c) es (insert-Keyed effect_key x c h)

-- A call that adds effects.
pub record Adds (s t : Store) : Type 0 where
  pub added : List Effect
  pub fresh : Fresh s.effects added
  pub effects : t.effects ≡ insert_all added s.effects
  pub approvals : t.approvals ≡ s.approvals

pub Adds-Progress : (s t : Store) → Adds s t → Progress s t
Adds-Progress s t a k e found = (
  e,
  ap (lookup k) a.effects ∙ insert_all-kept s.effects s.effects a.added k e a.fresh found found,
  stays,
)

pub Adds-Sound : (s t : Store) → Sound s → Adds s t → Sound t
Adds-Sound s t sound a = record {
  effects =
      subst (Keyed effect_key) (sym a.effects) (insert_all-Keyed s.effects a.added sound.effects);
  approvals = subst (Keyed approval_key) (sym a.approvals) sound.approvals;
  awaited = λ i x found pending.
      let (e, at, waits, its) =
        sound.awaited i x (ap (lookup i) (sym a.approvals) ∙ found) pending in
      (
        e,
        ap (lookup x.effect_id) a.effects
            ∙ insert_all-kept s.effects s.effects a.added x.effect_id e a.fresh at at,
        waits,
        its,
      );
}

stored_for-none :
    (d : Dict Effect) (added : List Effect) (e : Effect)
    → stored_for d added e ≡ none
    → lookup e.id d ≡ none
stored_for-none d added e h = elim (Option-cases (lookup e.id d)) [
  | inl missing ↦ missing
  | inr (x, found) ↦ absurd (ground (arith, found))
]

prepare_all-Fresh :
    (h : Hashing) (d : Dict Effect) (result added es : List Effect) {r a : List Effect}
    → Fresh d added
    → prepare_all h d result added es ≡ ok (r, a)
    → Fresh d a
unfolding prepare_all
prepare_all-Fresh h d result added [] fresh eq = subst (Fresh d) (ground arith) fresh
prepare_all-Fresh h d result added (e ∷ es) {r} {a} fresh eq =
    elim (Option-cases (stored_for d added e)) [
      | inl new ↦
          let rest : prepare_all h d (result ++ e ∷ []) (added ++ e ∷ []) es ≡ ok (r, a) =
            ground (arith, new) in
          prepare_all-Fresh h d (result ++ e ∷ []) (added ++ e ∷ []) es
            (Fresh-snoc d added e fresh (stored_for-none d added e new)) rest
      | inr (x, stored) ↦ elim (Option-cases (assert_identity_compatible h x e)) [
        | inl same ↦
            let rest : prepare_all h d (result ++ x ∷ []) added es ≡ ok (r, a) =
              ground (arith, stored, same) in
            prepare_all-Fresh h d (result ++ x ∷ []) added es fresh rest
        | inr (error, other) ↦ absurd (ground (arith, stored, other))
      ]
    ]

module _ (env : Env) where
  pub journal_task_frame :
      (task : Task) (type : EventType) (k : Key) (r : List ℕ) (trace : Option Key) (s : Store)
      → ((journal_task env task type k r trace s).1.effects ≡ s.effects)
        × ((journal_task env task type k r trace s).1.approvals ≡ s.approvals)
  unfolding journal_task
  journal_task_frame task type k r trace s = (ground arith, ground arith)

  write_prepared-effects :
      (task : Task) (expected : ℕ) (es : List Effect) (s s' : Store)
      → write_prepared env task expected es s ≡ (ok tt, s')
      → (s'.effects ≡ insert_all es s.effects) × (s'.approvals ≡ s.approvals)
  unfolding write_prepared insert_all
  write_prepared-effects task expected [] s s' h = (ground arith, ground arith)
  write_prepared-effects task expected (e ∷ es) s s' h =
      let (_, h1) = check_version-ok e.task_id task.version (some expected) s _ h in
      let u : Store = record s { effects = insert_all (e ∷ es) s.effects } in
      let (effects, approvals) =
        journal_task_frame task EventType.effects_prepared task.id (ids (e ∷ es)) none u in
      let end : (journal_task env task EventType.effects_prepared task.id (ids (e ∷ es)) none u).1
          ≡ s' =
        ap (λ (q : Result (Unit {0}) × Store). q.1) h1 in
      (
        ap (λ (q : Store). q.effects) (sym end) ∙ effects,
        ap (λ (q : Store). q.approvals) (sym end) ∙ approvals,
      )

  pub session_guard_store :
      (task : Task) (guard : Option LeaseGuard) (now : Instant) (s : Store)
      → (require_session_guard task guard now s).1 ≡ s
  unfolding require_session_guard
  session_guard_store task guard now s = ground arith

  pub prepare_effects-Adds :
      (es : List Effect) (expected : ℕ) (guard : Option LeaseGuard) (now : Instant) (s : Store)
      {r : List Effect} {s' : Store}
      → prepare_effects env es expected guard now s ≡ (ok r, s')
      → Adds s s'
  unfolding prepare_effects insert_all Fresh
  prepare_effects-Adds [] expected guard now s {r} {s'} h = record {
    added = [];
    fresh = tt;
    effects = ground arith;
    approvals = ground arith;
  }
  prepare_effects-Adds (e ∷ es) expected guard now s {r} {s'} h =
      let (_, h1) = raise_if-ok (any (λ x. not (x.task_id == e.task_id)) es) _ s _ h in
      let (task, _, h2) = fetch-ok (lookup e.task_id s.tasks) _ s _ h1 in
      let (_, _, h3) =
        read-ok (require_session_guard task guard now s) s _ (session_guard_store task guard now s)
          h2 in
      let all = prepare_all env.hashing s.effects [] [] (e ∷ es) in
      let ((result, added), t, given, h4) = resume-ok (from_result all s) _ h3 in
      let prepared = from_result-ok all s given in
      let kept : t ≡ s = ground (arith, prepared, given) in
      let (_, u, wrote, h5) =
        resume-ok (write_prepared env task expected added t) (λ _. pure result) h4 in
      let (effects, approvals) = write_prepared-effects task expected added t u wrote in
      let last : u ≡ s' = ap (λ (q : Result (List Effect) × Store). q.1) h5 in
      record {
        added = added;
        fresh = prepare_all-Fresh env.hashing s.effects [] [] (e ∷ es) tt prepared;
        effects = ground (arith, effects, last, kept);
        approvals = ground (arith, approvals, last, kept);
      }
