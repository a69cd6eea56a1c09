-- ===== src/Store/Lifecycle.antt =====
-- The life of an effect (src/patchloop/persistence_contracts.py): which statuses follow which, and
-- what holds of the effects and the approvals of a store between calls.
pub mod Runs
pub mod Histories
use patch_loop.Store.State.{Store}
use patch_loop.Execution.Approvals.{Approval, is_pending}
use patch_loop.Execution.Effects.{Effect, EffectStatus, is_waiting}
use patch_loop.Common.Dict.{Dict, Keyed, insert, insert-Keyed, lookup, lookup-insert}
use patch_loop.Common.{
  Bool, false, not, Bool-cases, Option, ap, arith, inl, inr, none, some, subst, sym, true, ◌==◌,
  ◌∙◌, ◌≡◌, ◌⊎◌, Key,
}

-- What one call may make of an effect.
pub data Step : EffectStatus → EffectStatus → Type 0 where
  asks : Step EffectStatus.prepared EffectStatus.waiting_for_approval
  allows : Step EffectStatus.waiting_for_approval EffectStatus.prepared
  refuses : Step EffectStatus.waiting_for_approval EffectStatus.denied
  drops_waiting : Step EffectStatus.waiting_for_approval EffectStatus.cancelled
  denies : Step EffectStatus.prepared EffectStatus.denied
  drops : Step EffectStatus.prepared EffectStatus.cancelled
  starts : Step EffectStatus.prepared EffectStatus.executing
  succeeds : Step EffectStatus.executing EffectStatus.succeeded
  fails : Step EffectStatus.executing EffectStatus.failed
  loses : Step EffectStatus.executing EffectStatus.unknown
  turns_out_well : Step EffectStatus.unknown EffectStatus.succeeded
  turns_out_badly : Step EffectStatus.unknown EffectStatus.failed

pub data Steps : EffectStatus → EffectStatus → Type 0 where
  stays : {a : EffectStatus} → Steps a a
  goes : {a b c : EffectStatus} → Step a b → Steps b c → Steps a c

pub trans-Steps : {a b c : EffectStatus} → Steps a b → Steps b c → Steps a c
trans-Steps stays q = q
trans-Steps (goes x p) q = goes x (trans-Steps p q)

pub one-Steps : {a b : EffectStatus} → Step a b → Steps a b
one-Steps x = goes x stays

abbrev pub effect_key : Effect → Key
effect_key e = e.id

abbrev pub approval_key : Approval → Key
approval_key a = a.id

-- A pending approval is that of an effect that waits for it.
pub record Sound (s : Store) : Type 0 where
  pub effects : Keyed effect_key s.effects
  pub approvals : Keyed approval_key s.approvals
  pub awaited :
      (i : Key) (a : Approval)
      → lookup i s.approvals ≡ some a
      → is_pending a.status ≡ true
      → (e : Effect) × (lookup a.effect_id s.effects ≡ some e)
        × (is_waiting e.status ≡ true)
        × (e.approval_id ≡ some i)

-- Every effect is still there, and has gone along the steps.
abbrev pub Progress : Store → Store → Type 0
Progress s t =
    (k : Key) (e : Effect)
    → lookup k s.effects ≡ some e
    → (f : Effect) × (lookup k t.effects ≡ some f) × Steps e.status f.status

pub refl-Progress : (s t : Store) → t.effects ≡ s.effects → Progress s t
refl-Progress s t h k e found = (e, ap (lookup k) h ∙ found, stays)

pub trans-Progress : (s t u : Store) → Progress s t → Progress t u → Progress s u
trans-Progress s t u p q k e found =
    let (f, found_f, steps) = p k e found in
    let (g, found_g, more) = q k f found_f in (g, found_g, trans-Steps steps more)

-- What was stored under the key of a new value.
abbrev pub Before : Option Effect → Effect → Type 0
Before none f = Unit
Before (some e) f = Steps e.status f.status

-- A pending approval after a write of the effect at the key: an old one of another effect, or that
-- which the written effect waits for.
abbrev pub Fits : Store → Effect → Store → Type 0
Fits s f t =
    (i : Key) (a : Approval)
    → lookup i t.approvals ≡ some a
    → is_pending a.status ≡ true
    → ((lookup i s.approvals ≡ some a) × (a.effect_id ≡ f.id → ⊥))
      ⊎ ((a.effect_id ≡ f.id) × (is_waiting f.status ≡ true) × (f.approval_id ≡ some i))

-- A call that writes one effect.
pub record Writes (s t : Store) : Type 0 where
  pub written : Effect
  pub effects : t.effects ≡ insert written.id written s.effects
  pub approvals : Keyed approval_key t.approvals
  pub before : Before (lookup written.id s.effects) written
  pub fits : Fits s written t

same_key_lookup :
    (s : Store) (i k : Key) → (i == k) ≡ true → lookup i s.effects ≡ lookup k s.effects
same_key_lookup s i k h = ap (λ (j : Key). lookup j s.effects) (ground arith)

pub Writes-Progress : (s t : Store) → Writes s t → Progress s t
Writes-Progress s t w k e found = elim (Bool-cases (w.written.id == k)) [
  | inl here ↦ (
    w.written,
    ground (arith, w.effects, lookup-insert w.written.id k w.written s.effects),
    subst (λ (o : Option Effect). Before o w.written)
        (same_key_lookup s w.written.id k here ∙ found) w.before,
  )
  | inr there ↦
      (e, ground (arith, w.effects, lookup-insert w.written.id k w.written s.effects), stays)
]

pub Writes-Sound : (s t : Store) → Sound s → Writes s t → Sound t
Writes-Sound s t sound w = record {
  effects =
      subst (Keyed effect_key) (sym w.effects)
        (insert-Keyed effect_key w.written s.effects sound.effects);
  approvals = w.approvals;
  awaited = λ i a found pending. elim (w.fits i a found pending) [
    | inl (old, other) ↦
        let (e, stored, waits, its) = sound.awaited i a old pending in
        (
          e,
          ground (
            arith,
            w.effects,
            other,
            stored,
            lookup-insert w.written.id a.effect_id w.written s.effects,
          ),
          waits,
          its,
        )
    | inr (its, waits, waited) ↦ (
      w.written,
      ground (arith, w.effects, its, lookup-insert w.written.id a.effect_id w.written s.effects),
      waits,
      waited,
    )
  ];
}

pub quiet-Sound :
    (s t : Store) → Sound s → t.effects ≡ s.effects → t.approvals ≡ s.approvals → Sound t
quiet-Sound s t sound e a = record {
  effects = subst (Keyed effect_key) (sym e) sound.effects;
  approvals = subst (Keyed approval_key) (sym a) sound.approvals;
  awaited = λ i x found pending.
      let (f, stored, waits, its) = sound.awaited i x (ap (lookup i) (sym a) ∙ found) pending in
      (f, ap (lookup x.effect_id) e ∙ stored, waits, its);
}

-- No pending approval is that of an effect that does not wait.
pub unawaited :
    (s : Store) (e : Effect) (k i : Key) (a : Approval)
    → Sound s
    → lookup k s.effects ≡ some e
    → is_waiting e.status ≡ false
    → lookup i s.approvals ≡ some a
    → is_pending a.status ≡ true
    → a.effect_id ≡ k
    → ⊥
unawaited s e k i a sound stored idle found pending its =
    let (f, at, waits, _) = sound.awaited i a found pending in ground (arith, at, waits, idle, its)

-- The approvals after a write of one that is not pending, if any.
abbrev pub put_some : Option Approval → Dict Approval → Dict Approval
put_some none d = d
put_some (some a) d = insert a.id a d

abbrev pub is_over : Option Approval → Bool
is_over none = true
is_over (some a) = not (is_pending a.status)

pub put_some-Keyed :
    (o : Option Approval) (d : Dict Approval)
    → Keyed approval_key d
    → Keyed approval_key (put_some o d)
put_some-Keyed none d h = h
put_some-Keyed (some a) d h = insert-Keyed approval_key a d h

pub put_some-old :
    (o : Option Approval) (d : Dict Approval) (i : Key) (a : Approval)
    → is_over o ≡ true
    → lookup i (put_some o d) ≡ some a
    → is_pending a.status ≡ true
    → lookup i d ≡ some a
put_some-old none d i a over found pending = found
put_some-old (some b) d i a over found pending = ground (arith, lookup-insert b.id i b d)

-- A write of an effect that did not wait, with an approval that is over.
pub idle-Writes :
    (s t : Store) (e f : Effect) (o : Option Approval)
    → Sound s
    → lookup f.id s.effects ≡ some e
    → is_waiting e.status ≡ false
    → Steps e.status f.status
    → is_over o ≡ true
    → t.effects ≡ insert f.id f s.effects
    → t.approvals ≡ put_some o s.approvals
    → Writes s t
idle-Writes s t e f o sound stored idle steps over effects approvals = record {
  written = f;
  effects = effects;
  approvals =
      subst (Keyed approval_key) (sym approvals) (put_some-Keyed o s.approvals sound.approvals);
  before = subst (λ (q : Option Effect). Before q f) (sym stored) steps;
  fits = λ i a found pending.
      let old =
        put_some-old o s.approvals i a over (ap (lookup i) (sym approvals) ∙ found) pending in
      inl (old, unawaited s e f.id i a sound stored idle old pending);
}

-- What a call that returns has done: one effect written, or no effect and no approval.
abbrev pub Change : Store → Store → Type 0
Change s t = Writes s t ⊎ ((t.effects ≡ s.effects) × (t.approvals ≡ s.approvals))
