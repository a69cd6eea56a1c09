-- ===== src/Common/Dict.antt =====
-- A Python `dict`: an association list in insertion order. An assignment to a present key keeps
-- its place.
use mathlib.Core.Path.{◌≡◌, refl, ap}
use mathlib.Core.Bool.{Bool, true, false}
use mathlib.Core.Option.{Option, none, some}
use mathlib.Core.List.{List, [], ◌∷◌, Memᴰ}
use mathlib.Core.Logic.{inl, inr}
use native.Mathlib.Omega.{arith}
use patch_loop.Common.Tests.{Key, ◌==◌, if◌then◌else◌, is_none, any, Bool-cases}

abbrev pub Dict {ℓ} : Type ℓ → Type ℓ
Dict V = List (Key × V)

module _ {ℓ} {V : Type ℓ} where
  -- `d.get(k)`
  unfoldable pub lookup : Key → Dict V → Option V
  lookup k [] = none
  lookup k ((j, v) ∷ d) = if j == k then some v else lookup k d

  -- `d[k] = v`
  unfoldable pub insert : Key → V → Dict V → Dict V
  insert k v [] = (k, v) ∷ []
  insert k v ((j, w) ∷ d) = if j == k then (k, v) ∷ d else (j, w) ∷ insert k v d

  -- `list(d.values())`
  unfoldable pub values : Dict V → List V
  values [] = []
  values ((j, v) ∷ d) = v ∷ values d

  -- `k in d`
  abbrev pub has_key : Key → Dict V → Bool
  has_key k d = if is_none (lookup k d) then false else true

  pub lookup-insert :
      (k j : Key) (v : V) (d : Dict V)
      → lookup j (insert k v d) ≡ (if k == j then some v else lookup j d)
  unfolding lookup insert
  lookup-insert k j v [] = refl
  lookup-insert k j v ((i, w) ∷ d) = ground (arith, lookup-insert k j v d)

  pub lookup-insert_self : (k : Key) (v : V) (d : Dict V) → lookup k (insert k v d) ≡ some v
  lookup-insert_self k v d = ground (arith, lookup-insert k k v d)

  -- A test that every value fails, fails at each key.
  pub lookup-any :
      (p : V → Bool) (k : Key) (v : V) (d : Dict V)
      → any p (values d) ≡ false
      → lookup k d ≡ some v
      → p v ≡ false
  unfolding lookup values any
  lookup-any p k v [] none_such hit = ground arith
  lookup-any p k v ((j, w) ∷ d) none_such hit = ground (arith, lookup-any p k v d)

-- A dictionary whose values carry their key, each key once.
module _ {ℓ} {V : Type ℓ} (id : V → Key) where
  abbrev pub Keyed : Dict V → Type ℓ
  Keyed [] = Unit
  Keyed ((k, v) ∷ d) = (id v ≡ k) × (lookup k d ≡ none) × Keyed d

  pub insert-Keyed : (v : V) (d : Dict V) → Keyed d → Keyed (insert (id v) v d)
  unfolding insert lookup
  insert-Keyed v [] h = (refl, refl, tt)
  insert-Keyed v ((k, w) ∷ d) h = ground (arith, insert-Keyed v d h.2, lookup-insert (id v) k v d)

  pub lookup-Keyed : (k : Key) (v : V) (d : Dict V) → Keyed d → lookup k d ≡ some v → id v ≡ k
  unfolding lookup
  lookup-Keyed k v [] h e = cc
  lookup-Keyed k v ((j, w) ∷ d) h e = ground (arith, lookup-Keyed k v d h.2)

  -- Among the values, and at its own key, are the same.
  pub lookup-Memᴰ : (k : Key) (v : V) (d : Dict V) → lookup k d ≡ some v → Memᴰ v (values d)
  unfolding lookup values
  lookup-Memᴰ k v [] e = cc
  lookup-Memᴰ k v ((j, w) ∷ d) e = elim (Bool-cases (j == k)) [
    | inl same ↦ Memᴰ.head (ground arith)
    | inr other ↦ Memᴰ.tail (lookup-Memᴰ k v d (ground arith))
  ]

  pub Memᴰ-lookup : (v : V) (d : Dict V) → Keyed d → Memᴰ v (values d) → lookup (id v) d ≡ some v
  unfolding lookup values
  Memᴰ-lookup v [] h m = elim m [ ]
  Memᴰ-lookup v ((j, w) ∷ d) h (Memᴰ.head p) = ground (arith, ap id p)
  Memᴰ-lookup v ((j, w) ∷ d) h (Memᴰ.tail m) = ground (arith, Memᴰ-lookup v d h.2 m)
