-- ===== src/Common/Members.antt =====
-- Membership of a number in a list as a Boolean, and Python's `sorted` and `set` on lists.
use Prim.Native.Nat.{◌+◌, suc}
use mathlib.Core.Path.{◌≡◌, refl, ap}
use mathlib.Core.Bool.{Bool, false, ◌&&◌, ◌||◌}
use mathlib.Core.List.{List, [], ◌∷◌, ◌++◌, map}
use native.Mathlib.Omega.{arith}
use patch_loop.Common.Tests.{Key, ◌==◌, leb, if◌then◌else◌, keep, length}

-- `k in xs`
unfoldable pub mem : Key → List Key → Bool
mem k [] = false
mem k (x ∷ xs) = x == k || mem k xs

-- The list without repetitions, as the keys of a `dict` made from it.
unfoldable pub distinct : List Key → List Key
unfolding mem
distinct [] = []
distinct (x ∷ xs) = let rest = distinct xs in if mem x xs then rest else x ∷ rest

insert_sorted : Key → List Key → List Key
insert_sorted k [] = k ∷ []
insert_sorted k (x ∷ xs) = let rest = insert_sorted k xs in if leb k x then k ∷ x ∷ xs else x ∷ rest

-- `sorted(xs)`
unfoldable pub sorted : List Key → List Key
unfolding insert_sorted
sorted [] = []
sorted (x ∷ xs) = insert_sorted x (sorted xs)

pub mem-append : (k : Key) (xs ys : List Key) → mem k (xs ++ ys) ≡ (mem k xs || mem k ys)
unfolding mem
mem-append k [] ys = ground arith
mem-append k (x ∷ xs) ys = ground (arith, mem-append k xs ys)

pub mem-keep : (p : Key → Bool) (k : Key) (xs : List Key) → mem k (keep p xs) ≡ (p k && mem k xs)
unfolding mem keep
mem-keep p k [] = ground arith
mem-keep p k (x ∷ xs) = ground (arith, mem-keep p k xs)

pub mem-distinct : (k : Key) (xs : List Key) → mem k (distinct xs) ≡ mem k xs
unfolding mem distinct
mem-distinct k [] = ground arith
mem-distinct k (x ∷ xs) = ground (arith, mem-distinct k xs)

mem-insert_sorted : (k j : Key) (xs : List Key) → mem k (insert_sorted j xs) ≡ (j == k || mem k xs)
unfolding mem insert_sorted
mem-insert_sorted k j [] = ground arith
mem-insert_sorted k j (x ∷ xs) = ground (arith, mem-insert_sorted k j xs)

pub mem-sorted : (k : Key) (xs : List Key) → mem k (sorted xs) ≡ mem k xs
unfolding mem sorted
mem-sorted k [] = ground arith
mem-sorted k (x ∷ xs) = ground (arith, mem-sorted k xs, mem-insert_sorted k x (sorted xs))

pub distinct-snoc :
    (k : Key) (xs : List Key)
    → mem k xs ≡ false
    → length (distinct (xs ++ (k ∷ []))) ≡ length (distinct xs) + 1
unfolding distinct mem
distinct-snoc k [] h = refl
distinct-snoc k (x ∷ xs) h = ground (arith, distinct-snoc k xs, mem-append x xs (k ∷ []))

module _ {ℓ} {A : Type ℓ} (f : A → Key) where
  pub map-snoc : (xs : List A) (a : A) → map f (xs ++ (a ∷ [])) ≡ map f xs ++ (f a ∷ [])
  map-snoc [] a = refl
  map-snoc (x ∷ xs) a = ap (λ l. f x ∷ l) (map-snoc xs a)

  pub length-map : (xs : List A) → length (map f xs) ≡ length xs
  length-map [] = refl
  length-map (x ∷ xs) = ap suc (length-map xs)
