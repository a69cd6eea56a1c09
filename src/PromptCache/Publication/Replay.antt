-- ===== src/PromptCache/Publication/Replay.antt =====
-- What replaying published messages rebuilds (src/patchloop/prompt_cache/publication.py).
use patch_loop.Common.{
  arith, refl, ◌∙◌, Key, List, Option, none, some, keep, not, ◌&&◌, ◌++◌, ◌||◌, ◌≡◌, ◌∷◌, [],
}
use patch_loop.Common.Members.{
  mem, distinct, sorted, mem-append, mem-distinct, mem-keep, mem-sorted,
}
use patch_loop.PromptCache.Publication.{
  listed, Category, Payload, apply_delta, items, payload_delta, unless_empty, removed_from,
  added_to,
}

mem-unless_empty : (x : Key) (xs : List Key) → mem x (listed (unless_empty xs)) ≡ mem x xs
mem-unless_empty x [] = refl
mem-unless_empty x (y ∷ ys) = refl

mem-removed_from :
    (x : Key) (o : Option (List Key)) (xs : List Key)
    → mem x (removed_from o xs) ≡ (not (mem x (listed o)) && mem x xs)
unfolding mem
mem-removed_from x none xs = refl
mem-removed_from x (some ys) xs = mem-keep (λ k. not (mem k ys)) x xs

mem-added_to :
    (x : Key) (o : Option (List Key)) (xs : List Key)
    → mem x (added_to o xs) ≡ (mem x xs || mem x (listed o))
unfolding mem
mem-added_to x none xs = ground arith
mem-added_to x (some ys) xs = mem-sorted x (xs ++ ys) ∙ mem-append x xs ys

-- The distinct keys of one list that are not in the other, sorted.
mem-difference :
    (x : Key) (xs ys : List Key)
    → mem x (listed (unless_empty (sorted (distinct (keep (λ k. not (mem k ys)) xs)))))
      ≡ (not (mem x ys) && mem x xs)
mem-difference x xs ys =
    mem-unless_empty x _ ∙ mem-sorted x _ ∙ mem-distinct x _ ∙ mem-keep (λ k. not (mem k ys)) x xs

-- A delta between two payloads, applied to what lists the items of the first.
pub apply_delta-follows :
    (q p c : Payload)
    → ((k : Category) (x : Key) → mem x (items q k) ≡ mem x (items p k))
    → (k : Category) (x : Key)
    → mem x (items (apply_delta q (payload_delta p c)) k) ≡ mem x (items c k)
unfolding apply_delta payload_delta
apply_delta-follows q p c same k x =
    let d = payload_delta p c in
    let kept = removed_from (d.removed k) (items q k) in
    ground (
      arith,
      mem-unless_empty x (added_to (d.added k) kept),
      mem-added_to x (d.added k) kept,
      mem-removed_from x (d.removed k) (items q k),
      mem-difference x (items c k) (items p k),
      mem-difference x (items p k) (items c k),
      same k x,
    )

-- The delta between two payloads, applied to the first, lists under each category exactly the
-- items that the second lists.
pub apply_delta-payload_delta :
    (p c : Payload) (k : Category) (x : Key)
    → mem x (items (apply_delta p (payload_delta p c)) k) ≡ mem x (items c k)
apply_delta-payload_delta p c = apply_delta-follows p p c λ k x. refl
