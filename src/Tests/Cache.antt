-- ===== src/Tests/Cache.antt =====
-- The theorems on the publications of the memory, at concrete payloads.
use patch_loop.Common.Members.{mem}
use patch_loop.PromptCache.Publication.Repeats.{publish_change_once}
use patch_loop.PromptCache.Publication.Replay.{apply_delta-payload_delta}
use patch_loop.PromptCache.Publication.Streams.{
  Held, Outcome, next_state, publish-Outcome, run, run-Held,
}
use patch_loop.PromptCache.Publication.{
  published, Category, MemoryDeltaPublisher, Message, Payload, PublicationSnapshot, apply_delta,
  items, made, payload_delta, publish,
}
use patch_loop.Common.{keep, List, [], none, refl, some, ◌∷◌, ◌≡◌, Key}
use patch_loop.Samples.{facts_only, fingerprints, no_publication}

apply_delta-payload_delta_example :
    mem 3 (
      items
        (apply_delta
          (facts_only (2 ∷ 5 ∷ []))
          (payload_delta (facts_only (2 ∷ 5 ∷ [])) (facts_only (3 ∷ 2 ∷ []))))
        Category.facts)
    ≡ mem 3 (items (facts_only (3 ∷ 2 ∷ [])) Category.facts)
apply_delta-payload_delta_example =
    apply_delta-payload_delta (facts_only (2 ∷ 5 ∷ [])) (facts_only (3 ∷ 2 ∷ [])) Category.facts 3

delta_test :
    apply_delta
      (facts_only (2 ∷ 5 ∷ []))
      (payload_delta (facts_only (2 ∷ 5 ∷ [])) (facts_only (3 ∷ 2 ∷ [])))
      Category.facts
    ≡ some (2 ∷ 3 ∷ [])
unfolding apply_delta payload_delta keep
delta_test = refl

abbrev calls : List (Key × Payload)
calls = (1, facts_only (2 ∷ [])) ∷ (1, facts_only (3 ∷ [])) ∷ (2, facts_only []) ∷ []

empty_Held : Held fingerprints no_publication.state
unfolding Held
empty_Held = tt

run-Held_example : Held fingerprints (run fingerprints calls no_publication).state
run-Held_example = run-Held fingerprints calls no_publication empty_Held

abbrev first_call : MemoryDeltaPublisher
first_call = run fingerprints ((1, facts_only (2 ∷ [])) ∷ []) no_publication

publish-Outcome_example :
    Outcome fingerprints first_call (publish fingerprints 1 (facts_only (3 ∷ [])) first_call)
publish-Outcome_example =
    publish-Outcome fingerprints 1 (facts_only (3 ∷ [])) first_call
      (run-Held fingerprints ((1, facts_only (2 ∷ [])) ∷ []) no_publication empty_Held)

abbrev two : PublicationSnapshot
two = made fingerprints 1 3 3 (facts_only (2 ∷ [])) (Message.snapshot (facts_only (2 ∷ [])) ∷ []) 0

abbrev three : PublicationSnapshot
three = next_state fingerprints two (facts_only (3 ∷ []))

abbrev holds : PublicationSnapshot → MemoryDeltaPublisher
holds s = record { state = some s; max_delta_tokens = 64 }

abbrev sent : PublicationSnapshot → Key → Message
sent s k = Message.delta (payload_delta s.current_payload (facts_only (k ∷ [])))

publish_change_once_example :
    publish fingerprints 1
      (facts_only (3 ∷ []))
      (holds (next_state fingerprints three (facts_only (2 ∷ []))))
    ≡ published (holds (next_state fingerprints three (facts_only (2 ∷ []))), none)
unfolding publish payload_delta keep
publish_change_once_example =
    publish_change_once fingerprints 1 (facts_only (3 ∷ [])) two (holds two) (holds three)
      (holds (next_state fingerprints three (facts_only (2 ∷ [])))) (sent two 3) (sent three 2) refl
      refl refl refl
