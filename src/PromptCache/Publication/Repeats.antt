-- ===== src/PromptCache/Publication/Repeats.antt =====
-- Publications of a change that an epoch has published before
-- (src/patchloop/prompt_cache/publication.py).
use patch_loop.Common.Members.{map-snoc, mem, mem-append}
use patch_loop.PromptCache.Publication.Streams.{after, next_state}
use patch_loop.PromptCache.Publication.{
  publish, validate_publication, published, Fingerprints, MemoryDeltaPublisher, Message, Payload,
  PublicationSnapshot, payload_delta, publish_delta, state_for, with_state,
}
use patch_loop.Common.{
  map, Bool-cases, inl, inr, none, ◌==◌, List, [], arith, false, ltb, some, true, ◌++◌, ◌∷◌, ◌≡◌,
  Key,
}

mem-sent :
    (f : Message → Key) (xs : List Message) (a b : Message)
    → mem (f a) (map f ((xs ++ (a ∷ [])) ++ (b ∷ []))) ≡ true
unfolding mem
mem-sent f xs a b = ground (
  arith,
  map-snoc f (xs ++ (a ∷ [])) b,
  map-snoc f xs a,
  mem-append (f a) (map f xs ++ (f a ∷ [])) (f b ∷ []),
  mem-append (f a) (map f xs) (f a ∷ []),
)

module _ (fp : Fingerprints) where
  -- A delta that was sent is that to the next state, and was within the budget.
  record Sent (s : PublicationSnapshot) (p : Payload) (self after : MemoryDeltaPublisher)
      : Type 0 where
    state : after.state ≡ some (next_state fp s p)
    budget : after.max_delta_tokens ≡ self.max_delta_tokens
    fits :
        ltb self.max_delta_tokens
          (fp.estimate_tokens (Message.delta (payload_delta s.current_payload p)))
        ≡ false

  with_state-Sent :
      (s : PublicationSnapshot) (p : Payload) (self after : MemoryDeltaPublisher) (sent m : Message)
      → ltb self.max_delta_tokens
          (fp.estimate_tokens (Message.delta (payload_delta s.current_payload p)))
        ≡ false
      → with_state fp self sent (state_for fp (next_state fp s p)) ≡ published (after, some m)
      → Sent s p self after
  unfolding state_for
  with_state-Sent s p self after sent m fits h =
      elim (Bool-cases (validate_publication fp (next_state fp s p))) [
        | inl valid ↦ record { state = ground arith; budget = ground arith; fits = fits }
        | inr invalid ↦ ground arith
      ]

  publish_delta-Sent :
      (s : PublicationSnapshot) (p : Payload) (self after : MemoryDeltaPublisher) (m : Message)
      → publish_delta fp s p self ≡ published (after, some m)
      → Sent s p self after
  unfolding publish_delta
  publish_delta-Sent s p self after m h =
      let sent = Message.delta (payload_delta s.current_payload p) in
      elim (Bool-cases (s.current_fingerprint == fp.payload_fingerprint p)) [
        | inl same ↦ ground arith
        | inr changed ↦ elim (Bool-cases (ltb self.max_delta_tokens (fp.estimate_tokens sent))) [
          | inl large ↦ ground arith
          | inr fits ↦
              elim (Bool-cases (mem (fp.message_fingerprint sent) s.message_fingerprints)) [
                | inl known ↦ ground arith
                | inr new ↦ with_state-Sent s p self after sent m fits (ground arith)
              ]
        ]
      ]

  publish-Sent :
      (e : Key) (s : PublicationSnapshot) (p : Payload) (self after : MemoryDeltaPublisher)
      (m : Message)
      → self.state ≡ some s
      → (s.epoch_id == e) ≡ true
      → publish fp e p self ≡ published (after, some m)
      → Sent s p self after
  unfolding publish
  publish-Sent e s p self after m state epoch h = publish_delta-Sent s p self after m (ground arith)

  -- A delta whose fingerprint is among those sent is not sent.
  publish-known :
      (e : Key) (s : PublicationSnapshot) (p : Payload) (self : MemoryDeltaPublisher)
      → self.state ≡ some s
      → (s.epoch_id == e) ≡ true
      → ltb self.max_delta_tokens
          (fp.estimate_tokens (Message.delta (payload_delta s.current_payload p)))
        ≡ false
      → mem
          (fp.message_fingerprint (Message.delta (payload_delta s.current_payload p)))
          s.message_fingerprints
        ≡ true
      → publish fp e p self ≡ published (self, none)
  unfolding publish publish_delta
  publish-known e s p self state epoch fits known = ground arith

  -- After the memory of an epoch has gone from one payload to another and back, each time with a
  -- delta published, the same change is not published again: the publisher stays as it is and
  -- gives no message.
  pub publish_change_once :
      (e : Key) (c : Payload) (s : PublicationSnapshot) (self there back : MemoryDeltaPublisher)
      (m n : Message)
      → self.state ≡ some s
      → (s.epoch_id == e) ≡ true
      → publish fp e c self ≡ published (there, some m)
      → publish fp e s.current_payload there ≡ published (back, some n)
      → publish fp e c back ≡ published (back, none)
  publish_change_once e c s self there back m n state epoch change revert =
      let go = publish-Sent e s c self there m state epoch change in
      let t = next_state fp s c in
      let return = publish-Sent e t s.current_payload there back n go.state epoch revert in
      publish-known e (next_state fp t s.current_payload) c back return.state epoch
        (ground (arith, go.fits, go.budget, return.budget))
        (mem-sent fp.message_fingerprint s.messages
          (Message.delta (payload_delta s.current_payload c))
          (Message.delta (payload_delta c s.current_payload)))
