-- ===== src/PromptCache/Publication/Streams.antt =====
-- Streams of publications (src/patchloop/prompt_cache/publication.py).
use patch_loop.PromptCache.Publication.Replay.{apply_delta-follows}
use patch_loop.Common.Members.{distinct-snoc, map-snoc, mem}
use patch_loop.PromptCache.Publication.{
  of_epoch, publish, publish_over, refused, MemoryDeltaPublisher, PublicationError, Published,
  payload_delta, publish_delta, publish_snapshot, state_for, Fingerprints, PublicationSnapshot,
  made, validate_publication, published, Category, Delta, Message, Payload, apply_delta, items,
  replay, replay_all,
}
use patch_loop.Common.{
  if◌then◌else◌, subst, sym, Bool-cases, inl, ltb, ◌==◌, Option, inr, none, refl, some, ◌⊎◌,
  ==-refl, length-append, ◌<◌, arith, true, [], false, length, map, ◌++◌, ◌+◌, ◌∷◌, ◌≡◌, Key, List,
}

-- The messages are a snapshot and deltas, and replaying them lists the items of the payload.
pub Follows : List Message → Payload → Type 0
Follows (Message.snapshot p ∷ ms) c =
    (q : Payload) × (replay (Message.snapshot p ∷ ms) ≡ published q)
    × ((k : Category) (x : Key) → mem x (items q k) ≡ mem x (items c k))
Follows _ c = ⊥

replay_all-snoc :
    (p q : Payload) (ms : List Message) (d : Delta)
    → replay_all p ms ≡ published q
    → replay_all p (ms ++ (Message.delta d ∷ [])) ≡ published (apply_delta q d)
unfolding replay_all
replay_all-snoc p q [] d h = ground arith
replay_all-snoc p q (Message.snapshot r ∷ ms) d h = cc
replay_all-snoc p q (Message.delta e ∷ ms) d h = replay_all-snoc (apply_delta p e) q ms d h

module _ (fp : Fingerprints) where
  -- The state of a stream: its messages carry their fingerprints, it passes its validator, and they
  -- follow the payload.
  pub record Faithful (s : PublicationSnapshot) : Type 0 where
    pub filed : s.message_fingerprints ≡ map fp.message_fingerprint s.messages
    pub valid : validate_publication fp s ≡ true
    pub follows : Follows s.messages s.current_payload

  Follows-nonempty : (ms : List Message) (p : Payload) → Follows ms p → 0 < length ms
  unfolding Follows
  Follows-nonempty [] p h = elim h [ ]
  Follows-nonempty (m ∷ ms) p h = omega arith

  first-valid :
      (e : Key) (p : Payload)
      → validate_publication fp (
          made fp e
            (fp.payload_fingerprint p)
            (fp.payload_fingerprint p)
            p
            (Message.snapshot p ∷ [])
            0)
        ≡ true
  unfolding validate_publication
  first-valid e p = ground (arith, ==-refl (fp.payload_fingerprint p))

  next-valid :
      (s : PublicationSnapshot) (p : Payload) (m : Message)
      → Faithful s
      → mem (fp.message_fingerprint m) s.message_fingerprints ≡ false
      → validate_publication fp (
          made fp s.epoch_id s.snapshot_fingerprint
            (fp.payload_fingerprint p)
            p
            (s.messages ++ (m ∷ []))
            (s.delta_count + 1))
        ≡ true
  unfolding validate_publication
  next-valid s p m h new =
      let fs = map fp.message_fingerprint s.messages in
      let f = fp.message_fingerprint m in
      ground (
        arith,
        h.filed,
        h.valid,
        map-snoc fp.message_fingerprint s.messages m,
        length-append s.messages (m ∷ []),
        length-append fs (f ∷ []),
        distinct-snoc f fs,
        Follows-nonempty s.messages s.current_payload h.follows,
        ==-refl (fp.payload_fingerprint p),
      )

  Follows-next :
      (ms : List Message) (p c : Payload)
      → Follows ms p
      → Follows (ms ++ (Message.delta (payload_delta p c) ∷ [])) c
  unfolding Follows replay
  Follows-next [] p c h = elim h [ ]
  Follows-next (Message.delta d ∷ ms) p c h = elim h [ ]
  Follows-next (Message.snapshot r ∷ ms) p c (q, replayed, same) = (
    apply_delta q (payload_delta p c),
    replay_all-snoc r q ms (payload_delta p c) replayed,
    apply_delta-follows q p c same,
  )

  abbrev pub next_state : PublicationSnapshot → Payload → PublicationSnapshot
  next_state s p =
      made fp s.epoch_id s.snapshot_fingerprint (fp.payload_fingerprint p) p
        (s.messages ++ (Message.delta (payload_delta s.current_payload p) ∷ [])) (s.delta_count + 1)

  -- What a publication does: nothing new, a refusal for its size, or a new message.
  pub Outcome : MemoryDeltaPublisher → Published (MemoryDeltaPublisher × Option Message) → Type 0
  Outcome self r =
      (r ≡ published (self, none))
      ⊎ (r ≡ refused PublicationError.too_large)
      ⊎ ((s : PublicationSnapshot) × (m : Message) × (r
            ≡ published (record self { state = some s }, some m))
          × Faithful s)

  publish_snapshot-Outcome :
      (e : Key) (p : Payload) (self : MemoryDeltaPublisher)
      → Outcome self (publish_snapshot fp e p self)
  unfolding Outcome publish_snapshot state_for Follows replay
  publish_snapshot-Outcome e p self =
      let f = fp.payload_fingerprint p in
      inr (
        inr (
          made fp e f f p (Message.snapshot p ∷ []) 0,
          Message.snapshot p,
          ground (arith, first-valid e p),
          record { filed = refl; valid = first-valid e p; follows = (p, refl, λ k x. refl) },
        ))

  next-published :
      (s : PublicationSnapshot) (p : Payload) (self : MemoryDeltaPublisher)
      → Faithful s
      → (s.current_fingerprint == fp.payload_fingerprint p) ≡ false
      → ltb self.max_delta_tokens
          (fp.estimate_tokens (Message.delta (payload_delta s.current_payload p)))
        ≡ false
      → mem
          (fp.message_fingerprint (Message.delta (payload_delta s.current_payload p)))
          s.message_fingerprints
        ≡ false
      → publish_delta fp s p self
        ≡ published (
          record self { state = some (next_state s p) },
          some (Message.delta (payload_delta s.current_payload p)),
        )
  unfolding publish_delta state_for
  next-published s p self h changed fits new =
      ground (arith, next-valid s p (Message.delta (payload_delta s.current_payload p)) h new)

  publish_delta-Outcome :
      (s : PublicationSnapshot) (p : Payload) (self : MemoryDeltaPublisher)
      → Faithful s
      → Outcome self (publish_delta fp s p self)
  unfolding Outcome publish_delta state_for
  publish_delta-Outcome s p self h =
      let f = fp.payload_fingerprint p in
      let m = Message.delta (payload_delta s.current_payload p) in
      elim (Bool-cases (s.current_fingerprint == f)) [
        | inl same ↦ inl (ground arith)
        | inr changed ↦ elim (Bool-cases (ltb self.max_delta_tokens (fp.estimate_tokens m))) [
          | inl large ↦ inr (inl (ground arith))
          | inr fits ↦ elim (Bool-cases (mem (fp.message_fingerprint m) s.message_fingerprints)) [
            | inl known ↦ inl (ground arith)
            | inr new ↦ inr (
                inr (
                  next_state s p,
                  m,
                  next-published s p self h changed fits new,
                  record {
                    filed = refl;
                    valid = next-valid s p m h new;
                    follows = Follows-next s.messages s.current_payload p h.follows;
                  },
                ))
          ]
        ]
      ]

  -- The publisher's state, if it has one, is that of a stream.
  unfoldable pub Held : Option PublicationSnapshot → Type 0
  Held none = Unit
  Held (some s) = Faithful s

  publish_over-Outcome :
      (e : Key) (p : Payload) (self : MemoryDeltaPublisher) (o : Option PublicationSnapshot)
      → Held o
      → Outcome self (publish_over fp e p self (of_epoch e o))
  unfolding Held
  publish_over-Outcome e p self none h = publish_snapshot-Outcome e p self
  publish_over-Outcome e p self (some s) h = elim (Bool-cases (s.epoch_id == e)) [
    | inl same ↦
        subst (λ b. Outcome self (publish_over fp e p self (if b then some s else none))) (sym same)
          (publish_delta-Outcome s p self h)
    | inr other ↦
        subst (λ b. Outcome self (publish_over fp e p self (if b then some s else none)))
          (sym other) (publish_snapshot-Outcome e p self)
  ]

  -- A publication over a sound state is refused for the size of its delta only, never by the
  -- validator of the state that it makes: it gives back the publisher as it was, or is refused as
  -- too large, or gives a publisher with a sound state and one message.
  pub publish-Outcome :
      (e : Key) (p : Payload) (self : MemoryDeltaPublisher)
      → Held self.state
      → Outcome self (publish fp e p self)
  unfolding publish Held
  publish-Outcome e p self h = publish_over-Outcome e p self self.state h

  -- The publisher after a call; a caller catches a refusal.
  abbrev pub after :
      Published (MemoryDeltaPublisher × Option Message)
      → MemoryDeltaPublisher
      → MemoryDeltaPublisher
  after (published (self, message)) old = self
  after (refused e) old = old

  pub run : List (Key × Payload) → MemoryDeltaPublisher → MemoryDeltaPublisher
  unfolding publish
  run [] self = self
  run ((e, p) ∷ calls) self = run calls (after (publish fp e p self) self)

  Outcome-Held :
      (self : MemoryDeltaPublisher) (r : Published (MemoryDeltaPublisher × Option Message))
      → Outcome self r
      → Held self.state
      → Held (after r self).state
  unfolding Outcome Held
  Outcome-Held self r (inl eq) h = subst (λ q. Held (after q self).state) (sym eq) h
  Outcome-Held self r (inr (inl eq)) h = subst (λ q. Held (after q self).state) (sym eq) h
  Outcome-Held self r (inr (inr (s, m, eq, f))) h =
      subst (λ q. Held (after q self).state) (sym eq) f

  -- If the publisher has no state at first, or one that passes its validator, whose fingerprints
  -- are those of its messages and whose messages, replayed, give a payload that lists the same
  -- items as its current payload under each category, then the same holds of it after any sequence
  -- of publications, of whatever payloads for whatever epochs, with refusals caught.
  pub run-Held :
      (calls : List (Key × Payload)) (self : MemoryDeltaPublisher)
      → Held self.state
      → Held (run calls self).state
  unfolding run
  run-Held [] self h = h
  run-Held ((e, p) ∷ calls) self h =
      run-Held calls (after (publish fp e p self) self)
        (Outcome-Held self _ (publish-Outcome e p self h) h)
