-- ===== src/PromptCache/Publication.antt =====
-- src/patchloop/prompt_cache/publication.py: the memory of an epoch is published once as a snapshot
-- and from then on as deltas. An item stands for its canonical JSON text, a number whose order is
-- that of the texts, and a message for its payload under the prefix of its kind. The fingerprints
-- (SHA-256 over canonical JSON) and the estimated size of a message are parameters.
pub mod Replay
pub mod Streams
pub mod Repeats
use patch_loop.Common.{
  Bool, Key, List, Option, [], false, true, if◌then◌else◌, keep, length, ltb, none, not, some, ℕ,
  ◌&&◌, ◌++◌, ◌+◌, ◌-◌, ◌==◌, ◌∷◌, map,
}
use patch_loop.Common.Members.{mem, distinct, sorted}

pub data Category : Type 0 where
  working_state facts failures constraints : Category

-- A `dict` from category to list of items.
abbrev pub Payload : Type 0
Payload = Category → Option (List Key)

-- `payload.get(category, [])`
abbrev pub listed : Option (List Key) → List Key
listed none = []
listed (some xs) = xs

abbrev pub items : Payload → Category → List Key
items p c = listed (p c)

-- `output[category] = items`, where there are any.
abbrev pub unless_empty : List Key → Option (List Key)
unless_empty [] = none
unless_empty (x ∷ xs) = some (x ∷ xs)

pub record Delta : Type 0 where
  pub added : Payload
  pub removed : Payload

pub data Message : Type 0 where
  snapshot : Payload → Message
  delta : Delta → Message

-- What is under one category of the parsed projection.
pub data Entry : Type 0 where
  object : Key → Entry
  scalar : Entry

pub data Field : Type 0 where
  absent other : Field
  entries : List Entry → Field

abbrev objects : List Entry → List Key
objects [] = []
objects (Entry.object k ∷ es) = k ∷ objects es
objects (Entry.scalar ∷ es) = objects es

-- The last part of `_projection_payload`, on the parsed text of the projection.
unfoldable pub projection_payload : (Category → Field) → Payload
projection_payload parsed c = elim (parsed c) [
  | Field.entries [] ↦ none
  | Field.entries (e ∷ es) ↦ some (objects (e ∷ es))
  | _ ↦ none
]

-- `_payload_delta`
unfoldable pub payload_delta : Payload → Payload → Delta
unfolding mem distinct sorted
payload_delta previous current = record {
  added = λ c.
      unless_empty
        (sorted (distinct (keep (λ k. not (mem k (items previous c))) (items current c))));
  removed = λ c.
      unless_empty
        (sorted (distinct (keep (λ k. not (mem k (items current c))) (items previous c))));
}

abbrev pub removed_from : Option (List Key) → List Key → List Key
removed_from none output = output
removed_from (some removed_keys) output = keep (λ k. not (mem k removed_keys)) output

abbrev pub added_to : Option (List Key) → List Key → List Key
added_to none output = output
added_to (some added) output = sorted (output ++ added)

-- `_apply_delta`
unfoldable pub apply_delta : Payload → Delta → Payload
unfolding mem sorted
apply_delta payload d c =
    unless_empty (added_to (d.added c) (removed_from (d.removed c) (items payload c)))

pub record Fingerprints : Type 0 where
  pub payload_fingerprint : Payload → Key
  pub message_fingerprint : Message → Key
  pub estimate_tokens : Message → ℕ

pub record PublicationSnapshot : Type 0 where
  pub epoch_id : Key
  pub snapshot_fingerprint : Key
  pub current_fingerprint : Key
  pub current_payload : Payload
  pub messages : List Message
  pub message_fingerprints : List Key
  pub delta_count : ℕ

pub data PublicationError : Type 0 where
  invalid_publication too_large invalid_budget unexpected_prefix : PublicationError

pub data Published {ℓ} (A : Type ℓ) : Type ℓ where
  published : A → Published A
  refused : PublicationError → Published A

pub record MemoryDeltaPublisher : Type 0 where
  pub state : Option PublicationSnapshot
  pub max_delta_tokens : ℕ

-- `MemoryDeltaPublisher.__init__`
unfoldable pub new_publisher : Option PublicationSnapshot → ℕ → Published MemoryDeltaPublisher
new_publisher state max_delta_tokens =
    if ltb max_delta_tokens 64
    then refused PublicationError.invalid_budget
    else published (record { state = state; max_delta_tokens = max_delta_tokens })

-- The state that is for the epoch.
abbrev pub of_epoch : Key → Option PublicationSnapshot → Option PublicationSnapshot
of_epoch epoch_id none = none
of_epoch epoch_id (some s) = if s.epoch_id == epoch_id then some s else none

-- `_parse_message` of a message after the first.
replay_all : Payload → List Message → Published Payload
unfolding apply_delta
replay_all payload [] = published payload
replay_all payload (Message.snapshot p ∷ ms) = refused PublicationError.unexpected_prefix
replay_all payload (Message.delta d ∷ ms) = replay_all (apply_delta payload d) ms

-- `MemoryDeltaPublisher.replay`
unfoldable pub replay : List Message → Published Payload
unfolding replay_all
replay [] = published (λ c. none)
replay (Message.snapshot p ∷ ms) = replay_all p ms
replay (Message.delta d ∷ ms) = refused PublicationError.unexpected_prefix

module _ (fp : Fingerprints) where
  -- `validate_publication`
  unfoldable pub validate_publication : PublicationSnapshot → Bool
  unfolding distinct
  validate_publication s =
      length s.messages == length s.message_fingerprints
      && (length (distinct s.message_fingerprints) == length s.message_fingerprints
          && (s.delta_count == length s.messages - 1
              && fp.payload_fingerprint s.current_payload == s.current_fingerprint))

  abbrev pub made : Key → Key → Key → Payload → List Message → ℕ → PublicationSnapshot
  made epoch_id snapshot_fingerprint current_fingerprint current_payload messages delta_count =
      record {
        epoch_id = epoch_id;
        snapshot_fingerprint = snapshot_fingerprint;
        current_fingerprint = current_fingerprint;
        current_payload = current_payload;
        messages = messages;
        message_fingerprints = map fp.message_fingerprint messages;
        delta_count = delta_count;
      }

  -- `_state_for`, whose constructor runs the validator.
  pub state_for : PublicationSnapshot → Published PublicationSnapshot
  unfolding validate_publication
  state_for s =
      if validate_publication s then published s else refused PublicationError.invalid_publication

  abbrev pub with_state :
      MemoryDeltaPublisher
      → Message
      → Published PublicationSnapshot
      → Published (MemoryDeltaPublisher × Option Message)
  with_state self message (refused e) = refused e
  with_state self message (published s) = published (record self { state = some s }, some message)

  -- The first publication of an epoch.
  pub publish_snapshot :
      Key → Payload → MemoryDeltaPublisher → Published (MemoryDeltaPublisher × Option Message)
  unfolding state_for
  publish_snapshot epoch_id payload self =
      let fingerprint = fp.payload_fingerprint payload in
      let message = Message.snapshot payload in
      with_state self message
        (state_for (made epoch_id fingerprint fingerprint payload (message ∷ []) 0))

  -- A publication over a state of the epoch.
  pub publish_delta :
      PublicationSnapshot
      → Payload
      → MemoryDeltaPublisher
      → Published (MemoryDeltaPublisher × Option Message)
  unfolding state_for payload_delta mem
  publish_delta state payload self =
      let fingerprint = fp.payload_fingerprint payload in
      let message = Message.delta (payload_delta state.current_payload payload) in
      if state.current_fingerprint == fingerprint
      then published (self, none)
      else if ltb self.max_delta_tokens (fp.estimate_tokens message)
      then refused PublicationError.too_large
      else if mem (fp.message_fingerprint message) state.message_fingerprints
      then published (self, none)
      else with_state self message (
          state_for (
            made state.epoch_id state.snapshot_fingerprint fingerprint payload
              (state.messages ++ (message ∷ [])) (state.delta_count + 1)))

  abbrev pub publish_over :
      Key
      → Payload
      → MemoryDeltaPublisher
      → Option PublicationSnapshot
      → Published (MemoryDeltaPublisher × Option Message)
  publish_over epoch_id payload self none = publish_snapshot epoch_id payload self
  publish_over epoch_id payload self (some state) = publish_delta state payload self

  -- `publish`
  unfoldable pub publish :
      Key → Payload → MemoryDeltaPublisher → Published (MemoryDeltaPublisher × Option Message)
  unfolding publish_snapshot publish_delta
  publish epoch_id payload self = publish_over epoch_id payload self (of_epoch epoch_id self.state)
