-- ===== src/Store/Journal/Repeats.antt =====
-- An event is appended once (`append_event` of src/patchloop/persistence_contracts.py).
use patch_loop.Store.Journal.{journal_event, entries}
use patch_loop.Store.Journal.Append.{next_numbered, append_found, same_event, append_event}
use patch_loop.Contracts.{ok}
use patch_loop.Common.Dict.{lookup-insert_self, lookup-Keyed, Keyed, lookup}
use patch_loop.Session.{Session, SessionEvent, type_code}
use patch_loop.Store.State.{check_version-ok, Store, fetch-ok}
use patch_loop.Common.{
  Bool-cases, inl, inr, subst, ◌+◌, ==-refl, refl, same_key, ◌==◌, Bool, List, Option, [], arith,
  find, none, some, true, ℕ, ◌++◌, ◌∷◌, ◌≡◌, Key,
}

abbrev pub session_id_of : Session → Key
session_id_of s = s.id

same_key_refl : (k : Option Key) → same_key k k ≡ true
same_key_refl none = refl
same_key_refl (some k) = ==-refl k

find-snoc :
    {A : Type 0} (p : A → Bool) (xs : List A) (a : A)
    → find p xs ≡ none
    → p a ≡ true
    → find p (xs ++ (a ∷ [])) ≡ some a
unfolding find
find-snoc p [] a missed hit = ground arith
find-snoc p (x ∷ xs) a missed hit = ground (arith, find-snoc p xs a)

same_event-numbered : (e : SessionEvent) (n : ℕ) → same_event (record e { sequence = n }) e ≡ true
same_event-numbered e n = ground (
  arith,
  ==-refl e.id,
  ==-refl e.session_id,
  ==-refl (type_code e.type),
  same_key_refl e.task_id,
  same_key_refl e.trace_id,
  ==-refl e.body,
)

-- The stored event is found again.
append_event-known :
    (event x : SessionEvent) (again : Option ℕ) (session : Session) (s : Store)
    → lookup event.session_id s.sessions ≡ some session
    → find (λ y. y.id == event.id) (entries session.id s.events) ≡ some x
    → same_event x event ≡ true
    → append_event event again s ≡ (ok x, s)
unfolding append_event append_found
append_event-known event x again session s found known same = ground arith

module _ (event : SessionEvent) (expected again : Option ℕ) (s : Store) {stored : SessionEvent}
    {s' : Store} (session : Session) (found : lookup event.session_id s.sessions ≡ some session)
    (same_id : session.id ≡ event.session_id) where
  append_found-again :
      (o : Option SessionEvent)
      → find (λ y. y.id == event.id) (entries session.id s.events) ≡ o
      → append_found session event expected o s ≡ (ok stored, s')
      → append_event event again s' ≡ (ok stored, s')
  unfolding append_found journal_event
  append_found-again (some x) known h = elim (Bool-cases (same_event x event)) [
    | inl same ↦
        let shape : (x ≡ stored) × (s ≡ s') = ground arith in
        subst (λ (t : Store). append_event event again t ≡ (ok stored, t)) shape.1
          (subst (λ y. append_event event again s ≡ (ok y, s)) shape.0
            (append_event-known event x again session s found known same))
    | inr other ↦ ground arith
  ]
  append_found-again none missed h =
      let (_, h1) = check_version-ok session.id session.event_sequence expected s _ h in
      let new = next_numbered session event in
      let updated : Session = record session { event_sequence = session.event_sequence + 1 } in
      append_event-known event stored again updated s'
        (ground (arith, h1, same_id, lookup-insert_self session.id updated s.sessions))
        (ground (
          arith,
          h1,
          lookup-insert_self session.id (entries session.id s.events ++ new ∷ []) s.events,
          find-snoc (λ y. y.id == event.id) (entries session.id s.events) new missed
              (==-refl event.id),
        ))
        (ground (arith, h1, same_event-numbered event (session.event_sequence + 1)))

-- After a successful append_event, in a store whose sessions are filed under their identifiers,
-- appending the same event once more, at whatever expected sequence, gives the stored event back
-- and writes nothing.
pub append_event_again :
    (event : SessionEvent) (expected again : Option ℕ) (s : Store) {stored : SessionEvent}
    {s' : Store}
    → Keyed session_id_of s.sessions
    → append_event event expected s ≡ (ok stored, s')
    → append_event event again s' ≡ (ok stored, s')
unfolding append_event
append_event_again event expected again s keyed h =
    let (session, found, h1) = fetch-ok (lookup event.session_id s.sessions) _ s _ h in
    append_found-again event expected again s session found
      (lookup-Keyed session_id_of event.session_id session s.sessions keyed found) _ refl h1
