-- ===== src/Store/Journal/Numbering.antt =====
-- The numbers of a session's events (`_journal` of src/patchloop/persistence_contracts.py).
use patch_loop.Store.Journal.{next_event, entries, journal, journal_event}
use patch_loop.Contracts.{Result, ok}
use patch_loop.Store.State.{Env, Store}
use patch_loop.Common.{
  ap, refl, sym, Bool, Key, List, Option, [], arith, length, length-append, some, true, ℕ, ◌&&◌,
  ◌++◌, ◌+◌, ◌==◌, ◌∙◌, ◌∷◌, ◌≡◌,
}
use patch_loop.Session.{EventType, Session, SessionEvent}
use patch_loop.Common.Dict.{Dict, insert, lookup-insert, lookup-insert_self, lookup}

-- The events are numbered one by one from `n` on.
unfoldable pub numbered : ℕ → List SessionEvent → Bool
numbered n [] = true
numbered n (e ∷ es) = e.sequence == n && numbered (n + 1) es

-- A session's list and its counter agree.
abbrev pub InOrder : List SessionEvent → ℕ → Type 0
InOrder es n = (numbered 1 es ≡ true) × (length es ≡ n)

numbered-append :
    (n : ℕ) (es : List SessionEvent) (e : SessionEvent)
    → numbered n es ≡ true
    → e.sequence ≡ n + length es
    → numbered n (es ++ e ∷ []) ≡ true
unfolding numbered
numbered-append n [] e h last = ground arith
numbered-append n (x ∷ es) e h last = ground (arith, h, last, numbered-append (n + 1) es e)

append-InOrder :
    (es : List SessionEvent) (e : SessionEvent) (n : ℕ)
    → InOrder es n
    → e.sequence ≡ n + 1
    → InOrder (es ++ e ∷ []) (n + 1)
append-InOrder es e n (order, count) last = (
  numbered-append 1 es e order (ground (arith, last, count)),
  length-append es (e ∷ []) ∙ ground (arith, count),
)

entries-insert :
    {V : Type 0} (k : Key) (xs : List V) (d : Dict (List V)) → entries k (insert k xs d) ≡ xs
entries-insert k xs d = ground (arith, lookup-insert_self k xs d)

lookup_apart :
    {V : Type 0} (k j : Key) (v : V) (d : Dict V)
    → (j ≡ k → ⊥)
    → lookup j (insert k v d) ≡ lookup j d
lookup_apart k j v d apart = ground (arith, lookup-insert k j v d, apart)

entries_apart :
    {V : Type 0} (k j : Key) (xs : List V) (d : Dict (List V))
    → (j ≡ k → ⊥)
    → entries j (insert k xs d) ≡ entries j d
entries_apart k j xs d apart = ground (arith, lookup_apart k j xs d apart)

module _ (env : Env) (session : Session) (type : EventType) (entity : Key) (revision : List ℕ)
    (task_id trace_id : Option Key) (s : Store) where
  -- If the events of a session are numbered one by one up to its counter, they are after journal,
  -- which stores the session with the next number; the events and the record of any other session
  -- stay as they were.
  pub journal-InOrder :
      {updated : Session} {s' : Store} (other : Key)
      → InOrder (entries session.id s.events) session.event_sequence
      → (other ≡ session.id → ⊥)
      → journal env session type entity revision task_id trace_id s ≡ (ok updated, s')
      → InOrder (entries session.id s'.events) updated.event_sequence
        × (lookup session.id s'.sessions ≡ some updated)
        × (updated.event_sequence ≡ session.event_sequence + 1)
        × (entries other s'.events ≡ entries other s.events)
        × (lookup other s'.sessions ≡ lookup other s.sessions)
  unfolding journal journal_event
  journal-InOrder {updated} {s'} other order apart h =
      let event = next_event env session type entity revision task_id trace_id in
      let written = record session { event_sequence = session.event_sequence + 1 } in
      let events = entries session.id s.events ++ event ∷ [] in
      let is : written ≡ updated = cc in
      let left : record s {
        events = insert session.id events s.events;
        sessions = insert session.id written s.sessions;
      }
          ≡ s' =
        ap (λ (r : Result Session × Store). r.1) h in
      let list : entries session.id s'.events ≡ events =
        ap (λ (q : Store). entries session.id q.events) (sym left)
        ∙ entries-insert session.id events s.events in
      let count : updated.event_sequence ≡ session.event_sequence + 1 =
        ap (λ (x : Session). x.event_sequence) (sym is) in
      let (sorted, full) =
        append-InOrder (entries session.id s.events) event session.event_sequence order refl in
      (
        (ap (numbered 1) list ∙ sorted, ap length list ∙ full ∙ sym count),
        ap (λ (q : Store). lookup session.id q.sessions) (sym left)
            ∙ lookup-insert_self session.id written s.sessions
            ∙ ap some is,
        count,
        ap (λ (q : Store). entries other q.events) (sym left)
            ∙ entries_apart session.id other events s.events apart,
        ap (λ (q : Store). lookup other q.sessions) (sym left)
            ∙ lookup_apart session.id other written s.sessions apart,
      )
