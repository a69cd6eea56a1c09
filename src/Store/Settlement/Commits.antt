-- ===== src/Store/Settlement/Commits.antt =====
-- What a successful `commit_effect` had, and leaves (src/patchloop/persistence_contracts.py).
use patch_loop.PromptCache.Publication.Streams.{after}
use patch_loop.Contracts.{LeaseGuard, Result, ok}
use patch_loop.Common.Dict.{insert, lookup, lookup-insert_self}
use patch_loop.Store.Journal.{journal}
use patch_loop.Domain.Tools.{ToolCall, ToolResult}
use patch_loop.Execution.Effects.{Effect, is_committed, is_executing}
use patch_loop.Store.Leases.Guards.{assert_guard-ok}
use patch_loop.Session.{EventType, Session}
use patch_loop.Store.Settlement.{
  Given, check_given, commit_effect, given, record_given, update_checkpoint,
}
use patch_loop.Domain.{Task}
use patch_loop.Store.State.{
  ◌>>=◌, ◌>>◌, Env, M, Store, check_version-ok, fetch-ok, pure, raise_if-ok, read-ok, resume-ok,
}
use patch_loop.Common.{
  Instant, Key, List, Option, [], ap, arith, not, refl, some, sym, true, ℕ, ◌+◌, ◌∙◌, ◌∷◌, ◌≡◌,
}

check_given_frame :
    (task_id : Key) (current : Effect) (g : Given) (s : Store)
    → (check_given task_id current g s).1 ≡ s
unfolding check_given
check_given_frame task_id current Given.nothing s = refl
check_given_frame task_id current Given.one s = refl
check_given_frame task_id current (Given.both_given c r) s = ground arith

record_given_effects :
    (task_id : Key) (g : Given) (s : Store) → (record_given task_id g s).1.effects ≡ s.effects
unfolding record_given
record_given_effects task_id Given.nothing s = refl
record_given_effects task_id Given.one s = refl
record_given_effects task_id (Given.both_given c r) s = refl

update_checkpoint_effects :
    (task_id : Key) (n : ℕ) (k : Key) (s : Store)
    → (update_checkpoint task_id n k s).1.effects ≡ s.effects
unfolding update_checkpoint
update_checkpoint_effects task_id n k s = ground arith

module _ (env : Env) where
  journal_effects :
      (session : Session) (type : EventType) (k : Key) (r : List ℕ) (task trace : Option Key)
      (s : Store)
      → (journal env session type k r task trace s).1.effects ≡ s.effects
  unfolding journal
  journal_effects session type k r task trace s = ground arith

  -- The writes of a commit, after the effect itself.
  abbrev commit_rest : Effect → Given → Session → Task → M Effect
  commit_rest committed g session task = do
    record_given committed.task_id g
    updated ←
        journal env session EventType.effect_committed committed.id (committed.version ∷ [])
          (some task.id) (some committed.provider_call_id)
    update_checkpoint task.id updated.event_sequence committed.id
    pure committed

  commit_rest-approvals :
      (committed : Effect) (g : Given) (session : Session) (task : Task) (s : Store)
      → (commit_rest committed g session task s).1.approvals ≡ s.approvals
  unfolding record_given journal update_checkpoint
  commit_rest-approvals committed g session task s = ground arith

  commit_rest-ok :
      (committed : Effect) (g : Given) (session : Session) (task : Task) (s : Store) {e : Effect}
      {s' : Store}
      → commit_rest committed g session task s ≡ (ok e, s')
      → (e ≡ committed) × (s'.effects ≡ s.effects)
  commit_rest-ok committed g session task s {e} {s'} h =
      let (_, s1, p1, h1) = resume-ok (record_given committed.task_id g s) _ h in
      let (updated, s2, p2, h2) =
        resume-ok
          (journal env session EventType.effect_committed committed.id (committed.version ∷ [])
            (some task.id) (some committed.provider_call_id) s1)
          _ h1 in
      let (_, s3, p3, h3) =
        resume-ok (update_checkpoint task.id updated.event_sequence committed.id s2)
          (λ _. pure committed) h2 in
      (
        cc,
        sym (ap (λ (q : Result Effect × Store). q.1.effects) h3)
            ∙ sym (ap (λ (q : Result (Unit {0}) × Store). q.1.effects) p3)
            ∙ update_checkpoint_effects task.id updated.event_sequence committed.id s2
            ∙ sym (ap (λ (q : Result Session × Store). q.1.effects) p2)
            ∙ journal_effects session EventType.effect_committed committed.id
                (committed.version ∷ []) (some task.id) (some committed.provider_call_id) s1
            ∙ sym (ap (λ (q : Result (Unit {0}) × Store). q.1.effects) p1)
            ∙ record_given_effects committed.task_id g s,
      )

  module _ (effect : Effect) (expected : ℕ) (result_ref observation_ref : Option Key)
      (g : LeaseGuard) (call : Option ToolCall) (result : Option ToolResult) (now : Instant)
      (s : Store) where
    pub commit_effect-ok :
        {e : Effect} {s' : Store}
        → commit_effect env effect expected result_ref observation_ref g call result now s
          ≡ (ok e, s')
        → (current : Effect) × (lookup effect.id s.effects ≡ some current)
          × (current.version ≡ expected)
          × (is_executing current.status ≡ true)
          × (is_committed effect.status ≡ true)
          × (e ≡ record effect {
            result_ref = result_ref;
            observation_ref = observation_ref;
            version = expected + 1;
          })
          × (lookup effect.id s'.effects ≡ some e)
          × (s'.effects ≡ insert effect.id e s.effects)
          × (s'.approvals ≡ s.approvals)
    unfolding commit_effect
    commit_effect-ok {e} {s'} h =
        let (_, _, _, h1) = assert_guard-ok g now s _ h in
        let (current, stored, h2) = fetch-ok (lookup effect.id s.effects) _ s _ h1 in
        let (version, h3) = check_version-ok effect.id current.version (some expected) s _ h2 in
        let (executing, h4) = raise_if-ok (not (is_executing current.status)) _ s _ h3 in
        let (terminal, h5) = raise_if-ok (not (is_committed effect.status)) _ s _ h4 in
        let (_, _, h6) =
          read-ok (check_given effect.task_id current (given call result) s) s _
            (check_given_frame effect.task_id current (given call result) s) h5 in
        let (task, _, h7) = fetch-ok (lookup effect.task_id s.tasks) _ s _ h6 in
        let (session_id, _, h8) = fetch-ok task.session_id _ s _ h7 in
        let (session, _, h9) = fetch-ok (lookup session_id s.sessions) _ s _ h8 in
        let committed = record effect {
          result_ref = result_ref;
          observation_ref = observation_ref;
          version = current.version + 1;
        } in
        let (shape, frame) =
          commit_rest-ok committed (given call result) session task
            (record s { effects = insert effect.id committed s.effects }) h9 in
        let same : current.version ≡ expected = ground (arith, version) in
        (
          current,
          stored,
          same,
          ground (arith, executing),
          ground (arith, terminal),
          shape
              ∙ ap
                  (λ (n : ℕ). record effect {
                    result_ref = result_ref;
                    observation_ref = observation_ref;
                    version = n + 1;
                  })
                  same,
          ap (lookup effect.id) frame
              ∙ lookup-insert_self effect.id committed s.effects
              ∙ ap some (sym shape),
          frame ∙ ap (λ (x : Effect). insert effect.id x s.effects) (sym shape),
          sym (ap (λ (q : Result Effect × Store). q.1.approvals) h9)
              ∙ commit_rest-approvals committed (given call result) session task
                  (record s { effects = insert effect.id committed s.effects }),
        )

  -- After a successful commit_effect, no commit of the same effect succeeds in the store that it
  -- left, with any content, references, observation, guard, version and time.
  pub commit_effect_once :
      (effect : Effect) (expected : ℕ) (result_ref observation_ref : Option Key) (g : LeaseGuard)
      (call : Option ToolCall) (result : Option ToolResult) (now : Instant) (s : Store)
      (later : Effect) (again : ℕ) (r o : Option Key) (h : LeaseGuard) (c : Option ToolCall)
      (t : Option ToolResult) (after : Instant) {e f : Effect} {s' s'' : Store}
      → later.id ≡ effect.id
      → commit_effect env effect expected result_ref observation_ref g call result now s
        ≡ (ok e, s')
      → ¬ (commit_effect env later again r o h c t after s' ≡ (ok f, s''))
  commit_effect_once effect expected result_ref observation_ref g call result now s later again r o
        h c t after {e} {f} {s'} same first second =
      let (_, _, _, _, terminal, shape, stored, _, _) =
        commit_effect-ok effect expected result_ref observation_ref g call result now s first in
      let (current, again_stored, _, executing, _, _, _, _, _) =
        commit_effect-ok later again r o h c t after s' second in
      let at : lookup effect.id s'.effects ≡ some current =
        ap (λ k. lookup k s'.effects) (sym same) ∙ again_stored in
      let found : e ≡ current = cc in
      let status : e.status ≡ effect.status = ap (λ (x : Effect). x.status) shape in
      let still : is_executing e.status ≡ true =
        ap (λ (x : Effect). is_executing x.status) found ∙ executing in
      absurd (ground (arith, status, still, terminal))
