-- ===== src/Store/Effects/Claims.antt =====
-- What a successful `claim_effect` had, and leaves (src/patchloop/persistence_contracts.py).
use patch_loop.Store.Lifecycle.{is_over, put_some}
use patch_loop.Store.Leases.Guards.{assert_guard-ok}
use patch_loop.Session.{EventType}
use patch_loop.Store.Journal.{journal_task}
use patch_loop.Common.Dict.{insert, lookup-insert_self, lookup}
use patch_loop.Execution.Approvals.{Approval}
use patch_loop.Store.Effects.{
  claim_effect, claimed_effect, check_claim, record_consumed, ClaimConditions,
}
use patch_loop.Contracts.{Result, ok, LeaseGuard}
use patch_loop.Domain.{Task}
use patch_loop.Execution.Effects.{EffectStatus, is_prepared, Effect}
use patch_loop.Common.{
  none, refl, [], ◌+◌, ◌∷◌, ap, not-eq_false, sym, ◌∙◌, List, arith, not, is_none, true, some, ℕ,
  Option, ◌≡◌, Instant, Key,
}
use patch_loop.Store.State.{
  pure, ◌>>◌, check_version-ok, fetch-ok, resume-ok, raise_if-ok, resume, Store, Env,
}
use patch_loop.Store.Effects.Authority.{
  Authorized, check_claim-Authorized, record_consumed_effects, journal_task_effects,
}

module _ (env : Env) where
  journal_task_approvals :
      (task : Task) (type : EventType) (k : Key) (r : List ℕ) (trace : Option Key) (s : Store)
      → (journal_task env task type k r trace s).1.approvals ≡ s.approvals
  unfolding journal_task
  journal_task_approvals task type k r trace s = ground arith

  record_consumed-approvals :
      (o : Option Approval) (s : Store)
      → (record_consumed env o s).1.approvals ≡ put_some o s.approvals
  unfolding record_consumed
  record_consumed-approvals none s = refl
  record_consumed-approvals (some a) s = ground arith

  record-frame :
      (a : Option Approval) (task : Task) (type : EventType) (k : Key) (r : List ℕ)
      (trace : Option Key) (x : Effect) (s : Store) {e : Effect} {s' : Store}
      → resume (record_consumed env a s) (λ _. journal_task env task type k r trace >> pure x)
        ≡ (ok e, s')
      → (x ≡ e) × (s'.effects ≡ s.effects) × (s'.approvals ≡ put_some a s.approvals)
  record-frame a task type k r trace x s {e} {s'} h =
      let (_, s2, consumed, h1) = resume-ok (record_consumed env a s) _ h in
      let (_, s3, journaled, h2) = resume-ok (journal_task env task type k r trace s2) _ h1 in
      let first : s2.effects ≡ s.effects =
        sym (ap (λ (q : Result (Unit {0}) × Store). q.1.effects) consumed)
        ∙ record_consumed_effects env a s in
      let second : s3.effects ≡ s2.effects =
        sym (ap (λ (q : Result (Unit {0}) × Store). q.1.effects) journaled)
        ∙ journal_task_effects env task type k r trace s2 in
      let third : s'.effects ≡ s3.effects =
        sym (ap (λ (q : Result Effect × Store). q.1.effects) h2) in
      let approvals =
        sym (ap (λ (q : Result Effect × Store). q.1.approvals) h2)
        ∙ sym (ap (λ (q : Result (Unit {0}) × Store). q.1.approvals) journaled)
        ∙ journal_task_approvals task type k r trace s2
        ∙ sym (ap (λ (q : Result (Unit {0}) × Store). q.1.approvals) consumed)
        ∙ record_consumed-approvals a s in
      (cc, third ∙ second ∙ first, approvals)

  pub claim_parts :
      (default effect_id : Key) (expected : ℕ) (g : LeaseGuard) (c : ClaimConditions)
      (now : Instant) (s : Store) {e : Effect} {s' : Store}
      → claim_effect env default effect_id expected g c now s ≡ (ok e, s')
      → (current : Effect) × Authorized env default effect_id g c now s current
        × (current.version ≡ expected)
        × (e ≡ claimed_effect env current e.approval_consumed)
        × (s'.effects ≡ insert effect_id e s.effects)
        × ((o : Option Approval) × (is_over o ≡ true) × (s'.approvals ≡ put_some o s.approvals))
  unfolding claim_effect
  claim_parts default effect_id expected g c now s {e} {s'} h =
      let (holder, found, holds, h1) = assert_guard-ok g now s _ h in
      let (current, stored, h2) = fetch-ok (lookup effect_id s.effects) _ s _ h1 in
      let (version, h3) = check_version-ok effect_id current.version (some expected) s _ h2 in
      let (prepared, h4) = raise_if-ok (not (is_prepared current.status)) _ s _ h3 in
      let (task, of_task, h5) = fetch-ok (lookup current.task_id s.tasks) _ s _ h4 in
      let (a, s1, checked, h6) =
        resume-ok (check_claim env default effect_id current task c s) _ h5 in
      let (authorized, same, over) =
        check_claim-Authorized env default effect_id g c now s current holder task stored
          (not-eq_false _ prepared) found holds of_task checked in
      let claimed = claimed_effect env current (not (is_none a)) in
      let (shape, frame, approvals) =
        record-frame a task EventType.effect_claimed current.id ((current.version + 1) ∷ [])
          (some current.provider_call_id) claimed
          (record s1 { effects = insert effect_id claimed s1.effects }) h6 in
      (
        current,
        authorized,
        ground (arith, version),
        sym shape ∙ ap (λ (x : Effect). claimed_effect env current x.approval_consumed) shape,
        frame
            ∙ ap (λ (x : Effect). insert effect_id x s1.effects) shape
            ∙ ap (λ (q : Store). insert effect_id e q.effects) same,
        (a, over, approvals ∙ ap (λ (q : Store). put_some a q.approvals) same),
      )

  -- A successful claim_effect was authorized: by the guard of a live lease, on a prepared effect
  -- that the policy does not deny and whose task has no control request open, at the content,
  -- workspace and policy decision that the caller expects, and, unless the policy let it run
  -- without, by an approved approval bound to exactly these. The effect was at the expected
  -- version and is stored as executing, one version on.
  pub claim_effect-Authorized :
      (default effect_id : Key) (expected : ℕ) (g : LeaseGuard) (c : ClaimConditions)
      (now : Instant) (s : Store) {e : Effect} {s' : Store}
      → claim_effect env default effect_id expected g c now s ≡ (ok e, s')
      → (current : Effect) × Authorized env default effect_id g c now s current
        × (current.version ≡ expected)
        × (e ≡ claimed_effect env current e.approval_consumed)
        × (lookup effect_id s'.effects ≡ some e)
  claim_effect-Authorized default effect_id expected g c now s {e} {s'} h =
      let (current, authorized, version, shape, frame, _) =
        claim_parts default effect_id expected g c now s h in
      (
        current,
        authorized,
        version,
        shape,
        ap (lookup effect_id) frame ∙ lookup-insert_self effect_id e s.effects,
      )

  -- After a successful claim_effect, no claim of the same effect succeeds in the store that it
  -- left, with any guard, version, conditions and time.
  pub claim_effect_once :
      (default effect_id : Key) (expected again : ℕ) (g h : LeaseGuard) (c d : ClaimConditions)
      (now later : Instant) (s : Store) {e f : Effect} {s' s'' : Store}
      → claim_effect env default effect_id expected g c now s ≡ (ok e, s')
      → ¬ (claim_effect env default effect_id again h d later s' ≡ (ok f, s''))
  claim_effect_once default effect_id expected again g h c d now later s {e} first second =
      let (_, _, _, shape, stored) =
        claim_effect-Authorized default effect_id expected g c now s first in
      let (current, authorized, _, _, _, _) =
        claim_parts default effect_id again h d later _ second in
      let again_stored = authorized.stored in
      let same : e ≡ current = cc in
      let executing : e.status ≡ EffectStatus.executing = ap (λ (x : Effect). x.status) shape in
      let prepared : is_prepared e.status ≡ true =
        ap (λ (x : Effect). is_prepared x.status) same ∙ authorized.prepared in
      absurd (ground (arith, executing, prepared))
