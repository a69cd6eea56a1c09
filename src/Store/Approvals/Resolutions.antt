-- ===== src/Store/Approvals/Resolutions.antt =====
-- How `resolve_effect_approval` settles a request (src/patchloop/persistence_contracts.py).
use patch_loop.Store.Leases.{with_condition}
use patch_loop.Store.Effects.{actual_config}
use patch_loop.Store.Journal.{journal_approval}
use patch_loop.Domain.{TaskRuntimeCondition, awaits_approval, Task}
use patch_loop.Session.{Session, EventType}
use patch_loop.Execution.Effects.{EffectStatus, content_fingerprint, Effect}
use patch_loop.Execution.Approvals.{
  ApprovalStatus, matches_execution_conditions, is_pending, Approval, Conditions, decide,
}
use patch_loop.Store.Effects.Authority.{config_frame}
use patch_loop.Store.Approvals.{
  resolve_effect_approval, expired_approval, released_effect, resolve_pending, resolved_effect,
  resumed_task, still_matches, write_resolution,
}
use patch_loop.Contracts.{Result, ok}
use patch_loop.Store.State.{
  from_result-ok, check_version, check_version-ok, fetch-ok, fetch_known, from_result, resume, Env,
  Store, pure, read-ok, resume-ok,
}
use patch_loop.Common.{
  Option, Option-cases, if◌then◌else◌, none, ◌+◌, ◌==◌, subst, ℕ, Bool, Bool-cases, Instant, Key,
  ap, arith, false, inl, inr, some, sym, true, ◌∙◌, ◌≡◌, ◌⊎◌,
}
use patch_loop.Common.Dict.{insert, lookup, lookup-insert_self}

module _ (env : Env) where
  pub journal_approval_frame :
      (a : Approval) (type : EventType) (s : Store)
      → ((journal_approval env a type s).1.approvals ≡ s.approvals)
        × ((journal_approval env a type s).1.effects ≡ s.effects)
  unfolding journal_approval
  journal_approval_frame a type s = (ground arith, ground arith)

  write_resolution-ok :
      (d : Approval) (x : Effect) (u : Task) (type : EventType) (s : Store) {a : Approval}
      {e : Effect} {t : Task} {s' : Store}
      → write_resolution env d x u type s ≡ (ok (a, e, t), s')
      → (a ≡ d)
        × (e ≡ x)
        × (t ≡ u)
        × (lookup d.id s'.approvals ≡ some d)
        × (lookup x.id s'.effects ≡ some x)
  unfolding write_resolution
  write_resolution-ok d x u type s {a} {e} {t} {s'} h =
      let s1 : Store = record s {
        approvals = insert d.id d s.approvals;
        effects = insert x.id x s.effects;
        tasks = insert u.id u s.tasks;
      } in
      let (_, s2, journaled, h1) =
        resume-ok (journal_approval env d type s1) (λ _. pure (d, x, u)) h in
      let (approvals, effects) = journal_approval_frame d type s1 in
      let last : s2 ≡ s' = cc in
      let left : (journal_approval env d type s1).1 ≡ s' =
        ap (λ (q : Result (Unit {0}) × Store). q.1) journaled ∙ last in
      (
        cc,
        cc,
        cc,
        ap (λ (q : Store). lookup d.id q.approvals) (sym left)
            ∙ ap (lookup d.id) approvals
            ∙ lookup-insert_self d.id d s.approvals,
        ap (λ (q : Store). lookup x.id q.effects) (sym left)
            ∙ ap (lookup x.id) effects
            ∙ lookup-insert_self x.id x s.effects,
      )

  -- The configuration of the task's session, or the given one of a task without a session; the
  -- default stands for the empty text.
  abbrev pub Configured : Key → Option Key → Key → Store → Key → Type 0
  Configured default none given s config = config ≡ (if given == 0 then default else given)
  Configured default (some k) given s config =
      (x : Session) × (lookup k s.sessions ≡ some x)
      × (config ≡ (if x.config_version == 0 then default else x.config_version))

  actual_config-Configured :
      (default : Key) (k : Option Key) (given : Key) (s : Store) {config : Key}
      → (actual_config default k (some given) s).0 ≡ ok config
      → Configured default k given s config
  actual_config-Configured default none given s {config} h = ground arith
  actual_config-Configured default (some k) given s {config} h =
      elim (Option-cases (lookup k s.sessions)) [
        | inl missing ↦ absurd (ground (arith, missing))
        | inr (x, found) ↦ (x, found, ground (arith, found))
      ]

  -- What the approval was requested for, and nothing of it has changed.
  abbrev pub Bound : Approval → Effect → Task → Conditions → Key → Type 0
  Bound a effect task c config =
      (c.workspace_ref ≡ task.repository)
      × (c.config_version ≡ config)
      × (a.effect_id ≡ effect.id)
      × (a.effect_fingerprint ≡ content_fingerprint env.hashing effect)
      × (a.arguments_fingerprint ≡ effect.arguments_fingerprint)
      × (a.workspace_ref ≡ c.workspace_ref)
      × (a.policy_version ≡ c.policy_version)
      × (a.config_version ≡ c.config_version)

  still_matches-Bound :
      (a : Approval) (effect : Effect) (task : Task) (c : Conditions) (config : Key)
      → still_matches env a effect task c config ≡ true
      → Bound a effect task c config
  unfolding matches_execution_conditions
  still_matches-Bound a effect task c config h = (
    ground (arith, h),
    ground (arith, h),
    ground (arith, h),
    ground (arith, h),
    ground (arith, h),
    ground (arith, h),
    ground (arith, h),
    ground (arith, h),
  )

  still_matches-not_Bound :
      (a : Approval) (effect : Effect) (task : Task) (c : Conditions) (config : Key)
      → still_matches env a effect task c config ≡ false
      → ¬ (Bound a effect task c config)
  unfolding matches_execution_conditions
  still_matches-not_Bound a effect task c config h (b1, b2, b3, b4, b5, b6, b7, b8) =
      ground (arith, h, b1, b2, b3, b4, b5, b6, b7, b8)

  -- How a pending request ends: decided as the operator says under what it was requested for, with
  -- the effect prepared again or denied, or expired, with the effect prepared without it.
  abbrev pub Resolves :
      Bool
      → Key
      → Conditions
      → Instant
      → Approval
      → Effect
      → Task
      → Key
      → Approval
      → Effect
      → Type 0
  Resolves approve source c now current effect task config a e =
      (Bound current effect task c config
        × (a ≡ record current {
          status = (if approve then ApprovalStatus.approved else ApprovalStatus.denied);
          decision_source = some source;
          decided_at = some now;
          version = current.version + 1;
        })
        × (e ≡ record effect {
          status = (if approve then EffectStatus.prepared else EffectStatus.denied);
          version = effect.version + 1;
        }))
      ⊎ ((¬ (Bound current effect task c config))
          × (a ≡ record current {
            status = ApprovalStatus.expired;
            decision_source = some source;
            decided_at = some now;
            version = current.version + 1;
          })
          × (e ≡ record effect {
            status = EffectStatus.prepared;
            approval_id = none;
            version = effect.version + 1;
          }))

  -- A task that waited for approval is idle, one version on; any other stays as it is.
  abbrev pub Idles : TaskRuntimeCondition → Task → Task → Type 0
  Idles TaskRuntimeCondition.waiting_for_approval task t =
      t ≡ record task { runtime_condition = TaskRuntimeCondition.idle; version = task.version + 1 }
  Idles _ task t = t ≡ task

  resumed_task-Idles :
      (condition : TaskRuntimeCondition) (task t : Task)
      → t ≡ (
          if awaits_approval condition then with_condition TaskRuntimeCondition.idle task else task)
      → Idles condition task t
  resumed_task-Idles TaskRuntimeCondition.waiting_for_approval task t h = h
  resumed_task-Idles _ task t h = h

  decided_as :
      (approve : Bool) (source : Key) (now : Instant) (current a : Approval)
      → is_pending current.status ≡ true
      → decide approve source now current ≡ ok a
      → a ≡ record current {
        status = (if approve then ApprovalStatus.approved else ApprovalStatus.denied);
        decision_source = some source;
        decided_at = some now;
        version = current.version + 1;
      }
  unfolding decide
  decided_as approve source now current a pending h = ground (arith, pending)

  resolve_pending-ok :
      (default : Key) (approve : Bool) (source : Key) (c : Conditions) (now : Instant)
      (current : Approval) (effect : Effect) (task : Task) (s : Store) {a : Approval} {e : Effect}
      {t : Task} {s' : Store}
      → is_pending current.status ≡ true
      → resolve_pending env default approve source c now current effect task s ≡ (ok (a, e, t), s')
      → (config : Key) × Configured default task.session_id c.config_version s config
        × Resolves approve source c now current effect task config a e
        × Idles task.runtime_condition task t
        × (lookup a.id s'.approvals ≡ some a)
        × (lookup e.id s'.effects ≡ some e)
  unfolding resolve_pending
  resolve_pending-ok default approve source c now current effect task s {a} {e} {t} {s'} pending h =
      let (config, configured, h1) =
        read-ok (actual_config default task.session_id (some c.config_version) s) s _
          (config_frame default task.session_id (some c.config_version) s) h in
      elim (Bool-cases (still_matches env current effect task c config)) [
        | inl matches ↦
            let h2 : resume (from_result (decide approve source now current) s) (λ d.
              write_resolution env d (resolved_effect env effect approve) (resumed_task env task)
                EventType.approval_decided)
                ≡ (ok (a, e, t), s') =
              ground (arith, matches) in
            let (d, s2, given, h3) =
              resume-ok (from_result (decide approve source now current) s) _ h2 in
            let decided : decide approve source now current ≡ ok d =
              from_result-ok (decide approve source now current) s given in
            let (a_is, e_is, t_is, at_approval, at_effect) =
              write_resolution-ok d (resolved_effect env effect approve) (resumed_task env task)
                EventType.approval_decided s2 h3 in
            (
              config,
              actual_config-Configured default task.session_id c.config_version s configured,
              inl (
                still_matches-Bound current effect task c config matches,
                decided_as approve source now current a pending (decided ∙ ap ok (sym a_is)),
                e_is,
              ),
              resumed_task-Idles task.runtime_condition task t t_is,
              subst (λ (x : Approval). lookup x.id s'.approvals ≡ some x) (sym a_is) at_approval,
              subst (λ (x : Effect). lookup x.id s'.effects ≡ some x) (sym e_is) at_effect,
            )
        | inr fails ↦
            let h2 : write_resolution env (expired_approval env current source now)
                  (released_effect env effect) (resumed_task env task) EventType.approval_expired s
                ≡ (ok (a, e, t), s') =
              ground (arith, fails) in
            let (a_is, e_is, t_is, at_approval, at_effect) =
              write_resolution-ok (expired_approval env current source now)
                (released_effect env effect) (resumed_task env task) EventType.approval_expired s
                h2 in
            (
              config,
              actual_config-Configured default task.session_id c.config_version s configured,
              inr (still_matches-not_Bound current effect task c config fails, a_is, e_is),
              resumed_task-Idles task.runtime_condition task t t_is,
              subst (λ (x : Approval). lookup x.id s'.approvals ≡ some x) (sym a_is) at_approval,
              subst (λ (x : Effect). lookup x.id s'.effects ≡ some x) (sym e_is) at_effect,
            )
      ]

  -- A resolve_effect_approval that succeeds on a pending approval was made at its expected
  -- version. If the workspace, the configuration, the policy and the content of the effect are
  -- those that the approval was requested for, the approval is approved or denied as the operator
  -- says and the effect is prepared again or denied; else the approval expires and the effect is
  -- prepared without it. The approval records the source and the time, and approval and effect are
  -- one version on. A task that waited for approval is idle, any other unchanged; approval and
  -- effect are stored as they are given back.
  pub resolve_effect_approval-Resolves :
      (default approval_id : Key) (approve : Bool) (source : Key) (expected : ℕ) (c : Conditions)
      (now : Instant) (s : Store) (current : Approval) {a : Approval} {e : Effect} {t : Task}
      {s' : Store}
      → lookup approval_id s.approvals ≡ some current
      → is_pending current.status ≡ true
      → resolve_effect_approval env default approval_id approve source expected c now s
        ≡ (ok (a, e, t), s')
      → (effect : Effect) × (task : Task) × (config : Key) × (lookup current.effect_id s.effects
          ≡ some effect)
        × (lookup effect.task_id s.tasks ≡ some task)
        × (current.version ≡ expected)
        × Configured default task.session_id c.config_version s config
        × Resolves approve source c now current effect task config a e
        × Idles task.runtime_condition task t
        × (lookup a.id s'.approvals ≡ some a)
        × (lookup e.id s'.effects ≡ some e)
  unfolding resolve_effect_approval
  resolve_effect_approval-Resolves default approval_id approve source expected c now s current {a}
        {e} {t} {s'} stored pending h =
      let h1 = fetch_known (lookup approval_id s.approvals) _ s _ current stored h in
      let (effect, at_effect, h2) = fetch-ok (lookup current.effect_id s.effects) _ s _ h1 in
      let (task, at_task, h3) = fetch-ok (lookup effect.task_id s.tasks) _ s _ h2 in
      let checked : resume (check_version current.id current.version (some expected) s)
            (λ _. resolve_pending env default approve source c now current effect task)
          ≡ (ok (a, e, t), s') =
        ground (arith, pending) in
      let (version, h4) = check_version-ok current.id current.version (some expected) s _ checked in
      let (config, configured, resolves, t_is, kept_approval, kept_effect) =
        resolve_pending-ok default approve source c now current effect task s pending h4 in
      (
        effect,
        task,
        config,
        at_effect,
        at_task,
        ground (arith, version),
        configured,
        resolves,
        t_is,
        kept_approval,
        kept_effect,
      )
