-- ===== src/Store/Recovery/Resolutions.antt =====
-- What a successful `resolve_recovery` records (src/patchloop/persistence_contracts.py).
use patch_loop.Execution.Recovery.{Supplied, both, validate_recovery_resolution}
use patch_loop.Common.Dict.{insert, lookup, lookup-insert_self}
use patch_loop.Execution.Controls.{DispositionKind, RecoveryDisposition}
use patch_loop.Contracts.{Error, Result, ok}
use patch_loop.Store.Recovery.{
  same_disposition, apply_resolution, follow_resolution, original_observation, record_confirmation,
  record_retry, resolve_new, resolve_recovery, resolved_task, stored_disposition, unknown_of_task,
}
use patch_loop.Domain.{TaskOutcome, TaskStatus, Task, TaskRuntimeCondition, is_recovery}
use patch_loop.Store.State.{
  M, raise, Env, Store, check_version-ok, fetch-ok, from_result, from_result-ok, pure, raise_if-ok,
  resume-ok,
}
use patch_loop.Execution.Effects.{Effect, is_unknown}
use patch_loop.Common.{
  ◌+◌, if◌then◌else◌, Bool-cases, Key, Option, ap, arith, inl, inr, none, not, some, subst, sym,
  true, ℕ, ◌==◌, ◌||◌, ◌∙◌, ◌≡◌,
}

pub unknown_of_task-ok :
    (task_id : Key) (o : Option Effect) (e : Effect)
    → unknown_of_task task_id o ≡ some e
    → (o ≡ some e) × (is_unknown e.status ≡ true)
unknown_of_task-ok task_id none e h = cc
unknown_of_task-ok task_id (some x) e h =
    elim (Bool-cases (not (x.task_id == task_id) || not (is_unknown x.status))) [
      | inl fails ↦ absurd (ground (arith, fails))
      | inr holds ↦
          let same : x ≡ e = ground (arith, holds) in
          (
            ap some same,
            subst (λ (y : Effect). is_unknown y.status ≡ true) same (ground (arith, holds)),
          )
    ]

-- The task after a disposition: abandoned, it is cancelled with the condition; else the condition
-- alone is new.
abbrev pub Resolved : DispositionKind → TaskRuntimeCondition → Task → Task → Type 0
Resolved DispositionKind.abandon target task t = t ≡ record task {
  runtime_condition = target;
  version = task.version + 1;
  outcome = TaskOutcome.cancelled;
  status = TaskStatus.cancelled;
}
Resolved DispositionKind.confirm_result target task t =
    t ≡ record task { runtime_condition = target; version = task.version + 1 }
Resolved DispositionKind.create_retry target task t =
    t ≡ record task { runtime_condition = target; version = task.version + 1 }

resolved_task-Resolved :
    (kind : DispositionKind) (target : TaskRuntimeCondition) (task t : Task)
    → t ≡ resolved_task kind target task
    → Resolved kind target task t
resolved_task-Resolved DispositionKind.abandon target task t h = h
resolved_task-Resolved DispositionKind.confirm_result target task t h = h
resolved_task-Resolved DispositionKind.create_retry target task t h = h

module _ (env : Env) where
  follow_frame :
      (task : Task) (d : RecoveryDisposition) (s : Store)
      → ((follow_resolution env task d s).1.recoveries ≡ s.recoveries)
        × ((follow_resolution env task d s).1.tasks ≡ s.tasks)
  unfolding follow_resolution
  follow_frame task d s = (ground arith, ground arith)

  apply_resolution-ok :
      (output detail task_id : Key) (task : Task) (unknown : Effect) (d : RecoveryDisposition)
      (given : Supplied) (target : TaskRuntimeCondition) (s : Store) {t : Task} {s' : Store}
      → apply_resolution env output detail task_id task unknown d given target s ≡ (ok t, s')
      → (t ≡ resolved_task d.kind target task)
        × (lookup d.id s'.recoveries ≡ some d)
        × (lookup task_id s'.tasks ≡ some t)
  unfolding apply_resolution
  apply_resolution-ok output detail task_id task unknown d given target s {t} {s'} h =
      let (_, s1, _, h1) =
        resume-ok
          (record_confirmation env task unknown d (both given.confirmed_call given.confirmed_result)
            s)
          _ h in
      let (_, s2, _, h2) =
        resume-ok
          (record_retry env (original_observation env unknown output detail) task
            (both given.retry_effect given.retry_approval) s1)
          _ h1 in
      let after = resolved_task d.kind target task in
      let s3 : Store = record s2 {
        recoveries = insert d.id d s2.recoveries;
        tasks = insert task_id after s2.tasks;
      } in
      let (_, s4, followed, h3) =
        resume-ok (follow_resolution env task d s3) (λ _. pure after) h2 in
      let (recoveries, tasks) = follow_frame task d s3 in
      let is : after ≡ t = cc in
      let last : s4 ≡ s' = cc in
      let left : (follow_resolution env task d s3).1 ≡ s' =
        ap (λ (q : Result (Unit {0}) × Store). q.1) followed ∙ last in
      (
        sym is,
        ap (λ (q : Store). lookup d.id q.recoveries) (sym left)
            ∙ ap (lookup d.id) recoveries
            ∙ lookup-insert_self d.id d s2.recoveries,
        ap (λ (q : Store). lookup task_id q.tasks) (sym left)
            ∙ ap (lookup task_id) tasks
            ∙ lookup-insert_self task_id after s2.tasks
            ∙ ap some is,
      )

  -- The rest of `resolve_recovery`, by what is stored.
  abbrev pub after_lookup :
      (output detail : Key)
      → RecoveryDisposition
      → Key
      → ℕ
      → Supplied
      → Task
      → Option RecoveryDisposition
      → M Task
  after_lookup output detail d task_id expected given task existing = elim existing [
    | none ↦ resolve_new env output detail task_id task d given expected
    | some e ↦
        if same_disposition e d
        then pure task
        else raise (Error.recovery_required task_id (some d.unknown_effect_id))
  ]

  -- A resolve_recovery that succeeds with a disposition that is not stored, nor another for its
  -- effect, found the task at its expected version and in need of recovery and the effect unknown,
  -- and the rules accepted the disposition: it is stored, and the task is stored, one version on,
  -- with the condition that the rules lead to, and with outcome and status cancelled if it was
  -- abandoned, or else unchanged.
  pub resolve_recovery_records :
      (output detail : Key) (d : RecoveryDisposition) (task_id : Key) (expected : ℕ)
      (given : Supplied) (s : Store) {t : Task} {s' : Store}
      → stored_disposition d s ≡ none
      → resolve_recovery env output detail d task_id expected given s ≡ (ok t, s')
      → (task : Task) × (unknown : Effect) × (target : TaskRuntimeCondition) × (lookup task_id
            s.tasks
          ≡ some task)
        × (task.version ≡ expected)
        × (is_recovery task.runtime_condition ≡ true)
        × (lookup d.unknown_effect_id s.effects ≡ some unknown)
        × (is_unknown unknown.status ≡ true)
        × (validate_recovery_resolution env.hashing task unknown d given ≡ ok target)
        × Resolved d.kind target task t
        × (lookup d.id s'.recoveries ≡ some d)
        × (lookup task_id s'.tasks ≡ some t)
  unfolding resolve_recovery resolve_new
  resolve_recovery_records output detail d task_id expected given s {t} {s'} fresh h =
      let (task, of_task, h1) = fetch-ok (lookup task_id s.tasks) _ s _ h in
      let h2 : resolve_new env output detail task_id task d given expected s ≡ (ok t, s') =
        subst
          (λ (o : Option RecoveryDisposition).
            after_lookup output detail d task_id expected given task o s ≡ (ok t, s'))
          fresh h1 in
      let (version, h3) = check_version-ok task_id task.version (some expected) s _ h2 in
      let (recovery, h4) = raise_if-ok (not (is_recovery task.runtime_condition)) _ s _ h3 in
      let (unknown, found, h5) =
        fetch-ok (unknown_of_task task_id (lookup d.unknown_effect_id s.effects)) _ s _ h4 in
      let (stored, is_it) =
        unknown_of_task-ok task_id (lookup d.unknown_effect_id s.effects) unknown found in
      let (target, s1, valid, h6) =
        resume-ok (from_result (validate_recovery_resolution env.hashing task unknown d given) s) _
          h5 in
      let (t_is, recorded, kept) =
        apply_resolution-ok output detail task_id task unknown d given target s1 h6 in
      (
        task,
        unknown,
        target,
        of_task,
        ground (arith, version),
        ground (arith, recovery),
        stored,
        is_it,
        from_result-ok (validate_recovery_resolution env.hashing task unknown d given) s valid,
        resolved_task-Resolved d.kind target task t t_is,
        recorded,
        kept,
      )
