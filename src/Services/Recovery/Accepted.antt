-- ===== src/Services/Recovery/Accepted.antt =====
-- That the store accepts the retries which `RecoveryService` of src/patchloop/execution/recovery.py
-- makes.
use patch_loop.Services.Approvals.{Texts, build_approval, requested_approval, valid_approval}
use patch_loop.Store.Recovery.Retries.{resolve_recovery-retry}
use patch_loop.Session.{Session}
use patch_loop.Common.Dict.{has_key, lookup, values}
use patch_loop.Execution.Approvals.{Approval, is_pending, matches_execution_conditions}
use patch_loop.Store.Recovery.{resolved_task, waiting_retry}
use patch_loop.Execution.Effects.{
  content_fingerprint, is_waiting, same_identity, Effect, is_unknown,
}
use patch_loop.Execution.Controls.{DispositionKind, Evidence, validate_target}
use patch_loop.Contracts.{ok}
use patch_loop.Store.State.{Store, Env}
use patch_loop.Domain.{Task, TaskRuntimeCondition, is_active, is_recovery}
use patch_loop.Services.Recovery.{
  valid_disposition, create_retry, RecoveryResolution, retry_pending, Drawn, acknowledging,
  disposed, nothing_supplied, retry_of,
}
use patch_loop.Execution.Recovery.{
  check_kind, check_pair, check_retry, exact_approval, exact_retry, validate_recovery_resolution,
}
use patch_loop.Common.{any, find, refl, Key, arith, false, none, some, true, ◌==◌, ◌≡◌}

module _ (env : Env) (texts : Texts) where
  -- The rules accept the retry and the approval that the service builds.
  retry_valid :
      (drawn : Drawn) (task : Task) (unknown : Effect) (evidence : Evidence)
      (source policy_version config_version : Key)
      → is_recovery task.runtime_condition ≡ true
      → is_active task.outcome ≡ true
      → unknown.task_id ≡ task.id
      → is_unknown unknown.status ≡ true
      → unknown.preparation_error ≡ none
      → (drawn.effect_id == unknown.id) ≡ false
      → validate_recovery_resolution env.hashing task unknown
          (disposed env texts drawn unknown.id DispositionKind.create_retry
            (acknowledging env texts evidence)
            source
            (some drawn.effect_id))
          (record nothing_supplied {
            retry_effect = some (retry_of env texts drawn unknown);
            retry_approval = some (
                requested_approval env texts task
                  (retry_of env texts drawn unknown)
                  policy_version
                  config_version
                  drawn.now);
          })
        ≡ ok TaskRuntimeCondition.waiting_for_approval
  unfolding validate_recovery_resolution check_kind check_retry check_pair exact_retry
      exact_approval requested_approval validate_target
  retry_valid drawn task unknown evidence source policy_version config_version recovering active
        of_task is_lost fine new =
      ground (arith, recovering, active, of_task, is_lost, fine, new)

  -- In a store that has an unknown effect under its id, its task, in recovery and in a session
  -- that is stored, and no disposition for it nor one under the new id, if the task is active, the
  -- effect has no preparation error, and the new effect's id and identity are those of no stored
  -- effect, and no text is empty or longer than the classes of the approval and the disposition
  -- allow, an acknowledged retry_pending succeeds. The task then waits for approval; a new effect
  -- is stored that waits for a pending approval, stored too, which matches the effect under the
  -- task's workspace and the given policy and configuration.
  pub retry_pending-returns :
      (drawn : Drawn) (task : Task) (unknown : Effect) (evidence : Evidence)
      (source policy_version config_version k : Key) (session : Session) (s : Store)
      → lookup task.id s.tasks ≡ some task
      → is_recovery task.runtime_condition ≡ true
      → is_active task.outcome ≡ true
      → task.session_id ≡ some k
      → lookup k s.sessions ≡ some session
      → lookup unknown.id s.effects ≡ some unknown
      → unknown.task_id ≡ task.id
      → is_unknown unknown.status ≡ true
      → unknown.preparation_error ≡ none
      → lookup drawn.disposition_id s.recoveries ≡ none
      → find (λ c. c.unknown_effect_id == unknown.id) (values s.recoveries) ≡ none
      → has_key drawn.effect_id s.effects ≡ false
      → any (λ c. same_identity c (retry_of env texts drawn unknown)) (values s.effects) ≡ false
      → valid_approval env texts (
          requested_approval env texts task
            (retry_of env texts drawn unknown)
            policy_version
            config_version
            drawn.now)
        ≡ true
      → valid_disposition env texts (
          disposed env texts drawn unknown.id DispositionKind.create_retry
            (acknowledging env texts (acknowledging env texts evidence))
            source
            (some drawn.effect_id))
        ≡ true
      → (r : RecoveryResolution) × (s' : Store) × (retry_pending env texts drawn task.id unknown.id
            true evidence source policy_version config_version s
          ≡ (ok r, s'))
        × (r.task.runtime_condition ≡ TaskRuntimeCondition.waiting_for_approval)
        × ((retry : Effect) × (approval : Approval) × (r.retry_effect ≡ some retry)
            × (r.retry_approval ≡ some approval)
            × (lookup drawn.effect_id s'.effects ≡ some retry)
            × (lookup approval.id s'.approvals ≡ some approval)
            × (is_waiting retry.status ≡ true)
            × (retry.approval_id ≡ some approval.id)
            × (is_pending approval.status ≡ true)
            × (matches_execution_conditions env.hashing approval retry (record {
              workspace_ref = task.repository;
              policy_version = policy_version;
              config_version = config_version;
            })
                ≡ true))
  unfolding retry_pending create_retry build_approval requested_approval
      matches_execution_conditions content_fingerprint
  retry_pending-returns drawn task unknown evidence source policy_version config_version k session s
        stored recovering active in_session known at of_task is_lost fine no_disposition undisposed
        absent unlike approval_fits fits =
      let new : (drawn.effect_id == unknown.id) ≡ false = ground (arith, at, absent) in
      let retry = retry_of env texts drawn unknown in
      let approval =
        requested_approval env texts task retry policy_version config_version drawn.now in
      let d =
        disposed env texts drawn unknown.id DispositionKind.create_retry
          (acknowledging env texts (acknowledging env texts evidence)) source
          (some drawn.effect_id) in
      let valid =
        retry_valid drawn task unknown (acknowledging env texts evidence) source policy_version
          config_version recovering active of_task is_lost fine new in
      let (s', resolved, effect_stored, approval_stored) =
        resolve_recovery-retry env drawn.output drawn.detail d task unknown retry approval k session
          TaskRuntimeCondition.waiting_for_approval s stored
          (ground (arith, no_disposition, undisposed)) at of_task is_lost recovering valid absent
          unlike in_session known in
      (
        record {
          task =
              resolved_task DispositionKind.create_retry TaskRuntimeCondition.waiting_for_approval
                task;
          disposition = d;
          retry_effect = some (waiting_retry env retry approval);
          retry_approval = some approval;
        },
        s',
        ground (arith, stored, at, approval_fits, fits, resolved),
        refl,
        (
          waiting_retry env retry approval,
          approval,
          refl,
          refl,
          effect_stored,
          approval_stored,
          refl,
          refl,
          refl,
          ground arith,
        ),
      )
