-- ===== src/Store/Recovery/Retries.antt =====
-- That `resolve_recovery` of src/patchloop/persistence_contracts.py carries out a retry which the rules
-- accept.
use patch_loop.Session.{Session}
use patch_loop.Contracts.{ok}
use patch_loop.Execution.Effects.{Effect, is_unknown, same_identity}
use patch_loop.Execution.Approvals.{Approval}
use patch_loop.Execution.Controls.{RecoveryDisposition}
use patch_loop.Store.State.{Env, Store}
use patch_loop.Store.Journal.{journal}
use patch_loop.Common.Dict.{has_key, insert, lookup, lookup-insert_self, values}
use patch_loop.Execution.Recovery.{Supplied, validate_recovery_resolution}
use patch_loop.Domain.{Task, TaskRuntimeCondition, is_recovery}
use patch_loop.Store.Recovery.{
  apply_resolution, follow_resolution, record_confirmation, record_retry, resolve_new,
  resolve_recovery, resolved_task, stored_disposition, waiting_retry,
}
use patch_loop.Common.{Key, any, ap, arith, false, none, some, true, ◌∙◌, ◌≡◌}

module _ (env : Env) where
  abbrev pub retries_with : Effect → Approval → Supplied
  retries_with retry approval = record {
    confirmed_call = none;
    confirmed_result = none;
    retry_effect = some retry;
    retry_approval = some approval;
  }

  apply_retry :
      (output detail : Key) (d : RecoveryDisposition) (task : Task) (unknown retry : Effect)
      (approval : Approval) (k : Key) (session : Session) (target : TaskRuntimeCondition)
      (s : Store)
      → has_key retry.id s.effects ≡ false
      → any (λ c. same_identity c retry) (values s.effects) ≡ false
      → task.session_id ≡ some k
      → lookup k s.sessions ≡ some session
      → (s' : Store) × (apply_resolution env output detail task.id task unknown d
            (retries_with retry approval)
            target
            s
          ≡ (ok (resolved_task d.kind target task), s'))
        × (s'.effects ≡ insert retry.id (waiting_retry env retry approval) s.effects)
        × (s'.approvals ≡ insert approval.id approval s.approvals)
  unfolding apply_resolution record_confirmation record_retry follow_resolution journal
  apply_retry output detail d task unknown retry approval k session target s absent unlike
        in_session known =
      (
        (apply_resolution env output detail task.id task unknown d (retries_with retry approval)
            target s).1,
        ground (arith, absent, unlike, in_session, known),
        ground (arith, absent, unlike, in_session, known),
        ground (arith, absent, unlike, in_session, known),
      )

  pub resolve_recovery-retry :
      (output detail : Key) (d : RecoveryDisposition) (task : Task) (unknown retry : Effect)
      (approval : Approval) (k : Key) (session : Session) (target : TaskRuntimeCondition)
      (s : Store)
      → lookup task.id s.tasks ≡ some task
      → stored_disposition d s ≡ none
      → lookup d.unknown_effect_id s.effects ≡ some unknown
      → unknown.task_id ≡ task.id
      → is_unknown unknown.status ≡ true
      → is_recovery task.runtime_condition ≡ true
      → validate_recovery_resolution env.hashing task unknown d (retries_with retry approval)
        ≡ ok target
      → has_key retry.id s.effects ≡ false
      → any (λ c. same_identity c retry) (values s.effects) ≡ false
      → task.session_id ≡ some k
      → lookup k s.sessions ≡ some session
      → (s' : Store) × (resolve_recovery env output detail d task.id task.version
            (retries_with retry approval)
            s
          ≡ (ok (resolved_task d.kind target task), s'))
        × (lookup retry.id s'.effects ≡ some (waiting_retry env retry approval))
        × (lookup approval.id s'.approvals ≡ some approval)
  unfolding resolve_recovery resolve_new
  resolve_recovery-retry output detail d task unknown retry approval k session target s stored fresh
        at of_task is_lost recovering valid absent unlike in_session known =
      let (s', applied, effects, approvals) =
        apply_retry output detail d task unknown retry approval k session target s absent unlike
          in_session known in
      (
        s',
        ground (arith, stored, fresh, at, of_task, is_lost, recovering, valid, applied),
        ap (lookup retry.id) effects
            ∙ lookup-insert_self retry.id (waiting_retry env retry approval) s.effects,
        ap (lookup approval.id) approvals ∙ lookup-insert_self approval.id approval s.approvals,
      )
