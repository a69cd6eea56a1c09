-- ===== src/Store/Recovery/Confirmations.antt =====
-- That `resolve_recovery` of src/patchloop/persistence_contracts.py carries out a confirmation which the
-- rules accept.
use patch_loop.Session.{Session}
use patch_loop.Services.Recovery.{observed}
use patch_loop.Contracts.{ok}
use patch_loop.Execution.Recovery.{Supplied, validate_recovery_resolution}
use patch_loop.Domain.Tools.{ToolCall, ToolResult}
use patch_loop.Execution.Controls.{RecoveryDisposition}
use patch_loop.Store.State.{lookup_pair-insert_pair, Env, Store, insert_pair, lookup_pair}
use patch_loop.Store.Journal.{journal}
use patch_loop.Domain.{Task, TaskRuntimeCondition, is_recovery}
use patch_loop.Common.Dict.{insert, lookup, lookup-insert_self}
use patch_loop.Execution.Effects.{Effect, is_unknown}
use patch_loop.Store.Recovery.{
  apply_resolution, confirmed_effect, follow_resolution, record_confirmation, record_retry,
  resolve_new, resolve_recovery, resolved_task, stored_disposition,
}
use patch_loop.Common.{Key, ap, arith, none, some, true, ◌∙◌, ◌≡◌}

module _ (env : Env) where
  abbrev pub confirms_with : ToolCall → ToolResult → Supplied
  confirms_with call result = record {
    confirmed_call = some call;
    confirmed_result = some result;
    retry_effect = none;
    retry_approval = none;
  }

  apply_confirmation :
      (output detail : Key) (d : RecoveryDisposition) (task : Task) (unknown : Effect)
      (call : ToolCall) (result : ToolResult) (k : Key) (session : Session)
      (target : TaskRuntimeCondition) (s : Store)
      → task.session_id ≡ some k
      → lookup k s.sessions ≡ some session
      → (s' : Store) × (apply_resolution env output detail task.id task unknown d
            (confirms_with call result)
            target
            s
          ≡ (ok (resolved_task d.kind target task), s'))
        × (s'.effects
            ≡ insert unknown.id (confirmed_effect env task unknown d (call, result)) s.effects)
        × (s'.tool_results ≡ insert_pair task.id call.id (call, result) s.tool_results)
  unfolding apply_resolution record_confirmation record_retry follow_resolution journal
  apply_confirmation output detail d task unknown call result k session target s in_session known =
      (
        (apply_resolution env output detail task.id task unknown d (confirms_with call result)
            target s).1,
        ground (arith, in_session, known),
        ground (arith, in_session, known),
        ground (arith, in_session, known),
      )

  pub resolve_recovery-confirmation :
      (output detail : Key) (d : RecoveryDisposition) (task : Task) (unknown : Effect)
      (call : ToolCall) (result : ToolResult) (k : Key) (session : Session)
      (target : TaskRuntimeCondition) (s : Store)
      → lookup task.id s.tasks ≡ some task
      → stored_disposition d s ≡ none
      → lookup d.unknown_effect_id s.effects ≡ some unknown
      → unknown.task_id ≡ task.id
      → is_unknown unknown.status ≡ true
      → is_recovery task.runtime_condition ≡ true
      → validate_recovery_resolution env.hashing task unknown d (confirms_with call result)
        ≡ ok target
      → task.session_id ≡ some k
      → lookup k s.sessions ≡ some session
      → (s' : Store) × (resolve_recovery env output detail d task.id task.version
            (confirms_with call result)
            s
          ≡ (ok (resolved_task d.kind target task), s'))
        × (lookup unknown.id s'.effects ≡ some (confirmed_effect env task unknown d (call, result)))
        × (lookup_pair task.id call.id s'.tool_results ≡ some (call, result))
  unfolding resolve_recovery resolve_new
  resolve_recovery-confirmation output detail d task unknown call result k session target s stored
        fresh at of_task is_lost recovering valid in_session known =
      let (s', applied, effects, observed) =
        apply_confirmation output detail d task unknown call result k session target s in_session
          known in
      (
        s',
        ground (arith, stored, fresh, at, of_task, is_lost, recovering, valid, applied),
        ap (lookup unknown.id) effects
            ∙ lookup-insert_self unknown.id (confirmed_effect env task unknown d (call, result))
                s.effects,
        ap (lookup_pair task.id call.id) observed
            ∙ ground (
              arith,
              lookup_pair-insert_pair task.id call.id task.id call.id (call, result) s.tool_results,
            ),
      )
