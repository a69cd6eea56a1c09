-- ===== src/Services/Recovery/Confirmed.antt =====
-- That the store accepts the confirmations which `RecoveryService` of
-- src/patchloop/execution/recovery.py makes.
use patch_loop.Store.Recovery.Confirmations.{confirms_with, resolve_recovery-confirmation}
use patch_loop.Session.{Session}
use patch_loop.Execution.Recovery.{belongs, check_confirm, check_kind, validate_recovery_resolution}
use patch_loop.Contracts.{ok}
use patch_loop.Store.Recovery.{confirmed_effect, resolved_task}
use patch_loop.Store.State.{Env, Store, lookup_pair}
use patch_loop.Common.Dict.{lookup, values}
use patch_loop.Execution.Controls.{DispositionKind, Evidence, validate_target}
use patch_loop.Execution.Effects.{Effect, EffectStatus, is_unknown}
use patch_loop.Domain.{Task, TaskRuntimeCondition, is_active, is_recovery}
use patch_loop.Services.Recovery.{
  valid_disposition, confirm_result, Drawn, RecoveryResolution, Texts, confirm_persisted_result,
  disposed, observed, persisted_call,
}
use patch_loop.Common.{
  Bool, Bool-cases, Key, arith, false, find, if◌then◌else◌, inl, inr, none, refl, some, true, ◌==◌,
  ◌≡◌,
}

-- Where a confirmed result leads.
abbrev pub resumed : Task → TaskRuntimeCondition
resumed task =
    if is_active task.outcome then TaskRuntimeCondition.idle else TaskRuntimeCondition.ended

module _ (env : Env) (texts : Texts) where
  -- The rules accept the call and the result that the service puts together.
  confirmation_valid :
      (drawn : Drawn) (task : Task) (unknown : Effect) (evidence : Evidence) (success : Bool)
      (output source : Key)
      → is_recovery task.runtime_condition ≡ true
      → unknown.task_id ≡ task.id
      → is_unknown unknown.status ≡ true
      → unknown.arguments_fingerprint ≡ env.hashing.hash_arguments unknown.arguments_summary
      → evidence.is_empty ≡ false
      → validate_recovery_resolution env.hashing task unknown
          (disposed env texts drawn unknown.id DispositionKind.confirm_result evidence source none)
          (confirms_with env
            (persisted_call env texts unknown)
            (observed env texts unknown success output))
        ≡ ok (resumed task)
  unfolding validate_recovery_resolution check_kind check_confirm belongs validate_target
  confirmation_valid drawn task unknown evidence success output source recovering of_task is_lost
        hashed given =
      elim (Bool-cases (is_active task.outcome)) [
        | inl active ↦ ground (arith, recovering, of_task, is_lost, hashed, given, active)
        | inr ended ↦ ground (arith, recovering, of_task, is_lost, hashed, given, ended)
      ]

  -- In a store that has an unknown effect under its id, its task, in recovery and in a session
  -- that is stored, and no disposition for it nor one under the new id, if the fingerprint of the
  -- effect is the hash of its arguments, the evidence is not empty, and the class of the
  -- disposition allows its texts, confirm_persisted_result succeeds. The task is then idle, or
  -- ended if it has a terminal outcome, the effect is stored as succeeded or failed as the
  -- operator said, and the result is stored as the observation of the effect's own call.
  pub confirm_persisted_result-returns :
      (drawn : Drawn) (task : Task) (unknown : Effect) (evidence : Evidence) (success : Bool)
      (output source k : Key) (session : Session) (s : Store)
      → lookup task.id s.tasks ≡ some task
      → is_recovery task.runtime_condition ≡ true
      → task.session_id ≡ some k
      → lookup k s.sessions ≡ some session
      → lookup unknown.id s.effects ≡ some unknown
      → unknown.task_id ≡ task.id
      → is_unknown unknown.status ≡ true
      → unknown.arguments_fingerprint ≡ env.hashing.hash_arguments unknown.arguments_summary
      → evidence.is_empty ≡ false
      → lookup drawn.disposition_id s.recoveries ≡ none
      → find (λ c. c.unknown_effect_id == unknown.id) (values s.recoveries) ≡ none
      → valid_disposition env texts
          (disposed env texts drawn unknown.id DispositionKind.confirm_result evidence source none)
        ≡ true
      → (r : RecoveryResolution) × (s' : Store) × (confirm_persisted_result env texts drawn task.id
            unknown.id success output evidence source s
          ≡ (ok r, s'))
        × (r.task.runtime_condition ≡ resumed task)
        × ((e : Effect) × (lookup unknown.id s'.effects ≡ some e)
            × (e.status ≡ (if success then EffectStatus.succeeded else EffectStatus.failed)))
        × (lookup_pair task.id unknown.provider_call_id s'.tool_results
            ≡ some (persisted_call env texts unknown, observed env texts unknown success output))
  unfolding confirm_persisted_result confirm_result
  confirm_persisted_result-returns drawn task unknown evidence success output source k session s
        stored recovering in_session known at of_task is_lost hashed given no_disposition undisposed
        fits =
      let call = persisted_call env texts unknown in
      let result = observed env texts unknown success output in
      let d =
        disposed env texts drawn unknown.id DispositionKind.confirm_result evidence source none in
      let valid =
        confirmation_valid drawn task unknown evidence success output source recovering of_task
          is_lost hashed given in
      let (s', resolved, effect_stored, observation_stored) =
        resolve_recovery-confirmation env drawn.output drawn.detail d task unknown call result k
          session (resumed task) s stored (ground (arith, no_disposition, undisposed)) at of_task
          is_lost recovering valid in_session known in
      (
        record {
          task = resolved_task DispositionKind.confirm_result (resumed task) task;
          disposition = d;
          retry_effect = none;
          retry_approval = none;
        },
        s',
        ground (arith, stored, at, fits, resolved),
        refl,
        (confirmed_effect env task unknown d (call, result), effect_stored, refl),
        observation_stored,
      )
