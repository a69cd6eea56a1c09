-- ===== src/Store/Batches.antt =====
-- `prepare_effect_batch` of `FakeStore` (src/patchloop/persistence_contracts.py): the effects of one
-- step are stored with the model's response that asks for them.
pub mod Steps
use patch_loop.Domain.Tools.{AgentStep}
use patch_loop.Session.{EventType}
use patch_loop.Common.Dict.{Dict, values}
use patch_loop.Execution.Effects.{Effect, Hashing, assert_identity_compatible}
use patch_loop.Store.Journal.{journal_task}
use patch_loop.Contracts.{effect_identity_conflict, LeaseGuard, Result, err, ok, value_error}
use patch_loop.Store.Leases.{require_session_guard}
use patch_loop.Domain.{Task}
use patch_loop.Store.State.{
  ◌>>◌, Env, M, check_version, from_result, get_task, gets, insert_pair, lookup_pair, modify, pure,
  raise_if, ◌>>=◌,
}
use patch_loop.Common.{
  Bool, Instant, Key, List, Option, [], false, find, is_none, none, not, same_key, some, true, ℕ,
  ◌&&◌, ◌+◌, ◌==◌, ◌||◌, ◌∷◌,
}
use patch_loop.Store.Preparation.{clash, continue_with, ids, insert_all}

-- `effect.batch_position != position` and its like, from a position on.
unfoldable pub misplaced : AgentStep → ℕ → List Effect → Bool
misplaced step n [] = false
misplaced step n (e ∷ es) =
    let rest = misplaced step (n + 1) es in
    not (e.task_id == step.task_id)
    || (not (e.step_id == step.id) || (not (e.batch_position == n) || rest))

-- `==` of lists of texts.
unfoldable pub same_keys : List Key → List Key → Bool
same_keys [] [] = true
same_keys (a ∷ xs) (b ∷ ys) = let rest = same_keys xs ys in a == b && rest
same_keys _ _ = false

abbrev is_empty : List Key → Bool
is_empty [] = true
is_empty _ = false

-- A stored step that is not the given one.
abbrev clashes : Option AgentStep → AgentStep → Bool
clashes none step = false
clashes (some existing) step =
    not (existing.id == step.id)
    || (not (is_none existing.model_response)
          && not (same_key existing.model_response step.model_response)
        || not (is_empty existing.effect_ids)
          && not (same_keys existing.effect_ids step.effect_ids))

-- What is returned for each effect, and what is new.
pub place_all : Hashing → Dict Effect → List Effect → Result (List Effect × List Effect)
unfolding assert_identity_compatible
place_all h effects [] = ok ([], [])
place_all h effects (e ∷ es) =
    let rest = place_all h effects es in
    elim (find (clash e) (values effects)) [
      | some stored ↦ elim (assert_identity_compatible h stored e) [
        | some error ↦ err error
        | none ↦ continue_with rest (λ prepared added. ok (stored ∷ prepared, added))
      ]
      | none ↦ continue_with rest (λ prepared added. ok (e ∷ prepared, e ∷ added))
    ]

abbrev put_step : AgentStep → M (Unit {0})
put_step step = modify λ s. record s { steps = insert_pair step.task_id step.index step s.steps }

module _ (env : Env) where
  journal_prepared : Task → List Effect → M (Unit {0})
  unfolding journal_task
  journal_prepared task [] = pure tt
  journal_prepared task (e ∷ es) =
      journal_task env task EventType.effects_prepared task.id (ids (e ∷ es)) none

  unfoldable pub prepare_effect_batch :
      AgentStep → List Effect → ℕ → Option LeaseGuard → Instant → M (List Effect)
  unfolding require_session_guard misplaced same_keys place_all journal_prepared insert_all
  prepare_effect_batch step effects expected guard now = do
    raise_if (is_none step.model_response) value_error
    raise_if (not (same_keys step.effect_ids (ids effects))) value_error
    raise_if (misplaced step 0 effects) value_error
    task ← get_task step.task_id
    require_session_guard task guard now
    check_version task.id task.version (some expected)
    raise_if (← gets (λ s. clashes (lookup_pair step.task_id step.index s.steps) step))
        (effect_identity_conflict step.id)
    (prepared, added) ← gets (λ s. place_all env.hashing s.effects effects) >>= from_result
    put_step step
    modify λ s. record s { effects = insert_all added s.effects }
    journal_prepared task added
    pure prepared
