-- ===== src/Store/Preparation.antt =====
-- `prepare_effects` of `FakeStore` (src/patchloop/persistence_contracts.py): a batch is stored once,
-- and a repetition is given what was stored.
pub mod Steps
use patch_loop.Domain.{Task}
use patch_loop.Store.Journal.{journal_task}
use patch_loop.Store.Leases.{require_session_guard}
use patch_loop.Session.{EventType}
use patch_loop.Store.State.{
  from_result, gets, get_task, check_version, raise_if, ◌>>=◌, modify, pure, ◌>>◌, M, Env,
}
use patch_loop.Contracts.{value_error, LeaseGuard, err, ok, Result}
use patch_loop.Common.Dict.{values, insert, lookup, Dict}
use patch_loop.Execution.Effects.{same_identity, Effect, Hashing, assert_identity_compatible}
use patch_loop.Common.{
  ◌++◌, any, none, find, not, ◌||◌, [], some, ◌==◌, Bool, Instant, map, ◌∷◌, Key, List, Option, ℕ,
}

-- `prepare_effects`: what is stored under the identifier or the identity of an effect.
abbrev pub clash : Effect → Effect → Bool
clash e candidate = candidate.id == e.id || same_identity candidate e

-- The stored effect that stands for a requested one: by identifier, else by identity, else among
-- those that the batch has added.
abbrev stored_for : Dict Effect → List Effect → Effect → Option Effect
stored_for effects added e = elim (lookup e.id effects) [
  | some found ↦ some found
  | none ↦ elim (find (λ c. same_identity c e) (values effects)) [
    | some found ↦ some found
    | none ↦ find (clash e) added
  ]
]

-- One round of the batch: the results and the new effects so far.
abbrev prepare_one :
    Hashing → Dict Effect → List Effect → List Effect → Effect → Result (List Effect × List Effect)
prepare_one h effects result added e = elim (stored_for effects added e) [
  | none ↦ ok (result ++ e ∷ [], added ++ e ∷ [])
  | some stored ↦ elim (assert_identity_compatible h stored e) [
    | none ↦ ok (result ++ stored ∷ [], added)
    | some error ↦ err error
  ]
]

abbrev pub continue_with :
    Result (List Effect × List Effect)
    → (List Effect → List Effect → Result (List Effect × List Effect))
    → Result (List Effect × List Effect)
continue_with (ok (result, added)) f = f result added
continue_with (err e) f = err e

pub prepare_all :
    Hashing
    → Dict Effect
    → List Effect
    → List Effect
    → List Effect
    → Result (List Effect × List Effect)
unfolding assert_identity_compatible
prepare_all h effects result added [] = ok (result, added)
prepare_all h effects result added (e ∷ es) =
    continue_with (prepare_one h effects result added e) (λ r a. prepare_all h effects r a es)

unfoldable pub insert_all : List Effect → Dict Effect → Dict Effect
insert_all [] d = d
insert_all (e ∷ es) d = insert_all es (insert e.id e d)

abbrev pub ids : List Effect → List Key
ids es = map (λ e. e.id) es

module _ (env : Env) where
  -- The new effects of a batch are written under a version check; a batch that repeats stored
  -- effects writes nothing.
  write_prepared : Task → ℕ → List Effect → M (Unit {0})
  unfolding insert_all journal_task
  write_prepared task expected [] = pure tt
  write_prepared task expected (e ∷ es) = do
    check_version e.task_id task.version (some expected)
    modify λ s. record s { effects = insert_all (e ∷ es) s.effects }
    journal_task env task EventType.effects_prepared task.id (ids (e ∷ es)) none

  unfoldable pub prepare_effects : List Effect → ℕ → Option LeaseGuard → Instant → M (List Effect)
  unfolding require_session_guard prepare_all write_prepared
  prepare_effects [] expected guard now = pure []
  prepare_effects (first ∷ rest) expected guard now = do
    raise_if (any (λ e. not (e.task_id == first.task_id)) rest) value_error
    task ← get_task first.task_id
    require_session_guard task guard now
    (result, added) ←
        gets (λ s. prepare_all env.hashing s.effects [] [] (first ∷ rest)) >>= from_result
    write_prepared task expected added
    pure result
