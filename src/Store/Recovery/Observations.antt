-- ===== src/Store/Recovery/Observations.antt =====
-- The observations that `commit_tool_result` keeps (src/patchloop/persistence_contracts.py).
use patch_loop.Store.Journal.{journal_task}
use patch_loop.Session.{EventType}
use patch_loop.Domain.{Task}
use patch_loop.Store.Tasks.Updates.{guard_frame}
use patch_loop.Store.Recovery.{commit_new_result, commit_tool_result}
use patch_loop.Store.Leases.{require_session_guard}
use patch_loop.Domain.Tools.{Observation, ToolCall, ToolResult}
use patch_loop.Contracts.{LeaseGuard, Result}
use patch_loop.Store.State.{
  check_version_cases, insert_pair, lookup_pair-insert_pair, pure, resume, Env, Store, fetch_cases,
  lookup_pair, raise_if_cases, resume_cases,
}
use patch_loop.Common.{
  List, Option-cases, [], ap, arith, inl, inr, none, ◌∙◌, ◌∷◌, Instant, Key, Option, not, some, ℕ,
  ◌==◌, ◌≡◌,
}
use patch_loop.Common.Dict.{lookup}

module _ (env : Env) where
  finish_results :
      {A : Type 0} (task : Task) (type : EventType) (k : Key) (r : List ℕ) (trace : Option Key)
      (x : A) (s : Store)
      → (resume (journal_task env task type k r trace s) (λ _. pure x)).1.tool_results
        ≡ s.tool_results
  unfolding journal_task
  finish_results task type k r trace x s = ground arith

  insert_keeps :
      (i j a b : Key) (o p : Observation) (s : Store)
      → lookup_pair i j s.tool_results ≡ none
      → lookup_pair a b s.tool_results ≡ some o
      → lookup_pair a b (insert_pair i j p s.tool_results) ≡ some o
  insert_keeps i j a b o p s missing stored =
      ground (arith, lookup_pair-insert_pair i j a b p s.tool_results, missing, stored)

  commit_new_keeps :
      (task_id : Key) (task : Task) (call : ToolCall) (result : ToolResult) (expected : Option ℕ)
      (s : Store) (a b : Key) (o : Observation)
      → lookup_pair task_id call.id s.tool_results ≡ none
      → lookup_pair a b s.tool_results ≡ some o
      → lookup_pair a b (commit_new_result env task_id task call result expected s).1.tool_results
        ≡ some o
  unfolding commit_new_result
  commit_new_keeps task_id task call result expected s a b o missing stored =
      check_version_cases P s task_id task.version expected _ (λ _. stored)
        λ _.
          ap (lookup_pair a b) (
            finish_results task EventType.tool_result_committed call.id (task_id ∷ [])
              (some call.id) result
              (record s {
                tool_results = insert_pair task_id call.id (call, result) s.tool_results;
              }))
          ∙ insert_keeps task_id call.id a b o (call, result) s missing stored
    where
      P : Result ToolResult × Store → Type 0
      P r = lookup_pair a b r.1.tool_results ≡ some o

module _ (env : Env) (task_id : Key) (call : ToolCall) (result : ToolResult) (expected : Option ℕ)
    (guard : Option LeaseGuard) (now : Instant) (s : Store) where
  -- A committed observation is never written over: whether commit_tool_result returns or raises,
  -- every observation that was stored, under any task and call, is stored as it was.
  pub commit_tool_result_keeps :
      (a b : Key) (o : Observation)
      → lookup_pair a b s.tool_results ≡ some o
      → lookup_pair a b
          (commit_tool_result env task_id call result expected guard now s).1.tool_results
        ≡ some o
  unfolding commit_tool_result
  commit_tool_result_keeps a b o stored =
      raise_if_cases P s (not (result.call_id == call.id)) _ _ stored λ _.
        fetch_cases P s (lookup task_id s.tasks) _ _ (λ _. stored)
          λ task of_task.
            resume_cases P (require_session_guard task guard now s) _ (λ _ _. kept task)
              λ _ _. elim (Option-cases (lookup_pair task_id call.id (after task).tool_results)) [
                | inl missing ↦ rw missing (
                    commit_new_keeps env task_id task call result expected (after task) a b o
                      missing (kept task))
                | inr (p, found) ↦ ground (arith, found, kept task)
              ]
    where
      P : Result ToolResult × Store → Type 0
      P r = lookup_pair a b r.1.tool_results ≡ some o

      after : Task → Store
      after task = (require_session_guard task guard now s).1

      kept : (task : Task) → lookup_pair a b (after task).tool_results ≡ some o
      kept task =
          ap (λ (q : Store). lookup_pair a b q.tool_results) (guard_frame task guard now s) ∙ stored
