-- ===== src/Store/Tasks/Updates.antt =====
-- What a successful `update_task` guarantees (src/patchloop/persistence_contracts.py).
use patch_loop.Store.Leases.{require_session_guard}
use patch_loop.Store.Tasks.{journal_update, update_task}
use patch_loop.Common.Dict.{insert, lookup-insert_self, lookup}
use patch_loop.Store.State.{resume-ok, raise_if-ok, read-ok, Env, Store, check_version-ok, fetch-ok}
use patch_loop.Contracts.{Result, LeaseGuard, ok}
use patch_loop.Common.{
  ap, sym, ◌∙◌, Key, arith, none, not, refl, ◌&&◌, ◌||◌, Instant, Option, same_key, some, true, ℕ,
  ◌+◌, ◌≡◌,
}
use patch_loop.Domain.{Task, is_active, is_recovery, same_outcome}

pub guard_frame :
    (task : Task) (guard : Option LeaseGuard) (now : Instant) (s : Store)
    → (require_session_guard task guard now s).1 ≡ s
unfolding require_session_guard
guard_frame task guard now s = ground arith

journal_update_tasks :
    (env : Env) (t : Task) (k : Option Key) (s : Store)
    → (journal_update env t k s).1.tasks ≡ s.tasks
unfolding journal_update
journal_update_tasks env t none s = refl
journal_update_tasks env t (some k) s = ground arith

-- A successful update_task writes a task over its expected version only, in its own session, one
-- version on; a terminal outcome stays as it is, and a task that needs recovery still needs it.
pub update_task-ok :
    (env : Env) (task : Task) (expected : ℕ) (guard : Option LeaseGuard) (now : Instant) (s : Store)
    {t : Task} {s' : Store}
    → update_task env task expected guard now s ≡ (ok t, s')
    → (current : Task) × (lookup task.id s.tasks ≡ some current)
      × (current.version ≡ expected)
      × (same_key current.session_id task.session_id ≡ true)
      × ((is_active current.outcome || same_outcome task.outcome current.outcome) ≡ true)
      × ((not (is_recovery current.runtime_condition) || is_recovery task.runtime_condition) ≡ true)
      × (t ≡ record task { version = expected + 1 })
      × (lookup task.id s'.tasks ≡ some t)
unfolding update_task
update_task-ok env task expected guard now s {t} {s'} h =
    let (current, stored, h1) = fetch-ok (lookup task.id s.tasks) _ s _ h in
    let (version, h2) = check_version-ok task.id current.version (some expected) s _ h1 in
    let (_, guarded, h3) =
      read-ok (require_session_guard current guard now s) s _ (guard_frame current guard now s)
        h2 in
    let (session, h4) = raise_if-ok (not (same_key current.session_id task.session_id)) _ s _ h3 in
    let (outcome, h5) =
      raise_if-ok
        (not (is_active current.outcome) && not (same_outcome task.outcome current.outcome)) _ s _
        h4 in
    let (recovery, h6) =
      raise_if-ok
        (is_recovery current.runtime_condition && not (is_recovery task.runtime_condition)) _ s _
        h5 in
    let matches : current.version ≡ expected = ground (arith, version) in
    let (_, s2, wrote, h7) =
      resume-ok
        (journal_update env (record task { version = current.version + 1 }) task.session_id
          (record s {
            tasks = insert task.id (record task { version = current.version + 1 }) s.tasks;
          }))
        _ h6 in
    let shape : record task { version = current.version + 1 } ≡ t = cc in
    let frame : s'.tasks ≡ insert task.id (record task { version = current.version + 1 }) s.tasks =
      sym (ap (λ (q : Result Task × Store). q.1.tasks) h7)
      ∙ sym (ap (λ (q : Result (Unit {0}) × Store). q.1.tasks) wrote)
      ∙ journal_update_tasks env (record task { version = current.version + 1 }) task.session_id
          (record s {
            tasks = insert task.id (record task { version = current.version + 1 }) s.tasks;
          }) in
    (
      current,
      stored,
      matches,
      ground (arith, session),
      ground (arith, outcome),
      ground (arith, recovery),
      sym shape ∙ ap (λ (n : ℕ). record task { version = n + 1 }) matches,
      ap (lookup task.id) frame
          ∙ lookup-insert_self task.id (record task { version = current.version + 1 }) s.tasks
          ∙ ap some shape,
    )
