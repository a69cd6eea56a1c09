-- ===== src/Store/Leases/Survival.antt =====
-- The calls other than a claim make no execution active: what is active after a call was active
-- before it (src/patchloop/persistence_contracts.py).
use patch_loop.Common.{
  [], ◌∷◌, List, Bool, ◌⊎◌, Option-cases, subst, ◌+◌, Key, Instant, ◌≡◌, inl, inr, true, some,
  arith, refl, ◌==◌, sym, ap, ◌∙◌, Bool-cases,
}
use patch_loop.Common.Dict.{Dict, lookup, insert, lookup-insert, lookup-Keyed}
use patch_loop.Contracts.{ok, LeaseGuard}
use patch_loop.Execution.Leases.{ExecutionStatus, Execution, is_active_status}
use patch_loop.Store.State.{resume, Store, resume_cases}
use patch_loop.Store.Leases.{
  expire_one, expire_all, with_status, Env, mark_command_recovery_required, release_execution,
  released, renewed, assert_guard, renew_execution,
}
use patch_loop.Store.Leases.Expiry.{one_writes, IsKeyed, execution_id}

-- Each active entry was there before, under the same session and task.
abbrev pub Survives : Dict Execution → Dict Execution → Type 0
Survives d d' =
    (k : Key) (a : Execution)
    → lookup k d' ≡ some a
    → is_active_status a.status ≡ true
    → (b : Execution) × (lookup k d ≡ some b)
      × (is_active_status b.status ≡ true)
      × (b.session_id ≡ a.session_id)
      × (b.task_id ≡ a.task_id)

same-Survives : (d d' : Dict Execution) → d' ≡ d → Survives d d'
same-Survives d d' h k a found live = (a, ap (lookup k) (sym h) ∙ found, live, refl, refl)

-- A write that retires an entry, or is of an active one with its session and task.
put-Survives :
    (d d' : Dict Execution) (e : Execution)
    → d' ≡ insert e.id e d
    → ((is_active_status e.status ≡ true)
        → (b : Execution) × (lookup e.id d ≡ some b)
          × (is_active_status b.status ≡ true)
          × (b.session_id ≡ e.session_id)
          × (b.task_id ≡ e.task_id))
    → Survives d d'
put-Survives d d' e written known k a found live = elim (Bool-cases (e.id == k)) [
  | inl here ↦
      let same : e ≡ a = ground (arith, lookup-insert e.id k e d) in
      let (b, before, active, session, task) = known (ground arith) in
      (b, ground arith, active, ground arith, ground arith)
  | inr there ↦ (a, ground (arith, lookup-insert e.id k e d), live, refl, refl)
]

one-Survives :
    (mine : Execution → Bool) (resource : Key) (now : Instant) (e : Execution) (b : Bool)
    (s : Store)
    → Survives s.executions (expire_one mine resource now e b s).1.executions
one-Survives mine resource now e b s = elim (one_writes mine resource now e b s) [
  | inl same ↦ same-Survives _ _ same
  | inr written ↦ put-Survives _ _ (with_status ExecutionStatus.released e) written (λ h. cc)
]

trans-Survives : (d d1 d2 : Dict Execution) → Survives d d1 → Survives d1 d2 → Survives d d2
trans-Survives d d1 d2 f g k a found live =
    let (b, found_b, live_b, session_b, task_b) = g k a found live in
    let (c, found_c, live_c, session_c, task_c) = f k b found_b live_b in
    (c, found_c, live_c, session_c ∙ session_b, task_c ∙ task_b)

-- A loop of `claim_execution` that stops half way has done no more than retire.
pub expire_all-Survives :
    (mine : Execution → Bool) (resource : Key) (now : Instant) (es : List Execution) (b : Bool)
    (s : Store)
    → Survives s.executions (expire_all mine resource now es b s).1.executions
unfolding expire_all
expire_all-Survives mine resource now [] b s = same-Survives _ _ refl
expire_all-Survives mine resource now (e ∷ es) b s =
    let s1 = (expire_one mine resource now e b s).1 in
    resume_cases (λ r. Survives s.executions r.1.executions) (expire_one mine resource now e b s) _
      (λ _ _. one-Survives mine resource now e b s)
      λ t _.
        trans-Survives _ s1.executions _ (one-Survives mine resource now e b s)
          (expire_all-Survives mine resource now es t s1)

-- What a guard that passes has found.
pub guarded :
    (g : LeaseGuard) (now : Instant) (s : Store) {e : Execution}
    → assert_guard g now s ≡ (ok e, (assert_guard g now s).1)
    → (lookup g.execution_id s.executions ≡ some e) × (is_active_status e.status ≡ true)
unfolding assert_guard
guarded g now s h = ground arith

pub guard_store : (g : LeaseGuard) (now : Instant) (s : Store) → (assert_guard g now s).1 ≡ s
unfolding assert_guard
guard_store g now s = ground arith

-- After a passed guard, the execution may be written back under its session and task.
guarded-Survives :
    (g : LeaseGuard) (now : Instant) (s : Store) (e e' : Execution)
    → IsKeyed s
    → assert_guard g now s ≡ (ok e, (assert_guard g now s).1)
    → (e'.id ≡ e.id) × (e'.session_id ≡ e.session_id) × (e'.task_id ≡ e.task_id)
    → Survives s.executions (insert e'.id e' s.executions)
guarded-Survives g now s e e' keyed passed (same_id, same_session, same_task) =
    let (found, live) = guarded g now s passed in
    let its_key = lookup-Keyed execution_id g.execution_id e s.executions keyed found in
    put-Survives s.executions _ e' refl λ _. (
      e,
      ap (λ (k : Key). lookup k s.executions) (same_id ∙ its_key) ∙ found,
      live,
      sym same_session,
      sym same_task,
    )

-- What `renew_execution` does to the executions, however it ends.
renew_writes :
    (g : LeaseGuard) (now expires : Instant) (e : Execution) (s s1 : Store)
    → s1 ≡ s
    → ((resume (ok e, s1) (renewed now expires)).1.executions ≡ s.executions)
      ⊎ ((resume (ok e, s1) (renewed now expires)).1.executions
          ≡ insert e.id
              (record e { lease_expires_at = expires; version = e.version + 1 })
              s.executions)
unfolding renewed
renew_writes g now expires e s s1 h = ground arith

pub renew-Survives :
    (g : LeaseGuard) (now expires : Instant) (s : Store)
    → IsKeyed s
    → Survives s.executions (renew_execution g now expires s).1.executions
unfolding renew_execution
renew-Survives g now expires s keyed =
    resume_cases (λ r. Survives s.executions r.1.executions) (assert_guard g now s) _
      (λ e failed. same-Survives _ _ (ap (λ (t : Store). t.executions) (guard_store g now s)))
      λ e passed. elim (renew_writes g now expires e s _ (guard_store g now s)) [
        | inl same ↦ same-Survives _ _ same
        | inr written ↦
            subst (Survives s.executions) (sym written)
              (guarded-Survives g now s e _ keyed passed (refl, refl, refl))
      ]

pub release_writes :
    (env : Env) (g : LeaseGuard) (now : Instant) (e : Execution) (s s1 : Store)
    → s1 ≡ s
    → (resume (ok e, s1) (released env)).1.executions
      ≡ insert e.id (with_status ExecutionStatus.released e) s.executions
unfolding released
release_writes env g now e s s1 h = ground arith

pub release-Survives :
    (env : Env) (g : LeaseGuard) (now : Instant) (s : Store)
    → IsKeyed s
    → Survives s.executions (release_execution env g now s).1.executions
unfolding release_execution
release-Survives env g now s keyed =
    resume_cases (λ r. Survives s.executions r.1.executions) (assert_guard g now s) _
      (λ e failed. same-Survives _ _ (ap (λ (t : Store). t.executions) (guard_store g now s)))
      λ e passed.
        subst (Survives s.executions) (sym (release_writes env g now e s _ (guard_store g now s)))
          (guarded-Survives g now s e _ keyed passed (refl, refl, refl))

pub recovery-Survives :
    (k : Key) (s : Store)
    → IsKeyed s
    → Survives s.executions (mark_command_recovery_required k s).1.executions
unfolding mark_command_recovery_required
recovery-Survives k s keyed = elim (Option-cases (lookup k s.executions)) [
  | inl missing ↦ same-Survives _ _ (ground arith)
  | inr (e, found) ↦
      put-Survives _ _ (with_status ExecutionStatus.recovery_required e) (ground arith) (λ h. cc)
]
