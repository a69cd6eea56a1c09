-- ===== src/Store/Effects/Authority.antt =====
-- What lets an effect execute: the checks of `claim_effect`
-- (src/patchloop/persistence_contracts.py).
use patch_loop.Store.Lifecycle.{is_over}
use patch_loop.Session.{EventType}
use patch_loop.Store.Journal.{journal_task, entries}
use patch_loop.Store.Leases.{guard_holds}
use patch_loop.Execution.Leases.{Execution}
use patch_loop.Common.Dict.{lookup}
use patch_loop.Execution.Approvals.{consume, matches_execution_conditions, ApprovalStatus, Approval}
use patch_loop.Store.Effects.{
  check_claim, record_consumed, actual_config, consume_approval, last_sequence, decision_differs,
  differs, is_deny, or_text, pending_control, check_control, check_input, ClaimConditions,
}
use patch_loop.Contracts.{
  effect_identity_conflict, lease_conflict, value_error, Result, ok, LeaseGuard,
}
use patch_loop.Domain.{Task}
use patch_loop.Execution.Effects.{
  Decision, content_fingerprint, persisted_decision, is_prepared, same_decision, Effect,
}
use patch_loop.Common.{
  Bool, ap, sym, ◌||◌, ◌∙◌, List, refl, arith, not, ◌==◌, Option-cases, false, inl, inr, is_none,
  true, ◌⊎◌, none, some, ℕ, Option, ◌≡◌, Instant, Key,
}
use patch_loop.Store.State.{read-ok, raise_if-ok, resume, M, Store, Env}

-- The approval that was used up, if the effect had one: approved, and bound to this effect, its
-- content, workspace, policy and configuration.
abbrev pub Approves : Env → Key → Effect → Task → ClaimConditions → Key → Store → Type 0
Approves env k current task c config s =
    (a : Approval) × (lookup k s.approvals ≡ some a)
    × (a.status ≡ ApprovalStatus.approved)
    × (matches_execution_conditions env.hashing a current (record {
      workspace_ref = or_text c.workspace_ref task.repository;
      policy_version = or_text c.policy_version a.policy_version;
      config_version = or_text c.config_version config;
    })
        ≡ true)

-- By the kind of permission that the effect was prepared under.
abbrev pub Permission : Env → Effect → Task → ClaimConditions → Key → Store → Type 0
Permission env current task c config s =
    ((current.approval_id ≡ none)
      × (same_decision (persisted_decision current) Decision.require_approval ≡ false))
    ⊎ ((k : Key) × (current.approval_id ≡ some k) × Approves env k current task c config s)

pub record Authorized (env : Env) (default effect_id : Key) (g : LeaseGuard) (c : ClaimConditions)
    (now : Instant) (s : Store) (current : Effect) : Type 0 where
  pub stored : lookup effect_id s.effects ≡ some current
  pub prepared : is_prepared current.status ≡ true
  pub holder : Execution
  pub held_by : lookup g.execution_id s.executions ≡ some holder
  pub holds : guard_holds g now holder ≡ true
  pub task : Task
  pub of_task : lookup current.task_id s.tasks ≡ some task
  pub no_control : pending_control task.id s ≡ none
  pub same_content : differs c.effect_fingerprint (content_fingerprint env.hashing current) ≡ false
  pub same_workspace : differs c.workspace_ref task.repository ≡ false
  pub no_error : is_none current.preparation_error ≡ true
  pub not_denied : is_deny (persisted_decision current) ≡ false
  pub same_policy : decision_differs c.policy_decision (persisted_decision current) ≡ false
  pub config : Key
  pub permission : Permission env current task c config s

ors_false_left : (a b : Bool) → (not a || b) ≡ false → a ≡ true
ors_false_left a b h = ground arith

ors_false_right : (a b : Bool) → (not a || b) ≡ false → b ≡ false
ors_false_right a b h = ground arith

check_control-ok :
    {B : Type 0} (task : Task) (s : Store) (f : Unit {0} → M B) {b : B} {s' : Store}
    → resume (check_control task s) f ≡ (ok b, s')
    → (pending_control task.id s ≡ none) × (f tt s ≡ (ok b, s'))
unfolding check_control
check_control-ok task s f h = elim (Option-cases (pending_control task.id s)) [
  | inl free ↦ (free, ground (arith, free))
  | inr (r, asked) ↦ ground (arith, asked)
]

check_input-ok :
    {B : Type 0} (n : Option ℕ) (k : Option Key) (s : Store) (f : Unit {0} → M B) {b : B}
    {s' : Store}
    → resume (check_input n k s) f ≡ (ok b, s')
    → f tt s ≡ (ok b, s')
unfolding check_input
check_input-ok none k s f h = h
check_input-ok (some n) none s f h = h
check_input-ok (some n) (some k) s f h =
    (raise_if-ok (not (last_sequence (entries k s.turns) == n)) _ s f h).1

pub config_frame :
    (default : Key) (k given : Option Key) (s : Store) → (actual_config default k given s).1 ≡ s
config_frame default none given s = refl
config_frame default (some k) given s = ground arith

module _ (env : Env) where
  consume_frame :
      (current : Effect) (task : Task) (c : ClaimConditions) (config : Key) (s : Store)
      → (consume_approval env current task c config s).1 ≡ s
  unfolding consume_approval
  consume_frame current task c config s = ground arith

  consume_approval-Permission :
      (current : Effect) (task : Task) (c : ClaimConditions) (config : Key) (s : Store)
      {a : Option Approval}
      → (consume_approval env current task c config s).0 ≡ ok a
      → Permission env current task c config s
  unfolding consume_approval
  consume_approval-Permission current task c config s h = elim (Option-cases current.approval_id) [
    | inl plain ↦ inl (plain, ground (arith, plain))
    | inr (k, bound) ↦ elim (Option-cases (lookup k s.approvals)) [
      | inl missing ↦ absurd (ground (arith, bound, missing))
      | inr (approval, found) ↦
          inr (
            k,
            bound,
            (approval, found, ground (arith, bound, found), ground (arith, bound, found)),
          )
    ]
  ]

  -- What is used up is over.
  consume_approval-over :
      (current : Effect) (task : Task) (c : ClaimConditions) (config : Key) (s : Store)
      {o : Option Approval}
      → (consume_approval env current task c config s).0 ≡ ok o
      → is_over o ≡ true
  unfolding consume_approval consume
  consume_approval-over current task c config s h = ground arith

  pub record_consumed_effects :
      (a : Option Approval) (s : Store) → (record_consumed env a s).1.effects ≡ s.effects
  unfolding record_consumed
  record_consumed_effects none s = refl
  record_consumed_effects (some a) s = ground arith

  pub journal_task_effects :
      (task : Task) (type : EventType) (k : Key) (r : List ℕ) (trace : Option Key) (s : Store)
      → (journal_task env task type k r trace s).1.effects ≡ s.effects
  unfolding journal_task
  journal_task_effects task type k r trace s = ground arith

  pub check_claim-Authorized :
      (default effect_id : Key) (g : LeaseGuard) (c : ClaimConditions) (now : Instant) (s : Store)
      (current : Effect) (holder : Execution) (task : Task) {a : Option Approval} {s1 : Store}
      → lookup effect_id s.effects ≡ some current
      → is_prepared current.status ≡ true
      → lookup g.execution_id s.executions ≡ some holder
      → guard_holds g now holder ≡ true
      → lookup current.task_id s.tasks ≡ some task
      → check_claim env default effect_id current task c s ≡ (ok a, s1)
      → Authorized env default effect_id g c now s current × (s1 ≡ s) × (is_over a ≡ true)
  unfolding check_claim
  check_claim-Authorized default effect_id g c now s current holder task stored prepared found holds
        of_task h =
      let (free, h1) = check_control-ok task s _ h in
      let h2 = check_input-ok c.expected_input_sequence task.session_id s _ h1 in
      let (config, _, h3) =
        read-ok (actual_config default task.session_id c.config_version s) s _
          (config_frame default task.session_id c.config_version s) h2 in
      let (content, h4) =
        raise_if-ok (differs c.effect_fingerprint (content_fingerprint env.hashing current))
          (effect_identity_conflict current.id) s _ h3 in
      let (workspace, h5) =
        raise_if-ok (differs c.workspace_ref task.repository) (lease_conflict effect_id none) s _
          h4 in
      let (_, h6) =
        raise_if-ok (differs c.config_version config) (lease_conflict effect_id none) s _ h5 in
      let (executable, h7) =
        raise_if-ok
          (not (is_none current.preparation_error) || is_deny (persisted_decision current))
          value_error s _ h6 in
      let (policy, h8) =
        raise_if-ok (decision_differs c.policy_decision (persisted_decision current)) value_error s
          _ h7 in
      (
        record {
          stored = stored;
          prepared = prepared;
          holder = holder;
          held_by = found;
          holds = holds;
          task = task;
          of_task = of_task;
          no_control = free;
          same_content = content;
          same_workspace = workspace;
          no_error =
              ors_false_left (is_none current.preparation_error)
                (is_deny (persisted_decision current)) executable;
          not_denied =
              ors_false_right (is_none current.preparation_error)
                (is_deny (persisted_decision current)) executable;
          same_policy = policy;
          config = config;
          permission =
              consume_approval-Permission current task c config s
                (ap (λ (r : Result (Option Approval) × Store). r.0) h8);
        },
        sym (ap (λ (r : Result (Option Approval) × Store). r.1) h8)
            ∙ consume_frame current task c config s,
        consume_approval-over current task c config s
            (ap (λ (r : Result (Option Approval) × Store). r.0) h8),
      )
