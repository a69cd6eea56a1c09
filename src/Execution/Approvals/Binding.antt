-- ===== src/Execution/Approvals/Binding.antt =====
-- What a decision on an approval and its consumption leave (`Approval.decide` and
-- `Approval.consume` of src/patchloop/execution/models.py).
use patch_loop.Contracts.{Result, approval_conflict, err, ok}
use patch_loop.Execution.Effects.{Effect, Hashing}
use patch_loop.Common.{
  subst, false, if◌then◌else◌, some, ◌&&◌, Bool-cases, ap, arith, inl, inr, refl, sym, ◌+◌, ◌∙◌,
  Bool, Instant, Key, not, true, ◌≡◌,
}
use patch_loop.Execution.Approvals.{
  decision_target, repeats_decision, is_pending, same_status, Approval, ApprovalStatus, Conditions,
  consume, decide, matches_execution_conditions,
}

status-approved :
    (x : ApprovalStatus)
    → same_status x ApprovalStatus.approved ≡ true
    → x ≡ ApprovalStatus.approved
status-approved ApprovalStatus.approved h = refl
status-approved ApprovalStatus.pending h = cc
status-approved ApprovalStatus.consumed h = cc
status-approved ApprovalStatus.denied h = cc
status-approved ApprovalStatus.expired h = cc

abbrev or_approval : Approval → Result Approval → Approval
or_approval a (ok b) = b
or_approval a (err e) = a

consume_consumed :
    (h : Hashing) (e : Effect) (c : Conditions) (a : Approval)
    → a.status ≡ ApprovalStatus.consumed
    → consume h e c a ≡ err (approval_conflict a.id)
unfolding consume
consume_consumed h e c a used = ground (arith, used)

-- An approval is consumed once: what consume gives back was approved and bound to the effect and
-- the conditions, and it is not consumed again, for any effect under any conditions.
pub consume_once :
    (h : Hashing) (e later : Effect) (c d : Conditions) (a : Approval) {b : Approval}
    → consume h e c a ≡ ok b
    → (a.status ≡ ApprovalStatus.approved)
      × (matches_execution_conditions h a e c ≡ true)
      × (consume h later d b ≡ err (approval_conflict a.id))
unfolding consume
consume_once h e later c d a {b} eq =
    elim (Bool-cases (same_status a.status ApprovalStatus.approved)) [
      | inr other ↦ absurd (ground (arith, other))
      | inl approved ↦ elim (Bool-cases (matches_execution_conditions h a e c)) [
        | inr other ↦ absurd (ground (arith, approved, other))
        | inl matches ↦
            let b_is : ok (record a { status = ApprovalStatus.consumed; version = a.version + 1 })
                ≡ ok b =
              ground (arith, approved, matches) in
            (
              status-approved a.status approved,
              matches,
              sym (ap (λ (r : Result Approval). consume h later d (or_approval a r)) b_is)
                  ∙ consume_consumed h later d
                      (record a { status = ApprovalStatus.consumed; version = a.version + 1 }) refl,
            )
      ]
    ]

abbrev answers : Bool → ApprovalStatus → Bool
answers approve x =
    if same_status x (decision_target approve)
    then true
    else approve && same_status x ApprovalStatus.consumed

opposite :
    (approve : Bool) (x : ApprovalStatus)
    → answers approve x ≡ true
    → answers (not approve) x ≡ false
opposite true ApprovalStatus.pending h = refl
opposite true ApprovalStatus.approved h = refl
opposite true ApprovalStatus.consumed h = refl
opposite true ApprovalStatus.denied h = cc
opposite true ApprovalStatus.expired h = refl
opposite false ApprovalStatus.pending h = refl
opposite false ApprovalStatus.approved h = cc
opposite false ApprovalStatus.consumed h = cc
opposite false ApprovalStatus.denied h = refl
opposite false ApprovalStatus.expired h = refl

decided_again :
    (approve : Bool) (source : Key) (later : Instant) (b : Approval)
    → is_pending b.status ≡ false
    → repeats_decision approve source b ≡ true
    → (decide approve source later b ≡ ok b)
      × (decide (not approve) source later b ≡ err (approval_conflict b.id))
unfolding decide
decided_again approve source later b decided repeats =
    let other = opposite approve b.status (ground (arith, repeats)) in
    (ground (arith, decided, repeats), ground (arith, decided, other))

-- A decision is settled by its first answer: what decide gives back is given back unchanged when
-- the same source repeats the answer at any time, and refused when it gives the opposite one.
pub decide_again :
    (approve : Bool) (source : Key) (now later : Instant) (a : Approval) {b : Approval}
    → decide approve source now a ≡ ok b
    → (decide approve source later b ≡ ok b)
      × (decide (not approve) source later b ≡ err (approval_conflict b.id))
unfolding decide
decide_again approve source now later a {b} eq = elim (Bool-cases (is_pending a.status)) [
  | inl pending ↦
      let b_is : ok (record a {
        status = decision_target approve;
        decision_source = some source;
        decided_at = some now;
        version = a.version + 1;
      })
          ≡ ok b =
        ground (arith, pending) in
      let status : b.status ≡ decision_target approve = cc in
      let by : b.decision_source ≡ some source = cc in
      decided_again approve source later b (ground (arith, status)) (ground (arith, status, by))
  | inr decided ↦ elim (Bool-cases (repeats_decision approve source a)) [
    | inl repeats ↦
        let same : a ≡ b = ground (arith, decided, repeats) in
        decided_again approve source later b
          (subst (λ (x : Approval). is_pending x.status ≡ false) same decided)
          (subst (λ (x : Approval). repeats_decision approve source x ≡ true) same repeats)
    | inr other ↦ absurd (ground (arith, decided, other))
  ]
]
