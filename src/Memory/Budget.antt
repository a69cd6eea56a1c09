-- ===== src/Memory/Budget.antt =====
-- `MemoryBudgetPolicy` and `ContextLayerAllocation` of src/patchloop/memory/retrieval.py. A cap is an
-- integer of either sign.
use Prim.Native.Nat.{◌*◌, ◌/◌, min}
use patch_loop.Common.{
  false, true, subst, sym, refl, Option, Bool-cases, arith, inl, inr, if◌then◌else◌, ltb, none, not,
  some, ℕ, ◌+◌, ◌-◌, ◌<◌, ◌==◌, ◌≡◌, ◌≤◌,
}

pub data ℤ : Type 0 where
  pos negsuc : ℕ → ℤ

pub record ContextLayerAllocation : Type 0 where
  pub total_context_tokens : ℕ
  pub working_tokens : ℕ
  pub semantic_tokens : ℕ
  pub episodic_tokens : ℕ
  pub recent_history_tokens : ℕ

pub data Allocated : Type 0 where
  allocated : ContextLayerAllocation → Allocated
  too_small invalid_total : Allocated

abbrev pub retrieval_tokens : ContextLayerAllocation → ℕ
retrieval_tokens a = a.working_tokens + a.semantic_tokens + a.episodic_tokens

-- The constructor, with the field's bound and `validate_total`.
unfoldable pub new_allocation : ContextLayerAllocation → Allocated
new_allocation a =
    if ltb a.total_context_tokens 256
    then Allocated.too_small
    else if not (retrieval_tokens a + a.recent_history_tokens == a.total_context_tokens)
    then Allocated.invalid_total
    else Allocated.allocated a

-- `max(0, min(desired, retrieval_token_cap))`
abbrev pub capped : ℕ → Option ℤ → ℕ
capped desired none = desired
capped desired (some (ℤ.pos cap)) = min desired cap
capped desired (some (ℤ.negsuc _)) = 0

abbrev pub shares : ℕ → ℕ → ContextLayerAllocation
shares total available =
    let working = available * 50 / 100 in
    let semantic = available * 30 / 100 in
    let episodic = available - working - semantic in
    record {
      total_context_tokens = total;
      working_tokens = working;
      semantic_tokens = semantic;
      episodic_tokens = episodic;
      recent_history_tokens = total - working - semantic - episodic;
    }

-- `allocate`
unfoldable pub allocate : ℕ → Option ℤ → Allocated
unfolding new_allocation
allocate total cap =
    if ltb total 256
    then Allocated.too_small
    else new_allocation (shares total (capped (total * 40 / 100) cap))

-- The cap holds.
abbrev Within : Option ℤ → ℕ → Type 0
Within none n = Unit
Within (some (ℤ.pos cap)) n = n ≤ cap
Within (some (ℤ.negsuc _)) n = n ≡ 0

-- What an allocation promises.
pub Shares : ℕ → Option ℤ → Allocated → Type 0
Shares total cap (Allocated.allocated a) =
    (256 ≤ total)
    × (a.total_context_tokens ≡ total)
    × (retrieval_tokens a + a.recent_history_tokens ≡ total)
    × (retrieval_tokens a * 5 ≤ total * 2)
    × Within cap (retrieval_tokens a)
    × (a.working_tokens * 2 ≤ retrieval_tokens a)
    × (a.semantic_tokens * 10 ≤ retrieval_tokens a * 3)
    × (retrieval_tokens a * 2 ≤ a.episodic_tokens * 10)
Shares total cap Allocated.too_small = total < 256
Shares total cap Allocated.invalid_total = ⊥

capped-≤ : (desired : ℕ) (cap : Option ℤ) → capped desired cap ≤ desired
capped-≤ desired none = omega arith
capped-≤ desired (some (ℤ.pos cap)) = omega arith
capped-≤ desired (some (ℤ.negsuc _)) = omega arith

capped-Within : (desired : ℕ) (cap : Option ℤ) → Within cap (capped desired cap)
capped-Within desired none = tt
capped-Within desired (some (ℤ.pos cap)) = omega arith
capped-Within desired (some (ℤ.negsuc _)) = refl

shares-retrieval : (total available : ℕ) → retrieval_tokens (shares total available) ≡ available
shares-retrieval total available = omega arith

module _ (total available : ℕ) where
  new_allocation-shares :
      256 ≤ total
      → available ≤ total * 40 / 100
      → new_allocation (shares total available) ≡ Allocated.allocated (shares total available)
  unfolding new_allocation
  new_allocation-shares large few = ground arith

  shares-Shares :
      (cap : Option ℤ)
      → 256 ≤ total
      → available ≤ total * 40 / 100
      → Within cap available
      → Shares total cap (Allocated.allocated (shares total available))
  unfolding Shares
  shares-Shares cap large few within = (
    large,
    refl,
    omega arith,
    omega arith,
    subst (Within cap) (sym (shares-retrieval total available)) within,
    omega arith,
    omega arith,
    omega arith,
  )

module _ (total : ℕ) (cap : Option ℤ) where
  abbrev taken : ℕ
  taken = capped (total * 40 / 100) cap

  allocate-small : ltb total 256 ≡ true → allocate total cap ≡ Allocated.too_small
  unfolding allocate
  allocate-small small = ground arith

  allocate-large :
      ltb total 256 ≡ false → allocate total cap ≡ Allocated.allocated (shares total taken)
  unfolding allocate
  allocate-large large =
      ground
        (arith, new_allocation-shares total taken (ground arith) (capped-≤ (total * 40 / 100) cap))

  small-Shares : ltb total 256 ≡ true → Shares total cap Allocated.too_small
  unfolding Shares
  small-Shares small = ground arith

  -- allocate refuses a total below 256 and no other. Else its shares add up to the total; memory
  -- gets at most two fifths of it and no more than the cap, nothing for a negative cap; of that,
  -- at most a half is working, at most three tenths semantic, and at least a fifth episodic
  -- memory.
  pub allocate-Shares : Shares total cap (allocate total cap)
  allocate-Shares = elim (Bool-cases (ltb total 256)) [
    | inl small ↦ subst (Shares total cap) (sym (allocate-small small)) (small-Shares small)
    | inr large ↦ subst (Shares total cap) (sym (allocate-large large)) (
        shares-Shares total taken cap (ground arith) (capped-≤ (total * 40 / 100) cap)
          (capped-Within (total * 40 / 100) cap))
  ]
