-- ===== src/Store/State.antt =====
-- The state of `FakeStore` (src/patchloop/persistence_contracts.py) and its methods' monad: a
-- method takes the store, and gives back its result and the store. What was written before an
-- exception stays written. `deepcopy` is the identity on values; `datetime.now` is an argument.
use patch_loop.Execution.Commands.{ManagedCommand}
use patch_loop.Common.{
  ap, subst, inr, inl, Bool-cases, ℕ, Key, Bool, true, false, Option, none, some, List,
  if◌then◌else◌, ◌==◌, ◌&&◌, ◌≡◌, refl, arith, [], ◌∷◌,
}
use patch_loop.Common.Dict.{Dict, lookup}
use patch_loop.Contracts.{Error, stale_version, key_error, Result, ok, err}
use patch_loop.Domain.{Task}
use patch_loop.Domain.Tools.{AgentStep, Observation}
use patch_loop.Session.{Session, Turn, SessionCheckpoint, SessionEvent, EventType}
use patch_loop.Execution.Leases.{Execution, WorkspaceLease}
use patch_loop.Execution.Effects.{Effect, Hashing}
use patch_loop.Execution.Approvals.{Approval}
use patch_loop.Execution.Controls.{ControlRequest, RecoveryDisposition}

pub record Store : Type 0 where
  pub sessions : Dict Session
  pub tasks : Dict Task
  pub turns : Dict (List Turn)
  pub executions : Dict Execution
  pub workspace_leases : Dict WorkspaceLease
  pub effects : Dict Effect
  pub approvals : Dict Approval
  pub controls : Dict ControlRequest
  pub recoveries : Dict RecoveryDisposition
  pub checkpoints : Dict SessionCheckpoint
  pub events : Dict (List SessionEvent)
  pub steps : List ((Key × Key) × AgentStep)
  pub managed_commands : Dict ManagedCommand
  pub tool_results : List ((Key × Key) × Observation)

-- The texts that the code computes by hashing and formatting; `revision` is what a revision is
-- formatted from.
pub record Env : Type 0 where
  pub hashing : Hashing
  pub journal_event_id : EventType → Key → (revision : List ℕ) → Key
  pub journal_body : EventType → Key → (revision : List ℕ) → Key
  pub tool_result_ref : Key → Key → Key

abbrev pub M : Type 0 → Type 0
M A = Store → Result A × Store

module _ {A : Type 0} where
  abbrev pub pure : A → M A
  pure a s = (ok a, s)

  abbrev pub raise : Error → M A
  raise e s = (err e, s)

  abbrev pub gets : (Store → A) → M A
  gets f s = (ok (f s), s)

  abbrev pub from_option : Option A → Error → M A
  from_option none e = raise e
  from_option (some a) e = pure a

  abbrev pub from_result : Result A → M A
  from_result (ok a) = pure a
  from_result (err e) = raise e

  -- A read that may miss.
  abbrev pub fetch : (Store → Option A) → Error → M A
  fetch f e s = from_option (f s) e s

abbrev pub resume : {A B : Type 0} → Result A × Store → (A → M B) → Result B × Store
resume (ok a, s) f = f a s
resume (err e, s) f = (err e, s)

infixl 5 ◌>>=◌ ◌>>◌
abbrev pub ◌>>=◌ : {A B : Type 0} → M A → (A → M B) → M B
◌>>=◌ m f s = resume (m s) f

abbrev pub ◌>>◌ : {A B : Type 0} → M A → M B → M B
m >> k = m >>= λ _. k

abbrev pub raise_if : Bool → Error → M (Unit {0})
raise_if b e s = if b then (err e, s) else (ok tt, s)

abbrev pub modify : (Store → Store) → M (Unit {0})
modify f s = (ok tt, f s)

abbrev pub is_expected : ℕ → Option ℕ → Bool
is_expected actual none = true
is_expected actual (some expected) = actual == expected

pub raise_if_store : (t : Bool) (e : Error) (s : Store) → (raise_if t e s).1 ≡ s
raise_if_store true e s = refl
raise_if_store false e s = refl

-- `_check_version`: `None` checks nothing.
abbrev pub check_version : Key → ℕ → Option ℕ → M (Unit {0})
check_version k actual none s = (ok tt, s)
check_version k actual (some expected) s =
    if actual == expected then (ok tt, s) else (err (stale_version k expected actual), s)

-- `get_session` and its likes.
abbrev pub get_session : Key → M Session
get_session k = fetch (λ s. lookup k s.sessions) (key_error k)

abbrev pub get_task : Key → M Task
get_task k = fetch (λ s. lookup k s.tasks) (key_error k)

abbrev pub get_execution : Key → M Execution
get_execution k = fetch (λ s. lookup k s.executions) (key_error k)

abbrev pub get_effect : Key → M Effect
get_effect k = fetch (λ s. lookup k s.effects) (key_error k)

abbrev pub get_approval : Key → M Approval
get_approval k = fetch (λ s. lookup k s.approvals) (key_error k)

-- Inversion of a method that ended well.
pub resume-ok :
    {A B : Type 0} (r : Result A × Store) (f : A → M B) {b : B} {s' : Store}
    → resume r f ≡ (ok b, s')
    → (a : A) × (s : Store) × (r ≡ (ok a, s)) × (f a s ≡ (ok b, s'))
resume-ok (ok a, s) f h = (a, s, refl, h)
resume-ok (err e, s) f h = cc

-- The same for a part that only reads.
pub read-ok :
    {A B : Type 0} (r : Result A × Store) (s : Store) (f : A → M B) {b : B} {s' : Store}
    → r.1 ≡ s
    → resume r f ≡ (ok b, s')
    → (a : A) × (r.0 ≡ ok a) × (f a s ≡ (ok b, s'))
read-ok (ok a, s1) s f {b} {s'} frame h =
    (a, refl, subst (λ (t : Store). f a t ≡ (ok b, s')) frame h)
read-ok (err e, s1) s f frame h = cc

-- What a method keeps, however it ends.
pub resume_keeps {ℓ} :
    {A B : Type 0} (P : Store → Type ℓ) (r : Result A × Store) (f : A → M B)
    → P r.1
    → ((a : A) → P r.1 → P (f a r.1).1)
    → P (resume r f).1
resume_keeps P (ok a, s) f p g = g a p
resume_keeps P (err e, s) f p g = p

-- A split on how the first part ended, with what it left.
pub resume_cases {ℓ} :
    {A B : Type 0} (P : Result B × Store → Type ℓ) (r : Result A × Store) (f : A → M B)
    → ((e : Error) → r ≡ (err e, r.1) → P (err e, r.1))
    → ((a : A) → r ≡ (ok a, r.1) → P (f a r.1))
    → P (resume r f)
resume_cases P (ok a, s) f failed went_on = went_on a refl
resume_cases P (err e, s) f failed went_on = failed e refl

module _ {ℓ} {B : Type 0} (P : Result B × Store → Type ℓ) (s : Store) where
  pub fetch_cases :
      {A : Type 0} (o : Option A) (e : Error) (f : A → M B)
      → (o ≡ none → P (err e, s))
      → ((a : A) → o ≡ some a → P (f a s))
      → P (resume (from_option o e s) f)
  fetch_cases none e f missed found = missed refl
  fetch_cases (some a) e f missed found = found a refl

  pub raise_if_cases :
      (t : Bool) (e : Error) (f : Unit {0} → M B)
      → P (err e, s)
      → (t ≡ false → P (f tt s))
      → P (resume (raise_if t e s) f)
  raise_if_cases true e f raised passed = raised
  raise_if_cases false e f raised passed = passed refl

  pub check_version_cases :
      (k : Key) (actual : ℕ) (expected : Option ℕ) (f : Unit {0} → M B)
      → ((e : Error) → P (err e, s))
      → (is_expected actual expected ≡ true → P (f tt s))
      → P (resume (check_version k actual expected s) f)
  check_version_cases k actual none f raised passed = passed refl
  check_version_cases k actual (some n) f raised passed = elim (Bool-cases (actual == n)) [
    | inl same ↦ rw same (passed same)
    | inr other ↦ rw other (raised (stale_version k n actual))
  ]

module _ {B : Type 0} {b : B} {s' : Store} where
  pub fetch-ok :
      {A : Type 0} (o : Option A) (e : Error) (s : Store) (f : A → M B)
      → resume (from_option o e s) f ≡ (ok b, s')
      → (a : A) × (o ≡ some a) × (f a s ≡ (ok b, s'))
  fetch-ok none e s f h = cc
  fetch-ok (some a) e s f h = (a, refl, h)

  pub fetch_known :
      {A : Type 0} (o : Option A) (e : Error) (s : Store) (f : A → M B) (a : A)
      → o ≡ some a
      → resume (from_option o e s) f ≡ (ok b, s')
      → f a s ≡ (ok b, s')
  fetch_known none e s f a eq h = cc
  fetch_known (some x) e s f a eq h =
      let same : x ≡ a = cc in subst (λ y. f y s ≡ (ok b, s')) same h

  pub raise_if-ok :
      (t : Bool) (e : Error) (s : Store) (f : Unit {0} → M B)
      → resume (raise_if t e s) f ≡ (ok b, s')
      → (t ≡ false) × (f tt s ≡ (ok b, s'))
  raise_if-ok true e s f h = cc
  raise_if-ok false e s f h = (refl, h)

  pub check_version-ok :
      (k : Key) (actual : ℕ) (expected : Option ℕ) (s : Store) (f : Unit {0} → M B)
      → resume (check_version k actual expected s) f ≡ (ok b, s')
      → (is_expected actual expected ≡ true) × (f tt s ≡ (ok b, s'))
  check_version-ok k actual none s f h = (refl, h)
  check_version-ok k actual (some n) s f h = ground arith

pub from_result-ok :
    {A : Type 0} (r : Result A) (s : Store) {a : A} {s' : Store}
    → from_result r s ≡ (ok a, s')
    → r ≡ ok a
from_result-ok {A} (ok x) s h = ap (λ (q : Result A × Store). q.0) h
from_result-ok (err x) s h = cc

-- A dictionary whose keys are pairs.
module _ {ℓ} {V : Type ℓ} where
  unfoldable pub lookup_pair : Key → Key → List ((Key × Key) × V) → Option V
  lookup_pair a b [] = none
  lookup_pair a b (((i, j), v) ∷ d) = if i == a && j == b then some v else lookup_pair a b d

  unfoldable pub insert_pair : Key → Key → V → List ((Key × Key) × V) → List ((Key × Key) × V)
  insert_pair a b v [] = ((a, b), v) ∷ []
  insert_pair a b v (((i, j), w) ∷ d) =
      if i == a && j == b then ((a, b), v) ∷ d else ((i, j), w) ∷ insert_pair a b v d

  pub lookup_pair-insert_pair :
      (a b i j : Key) (v : V) (d : List ((Key × Key) × V))
      → lookup_pair i j (insert_pair a b v d)
        ≡ (if a == i && b == j then some v else lookup_pair i j d)
  unfolding lookup_pair insert_pair
  lookup_pair-insert_pair a b i j v [] = refl
  lookup_pair-insert_pair a b i j v (((x, y), w) ∷ d) =
      ground (arith, lookup_pair-insert_pair a b i j v d)
