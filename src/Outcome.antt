-- ===== src/Outcome.antt =====
-- What a run of C code comes to: a result, or a fault after which the behaviour of the program is
-- undefined or it no longer goes on.
use tcpsnitch.Base.{◌≡◌, refl}

-- `deadlock`: a lock is requested that is never released; `bad_unlock`: a lock is released that is
-- not held; `null_deref`, `out_of_bounds`, `overflow` (a copy past the end of a buffer) and
-- `dangling` (a pointer to freed memory is kept) are accesses outside the objects of the program;
-- `diverges` is a loop that does not end.
pub data Fault : Type 0 where
  deadlock bad_unlock null_deref out_of_bounds overflow dangling diverges : Fault

pub data Outcome {ℓ} (A : Type ℓ) : Type ℓ where
  done : A → Outcome A
  fault : Fault → Outcome A

abbrev pub bind_outcome {ℓ κ} : {A : Type ℓ} {B : Type κ} → Outcome A → (A → Outcome B) → Outcome B
bind_outcome (done a) f = f a
bind_outcome (fault e) f = fault e

-- Total correctness: the run has no fault, and its result satisfies `P`.
pub data Returns {ℓ κ} {A : Type ℓ} (P : A → Type κ) : Outcome A → Type (ℓ ⊔ κ) where
  returns : {a : A} → P a → Returns P (done a)

module _ {ℓ κ} {A : Type ℓ} {P : A → Type κ} where
  pub Returns-bind {ℓ' κ'} :
      {B : Type ℓ'} {Q : B → Type κ'} {r : Outcome A} {f : A → Outcome B}
      → Returns P r
      → ((a : A) → P a → Returns Q (f a))
      → Returns Q (bind_outcome r f)
  Returns-bind (returns p) next = next _ p

  pub Returns-mono {κ'} :
      {Q : A → Type κ'} {r : Outcome A} → Returns P r → ((a : A) → P a → Q a) → Returns Q r
  Returns-mono (returns p) weaken = returns (weaken _ p)

  pub Returns-done : {a : A} → Returns P (done a) → P a
  Returns-done (returns p) = p

  pub eq_of_Returns : {r : Outcome A} → Returns P r → (a : A) × (r ≡ done a) × P a
  eq_of_Returns (returns p) = (_, refl, p)

  pub Returns-both {κ'} :
      {Q : A → Type κ'} {r : Outcome A} → Returns P r → Returns Q r → Returns (λ a. P a × Q a) r
  Returns-both {Q = Q} (returns p) q = returns (p, of_done q)
    where
      of_done : {a : A} → Returns Q (done a) → Q a
      of_done (returns p) = p
