-- ===== src/Formula/Post.antt =====
-- Postconditions of what may throw: the value satisfies `P`, or a formula error is thrown; no other
-- exception, and enough fuel.
use salesmaker.Base.{◌≡◌, refl, Bool, true}
use salesmaker.Formula.Syntax.{ErrorCode, FormulaError, Result, ok, err, thrown, ◌>>=◌}

pub data Post {ℓ κ} {A : Type ℓ} (P : A → Type κ) : Result A → Type (ℓ ⊔ κ) where
  returns : {a : A} → P a → Post P (ok a)
  throws : {e : FormulaError} → Post P (err e)

module _ {ℓ κ} {A : Type ℓ} {P : A → Type κ} where
  infixl 1 ◌⟫◌
  pub ◌⟫◌ {ι μ} :
      {B : Type ι} {Q : B → Type μ} {r : Result A} {f : A → Result B}
      → Post P r
      → ((a : A) → P a → Post Q (f a))
      → Post Q (r >>= f)
  returns {a} h ⟫ k = k a h
  throws ⟫ k = throws

  pub weaken {μ} : {Q : A → Type μ} {r : Result A} → ((a : A) → P a → Q a) → Post P r → Post Q r
  weaken g (returns h) = returns (g _ h)
  weaken g throws = throws

  pub of_ok : {a : A} → Post P (ok a) → P a
  of_ok (returns h) = h

pub both_hold {ℓ κ μ} :
    {A : Type ℓ} {P : A → Type κ} {Q : A → Type μ} {r : Result A}
    → Post P r
    → Post Q r
    → Post (λ a. P a × Q a) r
both_hold (returns h) (returns k) = returns (h, k)
both_hold throws throws = throws

-- The value that it returns is what the call gave.
pub recall {ℓ κ} :
    {A : Type ℓ} {P : A → Type κ} {r : Result A} → Post P r → Post (λ a. (r ≡ ok a) × P a) r
recall (returns h) = returns (refl, h)
recall throws = throws

-- Postconditions of what runs: the value satisfies `P`, or a formula error with a code that `C`
-- allows is thrown, or another exception, in a case that `X` allows; never out of fuel.
pub data Runs {ℓ} {A : Type ℓ} (C : ErrorCode → Bool) (X : Type 0) (P : A → Type 0)
    : Result A → Type ℓ where
  returns : {a : A} → P a → Runs C X P (ok a)
  fails : {e : FormulaError} → C e.code ≡ true → Runs C X P (err e)
  crashes : X → Runs C X P thrown

module _ {ℓ κ} {A : Type ℓ} {B : Type κ} {C : ErrorCode → Bool} {X : Type 0} {P : A → Type 0}
    {Q : B → Type 0} where
  infixl 1 ◌▹◌
  pub ◌▹◌ :
      {r : Result A} {f : A → Result B}
      → Runs C X P r
      → ((a : A) → P a → Runs C X Q (f a))
      → Runs C X Q (r >>= f)
  Runs.returns {a} h ▹ k = k a h
  fails e ▹ k = fails e
  crashes x ▹ k = crashes x
