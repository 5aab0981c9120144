-- ===== src/Formula/Evaluate/Outcome.antt =====
-- The outcomes of an evaluation by packages/formula/src/evaluate.ts: a value, one of the runtime
-- errors of the language, or an exception of the host.
use salesmaker.Base.{◌≡◌, refl, Bool, true, false, ◌&&◌, Option, none, some, arith}
use salesmaker.Base.Text.{Text}
use salesmaker.Formula.Syntax.{
  FormulaType, ErrorCode, division_by_zero, invalid_power, invalid_number, invalid_date,
  regex_input_too_long, Result,
}
use salesmaker.Formula.Types.{type_eq}
use salesmaker.Formula.Tables.{implies, every_type, every_two, every_two_sound}
use salesmaker.Formula.Post.{Runs}
use salesmaker.Formula.Runtime.{Decimals, Host}
use salesmaker.Formula.Values.{
  Value, Kind, nothing, texts, booleans, numbers, instants, lists, kind_fits, kind_of, Fits,
  or_thrown,
}
use salesmaker.Formula.Check.Results.{widens}

-- The codes of `FormulaRuntimeError`.
abbrev pub is_runtime : ErrorCode → Bool
is_runtime division_by_zero = true
is_runtime invalid_power = true
is_runtime invalid_number = true
is_runtime invalid_date = true
is_runtime (regex_input_too_long max) = true
is_runtime _ = false

module _ {dec : Decimals} (host : Host dec) where
  -- An operation of the host that throws: an invalid date printed, the parts of an instant in a zone that
  -- Intl refuses, a text that is no number, a count
  -- of digits that is none, a pattern that is refused.
  pub data HostThrows : Type 0 where
    iso : (i : host.Instant) → host.iso i ≡ none → HostThrows
    day_parts : (i : host.Instant) (zone : Text) → host.day_parts i zone ≡ none → HostThrows
    parse : (t : Text) → dec.parse t ≡ none → HostThrows
    places : (d : dec.Decimal) (n : host.Number) → host.places d n ≡ none → HostThrows
    matches : (p t : Text) → host.matches p t ≡ none → HostThrows

  abbrev pub Outcome {ℓ} : {A : Type ℓ} → (A → Type 0) → Result A → Type ℓ
  Outcome P r = Runs is_runtime HostThrows P r

  -- A value of the type, null included.
  abbrev pub Yields : FormulaType → Result (Value dec host) → Type 0
  Yields t r = Outcome (Fits t) r

  -- Some value.
  abbrev pub Ends {ℓ} : {A : Type ℓ} → Result A → Type ℓ
  Ends r = Outcome (λ _. Unit {0}) r

kind_rule : Kind → FormulaType → FormulaType → Bool
kind_rule k u t = implies (widens u t && kind_fits u k) (kind_fits t k)

kind_rules : (k : Kind) → every_two (kind_rule k) ≡ true
unfolding every_two every_type kind_rule
kind_rules nothing = refl
kind_rules texts = refl
kind_rules booleans = refl
kind_rules numbers = refl
kind_rules instants = refl
kind_rules lists = refl

same_rules : every_two (λ t u. implies (type_eq t u) (widens u t)) ≡ true
unfolding every_two every_type
same_rules = refl

implied : (a b c : Bool) → implies (a && b) c ≡ true → a ≡ true → b ≡ true → c ≡ true
implied a b c h p q = ground arith

implied_by : (a b : Bool) → implies a b ≡ true → a ≡ true → b ≡ true
implied_by a b h p = ground arith

module _ {dec : Decimals} (host : Host dec) where
  pub Fits-widens :
      (u t : FormulaType) (v : Value dec host) → widens u t ≡ true → Fits u v → Fits t v
  unfolding kind_rule
  Fits-widens u t v h k =
      implied (widens u t) (kind_fits u (kind_of v)) (kind_fits t (kind_of v))
        (every_two_sound (kind_rule (kind_of v)) (kind_rules (kind_of v)) u t) h k

  pub same_widens : (t u : FormulaType) → type_eq t u ≡ true → widens u t ≡ true
  same_widens t u h =
      implied_by (type_eq t u) (widens u t)
        (every_two_sound (λ t u. implies (type_eq t u) (widens u t)) same_rules t u) h

  module _ {ℓ} {A : Type ℓ} {P Q : A → Type 0} where
    pub relax : {r : Result A} → ((a : A) → P a → Q a) → Outcome host P r → Outcome host Q r
    relax g (Runs.returns h) = Runs.returns (g _ h)
    relax g (Runs.fails e) = Runs.fails e
    relax g (Runs.crashes x) = Runs.crashes x

  pub Yields-widens :
      (u t : FormulaType) {r : Result (Value dec host)}
      → widens u t ≡ true
      → Yields host u r
      → Yields host t r
  Yields-widens u t h k = relax {P = Fits u} (λ v p. Fits-widens u t v h p) k

  -- What yields the type `u` yields `t`, where they are the same.
  pub Yields-same :
      (t u : FormulaType) {r : Result (Value dec host)}
      → type_eq t u ≡ true
      → Yields host u r
      → Yields host t r
  Yields-same t u h k = Yields-widens u t (same_widens t u h) k

  pub ends {ℓ} : {A : Type ℓ} {P : A → Type 0} {r : Result A} → Outcome host P r → Ends host r
  ends {P = P} k = relax {P = P} (λ a p. tt) k

  pub or_thrown-Ends {ℓ} :
      {A : Type ℓ} (o : Option A) → (o ≡ none → HostThrows host) → Ends host (or_thrown o)
  or_thrown-Ends none h = Runs.crashes (h refl)
  or_thrown-Ends (some a) h = Runs.returns tt
