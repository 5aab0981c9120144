-- ===== src/Formula/Evaluate/Safety/Arithmetic.antt =====
-- Arithmetic of packages/formula/src/evaluate.ts, between values of the types that the checker allows.
use salesmaker.Base.{
  ◌≡◌, refl, ap, ◌∙◌, Bool, true, ◌&&◌, Option, none, some, arith, if◌then◌else◌, Bool-cases, inl,
  inr,
}
use salesmaker.Base.Text.{Text}
use salesmaker.Formula.Syntax.{
  Span, Operator, plus, minus, times, divide, power, bang, FormulaType, text_type,
}
use salesmaker.Formula.Types.{type_eq}
use salesmaker.Formula.Tables.{implies, every_type, every_two, every_two_sound}
use salesmaker.Formula.Rules.{arithmetic}
use salesmaker.Formula.Post.{Runs, ◌▹◌}
use salesmaker.Formula.Runtime.{Decimals, Host}
use salesmaker.Formula.Values.{
  Value, null, text, boolean, number, instant, many, Kind, nothing, texts, booleans, numbers,
  instants, lists, kind_fits, kind_of, Fits,
}
use salesmaker.Formula.Evaluate.Operators.{
  power_of, number_arithmetic, arithmetic_given, arithmetic_values, shift_date,
}
use salesmaker.Formula.Evaluate.Outcome.{Outcome, Yields, relax}
use salesmaker.Formula.Evaluate.Safety.Dates.{Outcome-if, shifted-Ends}

-- The representation of the result of arithmetic on two values, by theirs.
abbrev given_kind : Kind → Kind → Kind
given_kind nothing b = nothing
given_kind a nothing = nothing
given_kind numbers numbers = numbers
given_kind numbers texts = texts
given_kind texts numbers = texts
given_kind numbers instants = instants
given_kind instants numbers = instants
given_kind texts texts = numbers
given_kind instants instants = numbers
given_kind a b = nothing

abbrev arith_kind : FormulaType → Kind → Kind → Kind
arith_kind t a b = if type_eq t text_type then texts else given_kind a b

every_kind : (Kind → Bool) → Bool
every_kind p = p nothing && p texts && p booleans && p numbers && p instants && p lists

every_kind_sound : (p : Kind → Bool) → every_kind p ≡ true → (k : Kind) → p k ≡ true
unfolding every_kind
every_kind_sound p h nothing = ground arith
every_kind_sound p h texts = ground arith
every_kind_sound p h booleans = ground arith
every_kind_sound p h numbers = ground arith
every_kind_sound p h instants = ground arith
every_kind_sound p h lists = ground arith

-- The result fits the type that arithmetic has.
abbrev result_fits : Option FormulaType → Bool → Kind → Kind → Bool
result_fits none sides a b = true
result_fits (some t) sides a b = implies sides (kind_fits t (arith_kind t a b))

arith_rule : Operator → Kind → Kind → FormulaType → FormulaType → Bool
arith_rule o a b t u = result_fits (arithmetic o t u) (kind_fits t a && kind_fits u b) a b

pub arith_table : Operator → Bool
arith_table o = every_kind (λ a. every_kind (λ b. every_two (arith_rule o a b)))

pub plus_table : arith_table plus ≡ true
unfolding arith_table every_kind every_two every_type arith_rule arithmetic
plus_table = refl

pub minus_table : arith_table minus ≡ true
unfolding arith_table every_kind every_two every_type arith_rule arithmetic
minus_table = refl

pub times_table : arith_table times ≡ true
unfolding arith_table every_kind every_two every_type arith_rule arithmetic
times_table = refl

pub divide_table : arith_table divide ≡ true
unfolding arith_table every_kind every_two every_type arith_rule arithmetic
divide_table = refl

pub power_table : arith_table power ≡ true
unfolding arith_table every_kind every_two every_type arith_rule arithmetic
power_table = refl

pub bang_table : arith_table bang ≡ true
unfolding arith_table every_kind every_two every_type arith_rule arithmetic
bang_table = refl

arith_fits :
    (o : Operator) (t u v : FormulaType) (a b : Kind)
    → arith_table o ≡ true
    → arithmetic o t u ≡ some v
    → kind_fits t a ≡ true
    → kind_fits u b ≡ true
    → kind_fits v (arith_kind v a b) ≡ true
unfolding arith_table arith_rule
arith_fits o t u v a b h e p q = at_some (rw e at rule)
  where
    rule : result_fits (arithmetic o t u) (kind_fits t a && kind_fits u b) a b ≡ true
    rule =
        every_two_sound (arith_rule o a b)
          (every_kind_sound (λ b. every_two (arith_rule o a b))
            (every_kind_sound (λ a. every_kind (λ b. every_two (arith_rule o a b))) h a) b)
          t u

    at_some :
        result_fits (some v) (kind_fits t a && kind_fits u b) a b ≡ true
        → kind_fits v (arith_kind v a b) ≡ true
    at_some k = ground arith

module _ {dec : Decimals} (host : Host dec) where
  -- A value of a representation.
  abbrev IsKind : Kind → Value dec host → Type 0
  IsKind k v = kind_of v ≡ k

  power_of-number :
      (a b : dec.Decimal) (s : Span) → Outcome host (IsKind numbers) (power_of host a b s)
  unfolding power_of
  power_of-number a b s = Outcome-if host (IsKind numbers) _ (Runs.fails refl) (
      Outcome-if host (IsKind numbers) (dec.is_finite (dec.pow a b)) (Runs.returns refl)
        (Runs.fails refl))

  number_arithmetic-number :
      (o : Operator) (a b : dec.Decimal) (s : Span)
      → Outcome host (IsKind numbers) (number_arithmetic host o a b s)
  unfolding number_arithmetic
  number_arithmetic-number plus a b s = Runs.returns refl
  number_arithmetic-number minus a b s = Runs.returns refl
  number_arithmetic-number times a b s = Runs.returns refl
  number_arithmetic-number divide a b s =
      Outcome-if host (IsKind numbers) (dec.is_zero b) (Runs.fails refl) (Runs.returns refl)
  number_arithmetic-number o a b s = power_of-number a b s

  shift_date-text :
      (o : Operator) (t : Text) (d : dec.Decimal)
      → Outcome host (IsKind texts) (shift_date host o t d)
  shift_date-text o t d = shifted-Ends host t _ ▹ λ u _. Runs.returns refl

  arithmetic_given-IsKind :
      (o : Operator) (a b : Value dec host) (s : Span)
      → Outcome host (IsKind (given_kind (kind_of a) (kind_of b))) (arithmetic_given host o a b s)
  arithmetic_given-IsKind o null b s = Runs.returns refl
  arithmetic_given-IsKind o (text t) null s = Runs.returns refl
  arithmetic_given-IsKind o (text t) (text u) s = Runs.returns refl
  arithmetic_given-IsKind o (text t) (boolean c) s = Runs.returns refl
  arithmetic_given-IsKind o (text t) (number d) s = shift_date-text o t d
  arithmetic_given-IsKind o (text t) (instant i) s = Runs.returns refl
  arithmetic_given-IsKind o (text t) (many ts) s = Runs.returns refl
  arithmetic_given-IsKind o (boolean c) null s = Runs.returns refl
  arithmetic_given-IsKind o (boolean c) (text u) s = Runs.returns refl
  arithmetic_given-IsKind o (boolean c) (boolean d) s = Runs.returns refl
  arithmetic_given-IsKind o (boolean c) (number d) s = Runs.returns refl
  arithmetic_given-IsKind o (boolean c) (instant i) s = Runs.returns refl
  arithmetic_given-IsKind o (boolean c) (many ts) s = Runs.returns refl
  arithmetic_given-IsKind o (number d) null s = Runs.returns refl
  arithmetic_given-IsKind o (number d) (text u) s = shift_date-text o u d
  arithmetic_given-IsKind o (number d) (boolean c) s = Runs.returns refl
  arithmetic_given-IsKind o (number d) (number e) s = number_arithmetic-number o d e s
  arithmetic_given-IsKind o (number d) (instant i) s = Runs.returns refl
  arithmetic_given-IsKind o (number d) (many ts) s = Runs.returns refl
  arithmetic_given-IsKind o (instant i) null s = Runs.returns refl
  arithmetic_given-IsKind o (instant i) (text u) s = Runs.returns refl
  arithmetic_given-IsKind o (instant i) (boolean c) s = Runs.returns refl
  arithmetic_given-IsKind o (instant i) (number d) s = Runs.returns refl
  arithmetic_given-IsKind o (instant i) (instant j) s = Runs.returns refl
  arithmetic_given-IsKind o (instant i) (many ts) s = Runs.returns refl
  arithmetic_given-IsKind o (many ts) null s = Runs.returns refl
  arithmetic_given-IsKind o (many ts) (text u) s = Runs.returns refl
  arithmetic_given-IsKind o (many ts) (boolean c) s = Runs.returns refl
  arithmetic_given-IsKind o (many ts) (number d) s = Runs.returns refl
  arithmetic_given-IsKind o (many ts) (instant i) s = Runs.returns refl
  arithmetic_given-IsKind o (many ts) (many us) s = Runs.returns refl

  arithmetic_values-IsKind :
      (t : FormulaType) (o : Operator) (a b : Value dec host) (s : Span)
      → Outcome host
          (IsKind (arith_kind t (kind_of a) (kind_of b)))
          (arithmetic_values host t o a b s)
  unfolding arithmetic_values
  arithmetic_values-IsKind t o a b s = elim (Bool-cases (type_eq t text_type)) [
    | inl e ↦ rw e (Runs.returns refl)
    | inr e ↦ rw e (arithmetic_given-IsKind o a b s)
  ]

  -- Arithmetic between values of the types of its sides gives one of its own type.
  pub arithmetic_values-Yields :
      (o : Operator) (t u w : FormulaType) (a b : Value dec host) (s : Span)
      → arith_table o ≡ true
      → arithmetic o t u ≡ some w
      → Fits t a
      → Fits u b
      → Yields host w (arithmetic_values host w o a b s)
  arithmetic_values-Yields o t u w a b s h e p q =
      relax host {P = IsKind (arith_kind w (kind_of a) (kind_of b))}
        (λ x (f : IsKind (arith_kind w (kind_of a) (kind_of b)) x).
          ap (kind_fits w) f ∙ arith_fits o t u w (kind_of a) (kind_of b) h e p q)
        (arithmetic_values-IsKind w o a b s)
