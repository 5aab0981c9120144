-- ===== src/Formula/Evaluate/Safety/Operators.antt =====
-- The operators of packages/formula/src/evaluate.ts, between values of the types that the checker allows.
use salesmaker.Base.{◌≡◌, refl, ◌∙◌, Bool, true, false, Option, none, some, List, [], ◌∷◌}
use salesmaker.Formula.Syntax.{
  Span, Operator, or_or, and_and, equal, not_equal, less, less_equal, greater, greater_equal,
  concat, plus, minus, times, divide, power, bang, negate, complement, FormulaType, text_type,
  boolean_type, ok, Result, ◌>>=◌,
}
use salesmaker.Formula.Types.{type_eq}
use salesmaker.Formula.Tables.{type_eq_sound}
use salesmaker.Formula.Rules.{arithmetic}
use salesmaker.Formula.Post.{Runs, ◌▹◌}
use salesmaker.Formula.Runtime.{Decimals, Host, Sign}
use salesmaker.Formula.Values.{Value, null, text, boolean, number, instant, many, Fits, is_true}
use salesmaker.Formula.Evaluate.{unary_value, binary_value, binary_result, compared, tested}
use salesmaker.Formula.Evaluate.Operators.{compare_values, arithmetic_values}
use salesmaker.Formula.Evaluate.Arguments.{every_true, some_true}
use salesmaker.Formula.Evaluate.Outcome.{Yields, Ends, Yields-same, ends}
use salesmaker.Formula.Evaluate.Safety.Dates.{Outcome-if}
use salesmaker.Formula.Evaluate.Safety.Arithmetic.{
  arith_table, arithmetic_values-Yields, plus_table, minus_table, times_table, divide_table,
  power_table, bang_table,
}
use salesmaker.Formula.Check.Operators.{
  tabled, IsArithmetic-plus, IsArithmetic-minus, IsArithmetic-times, IsArithmetic-divide,
  IsArithmetic-power, IsArithmetic-bang,
}
use salesmaker.Formula.Check.Results.{some_type, operates}
use salesmaker.Formula.Check.Widening.{second_true}

some_type_sound : (o : Option FormulaType) (t : FormulaType) → some_type o t ≡ true → o ≡ some t
some_type_sound none t h = absurd cc
some_type_sound (some u) t h = let e : u ≡ t = type_eq_sound u t h in cc

abbrev is_logical : Operator → Bool
is_logical and_and = true
is_logical or_or = true
is_logical _ = false

module _ {dec : Decimals} (host : Host dec) where
  -- Every argument ends.
  abbrev pub AllEnd : List (Result (Value dec host)) → Type 0
  AllEnd [] = Unit
  AllEnd (r ∷ rs) = Ends host r × AllEnd rs

  pub every_true-Yields :
      (rs : List (Result (Value dec host))) → AllEnd rs → Yields host boolean_type (every_true rs)
  unfolding every_true
  every_true-Yields [] h = Runs.returns refl
  every_true-Yields (r ∷ rs) h = h.0 ▹ λ v _.
      Outcome-if host (Fits boolean_type) (is_true v) (every_true-Yields rs h.1) (Runs.returns refl)

  pub some_true-Yields :
      (rs : List (Result (Value dec host))) → AllEnd rs → Yields host boolean_type (some_true rs)
  unfolding some_true
  some_true-Yields [] h = Runs.returns refl
  some_true-Yields (r ∷ rs) h = h.0 ▹ λ v _.
      Outcome-if host (Fits boolean_type) (is_true v) (Runs.returns refl) (some_true-Yields rs h.1)

  tested-Fits : (o : Operator) (c : Option Sign) → Fits boolean_type (tested host o c)
  tested-Fits o none = refl
  tested-Fits o (some s) = refl

  compared-Fits : (o : Operator) (a b : Value dec host) → Fits boolean_type (compared host o a b)
  compared-Fits o a b = tested-Fits o (compare_values host a b)

  -- The sides of an operator, of the types that it allows.
  module _ (t u w : FormulaType) (a b : Value dec host) (s : Span) where
    logical :
        (o : Operator) (x : Value dec host)
        → Fits boolean_type x
        → type_eq w boolean_type ≡ true
        → Yields host w (ok x)
    logical o x f h = Yields-same host w boolean_type h (Runs.returns f)

    arithmetic-Yields :
        (o : Operator)
        → arith_table o ≡ true
        → arithmetic o t u ≡ tabled o t u
        → some_type (tabled o t u) w ≡ true
        → Fits t a
        → Fits u b
        → Yields host w (arithmetic_values host w o a b s)
    arithmetic-Yields o h same e p q =
        arithmetic_values-Yields host o t u w a b s h (same ∙ some_type_sound (tabled o t u) w e) p
          q

    binary_value-Yields :
        (o : Operator)
        → is_logical o ≡ false
        → operates o t u w ≡ true
        → Fits t a
        → Fits u b
        → Yields host w (binary_value host w o a b s)
    unfolding binary_value operates
    binary_value-Yields concat l h p q =
        Yields-same host w text_type (second_true _ _ h) (Runs.returns refl)
    binary_value-Yields equal l h p q = logical equal _ refl (second_true _ _ h)
    binary_value-Yields not_equal l h p q = logical not_equal _ refl (second_true _ _ h)
    binary_value-Yields less l h p q = logical less _ (compared-Fits less a b) (second_true _ _ h)
    binary_value-Yields less_equal l h p q =
        logical less_equal _ (compared-Fits less_equal a b) (second_true _ _ h)
    binary_value-Yields greater l h p q =
        logical greater _ (compared-Fits greater a b) (second_true _ _ h)
    binary_value-Yields greater_equal l h p q =
        logical greater_equal _ (compared-Fits greater_equal a b) (second_true _ _ h)
    binary_value-Yields plus l h p q =
        arithmetic-Yields plus plus_table (IsArithmetic-plus t u) h p q
    binary_value-Yields minus l h p q =
        arithmetic-Yields minus minus_table (IsArithmetic-minus t u) h p q
    binary_value-Yields times l h p q =
        arithmetic-Yields times times_table (IsArithmetic-times t u) h p q
    binary_value-Yields divide l h p q =
        arithmetic-Yields divide divide_table (IsArithmetic-divide t u) h p q
    binary_value-Yields power l h p q =
        arithmetic-Yields power power_table (IsArithmetic-power t u) h p q
    binary_value-Yields bang l h p q =
        arithmetic-Yields bang bang_table (IsArithmetic-bang t u) h p q
    binary_value-Yields or_or l h p q = absurd cc
    binary_value-Yields and_and l h p q = absurd cc

  -- An operator between two expressions of types that it allows.
  module _ (t u w : FormulaType) {ra rb : Result (Value dec host)} (s : Span) where
    both_sides :
        (o : Operator)
        → is_logical o ≡ false
        → operates o t u w ≡ true
        → Yields host t ra
        → Yields host u rb
        → Yields host w (do a ← ra; b ← rb; binary_value host w o a b s)
    both_sides o l h p q = p ▹ λ a f. q ▹ λ b g. binary_value-Yields t u w a b s o l h f g

    pub binary_result-Yields :
        (o : Operator)
        → operates o t u w ≡ true
        → Yields host t ra
        → Yields host u rb
        → Yields host w (binary_result host w o ra rb s)
    unfolding binary_result operates
    binary_result-Yields and_and h p q = Yields-same host w boolean_type (second_true _ _ h) (
        every_true-Yields (ra ∷ rb ∷ []) (ends host {P = Fits t} p, (ends host {P = Fits u} q, tt)))
    binary_result-Yields or_or h p q =
        Yields-same host w boolean_type (second_true _ _ h) (
          some_true-Yields (ra ∷ rb ∷ [])
            (ends host {P = Fits t} p, (ends host {P = Fits u} q, tt)))
    binary_result-Yields concat h p q = both_sides concat refl h p q
    binary_result-Yields equal h p q = both_sides equal refl h p q
    binary_result-Yields not_equal h p q = both_sides not_equal refl h p q
    binary_result-Yields less h p q = both_sides less refl h p q
    binary_result-Yields less_equal h p q = both_sides less_equal refl h p q
    binary_result-Yields greater h p q = both_sides greater refl h p q
    binary_result-Yields greater_equal h p q = both_sides greater_equal refl h p q
    binary_result-Yields plus h p q = both_sides plus refl h p q
    binary_result-Yields minus h p q = both_sides minus refl h p q
    binary_result-Yields times h p q = both_sides times refl h p q
    binary_result-Yields divide h p q = both_sides divide refl h p q
    binary_result-Yields power h p q = both_sides power refl h p q
    binary_result-Yields bang h p q = both_sides bang refl h p q

  -- A minus before a number or null, and a `!`.
  pub negate-Fits :
      (t : FormulaType) (v : Value dec host) → Fits t v → Fits t (unary_value host negate v)
  unfolding unary_value
  negate-Fits t null h = refl
  negate-Fits t (text x) h = refl
  negate-Fits t (boolean b) h = refl
  negate-Fits t (number d) h = h
  negate-Fits t (instant i) h = refl
  negate-Fits t (many ts) h = refl

  pub complement-Fits : (v : Value dec host) → Fits boolean_type (unary_value host complement v)
  unfolding unary_value
  complement-Fits v = refl
