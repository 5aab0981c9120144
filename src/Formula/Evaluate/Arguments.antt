-- ===== src/Formula/Evaluate/Arguments.antt =====
-- packages/formula/src/evaluate.ts: the arguments of a call, `arg` and `num`, and the loops over
-- them. An argument is the outcome of its evaluation, which counts only where it is read.
use salesmaker.Base.{ℕ, zero, suc, true, false, Option, none, some, List, [], ◌∷◌, if◌then◌else◌}
use salesmaker.Formula.Syntax.{Result, ok, thrown, ◌>>=◌}
use salesmaker.Formula.Runtime.{Decimals, Host}
use salesmaker.Formula.Values.{Value, number, boolean, is_true}
use salesmaker.Formula.Evaluate.Operators.{equal_values}

module _ {dec : Decimals} {host : Host dec} where
  -- `dec`
  abbrev pub as_decimal : Value dec host → Option dec.Decimal
  as_decimal (number d) = some d
  as_decimal _ = none

  -- `arg`; evaluating undefined throws.
  unfoldable pub nth : List (Result (Value dec host)) → ℕ → Result (Value dec host)
  nth [] i = thrown
  nth (r ∷ rs) zero = r
  nth (r ∷ rs) (suc i) = nth rs i

  -- `num`
  abbrev pub num : List (Result (Value dec host)) → ℕ → Result (Option dec.Decimal)
  num rs i = do v ← nth rs i; ok (as_decimal v)

  -- `every` and `some` of AND and OR, which stop at the first argument that decides.
  unfoldable pub every_true : List (Result (Value dec host)) → Result (Value dec host)
  every_true [] = ok (boolean true)
  every_true (r ∷ rs) = do v ← r; if is_true v then every_true rs else ok (boolean false)

  unfoldable pub some_true : List (Result (Value dec host)) → Result (Value dec host)
  some_true [] = ok (boolean false)
  some_true (r ∷ rs) = do v ← r; if is_true v then ok (boolean true) else some_true rs

  -- The loop of CASE over its pairs; `last` is the argument before them.
  unfoldable pub case_of :
      Value dec host
      → Result (Value dec host)
      → List (Result (Value dec host))
      → Result (Value dec host)
  case_of subject last [] = last
  case_of subject last (r ∷ []) = r
  case_of subject last (r ∷ s ∷ rs) = do
    v ← r
    if equal_values host subject v then s else case_of subject s rs

  -- Every argument as a number, and none where one of them is none.
  unfoldable pub all_numbers : List (Result (Value dec host)) → Result (Option (List dec.Decimal))
  all_numbers [] = ok (some [])
  all_numbers (r ∷ rs) = do
    v ← r
    ds ← all_numbers rs
    ok (elim (as_decimal v) [
      | none ↦ none
      | some d ↦ elim ds [ none ↦ none | some es ↦ some (d ∷ es) ]
    ])
