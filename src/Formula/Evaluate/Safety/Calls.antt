-- ===== src/Formula/Evaluate/Safety/Calls.antt =====
-- The calls of packages/formula/src/evaluate.ts: every function gives a value of the type of its call.
use salesmaker.Base.{
  ℕ, ◌≤◌, ◌<◌, ◌≡◌, refl, true, not, ◌&&◌, List, [], ◌∷◌, arith, if◌then◌else◌, length,
}
use salesmaker.Formula.Syntax.{
  Span, FormulaType, text_type, number_type, boolean_type, date_type, date_time_type, Result, ok,
  ◌>>=◌,
}
use salesmaker.Formula.Types.{type_eq, is_numeric, TypedNode}
use salesmaker.Formula.Tables.{implies, every_type, every_type_sound}
use salesmaker.Formula.Functions.{
  Function, if_fn, case_fn, and_fn, or_fn, not_fn, is_blank, blank_value, is_changed, prior_value,
  is_new, is_pick_val, includes_fn, text_fn, value_fn, len, left_fn, right_fn, mid, contains,
  begins, upper, lower, trim, substitute, regex, round, floor, ceiling, abs, min_fn, max_fn, mod_fn,
  today, now, date, date_value, year, month, day, weekday, add_months, date_diff, business_days,
  arity,
}
use salesmaker.Formula.Post.{Runs, ◌▹◌}
use salesmaker.Formula.Runtime.{Decimals, Host}
use salesmaker.Formula.Values.{
  Value, boolean, kind_fits, numbers, Fits, str, is_true, is_blank_value,
}
use salesmaker.Formula.Evaluate.{EvalContext, prior_of, call_function}
use salesmaker.Formula.Evaluate.Arguments.{nth, num}
use salesmaker.Formula.Evaluate.DateCalls.{weekday_of}
use salesmaker.Formula.Evaluate.Operators.{equal_values}
use salesmaker.Formula.Evaluate.Outcome.{Yields, Ends, Yields-same, Yields-widens}
use salesmaker.Formula.Evaluate.Safety.Dates.{Outcome-if, date_in-Ends}
use salesmaker.Formula.Evaluate.Safety.Operators.{every_true-Yields, some_true-Yields}
use salesmaker.Formula.Evaluate.Safety.TextCalls.{
  text_of-Yields, value_of-Yields, cut-Yields, cut_mid-Yields, on_text-Fits, substitute_of-Yields,
  regex_of-Yields, includes_of-Yields,
}
use salesmaker.Formula.Evaluate.Safety.DateCalls.{
  round_to-Yields, on_number-Fits, extreme-Fits, mod_of-Yields, date_of-Yields,
  date_value_of-Yields, part_of-Fits, add_months_of-Yields, date_diff_of-Fits, business_of-Fits,
}
use salesmaker.Formula.Evaluate.Safety.Arguments.{
  AllYield, AllYield-AllEnd, nth-widens, nth-Ends, num-Ends, all_numbers-Ends, case_rest-Yields,
}
use salesmaker.Formula.Evaluate.Safety.Stored.{prior_of-Yields}
use salesmaker.Formula.Check.Results.{widens, widens_at, field_first, gives}
use salesmaker.Formula.Check.Widening.{first_true, second_true}

turned : (u t : FormulaType) → type_eq u t ≡ true → type_eq t u ≡ true
turned u t h = ground arith

numeric_rule : every_type (λ t. implies (is_numeric t) (widens number_type t)) ≡ true
unfolding every_type
numeric_rule = refl

number_widens : (t : FormulaType) → is_numeric t ≡ true → widens number_type t ≡ true
number_widens t h =
    let r : implies (is_numeric t) (widens number_type t) ≡ true =
      every_type_sound (λ t. implies (is_numeric t) (widens number_type t)) numeric_rule t in
    ground arith

numeric_fits_rule : every_type (λ t. implies (is_numeric t) (kind_fits t numbers)) ≡ true
unfolding every_type
numeric_fits_rule = refl

numeric_fits : (t : FormulaType) → is_numeric t ≡ true → kind_fits t numbers ≡ true
numeric_fits t h =
    let r : implies (is_numeric t) (kind_fits t numbers) ≡ true =
      every_type_sound (λ t. implies (is_numeric t) (kind_fits t numbers)) numeric_fits_rule t in
    ground arith

module _ {dec : Decimals} (host : Host dec) (ctx : EvalContext host) where
  -- PRIORVALUE, of a field of the type `t`.
  prior_value-Yields :
      (t : FormulaType) (ns : List TypedNode) (rs : List (Result (Value dec host)))
      → AllYield host ns rs
      → field_first ns (λ u. type_eq u t) ≡ true
      → Yields host t (do v ← nth rs 0; prior_of host ctx ns v)
  unfolding nth
  prior_value-Yields t (TypedNode.field u path s ∷ ns) (r ∷ rs) h k =
      Yields-same host t u (turned u t k)
        (h.0.1 ▹ λ v f. prior_of-Yields host u ctx path s ns v h.0.0 f)
  prior_value-Yields t (TypedNode.field u path s ∷ ns) [] h k = absurd h
  prior_value-Yields t [] rs h k = absurd cc
  prior_value-Yields t (n ∷ ns) rs h k = absurd cc

  -- ISCHANGED, of a field.
  is_changed-Yields :
      (t : FormulaType) (ns : List TypedNode) (rs : List (Result (Value dec host)))
      → AllYield host ns rs
      → field_first ns (λ u. true) ≡ true
      → type_eq t boolean_type ≡ true
      → Yields host t (do
        current ← nth rs 0
        prior ← prior_of host ctx ns current
        ok (boolean (not (equal_values host current prior))))
  unfolding nth
  is_changed-Yields t (TypedNode.field u path s ∷ ns) (r ∷ rs) h k e = h.0.1 ▹ λ v f.
      prior_of-Yields host u ctx path s ns v h.0.0 f ▹ λ p _.
      Yields-same host t boolean_type e (Runs.returns refl)
  is_changed-Yields t (TypedNode.field u path s ∷ ns) [] h k e = absurd h
  is_changed-Yields t [] rs h k e = absurd cc
  is_changed-Yields t (n ∷ ns) rs h k e = absurd cc

  module _ (t : FormulaType) (ns : List TypedNode) (rs : List (Result (Value dec host))) (s : Span)
      (all : AllYield host ns rs) where
    reads : (i : ℕ) → i < length ns → Ends host (nth rs i)
    reads i h = nth-Ends host ns rs i all h

    counts : (i : ℕ) → i < length ns → Ends host (num rs i)
    counts i h = num-Ends host ns rs i all h

    -- The branch at a place.
    branch : (i : ℕ) → widens_at ns i t ≡ true → Yields host t (nth rs i)
    branch i h = nth-widens host t ns rs i all h

    blank_value-Yields :
        (widens_at ns 0 t && widens_at ns 1 t) ≡ true
        → Yields host t (do v ← nth rs 0; if is_blank_value v then nth rs 1 else ok v)
    blank_value-Yields g = branch 0 (first_true _ _ g) ▹ λ v f.
        Outcome-if host (Fits t) (is_blank_value v) (branch 1 (second_true _ _ g)) (Runs.returns f)

    -- A call of a function gives a value of each type that the checker may give it.
    pub call_function-Yields :
        (f : Function)
        → (arity f).0 ≤ length ns
        → gives f ns t ≡ true
        → Yields host t (call_function host ctx f ns rs s)
    unfolding call_function arity gives
    call_function-Yields if_fn h g = reads 0 (omega arith) ▹ λ c _.
        Outcome-if host (Fits t) (is_true c) (branch 1 (first_true _ _ g))
          (branch 2 (second_true _ _ g))
    call_function-Yields case_fn h g =
        reads 0 (omega arith) ▹ λ v _. case_rest-Yields host t v ns rs all (omega arith) g
    call_function-Yields and_fn h g =
        Yields-same host t boolean_type g
          (every_true-Yields host rs (AllYield-AllEnd host ns rs all))
    call_function-Yields or_fn h g =
        Yields-same host t boolean_type g
          (some_true-Yields host rs (AllYield-AllEnd host ns rs all))
    call_function-Yields not_fn h g =
        Yields-same host t boolean_type g (reads 0 (omega arith) ▹ λ v _. Runs.returns refl)
    call_function-Yields is_blank h g =
        Yields-same host t boolean_type g (reads 0 (omega arith) ▹ λ v _. Runs.returns refl)
    call_function-Yields blank_value h g = blank_value-Yields g
    call_function-Yields is_changed h g =
        is_changed-Yields t ns rs all (first_true _ _ g) (second_true _ _ g)
    call_function-Yields prior_value h g = prior_value-Yields t ns rs all g
    call_function-Yields is_new h g = Yields-same host t boolean_type g (Runs.returns refl)
    call_function-Yields is_pick_val h g =
        Yields-same host t boolean_type g
          (reads 0 (omega arith) ▹ λ a _. reads 1 (omega arith) ▹ λ b _. Runs.returns refl)
    call_function-Yields includes_fn h g =
        Yields-same host t boolean_type g
          (reads 0 (omega arith) ▹ λ v _. includes_of-Yields host v (reads 1 (omega arith)))
    call_function-Yields text_fn h g =
        Yields-same host t text_type g (reads 0 (omega arith) ▹ λ v _. text_of-Yields host v)
    call_function-Yields value_fn h g =
        Yields-same host t number_type g (reads 0 (omega arith) ▹ λ v _. value_of-Yields host v s)
    call_function-Yields len h g =
        Yields-same host t number_type g (reads 0 (omega arith) ▹ λ v _. Runs.returns refl)
    call_function-Yields left_fn h g =
        Yields-same host t text_type g
          (counts 1 (omega arith) ▹ λ n _. cut-Yields host n _ (reads 0 (omega arith)))
    call_function-Yields right_fn h g =
        Yields-same host t text_type g
          (counts 1 (omega arith) ▹ λ n _. cut-Yields host n _ (reads 0 (omega arith)))
    call_function-Yields mid h g = Yields-same host t text_type g (
        counts 1 (omega arith) ▹ λ a _.
        counts 2 (omega arith) ▹ λ b _. cut_mid-Yields host a b (reads 0 (omega arith)))
    call_function-Yields contains h g =
        Yields-same host t boolean_type g
          (reads 0 (omega arith) ▹ λ a _. reads 1 (omega arith) ▹ λ b _. Runs.returns refl)
    call_function-Yields begins h g =
        Yields-same host t boolean_type g
          (reads 0 (omega arith) ▹ λ a _. reads 1 (omega arith) ▹ λ b _. Runs.returns refl)
    call_function-Yields upper h g =
        Yields-same host t text_type g
          (reads 0 (omega arith) ▹ λ v _. Runs.returns (on_text-Fits host host.upper v))
    call_function-Yields lower h g =
        Yields-same host t text_type g
          (reads 0 (omega arith) ▹ λ v _. Runs.returns (on_text-Fits host host.lower v))
    call_function-Yields trim h g =
        Yields-same host t text_type g
          (reads 0 (omega arith) ▹ λ v _. Runs.returns (on_text-Fits host host.trim v))
    call_function-Yields substitute h g = Yields-same host t text_type g (
        reads 0 (omega arith) ▹ λ v _.
        substitute_of-Yields host v rs (reads 1 (omega arith)) (reads 2 (omega arith)))
    call_function-Yields regex h g =
        Yields-same host t boolean_type g
          (reads 0 (omega arith) ▹ λ v _. regex_of-Yields host (str v) s (reads 1 (omega arith)))
    call_function-Yields round h g = counts 0 (omega arith) ▹ λ n _. counts 1 (omega arith) ▹ λ d _.
        Yields-widens host number_type t (number_widens t g) (round_to-Yields host n d)
    call_function-Yields floor h g = Yields-same host t number_type g (
        counts 0 (omega arith) ▹ λ n _.
        Runs.returns (on_number-Fits host number_type dec.floor n refl))
    call_function-Yields ceiling h g = Yields-same host t number_type g (
        counts 0 (omega arith) ▹ λ n _.
        Runs.returns (on_number-Fits host number_type dec.ceil n refl))
    call_function-Yields abs h g = counts 0 (omega arith) ▹ λ n _.
        Runs.returns (on_number-Fits host t dec.abs n (numeric_fits t g))
    call_function-Yields min_fn h g =
        all_numbers-Ends host rs (AllYield-AllEnd host ns rs all) ▹ λ ds _.
        Runs.returns (extreme-Fits host t dec.minimum ds (numeric_fits t g))
    call_function-Yields max_fn h g =
        all_numbers-Ends host rs (AllYield-AllEnd host ns rs all) ▹ λ ds _.
        Runs.returns (extreme-Fits host t dec.maximum ds (numeric_fits t g))
    call_function-Yields mod_fn h g =
        Yields-same host t number_type g
          (counts 0 (omega arith) ▹ λ a _. counts 1 (omega arith) ▹ λ b _. mod_of-Yields host a b s)
    call_function-Yields today h g =
        Yields-same host t date_type g
          (date_in-Ends host ctx.now ctx.timezone ▹ λ d _. Runs.returns refl)
    call_function-Yields now h g = Yields-same host t date_time_type g (Runs.returns refl)
    call_function-Yields date h g = Yields-same host t date_type g (
        counts 0 (omega arith) ▹ λ y _.
        counts 1 (omega arith) ▹ λ m _. counts 2 (omega arith) ▹ λ d _. date_of-Yields host y m d s)
    call_function-Yields date_value h g =
        Yields-same host t date_type g
          (reads 0 (omega arith) ▹ λ v _. date_value_of-Yields host v s)
    call_function-Yields year h g =
        Yields-same host t number_type g
          (reads 0 (omega arith) ▹ λ v _. Runs.returns (part_of-Fits host (λ p. p.0) v))
    call_function-Yields month h g =
        Yields-same host t number_type g
          (reads 0 (omega arith) ▹ λ v _. Runs.returns (part_of-Fits host (λ p. p.1) v))
    call_function-Yields day h g =
        Yields-same host t number_type g
          (reads 0 (omega arith) ▹ λ v _. Runs.returns (part_of-Fits host (λ p. p.2) v))
    call_function-Yields weekday h g =
        Yields-same host t number_type g
          (reads 0 (omega arith) ▹ λ v _. Runs.returns (part_of-Fits host (weekday_of host) v))
    call_function-Yields add_months h g = branch 0 (first_true _ _ g) ▹ λ v f.
        counts 1 (omega arith) ▹ λ n _. add_months_of-Yields host t v n (second_true _ _ g) f
    call_function-Yields date_diff h g = Yields-same host t number_type g (
        reads 0 (omega arith) ▹ λ a _.
        reads 1 (omega arith) ▹ λ b _. Runs.returns (date_diff_of-Fits host a b))
    call_function-Yields business_days h g = Yields-same host t number_type g (
        reads 0 (omega arith) ▹ λ a _.
        reads 1 (omega arith) ▹ λ b _. Runs.returns (business_of-Fits host a b))
