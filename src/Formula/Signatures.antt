-- ===== src/Formula/Signatures.antt =====
-- packages/formula/src/check.ts, the table `FUNCTIONS`: what each function asks of its arguments.
-- `valid_regex` says of a pattern that the host's `new RegExp(pattern, 'u')` does not throw.
use salesmaker.Base.{Bool, List, [], ◌∷◌, if◌then◌else◌}
use salesmaker.Base.Text.{Text, codes}
use salesmaker.Formula.Syntax.{
  Span, FormulaType, text_type, number_type, boolean_type, date_type, date_time_type, picklist_type,
  multi_picklist_type, ErrorCode, Result, ok, ◌>>=◌, ◌>>◌, fail,
}
use salesmaker.Formula.Types.{type_eq, TypedNode, type_of, span_of}
use salesmaker.Formula.Functions.{
  Function, if_fn, case_fn, and_fn, or_fn, not_fn, is_blank, blank_value, is_changed, prior_value,
  is_new, is_pick_val, includes_fn, text_fn, value_fn, len, left_fn, right_fn, mid, contains,
  begins, upper, lower, trim, substitute, regex, round, floor, ceiling, abs, min_fn, max_fn, mod_fn,
  today, now, date, date_value, year, month, day, weekday, add_months, date_diff, business_days,
}
use salesmaker.Formula.Rules.{
  expect_type, expect_numeric, expect_field, expect_literal, unify_all, each_arg, arg, text_first,
  each_of, each_numeric, or_type, check_case, expect_exactly, literal_text,
}

abbrev pub regex_result : Bool → TypedNode → Result FormulaType
regex_result valid p = if valid then ok boolean_type else fail ErrorCode.invalid_regex (span_of p)

-- What TEXT cannot print.
abbrev pub text_result : TypedNode → Result FormulaType
text_result a =
    if type_eq (type_of a) multi_picklist_type
    then fail (ErrorCode.expected_text (type_of a)) (span_of a)
    else ok text_type

-- `spec.check`, entry by entry of the table; the arguments are those of a call at `span`.
unfoldable pub check_function :
    (Text → Bool) → Function → List TypedNode → Span → Result FormulaType
check_function valid_regex if_fn args span = do
  test ← arg args 0
  expect_type test (boolean_type ∷ [])
  a ← arg args 1
  b ← arg args 2
  unify_all (a ∷ b ∷ []) span
check_function valid_regex case_fn args span = check_case args span
check_function valid_regex and_fn args span = each_of (boolean_type ∷ []) boolean_type args
check_function valid_regex or_fn args span = each_of (boolean_type ∷ []) boolean_type args
check_function valid_regex not_fn args span = each_of (boolean_type ∷ []) boolean_type args
check_function valid_regex is_blank args span = ok boolean_type
check_function valid_regex blank_value args span = do
  a ← arg args 0
  b ← arg args 1
  unify_all (a ∷ b ∷ []) span
check_function valid_regex is_changed args span = do
  a ← arg args 0
  expect_field a (codes "ISCHANGED")
  ok boolean_type
check_function valid_regex prior_value args span = do
  a ← arg args 0
  expect_field a (codes "PRIORVALUE")
  ok (type_of a)
check_function valid_regex is_new args span = ok boolean_type
check_function valid_regex is_pick_val args span = do
  f ← arg args 0
  expect_exactly picklist_type (ErrorCode.expected_picklist (type_of f)) f
  value ← arg args 1
  expect_literal value (codes "ISPICKVAL")
  ok boolean_type
check_function valid_regex includes_fn args span = do
  f ← arg args 0
  expect_exactly multi_picklist_type (ErrorCode.expected_multipicklist (type_of f)) f
  value ← arg args 1
  expect_literal value (codes "INCLUDES")
  ok boolean_type
check_function valid_regex text_fn args span = do a ← arg args 0; text_result a
check_function valid_regex value_fn args span = each_of (text_type ∷ []) number_type args
check_function valid_regex len args span = text_first 0 number_type args
check_function valid_regex left_fn args span = text_first 1 text_type args
check_function valid_regex right_fn args span = text_first 1 text_type args
check_function valid_regex mid args span = text_first 2 text_type args
check_function valid_regex contains args span = text_first 0 boolean_type args
check_function valid_regex begins args span = text_first 0 boolean_type args
check_function valid_regex upper args span = text_first 0 text_type args
check_function valid_regex lower args span = text_first 0 text_type args
check_function valid_regex trim args span = text_first 0 text_type args
check_function valid_regex substitute args span = text_first 0 text_type args
check_function valid_regex regex args span = do
  a ← arg args 0
  expect_type a (text_type ∷ [])
  p ← arg args 1
  expect_literal p (codes "REGEX")
  regex_result (valid_regex (literal_text p)) p
check_function valid_regex round args span = do
  a ← arg args 0
  expect_numeric a
  digits ← arg args 1
  expect_numeric digits
  ok (or_type (type_of a) number_type)
check_function valid_regex floor args span = each_numeric number_type args
check_function valid_regex ceiling args span = each_numeric number_type args
check_function valid_regex abs args span = do
  a ← arg args 0
  expect_numeric a
  ok (or_type (type_of a) number_type)
check_function valid_regex min_fn args span = do each_arg expect_numeric args; unify_all args span
check_function valid_regex max_fn args span = do each_arg expect_numeric args; unify_all args span
check_function valid_regex mod_fn args span = each_numeric number_type args
check_function valid_regex today args span = ok date_type
check_function valid_regex now args span = ok date_time_type
check_function valid_regex date args span = each_numeric date_type args
check_function valid_regex date_value args span =
    each_of (text_type ∷ date_time_type ∷ date_type ∷ []) date_type args
check_function valid_regex year args span = each_of (date_type ∷ []) number_type args
check_function valid_regex month args span = each_of (date_type ∷ []) number_type args
check_function valid_regex day args span = each_of (date_type ∷ []) number_type args
check_function valid_regex weekday args span = each_of (date_type ∷ []) number_type args
check_function valid_regex add_months args span = do
  a ← arg args 0
  expect_type a (date_type ∷ date_time_type ∷ [])
  months ← arg args 1
  expect_numeric months
  ok (or_type (type_of a) date_type)
check_function valid_regex date_diff args span =
    each_of (date_type ∷ date_time_type ∷ []) number_type args
check_function valid_regex business_days args span = each_of (date_type ∷ []) number_type args
