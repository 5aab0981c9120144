-- ===== src/Formula/Evaluate.antt =====
-- packages/formula/src/evaluate.ts: the evaluator.
pub mod Texts
pub mod Dates
pub mod Operators
pub mod Arguments
pub mod TextCalls
pub mod DateCalls
pub mod Outcome
mod Tests
pub mod RoundTrip
pub mod Safety
use salesmaker.Base.{
  Bool, true, false, not, ◌||◌, Option, none, some, List, [], ◌∷◌, if◌then◌else◌, length, drop,
  ◌++◌,
}
use salesmaker.Base.Text.{Text, text_eq}
use salesmaker.Formula.Syntax.{
  Span, Operator, or_or, and_and, equal, not_equal, less, less_equal, greater, greater_equal,
  concat, UnaryOp, negate, complement, Scope, FormulaType, number_type, ErrorCode, Result, ok,
  thrown, ◌>>=◌, fail,
}
use salesmaker.Formula.Types.{LiteralValue, TypedNode, TypedArgs, args_list}
use salesmaker.Formula.Functions.{
  Function, if_fn, case_fn, and_fn, or_fn, not_fn, is_blank, blank_value, is_changed, prior_value,
  is_new, is_pick_val, includes_fn, text_fn, value_fn, len, left_fn, right_fn, mid, contains,
  begins, upper, lower, trim, substitute, regex, round, floor, ceiling, abs, min_fn, max_fn, mod_fn,
  today, now, date, date_value, year, month, day, weekday, add_months, date_diff, business_days,
  function_of,
}
use salesmaker.Formula.Runtime.{Sign, Decimals, Host}
use salesmaker.Formula.Values.{
  Value, Stored, null, text, boolean, number, instant, str, is_true, is_blank_value, or_thrown,
  from_stored,
}
use salesmaker.Formula.Evaluate.Dates.{date_in}
use salesmaker.Formula.Evaluate.Texts.{code_points}
use salesmaker.Formula.Evaluate.Operators.{
  bool_eq, ordered_by, equal_values, compare_values, arithmetic_values,
}
use salesmaker.Formula.Evaluate.Arguments.{nth, num, every_true, some_true, case_of, all_numbers}
use salesmaker.Formula.Evaluate.TextCalls.{
  text_of, value_of, left_of, right_of, cut, cut_mid, on_text, substitute_of, regex_of, includes_of,
}
use salesmaker.Formula.Evaluate.DateCalls.{
  round_to, on_number, extreme, mod_of, date_of, date_value_of, part_of, weekday_of, add_months_of,
  date_diff_of, business_of,
}
use salesmaker.Base.Text.{begins_with, occurs_in}

-- `EvalContext`; `prior` is none where there is no value before a write.
pub record EvalContext {dec : Decimals} (host : Host dec) : Type 0 where
  pub field : List Text → Stored dec host
  pub prior : Option (List Text → Stored dec host)
  pub is_new : Bool
  pub global : Scope → Text → Stored dec host
  pub now : host.Instant
  pub timezone : Text

module _ {dec : Decimals} (host : Host dec) where
  -- A literal; the text of a number is the one that the lexer read.
  unfoldable pub literal_value : FormulaType → LiteralValue → Result (Value dec host)
  literal_value number_type (LiteralValue.text v) = do d ← or_thrown (dec.parse v); ok (number d)
  literal_value t (LiteralValue.text v) = ok (text v)
  literal_value t (LiteralValue.boolean b) = ok (boolean b)
  literal_value t LiteralValue.null = ok null

  unfoldable pub unary_value : UnaryOp → Value dec host → Value dec host
  unary_value complement v = boolean (not (is_true v))
  unary_value negate (number d) = number (dec.neg d)
  unary_value negate _ = null

  -- What a comparison gives; false where there is none.
  abbrev pub tested : Operator → Option Sign → Value dec host
  tested o none = boolean false
  tested o (some s) = boolean (ordered_by o s)

  abbrev pub compared : Operator → Value dec host → Value dec host → Value dec host
  compared o a b = tested o (compare_values host a b)

  -- `binary` on its sides, for the operators that read both.
  unfoldable pub binary_value :
      FormulaType → Operator → Value dec host → Value dec host → Span → Result (Value dec host)
  binary_value t concat a b span = ok (text (str a ++ str b))
  binary_value t equal a b span = ok (boolean (equal_values host a b))
  binary_value t not_equal a b span = ok (boolean (not (equal_values host a b)))
  binary_value t less a b span = ok (compared less a b)
  binary_value t less_equal a b span = ok (compared less_equal a b)
  binary_value t greater a b span = ok (compared greater a b)
  binary_value t greater_equal a b span = ok (compared greater_equal a b)
  binary_value t o a b span = arithmetic_values host t o a b span

  -- `binary`; `&&` and `||` read the right side only where the left does not decide.
  unfoldable pub binary_result :
      FormulaType
      → Operator
      → Result (Value dec host)
      → Result (Value dec host)
      → Span
      → Result (Value dec host)
  unfolding binary_value
  binary_result t and_and left right span = every_true (left ∷ right ∷ [])
  binary_result t or_or left right span = some_true (left ∷ right ∷ [])
  binary_result t o left right span = do a ← left; b ← right; binary_value t o a b span

  -- `arg(0) === arg(1)` of ISPICKVAL, where the second is a text literal.
  abbrev pub identical : Value dec host → Value dec host → Bool
  identical (text a) (text b) = text_eq a b
  identical (boolean a) (boolean b) = bool_eq a b
  identical null null = true
  identical _ _ = false

  -- The checker has seen to it that the argument is a field; nothing else has a path.
  abbrev pub stored_before :
      (List Text → Stored dec host) → List TypedNode → Result (Value dec host)
  stored_before before (TypedNode.field t path span ∷ rest) = from_stored t (before path)
  stored_before before _ = thrown

  abbrev pub prior_with :
      Option (List Text → Stored dec host)
      → Bool
      → List TypedNode
      → Value dec host
      → Result (Value dec host)
  prior_with none added nodes current = ok current
  prior_with (some before) true nodes current = ok current
  prior_with (some before) false nodes current = stored_before before nodes

  -- The value before the write, for ISCHANGED and PRIORVALUE.
  unfoldable pub prior_of :
      EvalContext host → List TypedNode → Value dec host → Result (Value dec host)
  prior_of ctx nodes current = prior_with ctx.prior ctx.is_new nodes current

  -- `call`, by the function that its name stands for.
  unfoldable pub call_function :
      EvalContext host
      → Function
      → List TypedNode
      → List (Result (Value dec host))
      → Span
      → Result (Value dec host)
  call_function ctx if_fn nodes rs span = do c ← nth rs 0; if is_true c then nth rs 1 else nth rs 2
  call_function ctx case_fn nodes rs span = do v ← nth rs 0; case_of v (ok v) (drop 1 rs)
  call_function ctx and_fn nodes rs span = every_true rs
  call_function ctx or_fn nodes rs span = some_true rs
  call_function ctx not_fn nodes rs span = do v ← nth rs 0; ok (boolean (not (is_true v)))
  call_function ctx is_blank nodes rs span = do v ← nth rs 0; ok (boolean (is_blank_value v))
  call_function ctx blank_value nodes rs span = do
    v ← nth rs 0
    if is_blank_value v then nth rs 1 else ok v
  call_function ctx is_new nodes rs span = ok (boolean ctx.is_new)
  call_function ctx is_changed nodes rs span = do
    current ← nth rs 0
    prior ← prior_of ctx nodes current
    ok (boolean (not (equal_values host current prior)))
  call_function ctx prior_value nodes rs span = do current ← nth rs 0; prior_of ctx nodes current
  call_function ctx is_pick_val nodes rs span = do
    a ← nth rs 0
    b ← nth rs 1
    ok (boolean (identical a b))
  call_function ctx includes_fn nodes rs span = do v ← nth rs 0; includes_of host v (nth rs 1)
  call_function ctx text_fn nodes rs span = do v ← nth rs 0; text_of host v
  call_function ctx value_fn nodes rs span = do v ← nth rs 0; value_of host v span
  call_function ctx len nodes rs span = do
    v ← nth rs 0
    ok (number (dec.of_nat (length (code_points (str v)))))
  call_function ctx left_fn nodes rs span = do n ← num rs 1; cut host n (left_of host) (nth rs 0)
  call_function ctx right_fn nodes rs span = do n ← num rs 1; cut host n (right_of host) (nth rs 0)
  call_function ctx mid nodes rs span = do
    start ← num rs 1
    count ← num rs 2
    cut_mid host start count (nth rs 0)
  call_function ctx contains nodes rs span = do
    a ← nth rs 0
    b ← nth rs 1
    ok (boolean (occurs_in (str a) (str b)))
  call_function ctx begins nodes rs span = do
    a ← nth rs 0
    b ← nth rs 1
    ok (boolean (begins_with (str a) (str b)))
  call_function ctx upper nodes rs span = do v ← nth rs 0; ok (on_text host host.upper v)
  call_function ctx lower nodes rs span = do v ← nth rs 0; ok (on_text host host.lower v)
  call_function ctx trim nodes rs span = do v ← nth rs 0; ok (on_text host host.trim v)
  call_function ctx substitute nodes rs span = do v ← nth rs 0; substitute_of host v rs
  call_function ctx regex nodes rs span = do v ← nth rs 0; regex_of host (str v) (nth rs 1) span
  call_function ctx round nodes rs span = do n ← num rs 0; digits ← num rs 1; round_to host n digits
  call_function ctx floor nodes rs span = do n ← num rs 0; ok (on_number host dec.floor n)
  call_function ctx ceiling nodes rs span = do n ← num rs 0; ok (on_number host dec.ceil n)
  call_function ctx abs nodes rs span = do n ← num rs 0; ok (on_number host dec.abs n)
  call_function ctx min_fn nodes rs span = do ds ← all_numbers rs; ok (extreme host dec.minimum ds)
  call_function ctx max_fn nodes rs span = do ds ← all_numbers rs; ok (extreme host dec.maximum ds)
  call_function ctx mod_fn nodes rs span = do a ← num rs 0; b ← num rs 1; mod_of host a b span
  call_function ctx today nodes rs span = do d ← date_in host ctx.now ctx.timezone; ok (text d)
  call_function ctx now nodes rs span = ok (instant (host.instant (host.time ctx.now)))
  call_function ctx date nodes rs span = do
    y ← num rs 0
    m ← num rs 1
    d ← num rs 2
    date_of host y m d span
  call_function ctx date_value nodes rs span = do v ← nth rs 0; date_value_of host v span
  call_function ctx year nodes rs span = do v ← nth rs 0; ok (part_of host (λ p. p.0) v)
  call_function ctx month nodes rs span = do v ← nth rs 0; ok (part_of host (λ p. p.1) v)
  call_function ctx day nodes rs span = do v ← nth rs 0; ok (part_of host (λ p. p.2) v)
  call_function ctx weekday nodes rs span = do v ← nth rs 0; ok (part_of host (weekday_of host) v)
  call_function ctx add_months nodes rs span = do v ← nth rs 0; n ← num rs 1; add_months_of host v n
  call_function ctx date_diff nodes rs span = do
    a ← nth rs 0
    b ← nth rs 1
    ok (date_diff_of host a b)
  call_function ctx business_days nodes rs span = do
    a ← nth rs 0
    b ← nth rs 1
    ok (business_of host a b)

  abbrev pub called :
      EvalContext host
      → Option Function
      → Text
      → List TypedNode
      → List (Result (Value dec host))
      → Span
      → Result (Value dec host)
  called ctx none name nodes rs span = fail (ErrorCode.unknown_function name) span
  called ctx (some f) name nodes rs span = call_function ctx f nodes rs span

  unfoldable mutual
    -- `run`
    pub run : EvalContext host → TypedNode → Result (Value dec host)
    run ctx (TypedNode.literal t v s) = literal_value t v
    run ctx (TypedNode.field t path s) = from_stored t (ctx.field path)
    run ctx (TypedNode.global t scope name s) = from_stored t (ctx.global scope name)
    run ctx (TypedNode.unary t o a s) = do v ← run ctx a; ok (unary_value o v)
    run ctx (TypedNode.binary t o a b s) = binary_result t o (run ctx a) (run ctx b) s
    run ctx (TypedNode.call t name args s) =
        called ctx (function_of name) name (args_list args) (run_args ctx args) s

    pub run_args : EvalContext host → TypedArgs → List (Result (Value dec host))
    run_args ctx TypedArgs.nil = []
    run_args ctx (TypedArgs.cons a rest) = run ctx a ∷ run_args ctx rest

  -- `evaluateFormula`: a runtime error of the formula is the result `err`, every other exception escapes.
  unfoldable pub evaluate_formula : EvalContext host → TypedNode → Result (Value dec host)
  unfolding run
  evaluate_formula ctx ast = run ctx ast
