-- ===== src/Formula/Rules.antt =====
-- packages/formula/src/check.ts: the rules of the type checker, and its helpers.
pub mod Unify
use salesmaker.Base.{
  ℕ, ◌+◌, ◌%◌, Bool, true, false, not, ◌&&◌, ◌||◌, Option, none, some, List, [], ◌∷◌, ◌==◌,
  if◌then◌else◌, length, get_elem?, take, drop,
}
use salesmaker.Base.Text.{Text}
use salesmaker.Formula.Syntax.{
  Span, Operator, plus, minus, times, divide, power, FormulaType, text_type, number_type,
  currency_type, boolean_type, date_type, date_time_type, time_type, picklist_type, null_type,
  ErrorCode, Result, ok, thrown, ◌>>=◌, ◌>>◌, fail,
}
use salesmaker.Formula.Types.{
  type_eq, is_numeric, one_of, text, TypedNode, literal, type_of, span_of,
}

abbrev pub max_hops : ℕ
max_hops = 5

-- Currency where a side is a currency, else Number.
abbrev pub numeric_join : FormulaType → FormulaType → FormulaType
numeric_join a b =
    if type_eq a currency_type || type_eq b currency_type then currency_type else number_type

unfoldable pub unify : FormulaType → FormulaType → Option FormulaType
unify a b =
    if type_eq a null_type
    then some b
    else if type_eq b null_type
    then some a
    else if type_eq a b
    then some a
    else if is_numeric a && is_numeric b
    then some (numeric_join a b)
    else none

abbrev pub is_dated : FormulaType → Bool
is_dated t = type_eq t date_type || type_eq t date_time_type

abbrev pub is_plus : Operator → Bool
is_plus plus = true
is_plus _ = false

-- `arithmetic` with a Null side; `other` is the other side.
unfoldable pub arithmetic_null : Operator → FormulaType → Option FormulaType
arithmetic_null o other =
    if type_eq other null_type
      || is_numeric other
      || is_dated other
      || (is_plus o && type_eq other text_type)
    then some other
    else none

-- `arithmetic` with no Null side.
unfoldable pub arithmetic_typed : Operator → FormulaType → FormulaType → Option FormulaType
arithmetic_typed plus a b =
    if is_numeric a && is_numeric b
    then some (numeric_join a b)
    else if type_eq a text_type && type_eq b text_type
    then some text_type
    else if is_dated a && is_numeric b
    then some a
    else if is_numeric a && is_dated b
    then some b
    else none
arithmetic_typed minus a b =
    if is_numeric a && is_numeric b
    then some (numeric_join a b)
    else if is_dated a && is_numeric b
    then some a
    else if type_eq a b && is_dated a
    then some number_type
    else none
arithmetic_typed times a b = if is_numeric a && is_numeric b then some (numeric_join a b) else none
arithmetic_typed divide a b =
    if is_numeric a && is_numeric b
    then some (
        if type_eq a currency_type && not (type_eq b currency_type)
        then currency_type
        else number_type)
    else none
arithmetic_typed power a b = if is_numeric a && is_numeric b then some number_type else none
arithmetic_typed _ a b = none

unfoldable pub arithmetic : Operator → FormulaType → FormulaType → Option FormulaType
unfolding arithmetic_null arithmetic_typed
arithmetic o a b =
    if type_eq a null_type
    then arithmetic_null o b
    else if type_eq b null_type
    then arithmetic_null o a
    else arithmetic_typed o a b

abbrev pub comparable : List FormulaType
comparable = text_type ∷ boolean_type ∷ date_type ∷ date_time_type ∷ time_type ∷ []

abbrev pub ordered : List FormulaType
ordered = text_type ∷ date_type ∷ date_time_type ∷ time_type ∷ []

-- The test of `=` and of `<`: `among` is COMPARABLE or ORDERED.
unfoldable pub compatible : List FormulaType → FormulaType → FormulaType → Bool
compatible among a b =
    type_eq a null_type
    || type_eq b null_type
    || (is_numeric a && is_numeric b)
    || (type_eq a b && one_of a among)

abbrev pub first : List FormulaType → Option FormulaType
first [] = none
first (t ∷ ts) = some t

-- `expectType`
unfoldable pub expect_type : TypedNode → List FormulaType → Result (Unit {0})
expect_type node types =
    if type_eq (type_of node) null_type || one_of (type_of node) types
    then ok tt
    else if type_eq (type_of node) picklist_type
    then fail ErrorCode.picklist_needs_function (span_of node)
    else fail (ErrorCode.expected_type (first types) (type_of node)) (span_of node)

-- `h.numeric`
unfoldable pub expect_numeric : TypedNode → Result (Unit {0})
expect_numeric node =
    if type_eq (type_of node) null_type || is_numeric (type_of node)
    then ok tt
    else if type_eq (type_of node) picklist_type
    then fail ErrorCode.picklist_needs_function (span_of node)
    else fail (ErrorCode.expected_number (type_of node)) (span_of node)

-- `h.field`
unfoldable pub expect_field : TypedNode → Text → Result (Unit {0})
expect_field (TypedNode.field _ _ _) name = ok tt
expect_field node name = fail (ErrorCode.expected_field name) (span_of node)

-- `h.literalText`
unfoldable pub expect_literal : TypedNode → Text → Result (Unit {0})
expect_literal (literal text_type v s) name = ok tt
expect_literal node name = fail (ErrorCode.expected_text_literal name) (span_of node)

abbrev pub joined : Option FormulaType → FormulaType → TypedNode → Result FormulaType
joined none type n = fail (ErrorCode.branch_type_mismatch type (type_of n)) (span_of n)
joined (some t) type n = ok t

-- The loop of `h.unify`.
unfoldable pub unify_from : FormulaType → List TypedNode → Result FormulaType
unfolding unify
unify_from type [] = ok type
unify_from type (n ∷ ns) = do next ← joined (unify type (type_of n)) type n; unify_from next ns

-- `h.unify`
unfoldable pub unify_all : List TypedNode → Span → Result FormulaType
unfolding unify_from
unify_all nodes span = do
  type ← unify_from null_type nodes
  if type_eq type null_type then fail ErrorCode.cannot_infer_type span else ok type

-- Every argument passes a test.
unfoldable pub each_arg : (TypedNode → Result (Unit {0})) → List TypedNode → Result (Unit {0})
each_arg test [] = ok tt
each_arg test (a ∷ args) = do test a; each_arg test args

-- `args[i]`; reading a property of undefined throws.
abbrev pub present : Option TypedNode → Result TypedNode
present none = thrown
present (some a) = ok a

unfoldable pub arg : List TypedNode → ℕ → Result TypedNode
arg args i = present (get_elem? args i)

-- `text1`: a text, `numbers` numbers, and texts.
unfoldable pub text_first : ℕ → FormulaType → List TypedNode → Result FormulaType
unfolding expect_type expect_numeric each_arg arg
text_first numbers out args = do
  a ← arg args 0
  expect_type a (text_type ∷ [])
  each_arg expect_numeric (take numbers (drop 1 args))
  each_arg (λ n. expect_type n (text_type ∷ [])) (drop (1 + numbers) args)
  ok out

unfoldable pub each_of : List FormulaType → FormulaType → List TypedNode → Result FormulaType
unfolding expect_type each_arg
each_of types out args = do each_arg (λ n. expect_type n types) args; ok out

unfoldable pub each_numeric : FormulaType → List TypedNode → Result FormulaType
unfolding expect_numeric each_arg
each_numeric out args = do each_arg expect_numeric args; ok out

-- The type of a number, or `out` at null.
abbrev pub or_type : FormulaType → FormulaType → FormulaType
or_type t out = if type_eq t null_type then out else t

abbrev pub unified : Option FormulaType → FormulaType → TypedNode → Result (Unit {0})
unified none subject value = fail (ErrorCode.type_mismatch subject (type_of value)) (span_of value)
unified (some _) subject value = ok tt

-- The loop of CASE over its pairs, as the list of the results with the last argument.
unfoldable pub case_results : FormulaType → List TypedNode → Result (List TypedNode)
unfolding unify
case_results subject [] = ok []
case_results subject (last ∷ []) = ok (last ∷ [])
case_results subject (value ∷ result ∷ rest) = do
  unified (unify subject (type_of value)) subject value
  results ← case_results subject rest
  ok (result ∷ results)

unfoldable pub check_case : List TypedNode → Span → Result FormulaType
unfolding unify_all arg case_results
check_case args span =
    if not (length args % 2 == 0) then fail ErrorCode.case_needs_else span else (do
      expr ← arg args 0
      results ←
          case_results (if type_eq (type_of expr) picklist_type then text_type else type_of expr)
            (drop 1 args)
      unify_all results span)

unfoldable pub expect_exactly : FormulaType → ErrorCode → TypedNode → Result (Unit {0})
expect_exactly type code node =
    if type_eq (type_of node) type then ok tt else fail code (span_of node)

-- The text of a literal, for the pattern of REGEX.
abbrev pub literal_text : TypedNode → Text
literal_text (literal _ (text v) _) = v
literal_text _ = []
