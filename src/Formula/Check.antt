-- ===== src/Formula/Check.antt =====
-- packages/formula/src/check.ts: the type checker.
pub mod Operators
pub mod Parameters
pub mod Results
pub mod Widening
pub mod Typed
pub mod Reads
pub mod Sides
pub mod Returns
pub mod Admits
pub mod Accepts
pub mod Sound
pub mod Expected
use salesmaker.Base.{
  ℕ, suc, ◌-◌, Bool, not, ◌&&◌, ◌||◌, Option, none, some, List, [], ◌∷◌, ltb, if◌then◌else◌, length,
}
use salesmaker.Base.Text.{Text}
use salesmaker.Formula.Syntax.{
  Span, Operator, or_or, and_and, equal, not_equal, less, less_equal, greater, greater_equal,
  concat, UnaryOp, negate, complement, Scope, Node, Args, FormulaType, text_type, number_type,
  boolean_type, picklist_type, multi_picklist_type, null_type, ErrorCode, Result, ok, ◌>>=◌, ◌>>◌,
  fail,
}
use salesmaker.Formula.Types.{
  type_eq, is_numeric, FieldLookup, found, unknown_field, not_a_relationship, too_many_hops,
  CheckEnvironment, text, boolean, null, TypedNode, literal, TypedArgs, type_of, span_of, args_list,
}
use salesmaker.Formula.Parser.{parse}
use salesmaker.Formula.Functions.{Function, function_of, arity, takes, needs_prior}
use salesmaker.Formula.Signatures.{check_function}
use salesmaker.Formula.Rules.{max_hops, arithmetic, comparable, ordered, compatible, expect_type}

-- The case 'field' of `check`.
abbrev pub typed_field : List Text → Span → FieldLookup → Result TypedNode
typed_field path span (found t) = ok (TypedNode.field t path span)
typed_field path span unknown_field = fail (ErrorCode.unknown_field path) span
typed_field path span not_a_relationship = fail (ErrorCode.not_a_relationship path) span
typed_field path span too_many_hops = fail (ErrorCode.too_many_hops_found path) span

unfoldable pub check_field : CheckEnvironment → List Text → Span → Result TypedNode
check_field env path span =
    if ltb max_hops (length path - 1)
    then fail (ErrorCode.too_many_hops max_hops) span
    else typed_field path span (env.field path)

abbrev pub typed_global : Scope → Text → Span → Option FormulaType → Result TypedNode
typed_global scope name span none = fail (ErrorCode.unknown_global name) span
typed_global scope name span (some t) = ok (TypedNode.global t scope name span)

unfoldable pub check_unary : UnaryOp → TypedNode → Span → Result TypedNode
check_unary negate operand span =
    if not (is_numeric (type_of operand)) && not (type_eq (type_of operand) null_type)
    then fail (ErrorCode.expected_number (type_of operand)) (span_of operand)
    else ok (TypedNode.unary (type_of operand) negate operand span)
check_unary complement operand span = do
  expect_type operand (boolean_type ∷ [])
  ok (TypedNode.unary boolean_type complement operand span)

-- No side of an operator is a picklist.
unfoldable pub no_picklist : TypedNode → Result (Unit {0})
no_picklist side =
    if type_eq (type_of side) picklist_type || type_eq (type_of side) multi_picklist_type
    then fail ErrorCode.picklist_needs_function (span_of side)
    else ok tt

abbrev pub both : FormulaType → FormulaType → TypedNode → TypedNode → Result FormulaType
both t out left right = do expect_type left (t ∷ []); expect_type right (t ∷ []); ok out

abbrev pub mismatch : TypedNode → TypedNode → Span → Result FormulaType
mismatch left right span = fail (ErrorCode.type_mismatch (type_of left) (type_of right)) span

abbrev pub comparison : List FormulaType → TypedNode → TypedNode → Span → Result FormulaType
comparison among left right span =
    if compatible among (type_of left) (type_of right)
    then ok boolean_type
    else mismatch left right span

abbrev pub arithmetic_result :
    Option FormulaType → TypedNode → TypedNode → Span → Result FormulaType
arithmetic_result none left right span = mismatch left right span
arithmetic_result (some t) left right span = ok t

-- The type of a binary operator between typed sides.
unfoldable pub binary_type : Operator → TypedNode → TypedNode → Span → Result FormulaType
binary_type and_and left right span = both boolean_type boolean_type left right
binary_type or_or left right span = both boolean_type boolean_type left right
binary_type concat left right span = both text_type text_type left right
binary_type equal left right span = comparison comparable left right span
binary_type not_equal left right span = comparison comparable left right span
binary_type less left right span = comparison ordered left right span
binary_type less_equal left right span = comparison ordered left right span
binary_type greater left right span = comparison ordered left right span
binary_type greater_equal left right span = comparison ordered left right span
binary_type o left right span =
    arithmetic_result (arithmetic o (type_of left) (type_of right)) left right span

unfoldable pub check_binary : Operator → TypedNode → TypedNode → Span → Result TypedNode
check_binary o left right span = do
  no_picklist left
  no_picklist right
  t ← binary_type o left right span
  ok (TypedNode.binary t o left right span)

-- `call` up to the arguments: the function, its arity, and whether it may be used here.
abbrev pub known : Option Function → Text → Span → Result Function
known none name span = fail (ErrorCode.unknown_function name) span
known (some f) name span = ok f

unfoldable pub check_call : CheckEnvironment → Function → Text → ℕ → Span → Result (Unit {0})
check_call env f name n span =
    if not (takes f n)
    then fail (ErrorCode.wrong_argument_count name (arity f).0 (arity f).1 n) span
    else if needs_prior f && not env.allow_prior_values
    then fail (ErrorCode.prior_not_allowed name) span
    else ok tt

abbrev pub count_args : Args → ℕ
count_args Args.nil = 0
count_args (Args.cons a rest) = suc (count_args rest)

module _ (valid_regex : Text → Bool) (env : CheckEnvironment) where
  unfoldable mutual
    pub check : Node → Result TypedNode
    check (Node.number v s) = ok (literal number_type (text v) s)
    check (Node.text v s) = ok (literal text_type (text v) s)
    check (Node.boolean v s) = ok (literal boolean_type (boolean v) s)
    check (Node.null s) = ok (literal null_type null s)
    check (Node.field path s) = check_field env path s
    check (Node.global scope name s) = typed_global scope name s (env.global scope name)
    check (Node.unary o a s) = do operand ← check a; check_unary o operand s
    check (Node.binary o a b s) = do left ← check a; right ← check b; check_binary o left right s
    check (Node.call name rest s) = do
      f ← known (function_of name) name s
      check_call env f name (count_args rest) s
      args ← check_args rest
      t ← check_function valid_regex f (args_list args) s
      ok (TypedNode.call t name args s)

    pub check_args : Args → Result TypedArgs
    check_args Args.nil = ok TypedArgs.nil
    check_args (Args.cons a rest) = do
      node ← check a
      args ← check_args rest
      ok (TypedArgs.cons node args)

-- The constraint of `checkFormula` on the result.
unfoldable pub check_result : Option FormulaType → TypedNode → Result TypedNode
check_result none ast = ok ast
check_result (some expected) ast =
    if not (type_eq (type_of ast) expected)
      && not (is_numeric expected && is_numeric (type_of ast))
      && not (type_eq (type_of ast) null_type)
    then fail (ErrorCode.wrong_result_type expected (type_of ast)) (span_of ast)
    else ok ast

-- `checkFormula`: a syntax error or a type error is the result `err`, every other exception escapes.
unfoldable pub check_formula :
    (Text → Bool) → CheckEnvironment → Text → Option FormulaType → Result TypedNode
check_formula valid_regex env source expected = do
  n ← parse source
  ast ← check valid_regex env n
  check_result expected ast
