-- ===== src/Formula/Evaluate/Safety/Sound.antt =====
-- A formula that the checker of packages/formula/src/check.ts accepts, evaluated by evaluate.ts.
use salesmaker.Base.{◌≡◌, refl, Bool, true, false, Option, some, List, ◌≤◌, arith, length}
use salesmaker.Base.Text.{Text}
use salesmaker.Formula.Syntax.{
  Scope, UnaryOp, FormulaType, text_type, number_type, boolean_type, null_type, ok,
}
use salesmaker.Formula.Types.{
  type_eq, found, CheckEnvironment, LiteralValue, text, boolean, null, TypedNode, TypedArgs,
  type_of, args_list,
}
use salesmaker.Formula.Functions.{Function, arity, takes}
use salesmaker.Formula.Post.{of_ok, Runs, ◌▹◌}
use salesmaker.Formula.Runtime.{Decimals, Host}
use salesmaker.Formula.Evaluate.{EvalContext, literal_value, run, run_args, evaluate_formula}
use salesmaker.Formula.Evaluate.Outcome.{HostThrows, Yields, or_thrown-Ends}
use salesmaker.Formula.Evaluate.Safety.Operators.{
  binary_result-Yields, negate-Fits, complement-Fits,
}
use salesmaker.Formula.Evaluate.Safety.Arguments.{IsProper, AllYield}
use salesmaker.Formula.Evaluate.Safety.Stored.{from_stored-Yields}
use salesmaker.Formula.Evaluate.Safety.Calls.{call_function-Yields}
use salesmaker.Formula.Check.{check_formula}
use salesmaker.Formula.Check.Results.{literal_is}
use salesmaker.Formula.Check.Typed.{IsTyped, AllTyped}
use salesmaker.Formula.Check.Expected.{check_formula-IsExpected}

-- No field and no global has the type null, which is only that of the literal.
abbrev pub IsStrict : CheckEnvironment → Type 0
IsStrict env =
    ((path : List Text) (t : FormulaType) → env.field path ≡ found t → type_eq t null_type ≡ false)
    × ((scope : Scope) (name : Text) (t : FormulaType)
        → env.global scope name ≡ some t
        → type_eq t null_type ≡ false)

enough : (f : Function) (ns : List TypedNode) → takes f (length ns) ≡ true → (arity f).0 ≤ length ns
unfolding takes
enough f ns h = ground arith

module _ {dec : Decimals} (host : Host dec) (ctx : EvalContext host) where
  literal-Yields :
      (t : FormulaType) (v : LiteralValue)
      → literal_is t v ≡ true
      → Yields host t (literal_value host t v)
  unfolding literal_value
  literal-Yields text_type (text v) h = Runs.returns refl
  literal-Yields number_type (text v) h =
      or_thrown-Ends host (dec.parse v) (λ e. HostThrows.parse v e) ▹ λ d _. Runs.returns refl
  literal-Yields t (text v) h = absurd cc
  literal-Yields boolean_type (boolean b) h = Runs.returns refl
  literal-Yields t (boolean b) h = absurd cc
  literal-Yields t null h = Runs.returns refl

  module _ (env : CheckEnvironment) (strict : IsStrict env) where
    proper : (n : TypedNode) → IsTyped env n → IsProper n
    proper (TypedNode.literal t v s) h = tt
    proper (TypedNode.field t path s) (IsTyped.field l e) = strict.0 path t e
    proper (TypedNode.global t scope name s) h = tt
    proper (TypedNode.unary t o a s) h = tt
    proper (TypedNode.binary t o a b s) h = tt
    proper (TypedNode.call t name args s) h = tt

    mutual
      unfolding run run_args

      run-Yields : (n : TypedNode) → IsTyped env n → Yields host (type_of n) (run host ctx n)
      run-Yields (TypedNode.literal t v s) (IsTyped.literal h) = literal-Yields t v h
      run-Yields (TypedNode.field t path s) (IsTyped.field l e) =
          from_stored-Yields host t (ctx.field path) (strict.0 path t e)
      run-Yields (TypedNode.global t scope name s) (IsTyped.global e) =
          from_stored-Yields host t (ctx.global scope name) (strict.1 scope name t e)
      run-Yields (TypedNode.unary t UnaryOp.negate a s) (IsTyped.negate h k) =
          run-Yields a h ▹ λ v f. Runs.returns (negate-Fits host (type_of a) v f)
      run-Yields (TypedNode.unary t UnaryOp.complement a s) (IsTyped.complement h k) =
          run-Yields a h ▹ λ v f. Runs.returns (complement-Fits host v)
      run-Yields (TypedNode.binary t o a b s) (IsTyped.binary h k p q g) =
          binary_result-Yields host (type_of a) (type_of b) t s o g (run-Yields a h)
            (run-Yields b k)
      run-Yields (TypedNode.call t name args s) (IsTyped.call {f = f} al e h k stand g) = rw e (
          call_function-Yields host ctx t (args_list args) (run_args host ctx args) s
            (run_args-AllYield args al) f (enough f (args_list args) h) g)

      run_args-AllYield :
          (args : TypedArgs)
          → AllTyped env args
          → AllYield host (args_list args) (run_args host ctx args)
      run_args-AllYield TypedArgs.nil AllTyped.nil = tt
      run_args-AllYield (TypedArgs.cons a rest) (AllTyped.cons h k) =
          ((proper a h, run-Yields a h), run_args-AllYield rest k)

    -- A typed expression yields its type.
    pub evaluate_typed :
        (t : TypedNode) → IsTyped env t → Yields host (type_of t) (evaluate_formula host ctx t)
    unfolding evaluate_formula
    evaluate_typed t h = run-Yields t h

    -- Type safety: a formula that `checkFormula` accepts, in an environment whose fields and globals
    -- all have types of their own, evaluates to a value of its type or to null, or it fails with one of
    -- the five runtime errors of the language, or it throws, and the host has an operation that throws:
    -- the printing of an instant, its parts in a time zone, the reading of a number, rounding, or the test
    -- of a pattern. So with
    -- a host where these never throw it gives a value or a runtime error, and it never meets an unknown
    -- function.
    pub evaluate_formula-Yields :
        (valid_regex : Text → Bool) (source : Text) (o : Option FormulaType) (t : TypedNode)
        → check_formula valid_regex env source o ≡ ok t
        → Yields host (type_of t) (evaluate_formula host ctx t)
    unfolding evaluate_formula
    evaluate_formula-Yields valid_regex source o t e =
        run-Yields t (of_ok (rw e at (check_formula-IsExpected valid_regex env source o))).1
