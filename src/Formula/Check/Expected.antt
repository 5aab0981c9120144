-- ===== src/Formula/Check/Expected.antt =====
-- `checkFormula` as a whole: the source parsed and checked, and the type that its caller expects.
use salesmaker.Base.{
  ◌≡◌, refl, sym, ap, ◌∙◌, subst, Bool, true, false, not, ◌&&◌, ◌||◌, Option, none, some, arith,
  if◌then◌else◌,
}
use salesmaker.Base.Text.{Text}
use salesmaker.Formula.Syntax.{Node, FormulaType, null_type, ErrorCode, ok, fail}
use salesmaker.Formula.Types.{type_eq, is_numeric, CheckEnvironment, TypedNode, type_of, span_of}
use salesmaker.Formula.Post.{Post, returns, throws, ◌⟫◌, weaken, recall}
use salesmaker.Formula.Parser.{parse}
use salesmaker.Formula.Parser.Returns.{parse-returns}
use salesmaker.Formula.Check.{check_result, check_formula}
use salesmaker.Formula.Check.Typed.{erase, IsTyped}
use salesmaker.Formula.Check.Sound.{check-Types}

-- What a caller that expects a type gets: that type, a number where it expects a number, or null.
abbrev pub IsExpected : Option FormulaType → FormulaType → Type 0
IsExpected none t = Unit
IsExpected (some e) t =
    (type_eq t e || (is_numeric e && is_numeric t) || type_eq t null_type) ≡ true

expected_type :
    (e : FormulaType) (t : TypedNode) (a b c r : Bool)
    → (not a && not b && not c) ≡ r
    → ((r ≡ false) → (a || b || c) ≡ true)
expected_type e t a b c r h k = ground arith

check_result-Post :
    (o : Option FormulaType) (n : Node) (t : TypedNode)
    → Post (λ u. (u ≡ t) × IsExpected o (type_of u)) (check_result o t)
unfolding check_result
check_result-Post none n t = returns (refl, tt)
check_result-Post (some e) n t = go _ refl
  where
    go :
        (r : Bool)
        → (not (type_eq (type_of t) e)
            && not (is_numeric e && is_numeric (type_of t))
            && not (type_eq (type_of t) null_type))
          ≡ r
        → Post
            (λ u. (u ≡ t) × IsExpected (some e) (type_of u))
            (if r then fail (ErrorCode.wrong_result_type e (type_of t)) (span_of t) else ok t)
    go true h = throws
    go false h = returns (refl, expected_type e t _ _ _ _ h refl)

-- For every source text `checkFormula` gives a formula error or a typed expression, and nothing
-- else; the expression is the one that the parser reads, every part of it obeys the rules of the
-- language, which IsTyped states with tables of the operators and of the parameters of functions, and its
-- type is the one that the caller expects, another number type for a number, or null.
pub check_formula-IsExpected :
    (valid_regex : Text → Bool) (env : CheckEnvironment) (source : Text) (o : Option FormulaType)
    → Post
        (λ t. (parse source ≡ ok (erase t)) × IsTyped env t × IsExpected o (type_of t))
        (check_formula valid_regex env source o)
unfolding check_formula
check_formula-IsExpected valid_regex env source o = recall (parse-returns source) ⟫ λ n p.
    check-Types valid_regex env n ⟫ λ t h.
    weaken
      (λ u (k : (u ≡ t) × IsExpected o (type_of u)). (
        p.0 ∙ ap ok (sym h.0) ∙ ap (λ x. ok (erase x)) (sym k.0),
        subst (IsTyped env) (sym k.0) h.1,
        k.1,
      ))
      (check_result-Post o n t)
