-- ===== src/Formula/Rules/Unify.antt =====
-- `unify` and the table of types: the common type of two branches is their join.
use salesmaker.Base.{◌≡◌, refl, Bool, true, not, ◌&&◌, Option, none, some, arith}
use salesmaker.Formula.Syntax.{FormulaType, number_type, currency_type, percent_type, null_type}
use salesmaker.Formula.Types.{type_eq}
use salesmaker.Formula.Tables.{implies, every_type, every_type_sound}
use salesmaker.Formula.Rules.{unify}

-- Whether a value of type `a` may stand where `b` is wanted: null anywhere, and numbers as numbers
-- of a wider type, Percent below Number below Currency.
abbrev pub fits : FormulaType → FormulaType → Bool
fits null_type b = true
fits percent_type number_type = true
fits percent_type currency_type = true
fits number_type currency_type = true
fits a b = type_eq a b

and_left : (a b : Bool) → (a && b) ≡ true → a ≡ true
and_left a b h = ground arith

and_right : (a b : Bool) → (a && b) ≡ true → b ≡ true
and_right a b h = ground arith

-- `c` is the least type that both fit, or there is none.
join_test : FormulaType → FormulaType → Option FormulaType → FormulaType → Bool
join_test a b none d = not (fits a d && fits b d)
join_test a b (some c) d = fits a c && fits b c && implies (fits a d && fits b d) (fits c d)

unify_table :
    every_type (λ a. every_type (λ b. every_type (λ d. join_test a b (unify a b) d))) ≡ true
unfolding every_type join_test unify
unify_table = refl

-- `c` is the least type that both fit; or no type is fit by both.
abbrev pub IsJoin : FormulaType → FormulaType → Option FormulaType → Type 0
IsJoin a b none = (d : FormulaType) → fits a d ≡ true → fits b d ≡ true → ⊥
IsJoin a b (some c) =
    (fits a c ≡ true)
    × (fits b c ≡ true)
    × ((d : FormulaType) → fits a d ≡ true → fits b d ≡ true → fits c d ≡ true)

join_test-IsJoin :
    (a b : FormulaType) (o : Option FormulaType)
    → ((d : FormulaType) → join_test a b o d ≡ true)
    → IsJoin a b o
unfolding join_test
join_test-IsJoin a b none h = λ d. let t : join_test a b none d ≡ true = h d in ground arith
join_test-IsJoin a b (some c) h = (
  and_left _ _ (and_left _ _ (h c)),
  and_right _ _ (and_left _ _ (h c)),
  λ d. let t : join_test a b (some c) d ≡ true = h d in ground arith,
)

-- The common type that `unify` finds for two branches is their least upper bound in the order in
-- which null fits anywhere and Percent, Number and Currency widen in turn; where it finds none, no
-- type is fit by both.
pub unify-IsJoin : (a b : FormulaType) → IsJoin a b (unify a b)
unify-IsJoin a b = join_test-IsJoin a b (unify a b) (
    every_type_sound (λ d. join_test a b (unify a b) d)
      (every_type_sound (λ b. every_type (λ d. join_test a b (unify a b) d))
        (every_type_sound (λ a. every_type (λ b. every_type (λ d. join_test a b (unify a b) d)))
          unify_table a)
        b))
