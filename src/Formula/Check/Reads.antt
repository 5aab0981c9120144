-- ===== src/Formula/Check/Reads.antt =====
-- The helpers of packages/formula/src/check.ts: the arguments that they read, and what they see to.
use salesmaker.Base.{
  ◌≡◌, refl, Bool-cases, inl, inr, ℕ, zero, suc, ◌<◌, Bool, true, false, some, List, [], ◌∷◌, arith,
  length, get_elem?, if◌then◌else◌,
}
use salesmaker.Base.Text.{Text}
use salesmaker.Formula.Syntax.{ErrorCode, FormulaType, text_type, Result}
use salesmaker.Formula.Types.{type_eq, TypedNode, literal, type_of}
use salesmaker.Formula.Post.{Post, returns, throws, ◌⟫◌, weaken}
use salesmaker.Formula.Check.Results.{field_first, numeric_or_null}
use salesmaker.Formula.Check.Widening.{both_true, all_numeric}
use salesmaker.Formula.Rules.{
  expect_type, expect_numeric, expect_field, expect_literal, each_arg, arg, present, expect_exactly,
}

-- The call returns a value of some kind or throws a formula error.
abbrev pub Done : {A : Type 0} → Result A → Type 0
Done {A} = Post {A = A} (λ _. Unit {0})

pub Post-if :
    {A : Type 0} {P : A → Type 0} (b : Bool) {r s : Result A}
    → Post P r
    → Post P s
    → Post P (if b then r else s)
Post-if true h k = h
Post-if false h k = k

pub Done-if : {A : Type 0} (b : Bool) {r s : Result A} → Done r → Done s → Done (if b then r else s)
Done-if true h k = h
Done-if false h k = k

pub expect_type-Done : (n : TypedNode) (ts : List FormulaType) → Done (expect_type n ts)
unfolding expect_type
expect_type-Done n ts = Done-if _ (returns tt) (Done-if _ throws throws)

abbrev IsNumeric : TypedNode → Type 0
IsNumeric n = numeric_or_null (type_of n) ≡ true

pub expect_numeric-IsNumeric : (n : TypedNode) → Post (λ _. IsNumeric n) (expect_numeric n)
unfolding expect_numeric
expect_numeric-IsNumeric n = elim (Bool-cases (numeric_or_null (type_of n))) [
  | inl e ↦ rw (e, expect_numeric) (returns refl)
  | inr e ↦ rw (e, expect_numeric) (Post-if _ throws throws)
]

-- A field, as the first argument.
abbrev pub IsField : TypedNode → Type 0
IsField n =
    (p : FormulaType → Bool)
    → p (type_of n) ≡ true
    → (ns : List TypedNode) → field_first (n ∷ ns) p ≡ true

pub expect_field-IsField :
    (n : TypedNode) (name : Text) → Post (λ _. IsField n) (expect_field n name)
unfolding expect_field
expect_field-IsField (TypedNode.field _ _ _) name = returns (λ p h ns. h)
expect_field-IsField _ name = throws

pub expect_literal-Done : (n : TypedNode) (name : Text) → Done (expect_literal n name)
unfolding expect_literal
expect_literal-Done (literal text_type v s) name = returns tt
expect_literal-Done _ name = throws

pub expect_exactly-Done :
    (t : FormulaType) (c : ErrorCode) (n : TypedNode) → Done (expect_exactly t c n)
unfolding expect_exactly
expect_exactly-Done t c n = Done-if (type_eq (type_of n) t) (returns tt) throws

pub each_arg-Done :
    (test : TypedNode → Result (Unit {0})) (ns : List TypedNode)
    → ((n : TypedNode) → Done (test n))
    → Done (each_arg test ns)
unfolding each_arg
each_arg-Done test [] h = returns tt
each_arg-Done test (n ∷ ns) h = h n ⟫ λ _ _. each_arg-Done test ns h

pub all_arg-numeric :
    (ns : List TypedNode) → Post (λ _. all_numeric ns ≡ true) (each_arg expect_numeric ns)
unfolding each_arg
all_arg-numeric [] = returns refl
all_arg-numeric (n ∷ ns) =
    expect_numeric-IsNumeric n ⟫ λ _ h. weaken (λ _ k. both_true h k) (all_arg-numeric ns)

get_elem?-present :
    (ns : List TypedNode) (i : ℕ)
    → i < length ns
    → Post (λ a. get_elem? ns i ≡ some a) (present (get_elem? ns i))
get_elem?-present [] i h = absurd (omega arith)
get_elem?-present (n ∷ ns) zero h = returns refl
get_elem?-present (n ∷ ns) (suc i) h = get_elem?-present ns i (omega arith)

pub arg-is :
    (ns : List TypedNode) (i : ℕ) → i < length ns → Post (λ a. get_elem? ns i ≡ some a) (arg ns i)
unfolding arg
arg-is ns i h = get_elem?-present ns i h
