-- ===== src/Formula/Check/Sides.antt =====
-- The types that packages/formula/src/check.ts gives to operators.
use salesmaker.Base.{
  ◌≡◌, refl, sym, ◌∙◌, Bool, true, false, ◌||◌, Option, none, some, List, [], ◌∷◌, arith,
  Bool-cases, inl, inr, ◌⊎◌,
}
use salesmaker.Formula.Syntax.{
  Span, Operator, or_or, and_and, equal, not_equal, less, less_equal, greater, greater_equal,
  concat, plus, minus, times, divide, power, bang, FormulaType, text_type, boolean_type, null_type,
}
use salesmaker.Formula.Types.{type_eq, one_of, TypedNode, type_of}
use salesmaker.Formula.Post.{Post, returns, throws, ◌⟫◌, weaken}
use salesmaker.Formula.Rules.{comparable, ordered, compatible, expect_type}
use salesmaker.Formula.Check.{both, comparison, arithmetic_result, binary_type}
use salesmaker.Formula.Check.Operators.{
  tabled, compatible-equal, compatible-ordered, IsArithmetic-plus, IsArithmetic-minus,
  IsArithmetic-times, IsArithmetic-divide, IsArithmetic-power, IsArithmetic-bang,
}
use salesmaker.Formula.Check.Returns.{expect_type-one_of, type_eq_refl}
use salesmaker.Formula.Check.Results.{or_null, both_are, some_type, operates}
use salesmaker.Formula.Check.Widening.{both_true}

pub expect_type-or_null :
    (n : TypedNode) (t : FormulaType)
    → Post (λ _. or_null t (type_of n) ≡ true) (expect_type n (t ∷ []))
expect_type-or_null n t =
    weaken
      (λ _ (h : (one_of (type_of n) (t ∷ []) ≡ true) ⊎ (type_eq (type_of n) null_type ≡ true)).
        one_or_null (type_eq (type_of n) t) (type_eq (type_of n) null_type) h)
      (expect_type-one_of n (t ∷ []))
  where
    one_or_null : (a b : Bool) → ((a || false) ≡ true) ⊎ (b ≡ true) → (a || b) ≡ true
    one_or_null a b h = ground arith

module _ (P : FormulaType → Type 0) where
  both-Post :
      (t out : FormulaType) (a b : TypedNode)
      → (both_are t (type_of a) (type_of b) ≡ true → P out)
      → Post P (both t out a b)
  both-Post t out a b h =
      expect_type-or_null a t ⟫ λ _ p. expect_type-or_null b t ⟫ λ _ q. returns (h (both_true p q))

  comparison-Post :
      (among : List FormulaType) (a b : TypedNode) (s : Span)
      → (compatible among (type_of a) (type_of b) ≡ true → P boolean_type)
      → Post P (comparison among a b s)
  comparison-Post among a b s h = elim (Bool-cases (compatible among (type_of a) (type_of b))) [
    | inl e ↦ rw e (returns (h e))
    | inr e ↦ rw e throws
  ]

  arithmetic_result-Post :
      (o : Option FormulaType) (a b : TypedNode) (s : Span)
      → ((t : FormulaType) → o ≡ some t → P t)
      → Post P (arithmetic_result o a b s)
  arithmetic_result-Post none a b s h = throws
  arithmetic_result-Post (some t) a b s h = returns (h t refl)

-- The type that the checker gives to an operator between the two sides.
abbrev Operates : Operator → TypedNode → TypedNode → FormulaType → Type 0
Operates o a b t = operates o (type_of a) (type_of b) t ≡ true

some_type_refl : (o : Option FormulaType) (t : FormulaType) → o ≡ some t → some_type o t ≡ true
some_type_refl o t e = rw e (type_eq_refl t)

pub binary_type-Operates :
    (o : Operator) (a b : TypedNode) (s : Span) → Post (Operates o a b) (binary_type o a b s)
unfolding binary_type operates
binary_type-Operates and_and a b s =
    both-Post (Operates and_and a b) boolean_type boolean_type a b (λ h. both_true h refl)
binary_type-Operates or_or a b s =
    both-Post (Operates or_or a b) boolean_type boolean_type a b (λ h. both_true h refl)
binary_type-Operates concat a b s =
    both-Post (Operates concat a b) text_type text_type a b (λ h. both_true h refl)
binary_type-Operates equal a b s =
    comparison-Post (Operates equal a b) comparable a b s
      (λ h. both_true (compatible-equal (type_of a) (type_of b) h) refl)
binary_type-Operates not_equal a b s =
    comparison-Post (Operates not_equal a b) comparable a b s
      (λ h. both_true (compatible-equal (type_of a) (type_of b) h) refl)
binary_type-Operates less a b s =
    comparison-Post (Operates less a b) ordered a b s
      (λ h. both_true (compatible-ordered (type_of a) (type_of b) h) refl)
binary_type-Operates less_equal a b s =
    comparison-Post (Operates less_equal a b) ordered a b s
      (λ h. both_true (compatible-ordered (type_of a) (type_of b) h) refl)
binary_type-Operates greater a b s =
    comparison-Post (Operates greater a b) ordered a b s
      (λ h. both_true (compatible-ordered (type_of a) (type_of b) h) refl)
binary_type-Operates greater_equal a b s =
    comparison-Post (Operates greater_equal a b) ordered a b s
      (λ h. both_true (compatible-ordered (type_of a) (type_of b) h) refl)
binary_type-Operates plus a b s = arithmetic_result-Post (Operates plus a b) _ a b s (λ t e.
    some_type_refl (tabled plus (type_of a) (type_of b)) t
      (sym (IsArithmetic-plus (type_of a) (type_of b)) ∙ e))
binary_type-Operates minus a b s = arithmetic_result-Post (Operates minus a b) _ a b s (λ t e.
    some_type_refl (tabled minus (type_of a) (type_of b)) t
      (sym (IsArithmetic-minus (type_of a) (type_of b)) ∙ e))
binary_type-Operates times a b s = arithmetic_result-Post (Operates times a b) _ a b s (λ t e.
    some_type_refl (tabled times (type_of a) (type_of b)) t
      (sym (IsArithmetic-times (type_of a) (type_of b)) ∙ e))
binary_type-Operates divide a b s = arithmetic_result-Post (Operates divide a b) _ a b s (λ t e.
    some_type_refl (tabled divide (type_of a) (type_of b)) t
      (sym (IsArithmetic-divide (type_of a) (type_of b)) ∙ e))
binary_type-Operates power a b s = arithmetic_result-Post (Operates power a b) _ a b s (λ t e.
    some_type_refl (tabled power (type_of a) (type_of b)) t
      (sym (IsArithmetic-power (type_of a) (type_of b)) ∙ e))
binary_type-Operates bang a b s = arithmetic_result-Post (Operates bang a b) _ a b s (λ t e.
    some_type_refl (tabled bang (type_of a) (type_of b)) t
      (sym (IsArithmetic-bang (type_of a) (type_of b)) ∙ e))
