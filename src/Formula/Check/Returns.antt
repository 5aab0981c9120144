-- ===== src/Formula/Check/Returns.antt =====
-- With as many arguments as its arity asks for, the check of a function gives a type or throws a
-- formula error; it never reads an argument that is not there.
use salesmaker.Base.{
  ◌≡◌, refl, Bool-cases, inl, inr, ◌⊎◌, ◌&&◌, ◌||◌, ℕ, ◌+◌, ◌≤◌, Bool, true, not, Option, none,
  some, List, [], ◌∷◌, arith, length, get_elem?, take, drop, if◌then◌else◌, ◌==◌, ◌%◌,
}
use salesmaker.Base.Text.{Text, codes}
use salesmaker.Formula.Syntax.{
  Span, ErrorCode, FormulaType, text_type, number_type, boolean_type, date_type, date_time_type,
  null_type, picklist_type, currency_type, percent_type, time_type, multi_picklist_type, ◌>>◌,
}
use salesmaker.Formula.Tables.{every_type, every_type_sound}
use salesmaker.Formula.Types.{type_eq, is_numeric, one_of, TypedNode, type_of}
use salesmaker.Formula.Post.{Post, returns, throws, ◌⟫◌, weaken}
use salesmaker.Formula.Functions.{
  Function, if_fn, case_fn, and_fn, or_fn, not_fn, is_blank, blank_value, is_changed, prior_value,
  is_new, is_pick_val, includes_fn, text_fn, value_fn, len, left_fn, right_fn, mid, contains,
  begins, upper, lower, trim, substitute, regex, round, floor, ceiling, abs, min_fn, max_fn, mod_fn,
  today, now, date, date_value, year, month, day, weekday, add_months, date_diff, business_days,
  arity,
}
use salesmaker.Formula.Check.Results.{
  widens, all_widen, widens_at, results_widen, field_first, numeric_or_null, gives,
}
use salesmaker.Formula.Check.Widening.{
  both_true, first_true, second_true, Unifies, unify_all-Unifies,
}
use salesmaker.Formula.Rules.{
  expect_type, expect_numeric, unify, unify_all, each_arg, text_first, each_of, each_numeric,
  case_results, unified, check_case, or_type, literal_text,
}
use salesmaker.Formula.Signatures.{check_function}
use salesmaker.Formula.Check.Reads.{
  Done, Post-if, expect_type-Done, expect_numeric-IsNumeric, IsField, expect_field-IsField,
  expect_literal-Done, expect_exactly-Done, each_arg-Done, all_arg-numeric, arg-is,
}

module _ (P : FormulaType → Type 0) where
  text_first-Post :
      (k : ℕ) (out : FormulaType) (ns : List TypedNode)
      → P out
      → 1 ≤ length ns
      → Post P (text_first k out ns)
  unfolding text_first
  text_first-Post k out ns p h = arg-is ns 0 h ⟫ λ a _. expect_type-Done a (text_type ∷ []) ⟫ λ _ _.
      all_arg-numeric (take k (drop 1 ns)) ⟫ λ _ _.
      each_arg-Done (λ n. expect_type n (text_type ∷ [])) (drop (1 + k) ns)
        (λ n. expect_type-Done n (text_type ∷ []))
      ⟫ λ _ _. returns p

  each_of-Post :
      (ts : List FormulaType) (out : FormulaType) (ns : List TypedNode)
      → P out
      → Post P (each_of ts out ns)
  unfolding each_of
  each_of-Post ts out ns p =
      each_arg-Done (λ n. expect_type n ts) ns (λ n. expect_type-Done n ts) ⟫ λ _ _. returns p

  each_numeric-Post :
      (out : FormulaType) (ns : List TypedNode) → P out → Post P (each_numeric out ns)
  unfolding each_numeric
  each_numeric-Post out ns p = all_arg-numeric ns ⟫ λ _ _. returns p

unified-Done : (o : Option FormulaType) (t : FormulaType) (n : TypedNode) → Done (unified o t n)
unified-Done none t n = throws
unified-Done (some u) t n = returns tt

-- The results among the arguments of CASE.
abbrev Results : List TypedNode → List TypedNode → Type 0
Results ns rs = (u : FormulaType) → all_widen rs u ≡ true → results_widen ns u ≡ true

case_results-Results :
    (t : FormulaType) (ns : List TypedNode) → Post (Results ns) (case_results t ns)
unfolding case_results
case_results-Results t [] = returns (λ u h. refl)
case_results-Results t (n ∷ []) = returns (λ u h. first_true _ _ h)
case_results-Results t (v ∷ r ∷ ns) = unified-Done (unify t (type_of v)) t v ⟫ λ _ _.
    case_results-Results t ns ⟫ λ rs k.
    returns (λ u h. both_true (first_true _ _ h) (k u (second_true _ _ h)))

check_case-widens :
    (ns : List TypedNode) (s : Span)
    → 1 ≤ length ns
    → Post (λ u. results_widen (drop 1 ns) u ≡ true) (check_case ns s)
unfolding check_case
check_case-widens ns s h = Post-if (not (length ns % 2 == 0)) throws (
    arg-is ns 0 h ⟫ λ e _.
    case_results-Results (if type_eq (type_of e) picklist_type then text_type else type_of e)
      (drop 1 ns)
    ⟫ λ rs k. weaken (λ u p. k u p.0) (unify_all-Unifies rs s))

min_max-numeric :
    (ns : List TypedNode) (s : Span)
    → Post (λ u. is_numeric u ≡ true) (do each_arg expect_numeric ns; unify_all ns s)
min_max-numeric ns s = all_arg-numeric ns ⟫ λ _ k. weaken (λ u p. p.1 k) (unify_all-Unifies ns s)

number_or-numeric :
    (t : FormulaType) → numeric_or_null t ≡ true → is_numeric (or_type t number_type) ≡ true
number_or-numeric null_type h = refl
number_or-numeric number_type h = refl
number_or-numeric currency_type h = refl
number_or-numeric percent_type h = refl
number_or-numeric text_type h = absurd cc
number_or-numeric boolean_type h = absurd cc
number_or-numeric date_type h = absurd cc
number_or-numeric date_time_type h = absurd cc
number_or-numeric time_type h = absurd cc
number_or-numeric picklist_type h = absurd cc
number_or-numeric multi_picklist_type h = absurd cc

add_months_type :
    (u : FormulaType)
    → one_of u (date_type ∷ date_time_type ∷ []) ≡ true ⊎ type_eq u null_type ≡ true
    → (widens u (or_type u date_type)
        && (type_eq (or_type u date_type) date_type
            || type_eq (or_type u date_type) date_time_type))
      ≡ true
add_months_type date_type h = refl
add_months_type date_time_type h = refl
add_months_type null_type h = refl
add_months_type text_type h = absurd (ground arith)
add_months_type number_type h = absurd (ground arith)
add_months_type currency_type h = absurd (ground arith)
add_months_type percent_type h = absurd (ground arith)
add_months_type boolean_type h = absurd (ground arith)
add_months_type time_type h = absurd (ground arith)
add_months_type picklist_type h = absurd (ground arith)
add_months_type multi_picklist_type h = absurd (ground arith)

pub expect_type-one_of :
    (n : TypedNode) (ts : List FormulaType)
    → Post
        (λ _. one_of (type_of n) ts ≡ true ⊎ type_eq (type_of n) null_type ≡ true)
        (expect_type n ts)
unfolding expect_type
expect_type-one_of n ts = elim (Bool-cases (type_eq (type_of n) null_type)) [
  | inl e ↦ rw e (returns (inr refl))
  | inr e ↦ elim (Bool-cases (one_of (type_of n) ts)) [
    | inl k ↦ rw (e, k) (returns (inl refl))
    | inr k ↦ rw (e, k) (Post-if _ throws throws)
  ]
]

two_true : (a b : Bool) → (a && (b && true)) ≡ true → (a && b) ≡ true
two_true a b h = ground arith

-- Two branches at the places `i` and `j`.
two_widen :
    (ns : List TypedNode) (i j : ℕ) (a b : TypedNode) (s : Span)
    → get_elem? ns i ≡ some a
    → get_elem? ns j ≡ some b
    → Post (λ u. (widens_at ns i u && widens_at ns j u) ≡ true) (unify_all (a ∷ b ∷ []) s)
two_widen ns i j a b s p q =
    weaken
      (λ u (h : Unifies (a ∷ b ∷ []) u).
        rw (p, q) (two_true (widens (type_of a) u) (widens (type_of b) u) h.0))
      (unify_all-Unifies (a ∷ b ∷ []) s)

-- The first argument, where it is a field.
first_field :
    (ns : List TypedNode) (a : TypedNode) (p : FormulaType → Bool)
    → get_elem? ns 0 ≡ some a
    → IsField a
    → p (type_of a) ≡ true
    → field_first ns p ≡ true
first_field [] a p e h k = absurd cc
first_field (n ∷ ns) a p e h k = let same : n ≡ a = ground arith in rw same (h p k ns)

pub type_eq_refl : (t : FormulaType) → type_eq t t ≡ true
unfolding every_type
type_eq_refl t = every_type_sound (λ t. type_eq t t) table t
  where
    table : every_type (λ t. type_eq t t) ≡ true
    table = refl

module _ (valid_regex : Text → Bool) where
  -- The type that the check of a function gives is one of its types.
  abbrev Gives : Function → List TypedNode → FormulaType → Type 0
  Gives f ns t = gives f ns t ≡ true

  pub check_function-Gives :
      (f : Function) (ns : List TypedNode) (s : Span)
      → (arity f).0 ≤ length ns
      → Post (Gives f ns) (check_function valid_regex f ns s)
  unfolding check_function arity gives
  check_function-Gives if_fn ns s h = arg-is ns 0 (omega arith) ⟫ λ c _.
      expect_type-Done c (boolean_type ∷ []) ⟫ λ _ _. arg-is ns 1 (omega arith) ⟫ λ a p.
      arg-is ns 2 (omega arith) ⟫ λ b q. two_widen ns 1 2 a b s p q
  check_function-Gives case_fn ns s h = check_case-widens ns s (omega arith)
  check_function-Gives and_fn ns s h = each_of-Post (Gives and_fn ns) _ _ ns refl
  check_function-Gives or_fn ns s h = each_of-Post (Gives or_fn ns) _ _ ns refl
  check_function-Gives not_fn ns s h = each_of-Post (Gives not_fn ns) _ _ ns refl
  check_function-Gives is_blank ns s h = returns refl
  check_function-Gives blank_value ns s h = arg-is ns 0 (omega arith) ⟫ λ a p.
      arg-is ns 1 (omega arith) ⟫ λ b q. two_widen ns 0 1 a b s p q
  check_function-Gives is_changed ns s h = arg-is ns 0 (omega arith) ⟫ λ a p.
      expect_field-IsField a (codes "ISCHANGED") ⟫ λ _ h.
      returns (both_true (first_field ns a (λ u. true) p h refl) refl)
  check_function-Gives prior_value ns s h = arg-is ns 0 (omega arith) ⟫ λ a p.
      expect_field-IsField a (codes "PRIORVALUE") ⟫ λ _ h.
      returns (first_field ns a (λ u. type_eq u (type_of a)) p h (type_eq_refl (type_of a)))
  check_function-Gives is_new ns s h = returns refl
  check_function-Gives is_pick_val ns s h = arg-is ns 0 (omega arith) ⟫ λ f _.
      expect_exactly-Done picklist_type (ErrorCode.expected_picklist (type_of f)) f ⟫ λ _ _.
      arg-is ns 1 (omega arith) ⟫ λ v _.
      expect_literal-Done v (codes "ISPICKVAL") ⟫ λ _ _. returns refl
  check_function-Gives includes_fn ns s h = arg-is ns 0 (omega arith) ⟫ λ f _.
      expect_exactly-Done multi_picklist_type (ErrorCode.expected_multipicklist (type_of f)) f
      ⟫ λ _ _. arg-is ns 1 (omega arith) ⟫ λ v _.
          expect_literal-Done v (codes "INCLUDES") ⟫ λ _ _. returns refl
  check_function-Gives text_fn ns s h = arg-is ns 0 (omega arith) ⟫ λ a _.
      Post-if (type_eq (type_of a) multi_picklist_type) throws (returns refl)
  check_function-Gives value_fn ns s h = each_of-Post (Gives value_fn ns) _ _ ns refl
  check_function-Gives len ns s h = text_first-Post (Gives len ns) _ _ ns refl (omega arith)
  check_function-Gives left_fn ns s h = text_first-Post (Gives left_fn ns) _ _ ns refl (omega arith)
  check_function-Gives right_fn ns s h =
      text_first-Post (Gives right_fn ns) _ _ ns refl (omega arith)
  check_function-Gives mid ns s h = text_first-Post (Gives mid ns) _ _ ns refl (omega arith)
  check_function-Gives contains ns s h =
      text_first-Post (Gives contains ns) _ _ ns refl (omega arith)
  check_function-Gives begins ns s h = text_first-Post (Gives begins ns) _ _ ns refl (omega arith)
  check_function-Gives upper ns s h = text_first-Post (Gives upper ns) _ _ ns refl (omega arith)
  check_function-Gives lower ns s h = text_first-Post (Gives lower ns) _ _ ns refl (omega arith)
  check_function-Gives trim ns s h = text_first-Post (Gives trim ns) _ _ ns refl (omega arith)
  check_function-Gives substitute ns s h =
      text_first-Post (Gives substitute ns) _ _ ns refl (omega arith)
  check_function-Gives regex ns s h = arg-is ns 0 (omega arith) ⟫ λ a _.
      expect_type-Done a (text_type ∷ []) ⟫ λ _ _. arg-is ns 1 (omega arith) ⟫ λ p _.
      expect_literal-Done p (codes "REGEX") ⟫ λ _ _.
      Post-if (valid_regex (literal_text p)) (returns refl) throws
  check_function-Gives round ns s h = arg-is ns 0 (omega arith) ⟫ λ a _.
      expect_numeric-IsNumeric a ⟫ λ _ k. arg-is ns 1 (omega arith) ⟫ λ d _.
      expect_numeric-IsNumeric d ⟫ λ _ _. returns (number_or-numeric (type_of a) k)
  check_function-Gives floor ns s h = each_numeric-Post (Gives floor ns) _ ns refl
  check_function-Gives ceiling ns s h = each_numeric-Post (Gives ceiling ns) _ ns refl
  check_function-Gives abs ns s h = arg-is ns 0 (omega arith) ⟫ λ a _.
      expect_numeric-IsNumeric a ⟫ λ _ k. returns (number_or-numeric (type_of a) k)
  check_function-Gives min_fn ns s h = min_max-numeric ns s
  check_function-Gives max_fn ns s h = min_max-numeric ns s
  check_function-Gives mod_fn ns s h = each_numeric-Post (Gives mod_fn ns) _ ns refl
  check_function-Gives today ns s h = returns refl
  check_function-Gives now ns s h = returns refl
  check_function-Gives date ns s h = each_numeric-Post (Gives date ns) _ ns refl
  check_function-Gives date_value ns s h = each_of-Post (Gives date_value ns) _ _ ns refl
  check_function-Gives year ns s h = each_of-Post (Gives year ns) _ _ ns refl
  check_function-Gives month ns s h = each_of-Post (Gives month ns) _ _ ns refl
  check_function-Gives day ns s h = each_of-Post (Gives day ns) _ _ ns refl
  check_function-Gives weekday ns s h = each_of-Post (Gives weekday ns) _ _ ns refl
  check_function-Gives add_months ns s h = arg-is ns 0 (omega arith) ⟫ λ a p.
      expect_type-one_of a (date_type ∷ date_time_type ∷ []) ⟫ λ _ k.
      arg-is ns 1 (omega arith) ⟫ λ m _.
      expect_numeric-IsNumeric m ⟫ λ _ _. returns (rw p (add_months_type (type_of a) k))
  check_function-Gives date_diff ns s h = each_of-Post (Gives date_diff ns) _ _ ns refl
  check_function-Gives business_days ns s h = each_of-Post (Gives business_days ns) _ _ ns refl
