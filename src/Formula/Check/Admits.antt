-- ===== src/Formula/Check/Admits.antt =====
-- The helpers of packages/formula/src/check.ts let through only arguments that stand for a parameter.
use salesmaker.Base.{
  ◌≡◌, refl, ap, sym, ◌∙◌, Bool-cases, inl, inr, ◌&&◌, ◌||◌, ℕ, zero, suc, ◌+◌, ◌≤◌, Bool, true,
  false, not, Option, none, some, List, [], ◌∷◌, arith, length, get_elem?, take, drop,
  if◌then◌else◌, ◌==◌, ◌%◌, subst,
}
use salesmaker.Base.Text.{Text}
use salesmaker.Formula.Syntax.{
  Span, ErrorCode, FormulaType, text_type, picklist_type, multi_picklist_type, null_type, Result,
}
use salesmaker.Formula.Tables.{implies, every_type, every_type_sound, every_two, every_two_sound}
use salesmaker.Formula.Types.{type_eq, is_numeric, one_of, TypedNode, literal, type_of}
use salesmaker.Formula.Post.{Post, returns, throws, ◌⟫◌, weaken}
use salesmaker.Formula.Check.Widening.{both_true, unify_all-Unifies}
use salesmaker.Formula.Check.Operators.{numbers}
use salesmaker.Formula.Check.Parameters.{
  Parameter, anything, a_field, a_literal, among, exactly, but_not, stands, all_stand, a_text,
  a_number, meet, subject_type, values_meet, case_stands,
}
use salesmaker.Formula.Rules.{
  expect_type, expect_numeric, expect_field, expect_literal, unify, unify_all, each_arg, text_first,
  each_of, each_numeric, case_results, unified, check_case, expect_exactly,
}
use salesmaker.Formula.Signatures.{text_result}
use salesmaker.Formula.Check.Reads.{Done, Post-if, arg-is}

-- A test that only lets a parameter through.
abbrev Admits : Parameter → (TypedNode → Result (Unit {0})) → Type 0
Admits p test = (n : TypedNode) → Post (λ _. stands p n ≡ true) (test n)

pub expect_type-Admits : (ts : List FormulaType) → Admits (among ts) (λ n. expect_type n ts)
unfolding expect_type
expect_type-Admits ts n =
    elim (Bool-cases (type_eq (type_of n) null_type || one_of (type_of n) ts)) [
      | inl e ↦ rw (e, expect_type) (returns refl)
      | inr e ↦ rw (e, expect_type) (Post-if _ throws throws)
    ]

number_rule : FormulaType → Bool
number_rule t =
    implies (type_eq t null_type || is_numeric t) (type_eq t null_type || one_of t numbers)

implied : (a b : Bool) → implies a b ≡ true → a ≡ true → b ≡ true
implied true b h e = h
implied false b h e = absurd cc

numeric_stands :
    (t : FormulaType)
    → (type_eq t null_type || is_numeric t) ≡ true
    → (type_eq t null_type || one_of t numbers) ≡ true
unfolding every_type number_rule
numeric_stands t =
    implied (type_eq t null_type || is_numeric t) (type_eq t null_type || one_of t numbers)
      (every_type_sound number_rule refl t)

pub expect_numeric-Admits : Admits a_number expect_numeric
unfolding expect_numeric
expect_numeric-Admits n =
    elim (Bool-cases (type_eq (type_of n) null_type || is_numeric (type_of n))) [
      | inl e ↦ rw (e, expect_numeric) (returns (numeric_stands (type_of n) e))
      | inr e ↦ rw (e, expect_numeric) (Post-if _ throws throws)
    ]

pub expect_field-Admits : (name : Text) → Admits a_field (λ n. expect_field n name)
unfolding expect_field
expect_field-Admits name (TypedNode.field _ _ _) = returns refl
expect_field-Admits name _ = throws

pub expect_literal-Admits : (name : Text) → Admits a_literal (λ n. expect_literal n name)
unfolding expect_literal
expect_literal-Admits name (literal text_type v s) = returns refl
expect_literal-Admits name _ = throws

pub expect_exactly-Admits :
    (t : FormulaType) (c : ErrorCode) → Admits (exactly t) (expect_exactly t c)
unfolding expect_exactly
expect_exactly-Admits t c n = elim (Bool-cases (type_eq (type_of n) t)) [
  | inl e ↦ rw e (returns refl)
  | inr e ↦ rw e throws
]

-- Every argument stands for the parameter.
abbrev Each : Parameter → List TypedNode → Type 0
Each p ns = all_stand [] p ns ≡ true

pub each_arg-Each :
    (p : Parameter) (test : TypedNode → Result (Unit {0})) (ns : List TypedNode)
    → Admits p test
    → Post (λ _. Each p ns) (each_arg test ns)
unfolding each_arg
each_arg-Each p test [] h = returns refl
each_arg-Each p test (n ∷ ns) h =
    h n ⟫ λ _ e. weaken (λ _ k. both_true e k) (each_arg-Each p test ns h)

pub anything_stands : (ns : List TypedNode) → Each anything ns
anything_stands [] = refl
anything_stands (n ∷ ns) = anything_stands ns

pub each_of-Each :
    (ts : List FormulaType) (out : FormulaType) (ns : List TypedNode)
    → Post (λ _. Each (among ts) ns) (each_of ts out ns)
unfolding each_of
each_of-Each ts out ns =
    each_arg-Each (among ts) (λ n. expect_type n ts) ns (expect_type-Admits ts) ⟫ λ _ h. returns h

pub each_numeric-Each :
    (out : FormulaType) (ns : List TypedNode) → Post (λ _. Each a_number ns) (each_numeric out ns)
unfolding each_numeric
each_numeric-Each out ns =
    each_arg-Each a_number expect_numeric ns expect_numeric-Admits ⟫ λ _ h. returns h

unfoldable pub repeated : ℕ → List Parameter
repeated zero = []
repeated (suc k) = a_number ∷ repeated k

first_and : (a b c : Bool) → (a && b) ≡ true → c ≡ true → (a ≡ true) × (b ≡ true)
first_and a b c h k = ground arith

split_stand :
    (k : ℕ) (ns : List TypedNode)
    → Each a_number (take k ns)
    → Each a_text (drop k ns)
    → all_stand (repeated k) a_text ns ≡ true
unfolding repeated
split_stand zero [] h e = refl
split_stand zero (n ∷ ns) h e = e
split_stand (suc k) [] h e = refl
split_stand (suc k) (n ∷ ns) h e =
    let parts = first_and (stands a_number n) (all_stand [] a_number (take k ns)) true h refl in
    both_true parts.0 (split_stand k ns parts.1 e)

text_stands :
    (k : ℕ) (ns : List TypedNode) (a : TypedNode)
    → get_elem? ns 0 ≡ some a
    → stands a_text a ≡ true
    → Each a_number (take k (drop 1 ns))
    → Each a_text (drop (1 + k) ns)
    → all_stand (a_text ∷ repeated k) a_text ns ≡ true
text_stands k [] a e p q r = refl
text_stands k (n ∷ ns) a e p q r =
    let same : n ≡ a = cc in
    let later : 1 + k ≡ suc k = omega arith in
    both_true (subst (λ x. stands a_text x ≡ true) (sym same) p)
      (split_stand k ns q (subst (λ j. Each a_text (drop j (n ∷ ns))) later r))

pub text_first-stands :
    (k : ℕ) (out : FormulaType) (ns : List TypedNode)
    → 1 ≤ length ns
    → Post (λ _. all_stand (a_text ∷ repeated k) a_text ns ≡ true) (text_first k out ns)
unfolding text_first
text_first-stands k out ns h = arg-is ns 0 h ⟫ λ a e. expect_type-Admits (text_type ∷ []) a ⟫ λ _ p.
    each_arg-Each a_number expect_numeric (take k (drop 1 ns)) expect_numeric-Admits ⟫ λ _ q.
    each_arg-Each a_text (λ n. expect_type n (text_type ∷ [])) (drop (1 + k) ns)
      (expect_type-Admits (text_type ∷ []))
    ⟫ λ _ r. returns (text_stands k ns a e p q r)

-- One argument that stands, or two.
pub one_stands :
    (p : Parameter) (ns : List TypedNode) (a : TypedNode)
    → get_elem? ns 0 ≡ some a
    → stands p a ≡ true
    → all_stand (p ∷ []) anything ns ≡ true
one_stands p [] a e h = refl
one_stands p (n ∷ ns) a e h =
    let same : n ≡ a = cc in
    both_true (subst (λ x. stands p x ≡ true) (sym same) h) (anything_stands ns)

pub two_stand :
    (p q : Parameter) (ns : List TypedNode) (a b : TypedNode)
    → get_elem? ns 0 ≡ some a
    → get_elem? ns 1 ≡ some b
    → stands p a ≡ true
    → stands q b ≡ true
    → all_stand (p ∷ q ∷ []) anything ns ≡ true
two_stand p q [] a b e k h l = refl
two_stand p q (n ∷ ns) a b e k h l =
    let same : n ≡ a = cc in
    both_true (subst (λ x. stands p x ≡ true) (sym same) h) (one_stands q ns b k l)

-- CASE
if_some : Option FormulaType → Bool → Bool
if_some none b = true
if_some (some c) b = b

if_some_sound :
    (o : Option FormulaType) (c : FormulaType) (b : Bool)
    → o ≡ some c
    → if_some o b ≡ true
    → b ≡ true
unfolding if_some
if_some_sound none c b e h = absurd cc
if_some_sound (some d) c b e h = h

meet_rules : every_two (λ a b. if_some (unify a b) (meet a b)) ≡ true
unfolding every_two every_type if_some unify
meet_rules = refl

met : (a b c : FormulaType) → unify a b ≡ some c → meet a b ≡ true
met a b c e =
    if_some_sound (unify a b) c (meet a b) e
      (every_two_sound (λ a b. if_some (unify a b) (meet a b)) meet_rules a b)

unified-meet :
    (t : FormulaType) (n : TypedNode) (o : Option FormulaType)
    → unify t (type_of n) ≡ o
    → Post (λ _. meet t (type_of n) ≡ true) (unified o t n)
unified-meet t n none e = throws
unified-meet t n (some u) e = returns (met t (type_of n) u e)

case_results-meet :
    (t : FormulaType) (ns : List TypedNode)
    → Post (λ _. values_meet t ns ≡ true) (case_results t ns)
unfolding case_results
case_results-meet t [] = returns refl
case_results-meet t (n ∷ []) = returns refl
case_results-meet t (v ∷ r ∷ ns) = unified-meet t v (unify t (type_of v)) refl ⟫ λ _ h.
    case_results-meet t ns ⟫ λ rs k. returns (both_true h k)

subject : (t : FormulaType) → (if type_eq t picklist_type then text_type else t) ≡ subject_type t
subject picklist_type = refl
subject t = refl

odd_rest : (n : ℕ) → (suc n % 2 == 0) ≡ true → (n % 2 == 1) ≡ true
odd_rest n h = ground arith

pub unify_all-Done : (ns : List TypedNode) (s : Span) → Done (unify_all ns s)
unify_all-Done ns s = weaken (λ _ _. tt) (unify_all-Unifies ns s)

Post-case :
    {A : Type 0} {P : A → Type 0} (b : Bool) {r s : Result A}
    → (b ≡ true → Post P r)
    → (b ≡ false → Post P s)
    → Post P (if b then r else s)
Post-case true h k = h refl
Post-case false h k = k refl

paired :
    (ns : List TypedNode) (a : TypedNode)
    → (not (length ns % 2 == 0)) ≡ false
    → get_elem? ns 0 ≡ some a
    → values_meet (if type_eq (type_of a) picklist_type then text_type else type_of a) (drop 1 ns)
      ≡ true
    → case_stands ns ≡ true
paired [] a h e k = absurd cc
paired (n ∷ ns) a h e k =
    let same : n ≡ a = cc in
    both_true (odd_rest (length ns) (ground arith)) (
      subst (λ t. values_meet t ns ≡ true)
        (subject (type_of a) ∙ ap (λ x. subject_type (type_of x)) (sym same)) k)

pub check_case-stands :
    (ns : List TypedNode) (s : Span)
    → 1 ≤ length ns
    → Post (λ _. case_stands ns ≡ true) (check_case ns s)
unfolding check_case
check_case-stands ns s h =
    Post-case (not (length ns % 2 == 0)) (λ _. throws)
      (λ even. arg-is ns 0 h ⟫ λ a e.
        case_results-meet (if type_eq (type_of a) picklist_type then text_type else type_of a)
          (drop 1 ns)
        ⟫ λ rs k. weaken (λ _ _. paired ns a even e k) (unify_all-Done rs s))

pub text_result-stands :
    (a : TypedNode) → Post (λ _. stands (but_not multi_picklist_type) a ≡ true) (text_result a)
text_result-stands a = elim (Bool-cases (type_eq (type_of a) multi_picklist_type)) [
  | inl e ↦ rw e throws
  | inr e ↦ rw e (returns refl)
]
