-- ===== src/Filter/Tests.antt =====
-- Filters over records whose numbers are natural numbers.
use Prim.Native.String.{String}
use text.Mathlib.Text.{◌==◌ as str_eq}
use salesmaker.Base.{
  ℕ, suc, ◌≡◌, refl, ◌⊎◌, inl, inr, Bool, true, false, ◌&&◌, none, some, [], ◌∷◌, All, ltb, leb,
  ◌==◌, if◌then◌else◌,
}
use salesmaker.Filter.{
  Numbers, number, Value, scalar, null, undefined, gt, FilterNode, compare, or, complement, is_in,
  nil, cons, evaluate, filter_fields, distinct_from, limited, max_depth, max_conditions, is_nothing,
}
use salesmaker.Filter.Reads.{evaluate-filter_fields}
use salesmaker.Filter.Unknown.{IsComparing, evaluate-Extends}
use salesmaker.Filter.Limits.{height, count, limited_iff}

abbrev numbers : Numbers
numbers = record {
  Num = ℕ;
  num_eq = λ a b. a == b;
  num_lt = ltb;
  num_le = leb;
  num_of_bool = λ b. if b then 1 else 0;
  num_of_text = λ t. 0;
  time_of_text = λ t. 0;
  text_of_num = λ n. [];
  lower = λ t. t;
}

-- `amount > 10 or not (stage in [3])`
abbrev node : FilterNode numbers
node =
    or (
      cons (compare "amount" gt (number 10))
        (cons (complement (is_in "stage" (number 3 ∷ []))) nil))

abbrev known : String → Value numbers
known f = if str_eq f "amount" then scalar (number 20) else undefined

abbrev more : String → Value numbers
more f = if str_eq f "amount" then scalar (number 20) else scalar (number 3)

abbrev other : String → Value numbers
other f =
    if str_eq f "amount" then scalar (number 20) else if str_eq f "stage" then undefined else null

agree : All (λ f. known f ≡ other f) (filter_fields node)
unfolding filter_fields distinct_from
agree = (refl, (refl, tt))

evaluate-filter_fields_example : evaluate node known ≡ evaluate node other
evaluate-filter_fields_example = evaluate-filter_fields node known other agree

comparing : IsComparing node
unfolding IsComparing
comparing = (tt, (tt, tt))

is_true : evaluate node known ≡ some true
unfolding evaluate
is_true = refl

abbrev twenty : Value numbers
twenty = scalar (number 20)

value_extends :
    (b : Bool)
    → (is_nothing (if b then twenty else undefined) ≡ true)
      ⊎ ((if b then twenty else undefined) ≡ (if b then twenty else scalar (number 3)))
value_extends true = inr refl
value_extends false = inl refl

evaluate-Extends_example : evaluate node more ≡ some true
evaluate-Extends_example =
    evaluate-Extends node known more true comparing (λ f. value_extends (str_eq f "amount")) is_true

limited_iff_example : limited node ≡ (
    if leb (suc (height node)) max_depth && leb (count node) max_conditions
    then some node
    else none)
limited_iff_example = limited_iff node
