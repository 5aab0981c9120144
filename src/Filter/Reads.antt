-- ===== src/Filter/Reads.antt =====
-- The fields that a filter reads: `filterFields`.
use Prim.Native.String.{String}
use text.Mathlib.Text.{◌==◌ as str_eq}
use text.Mathlib.TextEquality.{eq_iff}
use salesmaker.Base.{
  ◌≡◌, refl, ap, subst, Bool, true, false, not, List, [], ◌∷◌, ◌++◌, All, any, includes, Bool-cases,
  inl, inr, arith, Option, some, if◌then◌else◌,
}
use salesmaker.Filter.{
  Numbers, Value, FilterNode, compare, matches, is_in, not_in, is_null, is_not_null, and, or,
  complement, FilterNodes, nil, cons, distinct_from, filter_fields, all_fields, evaluate,
  evaluate_all, both, either, negation, known_value, comparable, to_comparable, strict_eq,
  compare_with, match_with, string_of, is_nothing,
}

module _ (P : String → Type 0) where
  All-left : (xs ys : List String) → All P (xs ++ ys) → All P xs
  All-left [] ys h = tt
  All-left (x ∷ xs) ys (p, h) = (p, All-left xs ys h)

  All-right : (xs ys : List String) → All P (xs ++ ys) → All P ys
  All-right [] ys h = h
  All-right (x ∷ xs) ys (p, h) = All-right xs ys h

  All-includes : (xs : List String) (k : String) → All P xs → includes xs k ≡ true → P k
  All-includes [] k h e = absurd (ground arith)
  All-includes (x ∷ xs) k (p, h) e = elim (Bool-cases (str_eq x k)) [
    | inl same ↦ subst P ((eq_iff x k).0 same) p
    | inr other ↦ All-includes xs k h (ground (arith, other, e))
  ]

  distinct_step :
      (seen xs : List String) (x : String) (b : Bool)
      → includes seen x ≡ b
      → All P seen
      → (All P (distinct_from seen xs) → All P xs)
      → (All P (x ∷ seen) → All P (distinct_from (x ∷ seen) xs) → All P xs)
      → All P (if b then distinct_from seen xs else x ∷ distinct_from (x ∷ seen) xs)
      → All P (x ∷ xs)
  distinct_step seen xs x true e h skipped kept k = (All-includes seen x h e, skipped k)
  distinct_step seen xs x false e h skipped kept (p, k) = (p, kept (p, h) k)

  -- What holds of the distinct elements holds of all.
  All-distinct : (seen xs : List String) → All P seen → All P (distinct_from seen xs) → All P xs
  unfolding distinct_from
  All-distinct seen [] h k = tt
  All-distinct seen (x ∷ xs) h k =
      distinct_step seen xs x (includes seen x) refl h (All-distinct seen xs h)
        (All-distinct (x ∷ seen) xs) k

module _ {js : Numbers} (r s : String → Value js) where
  abbrev Agree : List String → Type 0
  Agree = All (λ f. r f ≡ s f)

  condition_eq :
      (test : Value js → Option Bool) (f : String) → Agree (f ∷ []) → test (r f) ≡ test (s f)
  condition_eq test f h = ap test h.0

  mutual
    unfolding evaluate filter_fields

    evaluate_eq : (n : FilterNode js) → Agree (filter_fields n) → evaluate n r ≡ evaluate n s
    evaluate_eq (and ns) h = ap both (evaluate_all_eq ns (All-distinct _ [] (all_fields ns) tt h))
    evaluate_eq (or ns) h = ap either (evaluate_all_eq ns (All-distinct _ [] (all_fields ns) tt h))
    evaluate_eq (complement n) h = ap negation (evaluate_eq n h)
    evaluate_eq (compare f o v) h =
        condition_eq (λ x. known_value (comparable x) (λ l. compare_with o l (to_comparable v x))) f
          h
    evaluate_eq (matches f o v) h =
        condition_eq (λ x. known_value (comparable x) (λ l. match_with js.lower o (string_of l) v))
          f h
    evaluate_eq (is_in f vs) h =
        condition_eq
          (λ x. known_value (comparable x) (λ l. any (λ v. strict_eq (to_comparable v x) l) vs)) f h
    evaluate_eq (not_in f vs) h =
        condition_eq
          (λ x.
            known_value (comparable x) (λ l. not (any (λ v. strict_eq (to_comparable v x) l) vs)))
          f h
    evaluate_eq (is_null f) h = condition_eq (λ x. some (is_nothing x)) f h
    evaluate_eq (is_not_null f) h = condition_eq (λ x. some (not (is_nothing x))) f h

    evaluate_all_eq :
        (ns : FilterNodes js) → Agree (all_fields ns) → evaluate_all ns r ≡ evaluate_all ns s
    evaluate_all_eq nil h = refl
    evaluate_all_eq (cons n ns) h = λ i.
        evaluate_eq n (All-left _ (filter_fields n) (all_fields ns) h) i
        ∷ evaluate_all_eq ns (All-right _ (filter_fields n) (all_fields ns) h) i

-- A filter reads no field but those that `filterFields` names: two records that agree on these give
-- the same of the three values.
pub evaluate-filter_fields :
    {js : Numbers} (n : FilterNode js) (r s : String → Value js)
    → All (λ f. r f ≡ s f) (filter_fields n)
    → evaluate n r ≡ evaluate n s
evaluate-filter_fields n r s h = evaluate_eq r s n h
