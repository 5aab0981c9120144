-- ===== src/Filter/Unknown.antt =====
-- What a field that is not set leaves open: the three-valued logic of `evaluate`.
use Prim.Native.String.{String}
use salesmaker.Base.{
  ◌≡◌, refl, sym, ap, subst, ◌⊎◌, inl, inr, Bool, true, false, not, Option, none, some, List, [],
  ◌∷◌, any, Bool-cases, arith,
}
use salesmaker.Filter.{
  Numbers, Scalar, Value, scalar, date, null, undefined, FilterNode, compare, matches, is_in,
  not_in, is_null, is_not_null, and, or, complement, FilterNodes, nil, cons, evaluate, evaluate_all,
  both, either, negation, known_value, comparable, to_comparable, strict_eq, compare_with,
  match_with, string_of, is_nothing,
}
use salesmaker.Filter.Logic.{is_true, is_false, is_unknown}

-- The second value is the first, or the first was unknown.
data Refines : Option Bool → Option Bool → Type 0 where
  unknown : {o : Option Bool} → Refines none o
  same : {o : Option Bool} → Refines o o

data AllRefine : List (Option Bool) → List (Option Bool) → Type 0 where
  empty : AllRefine [] []
  more :
      {a b : Option Bool} {xs ys : List (Option Bool)}
      → Refines a b
      → AllRefine xs ys
      → AllRefine (a ∷ xs) (b ∷ ys)

module _ (test : Option Bool → Bool) (h : test none ≡ false) where
  any-Refines :
      {xs ys : List (Option Bool)} → AllRefine xs ys → any test xs ≡ true → any test ys ≡ true
  any-Refines empty e = e
  any-Refines (more {b} {xs} {ys} unknown k) e = ground (arith, h, any-Refines k)
  any-Refines (more {a} same k) e = ground (arith, any-Refines k)

all_known : {xs ys : List (Option Bool)} → AllRefine xs ys → any is_unknown xs ≡ false → xs ≡ ys
all_known empty e = refl
all_known (more unknown k) e = absurd (ground arith)
all_known (more {a} same k) e = ap (λ x. a ∷ x) (all_known k (ground arith))

both-Refines : {xs ys : List (Option Bool)} → AllRefine xs ys → Refines (both xs) (both ys)
both-Refines {xs} {ys} k = elim (Bool-cases (any is_false xs)) [
  | inl e ↦ rw (e, any-Refines is_false refl k e) same
  | inr e ↦ elim (Bool-cases (any is_unknown xs)) [
    | inl u ↦ rw (e, u) unknown
    | inr u ↦ rw (sym (all_known k u)) same
  ]
]

either-Refines : {xs ys : List (Option Bool)} → AllRefine xs ys → Refines (either xs) (either ys)
either-Refines {xs} {ys} k = elim (Bool-cases (any is_true xs)) [
  | inl e ↦ rw (e, any-Refines is_true refl k e) same
  | inr e ↦ elim (Bool-cases (any is_unknown xs)) [
    | inl u ↦ rw (e, u) unknown
    | inr u ↦ rw (sym (all_known k u)) same
  ]
]

negation-Refines : {a b : Option Bool} → Refines a b → Refines (negation a) (negation b)
negation-Refines unknown = unknown
negation-Refines same = same

module _ {js : Numbers} where
  -- No test for null in it.
  unfoldable mutual
    pub IsComparing : FilterNode js → Type 0
    IsComparing (is_null f) = ⊥
    IsComparing (is_not_null f) = ⊥
    IsComparing (and ns) = AllComparing ns
    IsComparing (or ns) = AllComparing ns
    IsComparing (complement n) = IsComparing n
    IsComparing _ = Unit

    pub AllComparing : FilterNodes js → Type 0
    AllComparing nil = Unit
    AllComparing (cons n ns) = IsComparing n × AllComparing ns

  -- `s` has what `r` has, and perhaps more.
  abbrev pub Extends : (String → Value js) → (String → Value js) → Type 0
  Extends r s = (f : String) → (is_nothing (r f) ≡ true) ⊎ (r f ≡ s f)

  condition-Refines :
      (test : Value js → Scalar js → Bool) (v w : Value js)
      → (is_nothing v ≡ true) ⊎ (v ≡ w)
      → Refines (known_value (comparable v) (test v)) (known_value (comparable w) (test w))
  condition-Refines test null w (inl e) = unknown
  condition-Refines test undefined w (inl e) = unknown
  condition-Refines test (scalar a) w (inl e) = absurd (ground arith)
  condition-Refines test (date d) w (inl e) = absurd (ground arith)
  condition-Refines test v w (inr e) =
      subst
        (λ x. Refines (known_value (comparable v) (test v)) (known_value (comparable x) (test x))) e
        same

module _ {js : Numbers} (r s : String → Value js) (h : Extends r s) where
  mutual
    unfolding evaluate IsComparing

    evaluate-Refines : (n : FilterNode js) → IsComparing n → Refines (evaluate n r) (evaluate n s)
    evaluate-Refines (and ns) k = both-Refines (evaluate_all-Refines ns k)
    evaluate-Refines (or ns) k = either-Refines (evaluate_all-Refines ns k)
    evaluate-Refines (complement n) k = negation-Refines (evaluate-Refines n k)
    evaluate-Refines (compare f o v) k =
        condition-Refines (λ x l. compare_with o l (to_comparable v x)) (r f) (s f) (h f)
    evaluate-Refines (matches f o v) k =
        condition-Refines (λ x l. match_with js.lower o (string_of l) v) (r f) (s f) (h f)
    evaluate-Refines (is_in f vs) k =
        condition-Refines (λ x l. any (λ v. strict_eq (to_comparable v x) l) vs) (r f) (s f) (h f)
    evaluate-Refines (not_in f vs) k =
        condition-Refines (λ x l. not (any (λ v. strict_eq (to_comparable v x) l) vs)) (r f) (s f)
          (h f)
    evaluate-Refines (is_null f) k = absurd k
    evaluate-Refines (is_not_null f) k = absurd k

    evaluate_all-Refines :
        (ns : FilterNodes js) → AllComparing ns → AllRefine (evaluate_all ns r) (evaluate_all ns s)
    evaluate_all-Refines nil k = empty
    evaluate_all-Refines (cons n ns) (k, ks) =
        more (evaluate-Refines n k) (evaluate_all-Refines ns ks)

known_kept : {a b : Option Bool} (v : Bool) → Refines a b → a ≡ some v → b ≡ some v
known_kept v unknown e = absurd (ground arith)
known_kept v same e = e

-- Without a test for null in it, a filter that is true of a record, or false of it, stays so when
-- fields of the record that were null or undefined are set, whatever they are set to.
pub evaluate-Extends :
    {js : Numbers} (n : FilterNode js) (r s : String → Value js) (v : Bool)
    → IsComparing n
    → Extends r s
    → evaluate n r ≡ some v
    → evaluate n s ≡ some v
evaluate-Extends n r s v k h e = known_kept v (evaluate-Refines r s h n k) e
