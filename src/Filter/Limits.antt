-- ===== src/Filter/Limits.antt =====
-- The limits of `parseFilter` on the depth and the size of a filter.
use salesmaker.Base.{
  ℕ, suc, ◌+◌, ◌≤◌, max, ◌≡◌, refl, ◌∙◌, none, some, leb, ◌&&◌, if◌then◌else◌, arith,
}
use salesmaker.Filter.{
  Numbers, FilterNode, and, or, complement, compare, matches, is_in, not_in, is_null, is_not_null,
  FilterNodes, nil, cons, Measure, measure, measure_all, limited, max_depth, max_conditions,
}

abbrev joined : Measure → Measure → Measure
joined m k = record { depth = max m.depth k.depth; conditions = m.conditions + k.conditions }

module _ {js : Numbers} where
  -- The longest chain of nested nodes under a node, and the number of conditions.
  unfoldable mutual
    pub height : FilterNode js → ℕ
    height (and ns) = heights ns
    height (or ns) = heights ns
    height (complement n) = suc (height n)
    height _ = 0

    pub heights : FilterNodes js → ℕ
    heights nil = 0
    heights (cons n ns) = max (suc (height n)) (heights ns)

  unfoldable mutual
    pub count : FilterNode js → ℕ
    count (and ns) = counts ns
    count (or ns) = counts ns
    count (complement n) = count n
    count _ = 1

    pub counts : FilterNodes js → ℕ
    counts nil = 0
    counts (cons n ns) = count n + counts ns

  mutual
    unfolding measure height count

    measure_depth : (n : FilterNode js) (d : ℕ) → (measure n d).depth ≡ d + height n
    measure_depth (and ns) d =
        omega (arith, measure_all_depth ns d (record { depth = d; conditions = 0 }) (omega arith))
    measure_depth (or ns) d =
        omega (arith, measure_all_depth ns d (record { depth = d; conditions = 0 }) (omega arith))
    measure_depth (complement n) d = omega (arith, measure_depth n (suc d))
    measure_depth (compare f o v) d = omega arith
    measure_depth (matches f o v) d = omega arith
    measure_depth (is_in f v) d = omega arith
    measure_depth (not_in f v) d = omega arith
    measure_depth (is_null f) d = omega arith
    measure_depth (is_not_null f) d = omega arith

    measure_all_depth :
        (ns : FilterNodes js) (d : ℕ) (m : Measure)
        → d ≤ m.depth
        → (measure_all ns d m).depth ≡ max m.depth (d + heights ns)
    measure_all_depth nil d m h = omega arith
    measure_all_depth (cons n ns) d m h =
        measure_all_depth ns d (joined m (measure n (suc d))) (omega arith)
        ∙ omega (arith, measure_depth n (suc d))

  mutual
    unfolding measure height count

    measure_conditions : (n : FilterNode js) (d : ℕ) → (measure n d).conditions ≡ count n
    measure_conditions (and ns) d =
        measure_all_conditions ns d (record { depth = d; conditions = 0 }) ∙ omega arith
    measure_conditions (or ns) d =
        measure_all_conditions ns d (record { depth = d; conditions = 0 }) ∙ omega arith
    measure_conditions (complement n) d = measure_conditions n (suc d)
    measure_conditions (compare f o v) d = refl
    measure_conditions (matches f o v) d = refl
    measure_conditions (is_in f v) d = refl
    measure_conditions (not_in f v) d = refl
    measure_conditions (is_null f) d = refl
    measure_conditions (is_not_null f) d = refl

    measure_all_conditions :
        (ns : FilterNodes js) (d : ℕ) (m : Measure)
        → (measure_all ns d m).conditions ≡ m.conditions + counts ns
    measure_all_conditions nil d m = omega arith
    measure_all_conditions (cons n ns) d m =
        measure_all_conditions ns d (joined m (measure n (suc d)))
        ∙ omega (arith, measure_conditions n (suc d))

-- Behind its schema `parseFilter` gives the filter itself where at most seven nodes lie above any
-- of its nodes and it has at most 100 conditions, and throws on every other filter.
pub limited_iff :
    {js : Numbers} (n : FilterNode js)
    → limited n
      ≡ (if leb (suc (height n)) max_depth && leb (count n) max_conditions then some n else none)
unfolding limited
limited_iff n = ground (arith, measure_depth n 1, measure_conditions n 1)
