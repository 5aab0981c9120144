-- ===== src/Filter.antt =====
-- packages/query-engine/src/filter.ts: the filter tree, its limits, the fields that it reads, and
-- its evaluation on a record in memory.
mod Logic
pub mod Reads
pub mod Unknown
pub mod Limits
mod Tests
pub use Logic.{both, either, negation}
use Prim.Native.String.{String}
use salesmaker.Base.{
  ℕ, suc, ◌+◌, max, Bool, true, false, not, ◌&&◌, ◌||◌, Option, none, some, List, [], ◌∷◌, ◌++◌,
  ltb, if◌then◌else◌, any, includes,
}
use salesmaker.Base.Text.{Text, text_eq, codes, begins_with, occurs_in, text_lt}

-- JavaScript's numbers and the built-in functions that a comparison uses: `===`, `<` and `<=` on
-- numbers, `Number(text)`, `new Date(text).getTime()`, `String(number)` and `toLowerCase`.
pub record Numbers : Type 1 where
  pub Num : Type 0
  pub num_eq : Num → Num → Bool
  pub num_lt : Num → Num → Bool
  pub num_le : Num → Num → Bool
  pub num_of_bool : Bool → Num
  pub num_of_text : Text → Num
  pub time_of_text : Text → Num
  pub text_of_num : Num → Text
  pub lower : Text → Text

pub data Comparison : Type 0 where
  eq ne lt lte gt gte : Comparison

pub data TextOp : Type 0 where
  contains starts_with : TextOp

module _ (js : Numbers) where
  pub data Scalar : Type 0 where
    text : Text → Scalar
    number : js.Num → Scalar
    boolean : Bool → Scalar

  -- A value of a record; a date by its milliseconds.
  pub data Value : Type 0 where
    scalar : Scalar → Value
    date : js.Num → Value
    null undefined : Value

  mutual
    pub data FilterNode : Type 0 where
      compare : String → Comparison → Scalar → FilterNode
      matches : String → TextOp → Text → FilterNode
      is_in not_in : String → List Scalar → FilterNode
      is_null is_not_null : String → FilterNode
      and or : FilterNodes → FilterNode
      complement : FilterNode → FilterNode

    pub data FilterNodes : Type 0 where
      nil : FilterNodes
      cons : FilterNode → FilterNodes → FilterNodes

-- `{ depth, conditions }`.
pub record Measure : Type 0 where
  pub depth : ℕ
  pub conditions : ℕ

-- The distinct elements, in order of their first place: `[...new Set(xs)]`.
unfoldable pub distinct_from : List String → List String → List String
distinct_from seen [] = []
distinct_from seen (x ∷ xs) =
    let rest = distinct_from (x ∷ seen) xs in
    let skipped = distinct_from seen xs in if includes seen x then skipped else x ∷ rest

abbrev pub distinct : List String → List String
distinct xs = distinct_from [] xs

abbrev pub max_depth : ℕ
max_depth = 8

abbrev pub max_conditions : ℕ
max_conditions = 100

abbrev pub match_with : (Text → Text) → TextOp → Text → Text → Bool
match_with lower contains l v = occurs_in (lower l) (lower v)
match_with lower starts_with l v = begins_with (lower l) (lower v)

module _ {js : Numbers} where
  unfoldable mutual
    pub measure : FilterNode js → ℕ → Measure
    measure (and ns) depth = measure_all ns depth (record { depth = depth; conditions = 0 })
    measure (or ns) depth = measure_all ns depth (record { depth = depth; conditions = 0 })
    measure (complement n) depth = measure n (suc depth)
    measure _ depth = record { depth = depth; conditions = 1 }

    -- The `reduce` over the children, from the accumulator `acc`.
    pub measure_all : FilterNodes js → ℕ → Measure → Measure
    measure_all nil depth acc = acc
    measure_all (cons n ns) depth acc =
        let m = measure n (suc depth) in
        measure_all ns depth
          (record { depth = max acc.depth m.depth; conditions = acc.conditions + m.conditions })

  unfoldable mutual
    pub filter_fields : FilterNode js → List String
    filter_fields (and ns) = distinct (all_fields ns)
    filter_fields (or ns) = distinct (all_fields ns)
    filter_fields (complement n) = filter_fields n
    filter_fields (compare f o v) = f ∷ []
    filter_fields (matches f o v) = f ∷ []
    filter_fields (is_in f vs) = f ∷ []
    filter_fields (not_in f vs) = f ∷ []
    filter_fields (is_null f) = f ∷ []
    filter_fields (is_not_null f) = f ∷ []

    pub all_fields : FilterNodes js → List String
    all_fields nil = []
    all_fields (cons n ns) = filter_fields n ++ all_fields ns

  -- The numbers that JavaScript compares where the two sides are not both texts.
  abbrev pub num_of : Scalar js → js.Num
  num_of (text t) = js.num_of_text t
  num_of (number n) = n
  num_of (boolean b) = js.num_of_bool b

  abbrev pub strict_eq : Scalar js → Scalar js → Bool
  strict_eq (text a) (text b) = text_eq a b
  strict_eq (number a) (number b) = js.num_eq a b
  strict_eq (boolean true) (boolean b) = b
  strict_eq (boolean false) (boolean b) = not b
  strict_eq a b = false

  abbrev pub less : Scalar js → Scalar js → Bool
  less (text a) (text b) = text_lt a b
  less a b = js.num_lt (num_of a) (num_of b)

  abbrev pub less_equal : Scalar js → Scalar js → Bool
  less_equal (text a) (text b) = not (text_lt b a)
  less_equal a b = js.num_le (num_of a) (num_of b)

  abbrev pub string_of : Scalar js → Text
  string_of (text t) = t
  string_of (number n) = js.text_of_num n
  string_of (boolean true) = codes "true"
  string_of (boolean false) = codes "false"

  -- A stored date as its number of milliseconds; `none` is null.
  abbrev pub comparable : Value js → Option (Scalar js)
  comparable (scalar v) = some v
  comparable (date d) = some (number d)
  comparable null = none
  comparable undefined = none

  abbrev pub to_comparable : Scalar js → Value js → Scalar js
  to_comparable (text t) (date d) = number (js.time_of_text t)
  to_comparable v like = v

  abbrev pub compare_with : Comparison → Scalar js → Scalar js → Bool
  compare_with eq l r = strict_eq l r
  compare_with ne l r = not (strict_eq l r)
  compare_with lt l r = less l r
  compare_with lte l r = less_equal l r
  compare_with gt l r = less r l
  compare_with gte l r = less_equal r l

  -- A condition on a value that is null is unknown, `none`.
  abbrev pub known_value : Option (Scalar js) → (Scalar js → Bool) → Option Bool
  known_value none test = none
  known_value (some l) test = some (test l)

  abbrev pub is_nothing : Value js → Bool
  is_nothing null = true
  is_nothing undefined = true
  is_nothing _ = false

  unfoldable mutual
    pub evaluate : FilterNode js → (String → Value js) → Option Bool
    evaluate (and ns) record' = both (evaluate_all ns record')
    evaluate (or ns) record' = either (evaluate_all ns record')
    evaluate (complement n) record' = negation (evaluate n record')
    evaluate (is_null f) record' = some (is_nothing (record' f))
    evaluate (is_not_null f) record' = some (not (is_nothing (record' f)))
    evaluate (is_in f vs) record' =
        known_value (comparable (record' f))
          (λ l. any (λ v. strict_eq (to_comparable v (record' f)) l) vs)
    evaluate (not_in f vs) record' =
        known_value (comparable (record' f))
          (λ l. not (any (λ v. strict_eq (to_comparable v (record' f)) l) vs))
    evaluate (matches f o v) record' =
        known_value (comparable (record' f)) (λ l. match_with js.lower o (string_of l) v)
    evaluate (compare f o v) record' =
        known_value (comparable (record' f)) (λ l. compare_with o l (to_comparable v (record' f)))

    pub evaluate_all : FilterNodes js → (String → Value js) → List (Option Bool)
    evaluate_all nil record' = []
    evaluate_all (cons n ns) record' = evaluate n record' ∷ evaluate_all ns record'

  unfoldable pub evaluate_filter : FilterNode js → (String → Value js) → Bool
  evaluate_filter n record' = elim (evaluate n record') [ some true ↦ true | _ ↦ false ]

-- `parseFilter` behind its schema, which is the library zod's: `none` where it throws.
unfoldable pub limited : {js : Numbers} → FilterNode js → Option (FilterNode js)
limited n =
    let m = measure n 1 in
    if ltb max_depth m.depth then none else if ltb max_conditions m.conditions then none else some n
