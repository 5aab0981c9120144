-- ===== src/Assignment/Fair.antt =====
-- Fairness of the methods of packages/records/src/assignment.ts: turns, and load.
use Prim.Native.String.{String}
use mathlib.Core.List.{Memᴰ}
use salesmaker.Base.{
  ℕ, ◌≤◌, ◌≡◌, refl, subst, Bool, true, false, ◌&&◌, Option, none, some, List, [], ◌∷◌, ◌++◌, arith,
  Bool-cases, inl, inr, All,
}
use salesmaker.Calendar.{Clock}
use salesmaker.Assignment.{Batch, count_of}
use salesmaker.Assignment.Pick.{
  Reason, Choice, Runtime, least_from, least_of, keep, is_available, has_all, is_eligible, loaded,
  load_less, pick_loaded,
}
use salesmaker.Assignment.Turn.{IsChosen, least_of-IsChosen}

module _ {ℓ} {A : Type ℓ} (p : A → Bool) (measure : A → ℕ) where
  -- Everything in the list that passes the test measures at least so much.
  abbrev pub AtLeast : ℕ → List A → Type 0
  AtLeast n xs = All (λ x. p x ≡ true → n ≤ measure x) xs

  AtLeast-le : (m n : ℕ) (xs : List A) → m ≤ n → AtLeast n xs → AtLeast m xs
  AtLeast-le m n [] h k = tt
  AtLeast-le m n (x ∷ xs) h k = (λ e. omega (arith, h, k.0 e), AtLeast-le m n xs h k.1)

  module _ (less : A → A → Bool) (below : (a b : A) → less b a ≡ true → measure b ≤ measure a)
      (above : (a b : A) → less b a ≡ false → measure a ≤ measure b) where
    Bounds : A → List A → A → Type 0
    Bounds a xs v = (measure v ≤ measure a) × AtLeast (measure v) xs

    -- The least of those kept, from `a` on.
    abbrev least_kept : A → List A → A
    least_kept a xs = least_from less a (keep p xs)

    skipped_step : (a x : A) (xs : List A) → p x ≡ false → least_kept a xs ≡ least_kept a (x ∷ xs)
    unfolding keep
    skipped_step a x xs e = rw e refl

    lower_step :
        (a x : A) (xs : List A)
        → p x ≡ true
        → less x a ≡ true
        → least_kept x xs ≡ least_kept a (x ∷ xs)
    unfolding keep least_from
    lower_step a x xs e l = rw e (rw (l, least_from) refl)

    higher_step :
        (a x : A) (xs : List A)
        → p x ≡ true
        → less x a ≡ false
        → least_kept a xs ≡ least_kept a (x ∷ xs)
    unfolding keep least_from
    higher_step a x xs e l = rw e (rw (l, least_from) refl)

    -- It is at most `a`, and at most each of the rest.
    least_kept-Bounds : (a : A) (xs : List A) → Bounds a xs (least_kept a xs)
    unfolding Bounds keep least_from
    least_kept-Bounds a [] = (omega arith, tt)
    least_kept-Bounds a (x ∷ xs) = elim (Bool-cases (p x)) [
      | inr e ↦
          let r : Bounds a xs (least_kept a xs) = least_kept-Bounds a xs in
          subst (Bounds a (x ∷ xs)) (skipped_step a x xs e) (r.0, ((λ f. absurd cc), r.1))
      | inl e ↦ elim (Bool-cases (less x a)) [
        | inl l ↦
            let r : Bounds x xs (least_kept x xs) = least_kept-Bounds x xs in
            subst (Bounds a (x ∷ xs)) (lower_step a x xs e l)
              (omega (arith, r.0, below a x l), ((λ f. r.0), r.1))
        | inr l ↦
            let r : Bounds a xs (least_kept a xs) = least_kept-Bounds a xs in
            subst (Bounds a (x ∷ xs)) (higher_step a x xs e l)
              (r.0, ((λ f. omega (arith, r.0, above a x l)), r.1))
      ]
    ]

    pub IsLeast : Option A → List A → Type 0
    IsLeast none xs = Unit
    IsLeast (some a) xs = AtLeast (measure a) xs

    skipped_least :
        (x : A) (xs : List A)
        → p x ≡ false
        → least_of less (keep p xs) ≡ least_of less (keep p (x ∷ xs))
    unfolding keep
    skipped_least x xs e = rw e refl

    taken_least :
        (x : A) (xs : List A)
        → p x ≡ true
        → some (least_kept x xs) ≡ least_of less (keep p (x ∷ xs))
    unfolding keep
    taken_least x xs e = rw e refl

    one_more :
        (o : Option A) (x : A) (xs : List A) → p x ≡ false → IsLeast o xs → IsLeast o (x ∷ xs)
    unfolding IsLeast
    one_more none x xs e h = tt
    one_more (some a) x xs e h = ((λ f. absurd cc), h)

    -- The least of those that pass the test is at most each of them.
    pub least_of-IsLeast : (xs : List A) → IsLeast (least_of less (keep p xs)) xs
    unfolding IsLeast Bounds keep
    least_of-IsLeast [] = tt
    least_of-IsLeast (x ∷ xs) = elim (Bool-cases (p x)) [
      | inr e ↦
          subst (λ o. IsLeast o (x ∷ xs)) (skipped_least x xs e)
            (one_more _ x xs e (least_of-IsLeast xs))
      | inl e ↦
          let r : Bounds x xs (least_kept x xs) = least_kept-Bounds x xs in
          subst (λ o. IsLeast o (x ∷ xs)) (taken_least x xs e) ((λ f. r.0), r.1)
    ]

module _ (clock : Clock) (now : ℕ) (runtime : Runtime) where
  -- The round, as far as it went: the choice is the first who is available, or nobody is.
  abbrev pub IsNext : Batch → List String → Option Choice → Type 0
  IsNext batch ids none = All (λ id. is_available clock now runtime batch id ≡ false) ids
  IsNext batch ids (some c) =
      (before : List String) × (after : List String) × (ids ≡ before ++ c.id ∷ after)
      × All (λ id. is_available clock now runtime batch id ≡ false) before
      × (is_available clock now runtime batch c.id ≡ true)

  -- The user chosen is one of the pool who may be chosen, with no more open records than anyone in the
  -- pool who may be; nobody is chosen only where nobody may be.
  abbrev pub IsLeastLoaded : Batch → List String → List String → Option Choice → Type 0
  IsLeastLoaded batch required ids none =
      All (λ id. is_eligible clock now runtime batch required id ≡ false) ids
  IsLeastLoaded batch required ids (some c) =
      Memᴰ c.id ids
      × (has_all clock now runtime batch required c.id ≡ true)
      × (is_available clock now runtime batch c.id ≡ true)
      × AtLeast (is_eligible clock now runtime batch required) (count_of batch.open_count)
          (count_of batch.open_count c.id) ids

  load_less-le :
      (batch : Batch) (a b : String)
      → load_less clock now runtime batch b a ≡ true
      → count_of batch.open_count b ≤ count_of batch.open_count a
  load_less-le batch a b h = ground arith

  load_less-ge :
      (batch : Batch) (a b : String)
      → load_less clock now runtime batch b a ≡ false
      → count_of batch.open_count a ≤ count_of batch.open_count b
  load_less-ge batch a b h = ground arith

  first_true : (a b : Bool) → (a && b) ≡ true → a ≡ true
  first_true a b h = ground arith

  second_true : (a b : Bool) → (a && b) ≡ true → b ≡ true
  second_true a b h = ground arith

  loaded-IsLeastLoaded :
      (batch : Batch) (reason : Reason) (required ids : List String) (o : Option String)
      → IsLeast
          (is_eligible clock now runtime batch required)
          (count_of batch.open_count)
          (load_less clock now runtime batch)
          (load_less-le batch)
          (load_less-ge batch)
          o
          ids
      → IsChosen
          (is_eligible clock now runtime batch required)
          (load_less clock now runtime batch)
          o
          ids
      → IsLeastLoaded batch required ids (loaded clock now runtime reason o)
  unfolding IsLeast
  loaded-IsLeastLoaded batch reason required ids none h c = c
  loaded-IsLeastLoaded batch reason required ids (some id) h c = (
    c.0,
    first_true (has_all clock now runtime batch required id)
        (is_available clock now runtime batch id) c.1,
    second_true (has_all clock now runtime batch required id)
        (is_available clock now runtime batch id) c.1,
    h,
  )

  -- LOAD_BALANCED and SKILLS_BASED choose a user of the pool who has the required skills and is
  -- available, and who has no more open records than any other of the pool with the skills who is
  -- available; they choose nobody only where nobody in the pool has the skills and is available.
  pub pick_loaded-IsLeastLoaded :
      (batch : Batch) (reason : Reason) (required ids : List String)
      → IsLeastLoaded batch required ids (pick_loaded clock now runtime batch reason required ids).0
  unfolding pick_loaded
  pick_loaded-IsLeastLoaded batch reason required ids =
      loaded-IsLeastLoaded batch reason required ids _
        (least_of-IsLeast (is_eligible clock now runtime batch required) (count_of batch.open_count)
          (load_less clock now runtime batch) (load_less-le batch) (load_less-ge batch) ids)
        (least_of-IsChosen (is_eligible clock now runtime batch required)
          (load_less clock now runtime batch) ids)
