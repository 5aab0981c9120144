-- ===== src/Calendar/Due.antt =====
-- The due time that `addBusinessMinutes` computes, against the open time between two instants.
use salesmaker.Base.{
  ℕ, zero, suc, ◌+◌, ◌-◌, ◌*◌, ◌≤◌, ◌<◌, max, ◌≡◌, refl, sym, ap, ◌∙◌, Bool, true, false, ◌&&◌,
  ◌||◌, Option, none, some, List, [], ◌∷◌, ◌++◌, ltb, leb, leb→le, ◌==◌, any, arith, Bool-cases,
  inl, inr,
}
use salesmaker.Calendar.{
  LocalDate, Calendar, Clock, minute, max_days, open_intervals, Walk, found, left, walk, open_time,
  after_day, walk_days, add_business_minutes,
}

-- The intervals of `n` days, in one list.
unfoldable pub timeline : Clock → Calendar → ℕ → LocalDate → List (ℕ × ℕ)
timeline clock calendar zero date = []
timeline clock calendar (suc n) date =
    open_intervals clock date calendar ++ timeline clock calendar n (clock.next_date date)

-- Intervals that are not empty, in order, none before `t`.
unfoldable pub IsAfter : ℕ → List (ℕ × ℕ) → Type 0
IsAfter t [] = Unit
IsAfter t ((a, b) ∷ rest) = (t ≤ a) × (a < b) × IsAfter b rest

abbrev pub is_within : ℕ → List (ℕ × ℕ) → Bool
is_within t = any (λ i. leb i.0 t && ltb t i.1)

open_time-IsAfter : (s t p : ℕ) (xs : List (ℕ × ℕ)) → IsAfter p xs → t ≤ p → open_time s t xs ≡ 0
unfolding open_time IsAfter
open_time-IsAfter s t p [] h k = refl
open_time-IsAfter s t p ((a, b) ∷ xs) (h, o, rest) k =
    omega (arith, open_time-IsAfter s t b xs rest (omega arith))

is_within-IsAfter : (t p : ℕ) (xs : List (ℕ × ℕ)) → IsAfter p xs → is_within t xs ≡ true → p ≤ t
unfolding IsAfter
is_within-IsAfter t p [] h e = absurd (ground arith)
is_within-IsAfter t p ((a, b) ∷ xs) (h, o, rest) e = ground (arith, is_within-IsAfter t b xs rest)

-- What the walk finds: an open instant at which the open time since `s` is what was asked for.
abbrev pub Due : ℕ → ℕ → List (ℕ × ℕ) → Walk → Type 0
Due s r xs w = (t : ℕ) × (w ≡ found t) × (s ≤ t) × (is_within t xs ≡ true) × (open_time s t xs ≡ r)

module _ (s r a b : ℕ) (xs : List (ℕ × ℕ)) (o : a < b) where
  Due-skipped :
      leb b s ≡ true → Due s r xs (walk s r xs) → Due s r ((a, b) ∷ xs) (walk s r ((a, b) ∷ xs))
  unfolding walk open_time
  Due-skipped before (t, w, l, i, q) =
      (t, rw before w, l, ground (arith, i), omega (arith, q, leb→le b s before))

  Due-here :
      leb b s ≡ false
      → (r == 0 || ltb (r + max a s) b) ≡ true
      → IsAfter b xs
      → Due s r ((a, b) ∷ xs) (walk s r ((a, b) ∷ xs))
  unfolding walk open_time
  Due-here after here rest = (
    max a s + r,
    rw (after, here) refl,
    omega arith,
    ground arith,
    ground (arith, open_time-IsAfter s (max a s + r) b xs rest),
  )

  Due-later :
      leb b s ≡ false
      → (r == 0 || ltb (r + max a s) b) ≡ false
      → IsAfter b xs
      → Due s (r + max a s - b) xs (walk s (r + max a s - b) xs)
      → Due s r ((a, b) ∷ xs) (walk s r ((a, b) ∷ xs))
  unfolding walk open_time
  Due-later after later rest (t, w, l, i, q) = (
    t,
    rw (after, later) w,
    l,
    ground (arith, i),
    ground (arith, q, is_within-IsAfter t b xs rest i),
  )

walk-Due :
    (s e p r : ℕ) (xs : List (ℕ × ℕ))
    → IsAfter p xs
    → r < open_time s e xs
    → Due s r xs (walk s r xs)
unfolding open_time IsAfter
walk-Due s e p r [] h k = absurd (omega arith)
walk-Due s e p r ((a, b) ∷ xs) (h, o, rest) k = elim (Bool-cases (leb b s)) [
  | inl before ↦
      Due-skipped s r a b xs o before (walk-Due s e b r xs rest (omega (arith, leb→le b s before)))
  | inr after ↦ elim (Bool-cases (r == 0 || ltb (r + max a s) b)) [
    | inl here ↦ Due-here s r a b xs o after here rest
    | inr later ↦
        Due-later s r a b xs o after later rest
          (walk-Due s e b (r + max a s - b) xs rest (ground (arith, later, after)))
  ]
]

-- A walk over two lists is a walk over the first, and where this finds nothing over the second.
abbrev then_walk : ℕ → List (ℕ × ℕ) → Walk → Walk
then_walk s ys (found t) = found t
then_walk s ys (left r) = walk s r ys

walk-append : (s r : ℕ) (xs ys : List (ℕ × ℕ)) → walk s r (xs ++ ys) ≡ then_walk s ys (walk s r xs)
unfolding walk
walk-append s r [] ys = refl
walk-append s r ((a, b) ∷ xs) ys = elim (Bool-cases (leb b s)) [
  | inl before ↦ rw before (walk-append s r xs ys)
  | inr after ↦ elim (Bool-cases (r == 0 || ltb (r + max a s) b)) [
    | inl here ↦ rw (after, here) refl
    | inr later ↦ rw (after, later) (walk-append s (r + max a s - b) xs ys)
  ]
]

abbrev answer : Walk → Option ℕ
answer (found t) = some t
answer (left r) = none

module _ (clock : Clock) (calendar : Calendar) where
  after_day-answer :
      (s n : ℕ) (d : LocalDate) (w : Walk)
      → ((r : ℕ)
          → walk_days clock calendar n s d r ≡ answer (walk s r (timeline clock calendar n d)))
      → after_day (walk_days clock calendar n s d) w
        ≡ answer (then_walk s (timeline clock calendar n d) w)
  after_day-answer s n d (found t) h = refl
  after_day-answer s n d (left r) h = h r

  walk_days-timeline :
      (n s r : ℕ) (d : LocalDate)
      → walk_days clock calendar n s d r ≡ answer (walk s r (timeline clock calendar n d))
  unfolding walk_days timeline walk
  walk_days-timeline zero s r d = refl
  walk_days-timeline (suc n) s r d =
      after_day-answer s n (clock.next_date d) _
        (λ r'. walk_days-timeline n s r' (clock.next_date d))
      ∙ ap answer (sym (walk-append s r (open_intervals clock d calendar) _))

  -- The days that `addBusinessMinutes` looks at.
  abbrev pub horizon : ℕ → List (ℕ × ℕ)
  horizon start =
      timeline clock calendar max_days
        (clock.previous_date (clock.local_date start calendar.timezone))

  -- Where the intervals of the days that it looks at are in order and not empty, and there is an end
  -- before which they are open for more than `minutes` after `start`, `addBusinessMinutes` gives an
  -- instant, not before `start` and inside an interval, such that the intervals are open for exactly
  -- `minutes` between `start` and it.
  pub add_business_minutes-open_time :
      (start minutes end : ℕ)
      → IsAfter 0 (horizon start)
      → minutes * minute < open_time start end (horizon start)
      → (t : ℕ) × (add_business_minutes clock calendar start minutes ≡ some t)
        × (start ≤ t)
        × (is_within t (horizon start) ≡ true)
        × (open_time start t (horizon start) ≡ minutes * minute)
  unfolding add_business_minutes
  add_business_minutes-open_time start minutes end h k =
      let (t, w, l, i, q) = walk-Due start end 0 (minutes * minute) (horizon start) h k in
      (t, walk_days-timeline max_days start (minutes * minute) _ ∙ ap answer w, l, i, q)
