-- ===== src/Assignment/Order.antt =====
-- Who is chosen by the methods of packages/records/src/assignment.ts: somebody, where somebody is
-- available; the next in turn; the one with the fewest open records.
use Prim.Native.String.{String}
use salesmaker.Base.{
  ℕ, zero, suc, ◌≡◌, refl, sym, ◌∙◌, Bool, true, false, ◌||◌, Option, none, some, List, [], ◌∷◌,
  ◌++◌, arith, Bool-cases, inl, inr, any, take, drop, Dictionary,
}
use salesmaker.Calendar.{Clock}
use salesmaker.Assignment.{
  Method, round_robin, weighted, load_balanced, skills_based, sticky_account, queue, specific_user,
  Entry, Batch,
}
use salesmaker.Assignment.Pick.{
  Reason, Decision, Runtime, Row, AccountOwners, rotation, ids_of, start_of, least_of, keep,
  is_available, pick_first, shared, share_less, pick_weighted, is_eligible, loaded, load_less,
  pick_loaded, required_of, pick_by,
}

abbrev pub is_some {ℓ} : {A : Type ℓ} → Option A → Bool
is_some none = false
is_some (some a) = true

-- The methods that go by the pool.
abbrev pub is_pooled : Method → Bool
is_pooled round_robin = true
is_pooled weighted = true
is_pooled load_balanced = true
is_pooled skills_based = true
is_pooled _ = false

abbrev pub is_decided : Option Decision → Bool
is_decided none = false
is_decided (some d) = is_some d.0

module _ {ℓ} {A : Type ℓ} (p : A → Bool) where
  any-append : (xs ys : List A) → any p (xs ++ ys) ≡ (any p xs || any p ys)
  any-append [] ys = refl
  any-append (x ∷ xs) ys = ground (arith, any-append xs ys)

  any-split : (n : ℕ) (xs : List A) → (any p (drop n xs) || any p (take n xs)) ≡ any p xs
  any-split zero [] = refl
  any-split zero (x ∷ xs) = ground arith
  any-split (suc n) [] = refl
  any-split (suc n) (x ∷ xs) = ground (arith, any-split n xs)

  -- Turning a list round loses nobody.
  any-turned : (n : ℕ) (xs : List A) → any p (drop n xs ++ take n xs) ≡ any p xs
  any-turned n xs = any-append (drop n xs) (take n xs) ∙ any-split n xs

  least-is_some :
      (less : A → A → Bool) (xs : List A)
      → any p xs ≡ true
      → is_some (least_of less (keep p xs)) ≡ true
  unfolding keep
  least-is_some less [] h = absurd cc
  least-is_some less (x ∷ xs) h = elim (Bool-cases (p x)) [
    | inl e ↦ rw e refl
    | inr e ↦ rw e (least-is_some less xs (rw e at h))
  ]

any-ids_of :
    (p : String → Bool) (pool : List (String × ℕ)) → any p (ids_of pool) ≡ any (λ q. p q.0) pool
any-ids_of p [] = refl
any-ids_of p (q ∷ pool) = ground (arith, any-ids_of p pool)

module _ (clock : Clock) (now : ℕ) (runtime : Runtime) where
  first-is_some :
      (batch : Batch) (ids : List String)
      → any (is_available clock now runtime batch) ids ≡ true
      → is_some (pick_first clock now runtime batch ids).0 ≡ true
  unfolding pick_first
  first-is_some batch [] h = absurd cc
  first-is_some batch (id ∷ ids) h = elim (Bool-cases (is_available clock now runtime batch id)) [
    | inl e ↦ rw e refl
    | inr e ↦ rw e (first-is_some batch ids (rw e at h))
  ]

  shared-is_some :
      (o : Option (String × ℕ)) → is_some o ≡ true → is_some (shared clock now runtime o) ≡ true
  shared-is_some none h = absurd cc
  shared-is_some (some p) h = refl

  loaded-is_some :
      (reason : Reason) (o : Option String)
      → is_some o ≡ true
      → is_some (loaded clock now runtime reason o) ≡ true
  loaded-is_some reason none h = absurd cc
  loaded-is_some reason (some p) h = refl

  module _ (entry : Entry) (pool : List (String × ℕ)) (owners : AccountOwners) (batch : Batch)
      (counts : Dictionary ℕ) (last : Option String) (row : Row) where
    -- Whom a method that goes by the pool may choose.
    abbrev pub may_take : Method → String → Bool
    may_take skills_based id =
        is_eligible clock now runtime batch (required_of clock now runtime entry row) id
    may_take m id = is_available clock now runtime batch id

    -- Where somebody in the pool is available, and for SKILLS_BASED has the skills, the methods that go
    -- by the pool choose somebody, whoever was the last: the fallback is for an entry whose pool has
    -- nobody left.
    pub pick_by-is_decided :
        (m : Method)
        → is_pooled m ≡ true
        → any (may_take m) (ids_of pool) ≡ true
        → is_decided (pick_by clock now runtime m entry pool owners batch counts last row) ≡ true
    unfolding pick_by rotation pick_weighted pick_loaded
    pick_by-is_decided queue q h = absurd cc
    pick_by-is_decided specific_user q h = absurd cc
    pick_by-is_decided sticky_account q h = absurd cc
    pick_by-is_decided round_robin q h = first-is_some batch (rotation last (ids_of pool)) (
        any-turned (is_available clock now runtime batch) (start_of last (ids_of pool))
          (ids_of pool)
        ∙ h)
    pick_by-is_decided weighted q h = shared-is_some _ (
        least-is_some (λ p. is_available clock now runtime batch p.0)
          (share_less clock now runtime counts) pool
          (sym (any-ids_of (is_available clock now runtime batch) pool) ∙ h))
    pick_by-is_decided load_balanced q h = loaded-is_some _ _ (
        least-is_some (is_eligible clock now runtime batch []) (load_less clock now runtime batch)
          (ids_of pool) h)
    pick_by-is_decided skills_based q h = loaded-is_some _ _ (
        least-is_some
          (is_eligible clock now runtime batch (required_of clock now runtime entry row))
          (load_less clock now runtime batch) (ids_of pool) h)
