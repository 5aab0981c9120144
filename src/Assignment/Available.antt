-- ===== src/Assignment/Available.antt =====
-- Whom the methods of packages/records/src/assignment.ts choose: a user who is available.
use Prim.Native.String.{String}
use salesmaker.Base.{
  ℕ, ◌≡◌, refl, Bool, true, Option, none, some, List, [], ◌∷◌, arith, Bool-cases, inl, inr, all,
  Dictionary,
}
use salesmaker.Calendar.{Clock}
use salesmaker.Assignment.{
  Method, round_robin, weighted, load_balanced, skills_based, sticky_account, queue, specific_user,
  OwnerType, user_owner, queue_owner, Entry, Batch,
}
use salesmaker.Assignment.Pick.{
  Reason, matching_account, named, fewest_open, Choice, Decision, Runtime, Row, AccountOwners,
  least_from, least_of, keep, is_available, pick_one, pick_first, shared, share_less, pick_weighted,
  is_eligible, loaded, load_less, pick_loaded, pick_target, pick_queue, pick_sticky, pick_by,
  sticky_owner,
}

module _ {ℓ} {A : Type ℓ} (p : A → Bool) where
  all-keep : (xs : List A) → all p (keep p xs) ≡ true
  unfolding keep
  all-keep [] = refl
  all-keep (x ∷ xs) = elim (Bool-cases (p x)) [
    | inl e ↦ rw e (let k : all p (keep p xs) ≡ true = all-keep xs in ground arith)
    | inr e ↦ rw e (all-keep xs)
  ]

  -- The least of a list that passes a test passes it.
  least_from-all :
      (less : A → A → Bool) (a : A) (bs : List A)
      → p a ≡ true
      → all p bs ≡ true
      → p (least_from less a bs) ≡ true
  unfolding least_from
  least_from-all less a [] h k = h
  least_from-all less a (b ∷ bs) h k = elim (Bool-cases (less b a)) [
    | inl e ↦ rw e (least_from-all less b bs (ground arith) (ground arith))
    | inr e ↦ rw e (least_from-all less a bs h (ground arith))
  ]

  pub Passes : Option A → Type 0
  Passes none = Unit
  Passes (some a) = p a ≡ true

  least_of-Passes :
      (less : A → A → Bool) (xs : List A) → all p xs ≡ true → Passes (least_of less xs)
  unfolding Passes
  least_of-Passes less [] h = tt
  least_of-Passes less (x ∷ xs) h = least_from-all less x xs (ground arith) (ground arith)

  pub least_of-keep : (less : A → A → Bool) (xs : List A) → Passes (least_of less (keep p xs))
  least_of-keep less xs = least_of-Passes less (keep p xs) (all-keep xs)

module _ (clock : Clock) (now : ℕ) (runtime : Runtime) where
  abbrev pub is_free_owner : Batch → OwnerType → String → Bool
  is_free_owner batch queue_owner id = true
  is_free_owner batch user_owner id = is_available clock now runtime batch id

  -- The choice, where there is one, is a queue or a user who is available.
  abbrev pub IsFree : Batch → Option Choice → Type 0
  IsFree batch none = Unit
  IsFree batch (some c) = is_free_owner batch c.type c.id ≡ true

  pick_one-IsFree :
      (batch : Batch) (reason : Reason) (id : String)
      → IsFree batch (pick_one clock now runtime batch reason id).0
  pick_one-IsFree batch reason id = elim (Bool-cases (is_available clock now runtime batch id)) [
    | inl e ↦ rw e e
    | inr e ↦ rw e tt
  ]

  pick_first-IsFree :
      (batch : Batch) (ids : List String) → IsFree batch (pick_first clock now runtime batch ids).0
  unfolding pick_first
  pick_first-IsFree batch [] = tt
  pick_first-IsFree batch (id ∷ ids) = elim (Bool-cases (is_available clock now runtime batch id)) [
    | inl e ↦ rw e e
    | inr e ↦ rw e (pick_first-IsFree batch ids)
  ]

  shared-IsFree :
      (batch : Batch) (o : Option (String × ℕ))
      → Passes (λ p. is_available clock now runtime batch p.0) o
      → IsFree batch (shared clock now runtime o)
  unfolding Passes
  shared-IsFree batch none h = tt
  shared-IsFree batch (some p) h = h

  loaded-IsFree :
      (batch : Batch) (reason : Reason) (required : List String) (o : Option String)
      → Passes (is_eligible clock now runtime batch required) o
      → IsFree batch (loaded clock now runtime reason o)
  unfolding Passes
  loaded-IsFree batch reason required none h = tt
  loaded-IsFree batch reason required (some id) h = ground arith

  -- Where the entry applies, its decision is free.
  abbrev pub IsFreeDecision : Batch → Option Decision → Type 0
  IsFreeDecision batch none = Unit
  IsFreeDecision batch (some d) = IsFree batch d.0

  pick_target-IsFree :
      (batch : Batch) (target : Option String)
      → IsFree batch (pick_target clock now runtime batch target).0
  pick_target-IsFree batch none = tt
  pick_target-IsFree batch (some id) = pick_one-IsFree batch named id

  pick_queue-IsFree :
      (batch : Batch) (target : Option String)
      → IsFree batch (pick_queue clock now runtime target).0
  pick_queue-IsFree batch none = tt
  pick_queue-IsFree batch (some id) = refl

  pick_sticky-IsFree :
      (batch : Batch) (owner : Option String)
      → IsFreeDecision batch (pick_sticky clock now runtime batch owner)
  pick_sticky-IsFree batch none = tt
  pick_sticky-IsFree batch (some id) = pick_one-IsFree batch matching_account id

  pick_loaded-IsFree :
      (batch : Batch) (reason : Reason) (required ids : List String)
      → IsFree batch (pick_loaded clock now runtime batch reason required ids).0
  unfolding pick_loaded
  pick_loaded-IsFree batch reason required ids = loaded-IsFree batch reason required _ (
      least_of-keep (is_eligible clock now runtime batch required)
        (load_less clock now runtime batch) ids)

  pick_weighted-IsFree :
      (batch : Batch) (counts : Dictionary ℕ) (pool : List (String × ℕ))
      → IsFree batch (pick_weighted clock now runtime batch counts pool).0
  unfolding pick_weighted
  pick_weighted-IsFree batch counts pool = shared-IsFree batch _ (
      least_of-keep (λ p. is_available clock now runtime batch p.0)
        (share_less clock now runtime counts) pool)

  module _ (entry : Entry) (pool : List (String × ℕ)) (owners : AccountOwners) (batch : Batch)
      (counts : Dictionary ℕ) (last : Option String) (row : Row) where
    -- Whatever the method, the user that it chooses is available.
    pub pick_by-IsFree :
        (m : Method)
        → IsFreeDecision batch (pick_by clock now runtime m entry pool owners batch counts last row)
    unfolding pick_by
    pick_by-IsFree queue = pick_queue-IsFree batch entry.target_queue
    pick_by-IsFree specific_user = pick_target-IsFree batch entry.target_user
    pick_by-IsFree sticky_account = pick_sticky-IsFree batch (sticky_owner owners row)
    pick_by-IsFree round_robin = pick_first-IsFree batch _
    pick_by-IsFree weighted = pick_weighted-IsFree batch counts pool
    pick_by-IsFree load_balanced = pick_loaded-IsFree batch fewest_open [] _
    pick_by-IsFree skills_based = pick_loaded-IsFree batch _ _ _
