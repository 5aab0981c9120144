-- ===== src/Assignment/Turn.antt =====
-- The order in which ROUND_ROBIN of packages/records/src/assignment.ts goes through a pool, and what its
-- sorts choose from.
use Prim.Native.String.{String}
use mathlib.Core.List.{Memᴰ}
use salesmaker.Base.{
  ℕ, suc, ◌+◌, ◌≡◌, refl, sym, ap, ◌∙◌, subst, Bool, true, false, ◌⊎◌, Option, none, some, List, [],
  ◌∷◌, ◌++◌, arith, Bool-cases, inl, inr, All, take, drop, length, if◌then◌else◌,
}
use salesmaker.Base.Text.{codes, text_lt}
use salesmaker.Assignment.Pick.{rotation, start_after, least_from, least_of, keep}

-- Whether the id `u` is behind the id `last`, by their code units.
abbrev pub is_behind : String → String → Bool
is_behind last u = text_lt (codes last) (codes u)

abbrev pub BeginsBehind : String → List String → Type 0
BeginsBehind last [] = Unit
BeginsBehind last (u ∷ us) = is_behind last u ≡ true

-- The order of a round: with nobody last, the pool; else the pool is cut before the first id behind the
-- last one, and the round begins with what is behind the cut.
abbrev pub IsRound : Option String → List String → List String → Type 0
IsRound none ids round = round ≡ ids
IsRound (some last) ids round =
    (front : List String) × (back : List String) × (ids ≡ front ++ back)
    × (round ≡ back ++ front)
    × All (λ u. is_behind last u ≡ false) front
    × BeginsBehind last back

module _ {ℓ} {A : Type ℓ} where
  nothing_after : (xs : List A) → xs ++ [] ≡ xs
  nothing_after [] = refl
  nothing_after (x ∷ xs) = ap (λ ys. x ∷ ys) (nothing_after xs)

  cut : (xs ys : List A) → (drop (length xs) (xs ++ ys) ≡ ys) × (take (length xs) (xs ++ ys) ≡ xs)
  cut [] ys = (refl, refl)
  cut (x ∷ xs) ys = let r = cut xs ys in (r.0, ap (λ zs. x ∷ zs) r.1)

-- Nobody is behind, and the search gives nought; or it gives where the first one is.
Found : String → List String → ℕ → ℕ → Type 0
Found last us i n =
    ((n ≡ 0) × All (λ u. is_behind last u ≡ false) us)
    ⊎ ((front : List String) × (back : List String) × (us ≡ front ++ back)
        × (n ≡ i + length front)
        × All (λ u. is_behind last u ≡ false) front
        × BeginsBehind last back)

further :
    (last u : String) (us : List String) (i n : ℕ)
    → is_behind last u ≡ false
    → Found last us (suc i) n
    → Found last (u ∷ us) i n
unfolding Found
further last u us i n e (inl (z, h)) = inl (z, (e, h))
further last u us i n e (inr (front, back, same, at, h, b)) =
    inr (u ∷ front, back, ap (λ xs. u ∷ xs) same, omega (arith, at), (e, h), b)

Found-step :
    (last u : String) (us : List String) (i n : ℕ) (b : Bool)
    → is_behind last u ≡ b
    → Found last us (suc i) n
    → Found last (u ∷ us) i (if b then i else n)
unfolding Found
Found-step last u us i n true e h = inr ([], u ∷ us, refl, omega arith, tt, e)
Found-step last u us i n false e h = further last u us i n e h

start_after-Found :
    (last : String) (us : List String) (i : ℕ) → Found last us i (start_after last us i)
unfolding Found start_after
start_after-Found last [] i = inl (refl, tt)
start_after-Found last (u ∷ us) i =
    Found-step last u us i (start_after last us (suc i)) (is_behind last u) refl
      (start_after-Found last us (suc i))

IsRound-from :
    (last : String) (ids : List String) (n : ℕ)
    → Found last ids 0 n
    → IsRound (some last) ids (drop n ids ++ take n ids)
unfolding Found
IsRound-from last ids n (inl (z, h)) = (
  ids,
  [],
  sym (nothing_after ids),
  ap (λ k. drop k ids ++ take k ids) z ∙ nothing_after ids,
  h,
  tt,
)
IsRound-from last ids n (inr (front, back, same, at, h, b)) =
    let here : n ≡ length front = omega (arith, at) in
    (
      front,
      back,
      same,
      (λ i. drop (here i) (same i) ++ take (here i) (same i))
          ∙ (λ i. (cut front back).0 i ++ (cut front back).1 i),
      h,
      b,
    )

pub rotation-IsRound :
    (last : Option String) (ids : List String) → IsRound last ids (rotation last ids)
unfolding rotation
rotation-IsRound none ids = nothing_after ids
rotation-IsRound (some last) ids =
    IsRound-from last ids (start_after last ids 0) (start_after-Found last ids 0)

-- The least of those kept is one of the list that passes the test; with none, nobody passes.
module _ {A : Type 0} (p : A → Bool) (less : A → A → Bool) where
  abbrev pub IsChosen : Option A → List A → Type 0
  IsChosen none xs = All (λ x. p x ≡ false) xs
  IsChosen (some v) xs = Memᴰ v xs × (p v ≡ true)

  least_from-Mem : (a : A) (xs : List A) → Memᴰ (least_from less a xs) (a ∷ xs)
  unfolding least_from
  least_from-Mem a [] = Memᴰ.head refl
  least_from-Mem a (b ∷ xs) = elim (Bool-cases (less b a)) [
    | inl e ↦ rw e (Memᴰ.tail (least_from-Mem b xs))
    | inr e ↦ rw e (skip (least_from-Mem a xs))
  ]
    where
      skip : {v : A} → Memᴰ v (a ∷ xs) → Memᴰ v (a ∷ b ∷ xs)
      skip (Memᴰ.head h) = Memᴰ.head h
      skip (Memᴰ.tail m) = Memᴰ.tail (Memᴰ.tail m)

  passed :
      (v x : A) (xs : List A)
      → (Memᴰ v (keep p xs) → Memᴰ v xs × (p v ≡ true))
      → p x ≡ true
      → Memᴰ v (x ∷ keep p xs)
      → Memᴰ v (x ∷ xs) × (p v ≡ true)
  passed v x xs h e (Memᴰ.head k) = (Memᴰ.head k, ap p k ∙ e)
  passed v x xs h e (Memᴰ.tail m) = let r = h m in (Memᴰ.tail r.0, r.1)

  keep-Mem : (v : A) (xs : List A) → Memᴰ v (keep p xs) → Memᴰ v xs × (p v ≡ true)
  unfolding keep
  keep-Mem v [] m = elim m [ ]
  keep-Mem v (x ∷ xs) m = elim (Bool-cases (p x)) [
    | inl e ↦ passed v x xs (keep-Mem v xs) e (rw e at m)
    | inr e ↦ let r = keep-Mem v xs (rw e at m) in (Memᴰ.tail r.0, r.1)
  ]

  keep-nobody : (xs : List A) → keep p xs ≡ [] → All (λ x. p x ≡ false) xs
  unfolding keep
  keep-nobody [] h = tt
  keep-nobody (x ∷ xs) h = elim (Bool-cases (p x)) [
    | inl e ↦ let clash : x ∷ keep p xs ≡ [] = rw e at h in absurd cc
    | inr e ↦ (e, keep-nobody xs (rw e at h))
  ]

  chosen : (xs kept : List A) → keep p xs ≡ kept → IsChosen (least_of less kept) xs
  chosen xs [] e = keep-nobody xs e
  chosen xs (k ∷ ks) e =
      keep-Mem (least_from less k ks) xs
        (subst (λ l. Memᴰ (least_from less k ks) l) (sym e) (least_from-Mem k ks))

  pub least_of-IsChosen : (xs : List A) → IsChosen (least_of less (keep p xs)) xs
  least_of-IsChosen xs = chosen xs (keep p xs) refl
