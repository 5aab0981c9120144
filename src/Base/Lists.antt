-- ===== src/Base/Lists.antt =====
-- Lists measured by native numbers, and dictionaries as association lists.
use Prim.Native.Nat.{ℕ, zero, suc, ◌+◌}
use Prim.Native.String.{String}
use mathlib.Core.Path.{◌≡◌, refl}
use mathlib.Core.Bool.{Bool, true, false, ◌&&◌, ◌||◌}
use mathlib.Core.List.{List, [], ◌∷◌, ◌++◌}
use mathlib.Core.Option.{Option, none, some}
use native.Mathlib.Omega.{arith}
use text.Mathlib.Text.{◌==◌ as str_eq}
use text.Mathlib.TextEquality.{eq_iff}
use salesmaker.Base.Tests.{if◌then◌else◌}

module _ {ℓ} {A : Type ℓ} where
  abbrev pub length : List A → ℕ
  length [] = 0
  length (x ∷ xs) = suc (length xs)

  abbrev pub get_elem? : List A → ℕ → Option A
  get_elem? [] i = none
  get_elem? (x ∷ xs) zero = some x
  get_elem? (x ∷ xs) (suc i) = get_elem? xs i

  abbrev pub take : ℕ → List A → List A
  take zero xs = []
  take (suc n) [] = []
  take (suc n) (x ∷ xs) = x ∷ take n xs

  abbrev pub drop : ℕ → List A → List A
  drop zero xs = xs
  drop (suc n) [] = []
  drop (suc n) (x ∷ xs) = drop n xs

  abbrev pub all : (A → Bool) → List A → Bool
  all p [] = true
  all p (x ∷ xs) = p x && all p xs

  abbrev pub any : (A → Bool) → List A → Bool
  any p [] = false
  any p (x ∷ xs) = p x || any p xs

  pub length-append : (xs ys : List A) → length (xs ++ ys) ≡ length xs + length ys
  length-append [] ys = omega arith
  length-append (x ∷ xs) ys = omega (arith, length-append xs ys)

module _ {ℓ κ} {A : Type ℓ} (P : A → Type κ) where
  abbrev pub All : List A → Type κ
  All [] = Unit
  All (x ∷ xs) = P x × All xs

-- `includes` on an array of strings, and `has` on a set of them.
abbrev pub includes : List String → String → Bool
includes [] k = false
includes (x ∷ xs) k = str_eq x k || includes xs k

-- A JavaScript object used as a dictionary: writing a key, and reading one.
abbrev pub Dictionary {ℓ} : Type ℓ → Type ℓ
Dictionary A = List (String × A)

unfoldable pub insert {ℓ} : {A : Type ℓ} → String → A → Dictionary A → Dictionary A
insert key a [] = (key, a) ∷ []
insert key a ((old, b) ∷ entries) =
    if str_eq old key then (key, a) ∷ entries else (old, b) ∷ insert key a entries

unfoldable pub lookup {ℓ} : {A : Type ℓ} → String → Dictionary A → Option A
lookup key [] = none
lookup key ((old, b) ∷ entries) = if str_eq old key then some b else lookup key entries

pub lookup-insert {ℓ} :
    {A : Type ℓ} (key asked : String) (a : A) (entries : Dictionary A)
    → lookup asked (insert key a entries)
      ≡ (if str_eq key asked then some a else lookup asked entries)
unfolding lookup insert
lookup-insert key asked a [] = refl
lookup-insert key asked a ((old, b) ∷ entries) =
    ground
      (arith, eq_iff key asked, eq_iff old key, eq_iff old asked, lookup-insert key asked a entries)
