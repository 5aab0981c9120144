-- ===== src/Base/Text.antt =====
-- JavaScript strings, as the lists of their UTF-16 code units.
use Prim.Native.Char.{code}
use Prim.Native.Nat.{ℕ}
use Prim.Native.String.{String}
use mathlib.Core.Path.{◌≡◌, refl}
use mathlib.Core.Logic.{◌↔◌}
use mathlib.Core.Bool.{Bool, true, false, ◌&&◌, ◌||◌}
use mathlib.Core.List.{List, [], ◌∷◌}
use native.Mathlib.Omega.{arith}
use salesmaker.Base.Tests.{◌==◌, ltb}

abbrev pub Text : Type 0
Text = List ℕ

-- The code units of a literal, all of which are ASCII here.
abbrev pub codes : String → Text
codes String.[] = []
codes (String.◌∷◌ c s) = code c ∷ codes s

unfoldable pub text_eq : Text → Text → Bool
text_eq [] [] = true
text_eq (a ∷ s) (b ∷ t) = (a == b) && text_eq s t
text_eq _ _ = false

pub text_eq_iff : (s t : Text) → (text_eq s t ≡ true) ↔ (s ≡ t)
unfolding text_eq
text_eq_iff [] [] = (λ _. refl, λ _. refl)
text_eq_iff [] (b ∷ t) = ((λ h. cc), (λ h. cc))
text_eq_iff (a ∷ s) [] = ((λ h. cc), (λ h. cc))
text_eq_iff (a ∷ s) (b ∷ t) = ground (arith, text_eq_iff s t)

-- `startsWith` and `includes` on texts.
abbrev pub begins_with : Text → Text → Bool
begins_with t [] = true
begins_with [] (c ∷ cs) = false
begins_with (d ∷ ds) (c ∷ cs) = text_eq (d ∷ []) (c ∷ []) && begins_with ds cs

abbrev pub occurs_in : Text → Text → Bool
occurs_in [] s = begins_with [] s
occurs_in (d ∷ ds) s = begins_with (d ∷ ds) s || occurs_in ds s

-- `<` on texts, by code units.
abbrev pub text_lt : Text → Text → Bool
text_lt t [] = false
text_lt [] (c ∷ cs) = true
text_lt (d ∷ ds) (c ∷ cs) = ltb d c || (text_eq (d ∷ []) (c ∷ []) && text_lt ds cs)
