-- ===== src/Formula/Tables.antt =====
-- Statements about the types of packages/formula/src/types.ts, checked at each of them.
use salesmaker.Base.{
  refl, sym, ap, ◌∙◌, some, List, [], ◌∷◌, get_elem?, ◌≡◌, Bool, true, not, ◌&&◌, ◌||◌, arith,
}
use salesmaker.Formula.Types.{type_code, type_eq}
use salesmaker.Formula.Syntax.{
  FormulaType, text_type, number_type, currency_type, percent_type, boolean_type, date_type,
  date_time_type, time_type, picklist_type, multi_picklist_type, null_type,
}

abbrev pub implies : Bool → Bool → Bool
implies a b = not a || b

-- Checking a statement at every type.
unfoldable pub every_type : (FormulaType → Bool) → Bool
every_type p =
    p text_type
    && p number_type
    && p currency_type
    && p percent_type
    && p boolean_type
    && p date_type
    && p date_time_type
    && p time_type
    && p picklist_type
    && p multi_picklist_type
    && p null_type

pub every_type_sound :
    (p : FormulaType → Bool) → every_type p ≡ true → (t : FormulaType) → p t ≡ true
unfolding every_type
every_type_sound p h text_type = ground arith
every_type_sound p h number_type = ground arith
every_type_sound p h currency_type = ground arith
every_type_sound p h percent_type = ground arith
every_type_sound p h boolean_type = ground arith
every_type_sound p h date_type = ground arith
every_type_sound p h date_time_type = ground arith
every_type_sound p h time_type = ground arith
every_type_sound p h picklist_type = ground arith
every_type_sound p h multi_picklist_type = ground arith
every_type_sound p h null_type = ground arith

-- At every two of them.
unfoldable pub every_two : (FormulaType → FormulaType → Bool) → Bool
every_two p = every_type (λ a. every_type (λ b. p a b))

pub every_two_sound :
    (p : FormulaType → FormulaType → Bool) → every_two p ≡ true → (a b : FormulaType) → p a b ≡ true
unfolding every_two
every_two_sound p h a b =
    every_type_sound (λ b. p a b) (every_type_sound (λ a. every_type (λ b. p a b)) h a) b

all_types : List FormulaType
all_types =
    text_type ∷ number_type ∷ currency_type ∷ percent_type ∷ boolean_type ∷ date_type
    ∷ date_time_type ∷ time_type ∷ picklist_type ∷ multi_picklist_type ∷ null_type ∷ []

type_of_code : (t : FormulaType) → get_elem? all_types (type_code t) ≡ some t
unfolding all_types
type_of_code text_type = refl
type_of_code number_type = refl
type_of_code currency_type = refl
type_of_code percent_type = refl
type_of_code boolean_type = refl
type_of_code date_type = refl
type_of_code date_time_type = refl
type_of_code time_type = refl
type_of_code picklist_type = refl
type_of_code multi_picklist_type = refl
type_of_code null_type = refl

-- `===` on types is equality.
pub type_eq_sound : (t u : FormulaType) → type_eq t u ≡ true → t ≡ u
type_eq_sound t u h =
    let same : type_code t ≡ type_code u = ground arith in
    let found : some t ≡ some u =
      sym (type_of_code t) ∙ ap (get_elem? all_types) same ∙ type_of_code u in
    cc
