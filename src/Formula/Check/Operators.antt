-- ===== src/Formula/Check/Operators.antt =====
-- The rules of the language of packages/formula for operators, as tables of types that stand on their own,
-- and the checker's arithmetic against them.
use salesmaker.Base.{
  ◌≡◌, refl, Bool, true, false, ◌&&◌, ◌||◌, Option, none, some, List, [], ◌∷◌, ◌++◌, any,
}
use salesmaker.Formula.Syntax.{
  Operator, plus, minus, times, divide, power, bang, FormulaType, text_type, number_type,
  currency_type, percent_type, boolean_type, date_type, date_time_type, time_type, null_type,
}
use salesmaker.Formula.Types.{type_eq, one_of}
use salesmaker.Formula.Rules.{arithmetic, comparable, ordered, compatible}
use salesmaker.Formula.Tables.{implies, every_type, every_two, every_two_sound, type_eq_sound}

abbrev pub numbers : List FormulaType
numbers = number_type ∷ currency_type ∷ percent_type ∷ []

abbrev plain_numbers : List FormulaType
plain_numbers = number_type ∷ percent_type ∷ []

-- One line of a table: a side of the one list, a side of the other, and the type of the result.
pub record Line : Type 0 where
  pub lefts : List FormulaType
  pub rights : List FormulaType
  pub result : FormulaType

abbrev line : List FormulaType → List FormulaType → FormulaType → Line
line ls rs t = record { lefts = ls; rights = rs; result = t }

-- Null beside each of the types.
abbrev beside_null : List FormulaType → List Line
beside_null [] = []
beside_null (t ∷ ts) =
    line (null_type ∷ []) (t ∷ []) t ∷ line (t ∷ []) (null_type ∷ []) t ∷ beside_null ts

abbrev nullable : List Line
nullable = beside_null (null_type ∷ date_type ∷ date_time_type ∷ numbers)

-- An amount of money with any number is money.
abbrev with_money : List Line
with_money =
    line plain_numbers plain_numbers number_type
    ∷ line (currency_type ∷ []) numbers currency_type
    ∷ line plain_numbers (currency_type ∷ []) currency_type
    ∷ []

abbrev dates_later : List Line
dates_later =
    line (date_type ∷ []) numbers date_type ∷ line (date_time_type ∷ []) numbers date_time_type ∷ []

-- What may stand beside an arithmetic operator, and what comes of it.
abbrev pub lines_of : Operator → List Line
lines_of plus =
    nullable
    ++ with_money
    ++ dates_later
    ++ beside_null (text_type ∷ [])
    ++ (line (text_type ∷ []) (text_type ∷ []) text_type
        ∷ line numbers (date_type ∷ []) date_type
        ∷ line numbers (date_time_type ∷ []) date_time_type
        ∷ [])
lines_of minus =
    nullable
    ++ with_money
    ++ dates_later
    ++ (line (date_type ∷ []) (date_type ∷ []) number_type
        ∷ line (date_time_type ∷ []) (date_time_type ∷ []) number_type
        ∷ [])
lines_of times = nullable ++ with_money
lines_of divide =
    nullable
    ++ (line (currency_type ∷ []) plain_numbers currency_type
        ∷ line (currency_type ∷ []) (currency_type ∷ []) number_type
        ∷ line plain_numbers numbers number_type
        ∷ [])
lines_of power = nullable ++ (line numbers numbers number_type ∷ [])
lines_of _ = nullable

abbrev pub look_up : List Line → FormulaType → FormulaType → Option FormulaType
look_up [] a b = none
look_up (l ∷ ls) a b = elim (one_of a l.lefts && one_of b l.rights) [
  | true ↦ some l.result
  | false ↦ look_up ls a b
]

-- The type of an arithmetic operator between two types, by the table.
unfoldable pub tabled : Operator → FormulaType → FormulaType → Option FormulaType
tabled o a b = look_up (lines_of o) a b

-- The classes of types that `=` compares, and those that `<` orders; null compares with everything.
abbrev pub equal_classes : List (List FormulaType)
equal_classes =
    numbers
    ∷ (text_type ∷ [])
    ∷ (boolean_type ∷ [])
    ∷ (date_type ∷ [])
    ∷ (date_time_type ∷ [])
    ∷ (time_type ∷ [])
    ∷ []

abbrev pub ordered_classes : List (List FormulaType)
ordered_classes =
    numbers ∷ (text_type ∷ []) ∷ (date_type ∷ []) ∷ (date_time_type ∷ []) ∷ (time_type ∷ []) ∷ []

unfoldable pub in_one_class : List (List FormulaType) → FormulaType → FormulaType → Bool
in_one_class classes a b =
    type_eq a null_type || type_eq b null_type || any (λ c. one_of a c && one_of b c) classes

-- The same type, or none.
same_option : Option FormulaType → Option FormulaType → Bool
same_option none none = true
same_option (some a) (some b) = type_eq a b
same_option _ _ = false

same_option_sound : (o p : Option FormulaType) → same_option o p ≡ true → o ≡ p
unfolding same_option
same_option_sound none none h = refl
same_option_sound (some a) (some b) h = let e : a ≡ b = type_eq_sound a b h in cc
same_option_sound none (some b) h = absurd cc
same_option_sound (some a) none h = absurd cc

abbrev agrees : Operator → Bool
agrees o = every_two (λ a b. same_option (arithmetic o a b) (tabled o a b))

-- The checker's arithmetic is that of the table.
by_table : (o : Operator) → agrees o ≡ true → (a b : FormulaType) → arithmetic o a b ≡ tabled o a b
by_table o h a b =
    same_option_sound (arithmetic o a b) (tabled o a b)
      (every_two_sound (λ a b. same_option (arithmetic o a b) (tabled o a b)) h a b)

abbrev IsArithmetic : Operator → Type 0
IsArithmetic o = (a b : FormulaType) → arithmetic o a b ≡ tabled o a b

pub IsArithmetic-plus : IsArithmetic plus
unfolding every_two every_type same_option arithmetic tabled
IsArithmetic-plus = by_table plus refl

pub IsArithmetic-minus : IsArithmetic minus
unfolding every_two every_type same_option arithmetic tabled
IsArithmetic-minus = by_table minus refl

pub IsArithmetic-times : IsArithmetic times
unfolding every_two every_type same_option arithmetic tabled
IsArithmetic-times = by_table times refl

pub IsArithmetic-divide : IsArithmetic divide
unfolding every_two every_type same_option arithmetic tabled
IsArithmetic-divide = by_table divide refl

pub IsArithmetic-power : IsArithmetic power
unfolding every_two every_type same_option arithmetic tabled
IsArithmetic-power = by_table power refl

pub IsArithmetic-bang : IsArithmetic bang
unfolding every_two every_type same_option arithmetic tabled
IsArithmetic-bang = by_table bang refl

in_class_rule : List FormulaType → List (List FormulaType) → FormulaType → FormulaType → Bool
in_class_rule among classes a b = implies (compatible among a b) (in_one_class classes a b)

implied : (a b : Bool) → implies a b ≡ true → a ≡ true → b ≡ true
implied true b h e = h
implied false b h e = absurd cc

pub compatible-equal :
    (a b : FormulaType) → compatible comparable a b ≡ true → in_one_class equal_classes a b ≡ true
unfolding every_two every_type in_class_rule compatible in_one_class
compatible-equal a b =
    implied (compatible comparable a b) (in_one_class equal_classes a b)
      (every_two_sound (in_class_rule comparable equal_classes) refl a b)

pub compatible-ordered :
    (a b : FormulaType) → compatible ordered a b ≡ true → in_one_class ordered_classes a b ≡ true
unfolding every_two every_type in_class_rule compatible in_one_class
compatible-ordered a b =
    implied (compatible ordered a b) (in_one_class ordered_classes a b)
      (every_two_sound (in_class_rule ordered ordered_classes) refl a b)
