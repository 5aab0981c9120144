-- ===== src/Formula/Check/Results.antt =====
-- The type of a call, for every function of the table `FUNCTIONS` of packages/formula/src/check.ts.
use salesmaker.Base.{
  ℕ, Bool, true, false, ◌&&◌, ◌||◌, Option, none, some, List, [], ◌∷◌, get_elem?, drop,
}
use salesmaker.Formula.Syntax.{
  FormulaType, Operator, or_or, and_and, equal, not_equal, less, less_equal, greater, greater_equal,
  concat, text_type, number_type, boolean_type, date_type, date_time_type, null_type,
}
use salesmaker.Formula.Types.{type_eq, one_of, is_numeric, LiteralValue, TypedNode, type_of}
use salesmaker.Formula.Check.Operators.{
  numbers, tabled, equal_classes, ordered_classes, in_one_class,
}
use salesmaker.Formula.Functions.{
  Function, if_fn, case_fn, blank_value, is_changed, prior_value, text_fn, value_fn, len, left_fn,
  right_fn, mid, upper, lower, trim, substitute, round, floor, ceiling, abs, min_fn, max_fn, mod_fn,
  today, now, date, date_value, year, month, day, weekday, add_months, date_diff, business_days,
}

-- Whether a branch of type `a` may give the result of a call of type `t`: it is null, of the same type, or
-- both are numbers.
abbrev pub widens : FormulaType → FormulaType → Bool
widens a t = type_eq a null_type || type_eq a t || (one_of a numbers && one_of t numbers)

abbrev pub all_widen : List TypedNode → FormulaType → Bool
all_widen [] t = true
all_widen (n ∷ ns) t = widens (type_of n) t && all_widen ns t

abbrev pub some_widens : Option TypedNode → FormulaType → Bool
some_widens none t = false
some_widens (some n) t = widens (type_of n) t

abbrev pub widens_at : List TypedNode → ℕ → FormulaType → Bool
widens_at ns i t = some_widens (get_elem? ns i) t

-- The results of CASE, after its subject: every second argument, and the last.
abbrev pub results_widen : List TypedNode → FormulaType → Bool
results_widen [] t = true
results_widen (n ∷ []) t = widens (type_of n) t
results_widen (v ∷ n ∷ ns) t = widens (type_of n) t && results_widen ns t

-- The first argument is a field whose type passes a test.
abbrev pub field_first : List TypedNode → (FormulaType → Bool) → Bool
field_first (TypedNode.field t path s ∷ ns) p = p t
field_first _ p = false

-- Null or a number.
abbrev pub numeric_or_null : FormulaType → Bool
numeric_or_null t = type_eq t null_type || is_numeric t

-- The functions whose type is the same at every call.
abbrev pub fixed_type : Function → FormulaType
fixed_type text_fn = text_type
fixed_type left_fn = text_type
fixed_type right_fn = text_type
fixed_type mid = text_type
fixed_type upper = text_type
fixed_type lower = text_type
fixed_type trim = text_type
fixed_type substitute = text_type
fixed_type value_fn = number_type
fixed_type len = number_type
fixed_type floor = number_type
fixed_type ceiling = number_type
fixed_type mod_fn = number_type
fixed_type year = number_type
fixed_type month = number_type
fixed_type day = number_type
fixed_type weekday = number_type
fixed_type date_diff = number_type
fixed_type business_days = number_type
fixed_type today = date_type
fixed_type date = date_type
fixed_type date_value = date_type
fixed_type now = date_time_type
fixed_type _ = boolean_type

-- Whether `t` is a type of a call: the fixed type of the function; for the functions that choose
-- among their arguments, one that those widen to.
unfoldable pub gives : Function → List TypedNode → FormulaType → Bool
gives if_fn ns t = widens_at ns 1 t && widens_at ns 2 t
gives case_fn ns t = results_widen (drop 1 ns) t
gives blank_value ns t = widens_at ns 0 t && widens_at ns 1 t
gives is_changed ns t = field_first ns (λ u. true) && type_eq t boolean_type
gives prior_value ns t = field_first ns (λ u. type_eq u t)
gives round ns t = is_numeric t
gives abs ns t = is_numeric t
gives min_fn ns t = is_numeric t
gives max_fn ns t = is_numeric t
gives add_months ns t = widens_at ns 0 t && (type_eq t date_type || type_eq t date_time_type)
gives f ns t = type_eq t (fixed_type f)

-- A type, or null.
abbrev pub or_null : FormulaType → FormulaType → Bool
or_null u t = type_eq t u || type_eq t null_type

abbrev pub both_are : FormulaType → FormulaType → FormulaType → Bool
both_are u a b = or_null u a && or_null u b

abbrev pub some_type : Option FormulaType → FormulaType → Bool
some_type none t = false
some_type (some u) t = type_eq u t

-- Whether an operator may stand between sides of the types `a` and `b`, with the type `t`.
unfoldable pub operates : Operator → FormulaType → FormulaType → FormulaType → Bool
operates and_and a b t = both_are boolean_type a b && type_eq t boolean_type
operates or_or a b t = both_are boolean_type a b && type_eq t boolean_type
operates concat a b t = both_are text_type a b && type_eq t text_type
operates equal a b t = in_one_class equal_classes a b && type_eq t boolean_type
operates not_equal a b t = in_one_class equal_classes a b && type_eq t boolean_type
operates less a b t = in_one_class ordered_classes a b && type_eq t boolean_type
operates less_equal a b t = in_one_class ordered_classes a b && type_eq t boolean_type
operates greater a b t = in_one_class ordered_classes a b && type_eq t boolean_type
operates greater_equal a b t = in_one_class ordered_classes a b && type_eq t boolean_type
operates o a b t = some_type (tabled o a b) t

-- Whether a literal has the type `t`; a number is kept as its text.
abbrev pub literal_is : FormulaType → LiteralValue → Bool
literal_is t (LiteralValue.text v) = type_eq t text_type || type_eq t number_type
literal_is t (LiteralValue.boolean b) = type_eq t boolean_type
literal_is t LiteralValue.null = type_eq t null_type
