-- ===== src/Formula/Check/Parameters.antt =====
-- The rules of the language of packages/formula for the arguments of its functions, as a table that stands
-- on its own.
use salesmaker.Base.{Bool, true, false, not, ◌&&◌, ◌||◌, List, [], ◌∷◌, ◌==◌, ◌%◌, length}
use salesmaker.Formula.Syntax.{
  FormulaType, text_type, boolean_type, date_type, date_time_type, picklist_type,
  multi_picklist_type, null_type,
}
use salesmaker.Formula.Types.{type_eq, one_of, TypedNode, literal, field, type_of}
use salesmaker.Formula.Functions.{
  Function, if_fn, case_fn, and_fn, or_fn, not_fn, is_changed, prior_value, is_pick_val,
  includes_fn, text_fn, value_fn, len, left_fn, right_fn, mid, contains, begins, upper, lower, trim,
  substitute, regex, round, floor, ceiling, abs, min_fn, max_fn, mod_fn, date, date_value, year,
  month, day, weekday, add_months, date_diff, business_days,
}
use salesmaker.Formula.Check.Operators.{numbers}

-- What may stand as an argument: anything; null or one of some types; exactly one type; anything but one
-- type; a field; a text literal.
pub data Parameter : Type 0 where
  anything a_field a_literal : Parameter
  among : List FormulaType → Parameter
  exactly but_not : FormulaType → Parameter

abbrev pub is_field : TypedNode → Bool
is_field (field t path s) = true
is_field _ = false

abbrev pub is_text_literal : TypedNode → Bool
is_text_literal (literal text_type v s) = true
is_text_literal _ = false

abbrev pub stands : Parameter → TypedNode → Bool
stands anything n = true
stands a_field n = is_field n
stands a_literal n = is_text_literal n
stands (among ts) n = type_eq (type_of n) null_type || one_of (type_of n) ts
stands (exactly t) n = type_eq (type_of n) t
stands (but_not t) n = not (type_eq (type_of n) t)

-- The first parameters, and the one for all arguments behind them.
pub record Parameters : Type 0 where
  pub first : List Parameter
  pub rest : Parameter

abbrev pub all_stand : List Parameter → Parameter → List TypedNode → Bool
all_stand first rest [] = true
all_stand [] rest (n ∷ ns) = stands rest n && all_stand [] rest ns
all_stand (p ∷ ps) rest (n ∷ ns) = stands p n && all_stand ps rest ns

abbrev pub a_text : Parameter
a_text = among (text_type ∷ [])

abbrev pub a_number : Parameter
a_number = among numbers

abbrev pub a_truth : Parameter
a_truth = among (boolean_type ∷ [])

abbrev pub a_date : Parameter
a_date = among (date_type ∷ [])

abbrev pub a_day : Parameter
a_day = among (date_type ∷ date_time_type ∷ [])

abbrev each : Parameter → Parameters
each p = record { first = []; rest = p }

abbrev these : List Parameter → Parameters
these ps = record { first = ps; rest = anything }

abbrev text_and : List Parameter → Parameters
text_and ps = record { first = a_text ∷ ps; rest = a_text }

abbrev pub parameters_of : Function → Parameters
parameters_of if_fn = these (a_truth ∷ [])
parameters_of and_fn = each a_truth
parameters_of or_fn = each a_truth
parameters_of not_fn = each a_truth
parameters_of is_changed = these (a_field ∷ [])
parameters_of prior_value = these (a_field ∷ [])
parameters_of is_pick_val = these (exactly picklist_type ∷ a_literal ∷ [])
parameters_of includes_fn = these (exactly multi_picklist_type ∷ a_literal ∷ [])
parameters_of text_fn = these (but_not multi_picklist_type ∷ [])
parameters_of value_fn = each a_text
parameters_of len = text_and []
parameters_of left_fn = text_and (a_number ∷ [])
parameters_of right_fn = text_and (a_number ∷ [])
parameters_of mid = text_and (a_number ∷ a_number ∷ [])
parameters_of contains = text_and []
parameters_of begins = text_and []
parameters_of upper = text_and []
parameters_of lower = text_and []
parameters_of trim = text_and []
parameters_of substitute = text_and []
parameters_of regex = these (a_text ∷ a_literal ∷ [])
parameters_of round = these (a_number ∷ a_number ∷ [])
parameters_of floor = each a_number
parameters_of ceiling = each a_number
parameters_of abs = these (a_number ∷ [])
parameters_of min_fn = each a_number
parameters_of max_fn = each a_number
parameters_of mod_fn = each a_number
parameters_of date = each a_number
parameters_of date_value = each (among (text_type ∷ date_time_type ∷ date_type ∷ []))
parameters_of year = each a_date
parameters_of month = each a_date
parameters_of day = each a_date
parameters_of weekday = each a_date
parameters_of add_months = these (a_day ∷ a_number ∷ [])
parameters_of date_diff = each a_day
parameters_of business_days = each a_date
parameters_of _ = each anything

-- One type, or both numbers, or null at one side.
abbrev pub meet : FormulaType → FormulaType → Bool
meet a b =
    type_eq a null_type
    || type_eq b null_type
    || type_eq a b
    || (one_of a numbers && one_of b numbers)

-- CASE: its subject, pairs of a value and a result, and a last result. Each value meets the subject, and a
-- picklist meets texts.
abbrev pub subject_type : FormulaType → FormulaType
subject_type picklist_type = text_type
subject_type t = t

abbrev pub values_meet : FormulaType → List TypedNode → Bool
values_meet t [] = true
values_meet t (last ∷ []) = true
values_meet t (value ∷ result ∷ rest) = meet t (type_of value) && values_meet t rest

abbrev pub case_stands : List TypedNode → Bool
case_stands [] = false
case_stands (subject ∷ rest) =
    (length rest % 2 == 1) && values_meet (subject_type (type_of subject)) rest

-- Whether a function may be called with these arguments.
unfoldable pub accepts : Function → List TypedNode → Bool
accepts case_fn ns = case_stands ns
accepts f ns = all_stand (parameters_of f).first (parameters_of f).rest ns
