-- ===== src/Formula/Functions.antt =====
-- packages/formula/src/check.ts, the table `FUNCTIONS`: which functions there are, how many
-- arguments they take, and which need a pending write.
use salesmaker.Base.{
  ℕ, Bool, true, false, Option, none, some, List, [], ◌∷◌, ◌&&◌, leb, if◌then◌else◌,
}
use salesmaker.Base.Text.{Text, codes, text_eq}

pub data Function : Type 0 where
  if_fn case_fn and_fn or_fn not_fn is_blank blank_value is_changed prior_value is_new : Function
  is_pick_val includes_fn text_fn value_fn len left_fn right_fn mid contains begins : Function
  upper lower trim substitute regex round floor ceiling abs min_fn max_fn mod_fn : Function
  today now date date_value year month day weekday add_months date_diff business_days : Function

abbrev pub function_names : List (Text × Function)
function_names =
    (codes "IF", if_fn)
    ∷ (codes "CASE", case_fn)
    ∷ (codes "AND", and_fn)
    ∷ (codes "OR", or_fn)
    ∷ (codes "NOT", not_fn)
    ∷ (codes "ISBLANK", is_blank)
    ∷ (codes "BLANKVALUE", blank_value)
    ∷ (codes "ISCHANGED", is_changed)
    ∷ (codes "PRIORVALUE", prior_value)
    ∷ (codes "ISNEW", is_new)
    ∷ (codes "ISPICKVAL", is_pick_val)
    ∷ (codes "INCLUDES", includes_fn)
    ∷ (codes "TEXT", text_fn)
    ∷ (codes "VALUE", value_fn)
    ∷ (codes "LEN", len)
    ∷ (codes "LEFT", left_fn)
    ∷ (codes "RIGHT", right_fn)
    ∷ (codes "MID", mid)
    ∷ (codes "CONTAINS", contains)
    ∷ (codes "BEGINS", begins)
    ∷ (codes "UPPER", upper)
    ∷ (codes "LOWER", lower)
    ∷ (codes "TRIM", trim)
    ∷ (codes "SUBSTITUTE", substitute)
    ∷ (codes "REGEX", regex)
    ∷ (codes "ROUND", round)
    ∷ (codes "FLOOR", floor)
    ∷ (codes "CEILING", ceiling)
    ∷ (codes "ABS", abs)
    ∷ (codes "MIN", min_fn)
    ∷ (codes "MAX", max_fn)
    ∷ (codes "MOD", mod_fn)
    ∷ (codes "TODAY", today)
    ∷ (codes "NOW", now)
    ∷ (codes "DATE", date)
    ∷ (codes "DATEVALUE", date_value)
    ∷ (codes "YEAR", year)
    ∷ (codes "MONTH", month)
    ∷ (codes "DAY", day)
    ∷ (codes "WEEKDAY", weekday)
    ∷ (codes "ADDMONTHS", add_months)
    ∷ (codes "DATEDIFF", date_diff)
    ∷ (codes "BUSINESSDAYS", business_days)
    ∷ []

find_function : List (Text × Function) → Text → Option Function
find_function [] name = none
find_function ((n, f) ∷ table) name =
    let later = find_function table name in if text_eq n name then some f else later

-- `FUNCTIONS[name]`
unfoldable pub function_of : Text → Option Function
unfolding find_function text_eq
function_of name = find_function function_names name

-- `arity`: the least number of arguments, and the greatest where there is one.
unfoldable pub arity : Function → ℕ × Option ℕ
arity if_fn = (3, some 3)
arity case_fn = (4, none)
arity and_fn = (1, none)
arity or_fn = (1, none)
arity not_fn = (1, some 1)
arity is_blank = (1, some 1)
arity blank_value = (2, some 2)
arity is_changed = (1, some 1)
arity prior_value = (1, some 1)
arity is_new = (0, some 0)
arity is_pick_val = (2, some 2)
arity includes_fn = (2, some 2)
arity text_fn = (1, some 1)
arity value_fn = (1, some 1)
arity len = (1, some 1)
arity left_fn = (2, some 2)
arity right_fn = (2, some 2)
arity mid = (3, some 3)
arity contains = (2, some 2)
arity begins = (2, some 2)
arity upper = (1, some 1)
arity lower = (1, some 1)
arity trim = (1, some 1)
arity substitute = (3, some 3)
arity regex = (2, some 2)
arity round = (2, some 2)
arity floor = (1, some 1)
arity ceiling = (1, some 1)
arity abs = (1, some 1)
arity min_fn = (1, none)
arity max_fn = (1, none)
arity mod_fn = (2, some 2)
arity today = (0, some 0)
arity now = (0, some 0)
arity date = (3, some 3)
arity date_value = (1, some 1)
arity year = (1, some 1)
arity month = (1, some 1)
arity day = (1, some 1)
arity weekday = (1, some 1)
arity add_months = (2, some 2)
arity date_diff = (2, some 2)
arity business_days = (2, some 2)

abbrev pub at_most : ℕ → Option ℕ → Bool
at_most n none = true
at_most n (some max) = leb n max

-- Neither too few arguments nor too many.
unfoldable pub takes : Function → ℕ → Bool
unfolding arity
takes f n = leb (arity f).0 n && at_most n (arity f).1

-- `prior`
unfoldable pub needs_prior : Function → Bool
needs_prior is_changed = true
needs_prior prior_value = true
needs_prior is_new = true
needs_prior _ = false
