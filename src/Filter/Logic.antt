-- ===== src/Filter/Logic.antt =====
-- The three values of SQL's logic: true, false, and `none` for unknown.
use salesmaker.Base.{Bool, true, false, not, Option, none, some, List, any, if◌then◌else◌}

abbrev pub is_false : Option Bool → Bool
is_false (some false) = true
is_false _ = false

abbrev pub is_true : Option Bool → Bool
is_true (some true) = true
is_true _ = false

abbrev pub is_unknown : Option Bool → Bool
is_unknown none = true
is_unknown _ = false

abbrev pub both : List (Option Bool) → Option Bool
both results =
    if any is_false results then some false else if any is_unknown results then none else some true

abbrev pub either : List (Option Bool) → Option Bool
either results =
    if any is_true results then some true else if any is_unknown results then none else some false

abbrev pub negation : Option Bool → Option Bool
negation none = none
negation (some b) = some (not b)
