-- ===== src/Sla/Tests.antt =====
-- The clock of a policy with a warning and a reassignment, in a calendar that is always open.
use Prim.Native.String.{String}
use mathlib.Core.List.{Memᴰ}
use salesmaker.Base.{List, [], ◌∷◌, ◌≡◌, refl, ◌*◌, true, false, none, some, []}
use salesmaker.Calendar.{Calendar, LocalDate, mon, Clock, always_open}
use salesmaker.Sla.{Policy, Timer, first_touch, running}
use salesmaker.Sla.Tick.{no_result, Directory, tick, is_due}
use salesmaker.Sla.Laws.{tick-is_due, tick-twice}
use salesmaker.Sla.Start.{Assigned, new_rows}
use salesmaker.Sla.Started.{IsDue, Starts, new_rows_lem}
use salesmaker.Sla.Life.{Event, Reaches, is_new, is_valid, Reaches-is_valid}

abbrev origin : LocalDate
origin = record { year = 0; month_day = 0 }

-- Every day begins at the same instant.
abbrev clock : Clock
clock = record {
  local_date = λ instant zone. origin;
  zoned_instant = λ date minutes zone. minutes * 60000;
  next_date = λ date. date;
  previous_date = λ date. date;
  weekday_of = λ date. mon;
}

abbrev policy : Policy
policy = record {
  id = "policy";
  metric = first_touch;
  target_minutes = 60;
  owner_timezone = false;
  warn_at_percent = some 50;
  manager_at_percent = none;
  reassign_at_percent = some 150;
  reassign_rule_id = some "rule";
}

abbrev people : Directory
people = record {
  calendar_for = λ policy owner. always_open;
  is_user = λ id. true;
  manager_of = λ id. none;
}

abbrev timer : Timer
timer = record {
  policy = policy;
  object = "lead";
  record_id = "record";
  owner_id = "owner";
  started_at = 0;
  due_at = 3600000;
  status = running;
  steps_done = [];
  next_action_at = some 1800000;
  met_at = none;
  breached_at = none;
  version = 1;
}

tick-is_due_example :
    is_due clock people 1800000 (tick clock people 1800000 timer no_result).0 ≡ false
tick-is_due_example = tick-is_due clock people 1800000 timer no_result

tick-twice_example :
    (tick clock people 1800000 (tick clock people 1800000 timer no_result).0 no_result).1
    ≡ no_result
tick-twice_example = tick-twice clock people 1800000 timer no_result no_result

is_due_now : is_due clock people 1800000 timer ≡ true
unfolding is_due
is_due_now = refl

is_new_now : is_new timer ≡ true
unfolding is_new
is_new_now = refl

Reaches-is_valid_example : is_valid (tick clock people 1800000 timer no_result).0 ≡ true
Reaches-is_valid_example =
    Reaches-is_valid clock people {t = timer}
      (Reaches.after Reaches.start (Event.ticks 1800000 no_result is_due_now)) is_new_now

abbrev assigned : List Assigned
assigned =
    record { record_id = "record"; owner_id = "owner" }
    ∷ record { record_id = "second"; owner_id = "owner" }
    ∷ []

abbrev open_calendar : Policy → String → Calendar
open_calendar p o = always_open

abbrev made : List Timer
made = new_rows clock open_calendar "lead" 0 policy ("record" ∷ "second" ∷ []) (timer ∷ []) assigned

new_rows_lem_example :
    ((t : Timer)
      → Memᴰ t made
      → (a : Assigned) × Memᴰ a assigned
        × IsDue clock open_calendar "lead" 0 policy ("record" ∷ "second" ∷ []) (timer ∷ []) a
        × Starts clock open_calendar "lead" 0 policy a t)
    × ((a : Assigned)
        → Memᴰ a assigned
        → IsDue clock open_calendar "lead" 0 policy ("record" ∷ "second" ∷ []) (timer ∷ []) a
        → (t : Timer) × Memᴰ t made × Starts clock open_calendar "lead" 0 policy a t)
new_rows_lem_example =
    new_rows_lem clock open_calendar "lead" 0 policy ("record" ∷ "second" ∷ []) (timer ∷ [])
      assigned
