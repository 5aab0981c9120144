-- ===== src/Calendar/Tests.antt =====
-- A calendar in which one day of the week is open, for an hour, on a clock with one such day.
use salesmaker.Base.{
  ℕ, ◌≡◌, refl, sym, subst, ◌≤◌, ◌<◌, ◌*◌, ◌==◌, true, some, List, [], ◌∷◌, if◌then◌else◌, arith,
}
use salesmaker.Calendar.{
  Weekday, sun, mon, LocalDate, Calendar, Clock, Interval, minute, open_time, add_business_minutes,
  open_intervals,
}
use salesmaker.Calendar.Due.{timeline, IsAfter, is_within, horizon, add_business_minutes-open_time}

abbrev origin : LocalDate
origin = record { year = 0; month_day = 0 }

-- Day `d` is the date whose year is `d`; day 1 is a Monday, and no other day is.
abbrev clock : Clock
clock = record {
  local_date = λ instant zone. origin;
  zoned_instant = λ date minutes zone. minutes * 60000;
  next_date = λ date. record date { year = 2 };
  previous_date = λ date. record date { year = 1 };
  weekday_of = λ date. if date.year == 1 then mon else sun;
}

abbrev open_on : Weekday → List Interval
open_on mon = (60, 120) ∷ []
open_on day = []

abbrev mondays : Calendar
mondays = record { timezone = "UTC"; hours = some open_on; holidays = [] }

days_open : horizon clock mondays 0 ≡ (3600000, 7200000) ∷ []
unfolding timeline open_intervals
days_open = refl

in_order : IsAfter 0 (horizon clock mondays 0)
unfolding IsAfter
in_order = subst (IsAfter 0) (sym days_open) (omega arith, omega arith, tt)

enough : 30 * minute < open_time 0 7200000 (horizon clock mondays 0)
unfolding open_time
enough = subst (λ xs. 30 * minute < open_time 0 7200000 xs) (sym days_open) (omega arith)

add_business_minutes-open_time_example :
    (t : ℕ) × (add_business_minutes clock mondays 0 30 ≡ some t)
    × (0 ≤ t)
    × (is_within t (horizon clock mondays 0) ≡ true)
    × (open_time 0 t (horizon clock mondays 0) ≡ 30 * minute)
add_business_minutes-open_time_example =
    add_business_minutes-open_time clock mondays 0 30 7200000 in_order enough
