-- ===== src/Calendar.antt =====
-- packages/records/src/calendar.ts: open hours, holidays and business time. An instant is its number
-- of milliseconds. The conversions between local dates and instants, which stand on the runtime's
-- Intl and Date, are parameters.
pub mod Due
mod Tests
use Prim.Native.String.{String}
use salesmaker.Base.{
  ℕ, zero, suc, ◌+◌, ◌-◌, ◌*◌, ◌/◌, min, max, Bool, true, false, ◌&&◌, ◌||◌, Option, none, some,
  List, [], ◌∷◌, map, ltb, leb, ◌==◌, if◌then◌else◌, any, length,
}

pub data Weekday : Type 0 where
  sun mon tue wed thu fri sat : Weekday

-- A local date, `YYYY-MM-DD`: its year and its `MM-DD`, which a recurring holiday has.
pub record LocalDate : Type 0 where
  pub year : ℕ
  pub month_day : ℕ

pub record Holiday : Type 0 where
  pub date : LocalDate
  pub recurring : Bool

-- An interval of minutes since local midnight, `HH:MM` read by `toMinutes`; `24:00` is 1440.
abbrev pub Interval : Type 0
Interval = ℕ × ℕ

-- `hours` is `none` for a calendar that is open around the clock.
pub record Calendar : Type 0 where
  pub timezone : String
  pub hours : Option (Weekday → List Interval)
  pub holidays : List Holiday

unfoldable pub always_open : Calendar
always_open = record { timezone = "UTC"; hours = none; holidays = [] }

abbrev pub minute : ℕ
minute = 60000

abbrev pub day_minutes : ℕ
day_minutes = 1440

abbrev pub max_days : ℕ
max_days = 1098

-- The zone's clock: `localParts(...).date`, `zonedInstant`, `nextDate` and `weekdayOf`.
pub record Clock : Type 0 where
  pub local_date : ℕ → String → LocalDate
  pub zoned_instant : LocalDate → ℕ → String → ℕ
  pub next_date : LocalDate → LocalDate
  pub previous_date : LocalDate → LocalDate
  pub weekday_of : LocalDate → Weekday

unfoldable pub is_holiday : LocalDate → List Holiday → Bool
is_holiday date holidays =
    any
      (λ h.
        (h.date.year == date.year && h.date.month_day == date.month_day)
        || (h.recurring && h.date.month_day == date.month_day))
      holidays

-- `sort` by the start of the interval; it is stable.
unfoldable pub insert_sorted : Interval → List Interval → List Interval
insert_sorted i [] = i ∷ []
insert_sorted i (j ∷ js) = if ltb i.0 j.0 then i ∷ j ∷ js else j ∷ insert_sorted i js

unfoldable pub sort_from : List Interval → List Interval → List Interval
sort_from done [] = done
sort_from done (i ∷ js) = sort_from (insert_sorted i done) js

abbrev pub hours_of : Option (Weekday → List Interval) → Weekday → List Interval
hours_of none day = (0, day_minutes) ∷ []
hours_of (some hours) day = hours day

module _ (clock : Clock) where
  -- The interval's instants; the end `24:00` is the start of the next date.
  unfoldable pub instants : Calendar → LocalDate → Interval → ℕ × ℕ
  instants calendar date (from, to) = (
    clock.zoned_instant date from calendar.timezone,
    if to == day_minutes
        then clock.zoned_instant (clock.next_date date) 0 calendar.timezone
        else clock.zoned_instant date to calendar.timezone,
  )

  unfoldable pub open_intervals : LocalDate → Calendar → List (ℕ × ℕ)
  unfolding instants sort_from insert_sorted is_holiday
  open_intervals date calendar =
      if is_holiday date calendar.holidays
      then []
      else map (instants calendar date)
          (sort_from [] (hours_of calendar.hours (clock.weekday_of date)))

  unfoldable pub is_open : ℕ → Calendar → Bool
  unfolding open_intervals
  is_open instant calendar =
      any (λ i. leb i.0 instant && ltb instant i.1)
        (open_intervals (clock.local_date instant calendar.timezone) calendar)

-- The inner loop of `addBusinessMinutes`: the instant that it returns, or what remains. `to` may lie
-- before `begin`, and then `remaining` grows.
pub data Walk : Type 0 where
  found left : ℕ → Walk

unfoldable pub walk : ℕ → ℕ → List (ℕ × ℕ) → Walk
walk start remaining [] = left remaining
walk start remaining ((from, to) ∷ rest) =
    let begin = max from start in
    let skipped = walk start remaining rest in
    let later = walk start (remaining + begin - to) rest in
    if leb to start
    then skipped
    else if remaining == 0 || ltb (remaining + begin) to
    then found (begin + remaining)
    else later

-- The inner loop of `businessMinutesBetween`.
unfoldable pub open_time : ℕ → ℕ → List (ℕ × ℕ) → ℕ
open_time from to [] = 0
open_time from to ((a, b) ∷ rest) = (min b to - max a from) + open_time from to rest

abbrev pub after_day : (ℕ → Option ℕ) → Walk → Option ℕ
after_day next (found t) = some t
after_day next (left remaining) = next remaining

module _ (clock : Clock) (calendar : Calendar) where
  -- The outer loop, `n` days from `date` on.
  unfoldable pub walk_days : ℕ → ℕ → LocalDate → ℕ → Option ℕ
  walk_days zero start date remaining = none
  walk_days (suc n) start date remaining =
      after_day (walk_days n start (clock.next_date date))
        (walk start remaining (open_intervals clock date calendar))

  unfoldable pub add_business_minutes : ℕ → ℕ → Option ℕ
  add_business_minutes start minutes =
      walk_days max_days start (clock.previous_date (clock.local_date start calendar.timezone))
        (minutes * minute)

-- `a <= b` on dates as texts, whose order is that of the dates.
abbrev pub date_le : LocalDate → LocalDate → Bool
date_le a b = ltb a.year b.year || (a.year == b.year && leb a.month_day b.month_day)

pub data Minutes : Type 0 where
  ahead behind : ℕ → Minutes

module _ (clock : Clock) (calendar : Calendar) where
  -- The outer loop of `businessMinutesBetween`.
  unfoldable pub total_time : ℕ → ℕ → ℕ → LocalDate → LocalDate → ℕ
  total_time zero from to date last = 0
  total_time (suc n) from to date last =
      let rest = total_time n from to (clock.next_date date) last in
      if date_le date last then open_time from to (open_intervals clock date calendar) + rest else 0

  -- `Math.round` of the total in minutes.
  abbrev pub minutes_from : ℕ → ℕ → ℕ
  minutes_from from to =
      (2
          * total_time max_days from to
              (clock.previous_date (clock.local_date from calendar.timezone))
              (clock.local_date to calendar.timezone)
        + minute)
      / (2 * minute)

  unfoldable pub business_minutes_between : ℕ → ℕ → Minutes
  business_minutes_between from to =
      if ltb to from then behind (minutes_from to from) else ahead (minutes_from from to)
