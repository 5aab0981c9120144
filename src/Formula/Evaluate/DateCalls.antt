-- ===== src/Formula/Evaluate/DateCalls.antt =====
-- packages/formula/src/evaluate.ts, `call`: the functions on numbers and on dates.
use salesmaker.Base.{ℕ, Bool, ◌&&◌, Option, none, some, List, ◌++◌, if◌then◌else◌, take, drop}
use salesmaker.Base.Text.{Text, codes}
use salesmaker.Formula.Syntax.{Span, ErrorCode, Result, ok, fail, ◌>>=◌}
use salesmaker.Formula.Runtime.{Decimals, Host}
use salesmaker.Formula.Values.{Value, null, text, number, instant, str, or_thrown, iso_text}
use salesmaker.Formula.Evaluate.Texts.{is_date_text}
use salesmaker.Formula.Evaluate.Dates.{
  DateParts, date_parts, to_date, date_ms, days_in_month, add_months_to, day_ms, business_days_of,
}

module _ {dec : Decimals} (host : Host dec) where
  -- The case ROUND.
  unfoldable pub round_to : Option dec.Decimal → Option dec.Decimal → Result (Value dec host)
  round_to (some n) (some digits) =
      let d = host.of_decimal (dec.floor digits) in
      let factor = dec.pow (dec.of_nat 10) (host.to_decimal (host.negate d)) in
      let right : Result (Value dec host) = (do r ← or_thrown (host.places n d); ok (number r)) in
      let left : Result (Value dec host) = (do
        r ← or_thrown (host.places (dec.div n factor) (host.number 0))
        ok (number (dec.times r factor))) in
      if host.le (host.number 0) d then right else left
  round_to _ _ = ok null

  -- FLOOR, CEILING and ABS.
  abbrev pub on_number : (dec.Decimal → dec.Decimal) → Option dec.Decimal → Value dec host
  on_number f none = null
  on_number f (some d) = number (f d)

  -- MIN and MAX.
  abbrev pub extreme : (List dec.Decimal → dec.Decimal) → Option (List dec.Decimal) → Value dec host
  extreme f none = null
  extreme f (some ds) = number (f ds)

  -- The case MOD.
  unfoldable pub mod_of : Option dec.Decimal → Option dec.Decimal → Span → Result (Value dec host)
  mod_of (some a) (some b) span =
      if dec.is_zero b then fail ErrorCode.division_by_zero span else ok (number (dec.modulo a b))
  mod_of _ _ span = ok null

  abbrev between : ℕ → ℕ → host.Number → Bool
  between low high x = host.le (host.number low) x && host.le x (host.number high)

  abbrev is_day_of : host.Number → host.Number → host.Number → Bool
  is_day_of y m d = host.le (host.number 1) d && host.le d (days_in_month host y m)

  abbrev pub checked_date : Bool → DateParts host → Span → Result (Value dec host)
  checked_date good parts span =
      let made : Result (Value dec host) = (do t ← to_date host parts; ok (text t)) in
      if good then made else fail ErrorCode.invalid_date span

  abbrev is_calendar_date : host.Number → host.Number → host.Number → Bool
  is_calendar_date y m d =
      host.is_integer y
      && host.is_integer m
      && host.is_integer d
      && between 1 9999 y
      && between 1 12 m
      && is_day_of y m d

  -- The case DATE.
  unfoldable pub date_of :
      Option dec.Decimal → Option dec.Decimal → Option dec.Decimal → Span → Result (Value dec host)
  date_of (some y) (some m) (some d) span =
      let yy = host.of_decimal y in
      let mm = host.of_decimal m in
      let dd = host.of_decimal d in checked_date (is_calendar_date yy mm dd) (yy, mm, dd) span
  date_of _ _ _ span = ok null

  abbrev dated_text : Text → Span → Result (Value dec host)
  dated_text s span =
      let (y, m, d) = date_parts host s in
      checked_date (is_date_text s && between 1 12 m && is_day_of y m d) (y, m, d) span

  -- The case DATEVALUE.
  unfoldable pub date_value_of : Value dec host → Span → Result (Value dec host)
  date_value_of null span = ok null
  date_value_of (instant i) span = do t ← iso_text host i; ok (text (take 10 t))
  date_value_of v span = dated_text (host.trim (str v)) span

  -- YEAR, MONTH and DAY.
  abbrev pub part_of : (DateParts host → host.Number) → Value dec host → Value dec host
  part_of f (text t) = number (host.to_decimal (f (date_parts host t)))
  part_of f _ = null

  -- The day of the week, from 1 on Sundays.
  abbrev pub weekday_of : DateParts host → host.Number
  weekday_of (y, m, d) =
      host.add (host.utc_day (host.utc y (host.sub m (host.number 1)) d)) (host.number 1)

  -- The case ADDMONTHS.
  unfoldable pub add_months_of : Value dec host → Option dec.Decimal → Result (Value dec host)
  add_months_of null n = ok null
  add_months_of v none = ok null
  add_months_of (instant i) (some n) = do
    t ← iso_text host i
    date ← add_months_to host (take 10 t) (host.of_decimal (dec.trunc n))
    ok (instant (host.parse_instant (date ++ codes "T" ++ drop 11 t)))
  add_months_of v (some n) = do
    date ← add_months_to host (str v) (host.of_decimal (dec.trunc n))
    ok (text date)

  abbrev ms_of : Value dec host → host.Number
  ms_of (instant i) = host.time i
  ms_of v = date_ms host (str v)

  abbrev days_between : Value dec host → Value dec host → Value dec host
  days_between a b =
      number
        (host.to_decimal (host.trunc_of (host.div (host.sub (ms_of b) (ms_of a)) (day_ms host))))

  -- The case DATEDIFF.
  unfoldable pub date_diff_of : Value dec host → Value dec host → Value dec host
  date_diff_of null b = null
  date_diff_of a null = null
  date_diff_of a b = days_between a b

  -- The case BUSINESSDAYS.
  abbrev pub business_of : Value dec host → Value dec host → Value dec host
  business_of (text a) (text b) = number (host.to_decimal (business_days_of host a b))
  business_of _ _ = null
