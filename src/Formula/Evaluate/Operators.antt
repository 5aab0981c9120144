-- ===== src/Formula/Evaluate/Operators.antt =====
-- packages/formula/src/evaluate.ts: `equal`, `compare` and `arithmetic` on values.
use salesmaker.Base.{Bool, true, false, not, ◌&&◌, ◌||◌, Option, none, some, ◌++◌, if◌then◌else◌}
use salesmaker.Base.Text.{Text, text_eq, text_lt}
use salesmaker.Formula.Syntax.{
  Span, Operator, less, less_equal, greater, greater_equal, plus, minus, times, divide, FormulaType,
  text_type, ErrorCode, Result, ok, ◌>>=◌, fail,
}
use salesmaker.Formula.Types.{type_eq}
use salesmaker.Formula.Runtime.{Sign, below, same, above, unordered, Decimals, Host}
use salesmaker.Formula.Values.{
  Value, null, text, boolean, number, instant, many, join_with, is_blank_value, str,
}
use salesmaker.Formula.Evaluate.Dates.{date_ms, day_ms, shifted}

abbrev pub bool_eq : Bool → Bool → Bool
bool_eq true b = b
bool_eq false b = not b

abbrev pub is_minus : Operator → Bool
is_minus minus = true
is_minus _ = false

-- The tests of `<`, `<=`, `>` and `>=` on a comparison; NaN passes none of them.
unfoldable pub ordered_by : Operator → Sign → Bool
ordered_by o unordered = false
ordered_by less below = true
ordered_by less_equal below = true
ordered_by less_equal same = true
ordered_by greater above = true
ordered_by greater_equal above = true
ordered_by greater_equal same = true
ordered_by o s = false

abbrev pub text_sign : Text → Text → Sign
text_sign a b = if text_lt a b then below else if text_lt b a then above else same

module _ {dec : Decimals} (host : Host dec) where
  -- `equal` where no side is blank.
  abbrev pub equal_given : Value dec host → Value dec host → Bool
  equal_given (number a) (number b) = dec.eq a b
  equal_given (instant a) (instant b) = host.same_number (host.time a) (host.time b)
  equal_given (many a) (many b) = text_eq (join_with b';' a) (join_with b';' b)
  equal_given (text a) (text b) = text_eq a b
  equal_given (boolean a) (boolean b) = bool_eq a b
  equal_given _ _ = false

  unfoldable pub equal_values : Value dec host → Value dec host → Bool
  equal_values a b =
      if is_blank_value a || is_blank_value b
      then is_blank_value a && is_blank_value b
      else equal_given a b

  -- `Math.sign` of a difference.
  abbrev pub sign_of : host.Number → Sign
  sign_of d =
      if host.lt d (host.number 0)
      then below
      else if host.lt (host.number 0) d
      then above
      else if host.same_number d (host.number 0)
      then same
      else unordered

  -- `compare`
  unfoldable pub compare_values : Value dec host → Value dec host → Option Sign
  compare_values (number a) (number b) = some (dec.cmp a b)
  compare_values (instant a) (instant b) = some (sign_of (host.sub (host.time a) (host.time b)))
  compare_values (text a) (text b) = some (text_sign a b)
  compare_values _ _ = none

  -- `power`
  unfoldable pub power_of : dec.Decimal → dec.Decimal → Span → Result (Value dec host)
  power_of base exponent span =
      let result = dec.pow base exponent in
      if dec.gt (dec.abs exponent) (dec.of_nat 1000)
        || (dec.is_zero base && dec.is_negative exponent)
      then fail ErrorCode.invalid_power span
      else if dec.is_finite result
      then ok (number result)
      else fail ErrorCode.invalid_power span

  -- `arithmetic` on two decimals.
  unfoldable pub number_arithmetic :
      Operator → dec.Decimal → dec.Decimal → Span → Result (Value dec host)
  unfolding power_of
  number_arithmetic plus a b span = ok (number (dec.plus a b))
  number_arithmetic minus a b span = ok (number (dec.minus a b))
  number_arithmetic times a b span = ok (number (dec.times a b))
  number_arithmetic divide a b span =
      if dec.is_zero b then fail ErrorCode.division_by_zero span else ok (number (dec.div a b))
  number_arithmetic o a b span = power_of a b span

  abbrev pub signed : Operator → dec.Decimal → dec.Decimal
  signed o days = if is_minus o then dec.neg days else days

  -- A date and a number of days.
  abbrev pub shift_date : Operator → Text → dec.Decimal → Result (Value dec host)
  shift_date o t days = do
    moved ← shifted host t (host.of_decimal (dec.floor (signed o days)))
    ok (text moved)

  -- An instant and a number of days.
  abbrev pub shift_instant : Operator → host.Instant → dec.Decimal → Value dec host
  shift_instant o i days =
      let ms = host.of_decimal (dec.times (signed o days) (dec.of_nat 86400000)) in
      instant (host.instant (host.add (host.time i) ms))

  abbrev pub arithmetic_given :
      Operator → Value dec host → Value dec host → Span → Result (Value dec host)
  arithmetic_given o null b span = ok null
  arithmetic_given o a null span = ok null
  arithmetic_given o (number a) (number b) span = number_arithmetic o a b span
  arithmetic_given o (number days) (text t) span = shift_date o t days
  arithmetic_given o (text t) (number days) span = shift_date o t days
  arithmetic_given o (number days) (instant i) span = ok (shift_instant o i days)
  arithmetic_given o (instant i) (number days) span = ok (shift_instant o i days)
  arithmetic_given o (text a) (text b) span = ok (
      number
        (host.to_decimal (host.div (host.sub (date_ms host a) (date_ms host b)) (day_ms host))))
  arithmetic_given o (instant a) (instant b) span = ok (
      number
        (dec.div (host.to_decimal (host.sub (host.time a) (host.time b))) (dec.of_nat 86400000)))
  arithmetic_given o _ _ span = ok null

  -- `arithmetic`, for a node of type `t`.
  unfoldable pub arithmetic_values :
      FormulaType → Operator → Value dec host → Value dec host → Span → Result (Value dec host)
  unfolding number_arithmetic
  arithmetic_values t o a b span =
      if type_eq t text_type then ok (text (str a ++ str b)) else arithmetic_given o a b span
