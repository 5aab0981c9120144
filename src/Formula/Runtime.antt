-- ===== src/Formula/Runtime.antt =====
-- What packages/formula/src/evaluate.ts takes from its host: JavaScript's numbers and dates, its
-- texts' case and trimming, regular expressions, Intl, and the package decimal.js. Nothing is
-- assumed of them here.
use salesmaker.Base.{ℕ, Bool, Option, List}
use salesmaker.Base.Text.{Text}

-- How two decimals compare; `unordered` where one is NaN.
pub data Sign : Type 0 where
  below same above unordered : Sign

-- decimal.js, cloned with 34 digits and half-up rounding. `none` is a thrown DecimalError.
pub record Decimals : Type 1 where
  pub Decimal : Type 0
  pub parse : Text → Option Decimal
  pub print : Decimal → Text
  pub of_nat : ℕ → Decimal
  pub eq : Decimal → Decimal → Bool
  pub cmp : Decimal → Decimal → Sign
  pub plus : Decimal → Decimal → Decimal
  pub minus : Decimal → Decimal → Decimal
  pub times : Decimal → Decimal → Decimal
  pub div : Decimal → Decimal → Decimal
  pub modulo : Decimal → Decimal → Decimal
  pub pow : Decimal → Decimal → Decimal
  pub neg : Decimal → Decimal
  pub abs : Decimal → Decimal
  pub floor : Decimal → Decimal
  pub ceil : Decimal → Decimal
  pub trunc : Decimal → Decimal
  pub is_zero : Decimal → Bool
  pub is_negative : Decimal → Bool
  pub is_finite : Decimal → Bool
  pub gt : Decimal → Decimal → Bool
  -- `Decimal.min(...ds)` and `Decimal.max(...ds)`.
  pub minimum : List Decimal → Decimal
  pub maximum : List Decimal → Decimal

-- JavaScript's numbers and dates. `none` is a thrown RangeError.
pub record Host (dec : Decimals) : Type 1 where
  pub Number : Type 0
  pub Instant : Type 0
  pub number : ℕ → Number
  -- `Number(text)` and the conversions from and to decimals.
  pub of_text : Text → Number
  pub of_decimal : dec.Decimal → Number
  pub to_decimal : Number → dec.Decimal
  pub add : Number → Number → Number
  pub sub : Number → Number → Number
  pub mul : Number → Number → Number
  pub div : Number → Number → Number
  pub rem : Number → Number → Number
  pub floor_of : Number → Number
  pub trunc_of : Number → Number
  pub round_of : Number → Number
  pub negate : Number → Number
  -- `toDecimalPlaces(d, ROUND_HALF_UP)`, which refuses what is no count of digits.
  pub places : dec.Decimal → Number → Option dec.Decimal
  pub same_number : Number → Number → Bool
  pub lt : Number → Number → Bool
  pub le : Number → Number → Bool
  pub print_number : Number → Text
  pub is_integer : Number → Bool
  -- The count that `slice` makes of a number that is not negative.
  pub count : Number → ℕ
  -- `new Date(Date.UTC(y, m, d))`, `new Date(ms)`, `getTime`, and the UTC fields.
  pub utc : Number → Number → Number → Instant
  pub instant : Number → Instant
  pub time : Instant → Number
  pub utc_year : Instant → Number
  pub utc_month : Instant → Number
  pub utc_date : Instant → Number
  pub utc_day : Instant → Number
  pub is_invalid : Instant → Bool
  -- `new Date(text)` and `toISOString()`.
  pub parse_instant : Text → Instant
  pub iso : Instant → Option Text
  -- The kinds and the texts that `formatToParts(instant)` gives, of an Intl.DateTimeFormat in a zone with
  -- year, month and day; `none` where the zone is not known or the instant invalid.
  pub day_parts : Instant → Text → Option (List (Text × Text))
  pub upper : Text → Text
  pub lower : Text → Text
  pub trim : Text → Text
  -- `new RegExp(pattern, 'u').test(text)`; `none` where the pattern is refused.
  pub matches : Text → Text → Option Bool
