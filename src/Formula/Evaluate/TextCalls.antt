-- ===== src/Formula/Evaluate/TextCalls.antt =====
-- packages/formula/src/evaluate.ts, `call`: the functions on texts.
use salesmaker.Base.{
  ℕ, Bool, true, false, Option, none, some, List, [], ◌∷◌, ◌++◌, if◌then◌else◌, take, length, ltb,
}
use salesmaker.Base.Text.{Text, codes, text_eq}
use salesmaker.Formula.Syntax.{Span, ErrorCode, Result, ok, fail, ◌>>=◌}
use salesmaker.Formula.Runtime.{Decimals, Host}
use salesmaker.Formula.Values.{
  Value, null, text, boolean, number, instant, many, join_with, str, or_thrown, iso_text,
}
use salesmaker.Formula.Evaluate.Texts.{
  code_points, concat_texts, last_of, slice_of, substituted, spaced, is_number_text,
}
use salesmaker.Formula.Evaluate.Arguments.{nth}

-- `values.includes(text)`
abbrev pub has_text : List Text → Text → Bool
has_text [] t = false
has_text (u ∷ us) t = if text_eq u t then true else has_text us t

-- The longest text that REGEX reads.
abbrev pub max_regex_input : ℕ
max_regex_input = 10000

module _ {dec : Decimals} (host : Host dec) where
  -- `Math.max(n, x)`, which is NaN where `x` is.
  abbrev pub at_least : ℕ → host.Number → host.Number
  at_least n x = if host.le x (host.number n) then host.number n else x

  -- A number of characters that an argument asks for.
  abbrev wanted : dec.Decimal → host.Number
  wanted d = at_least 0 (host.of_decimal (dec.floor d))

  -- `textOf`
  unfoldable pub text_of : Value dec host → Result (Value dec host)
  text_of null = ok null
  text_of (number d) = ok (text (dec.print d))
  text_of (instant i) = do t ← iso_text host i; ok (text (spaced (take 19 t) ++ codes "Z"))
  text_of (boolean true) = ok (text (codes "true"))
  text_of (boolean false) = ok (text (codes "false"))
  text_of (many ts) = ok (text (join_with b';' ts))
  text_of (text t) = ok (text t)

  -- The case VALUE.
  unfoldable pub value_of : Value dec host → Span → Result (Value dec host)
  value_of null span = ok null
  value_of v span =
      if is_number_text (host.trim (str v))
      then (do d ← or_thrown (dec.parse (host.trim (str v))); ok (number d))
      else fail ErrorCode.invalid_number span

  abbrev pub left_of : Text → dec.Decimal → Text
  left_of t d = concat_texts (take (host.count (wanted d)) (code_points t))

  abbrev pub right_of : Text → dec.Decimal → Text
  right_of t d =
      if host.same_number (wanted d) (host.number 0)
      then []
      else concat_texts (last_of (host.count (wanted d)) (code_points t))

  abbrev pub mid_of : Text → dec.Decimal → dec.Decimal → Text
  mid_of t start count =
      let from = host.sub (at_least 1 (host.of_decimal (dec.floor start))) (host.number 1) in
      let to = host.add from (wanted count) in
      concat_texts (slice_of (host.count from) (host.count to) (code_points t))

  abbrev pub cut :
      Option dec.Decimal
      → (Text → dec.Decimal → Text)
      → Result (Value dec host)
      → Result (Value dec host)
  cut none by r = ok null
  cut (some d) by r = do v ← r; ok (text (by (str v) d))

  abbrev pub cut_mid :
      Option dec.Decimal → Option dec.Decimal → Result (Value dec host) → Result (Value dec host)
  cut_mid (some start) (some count) r = do v ← r; ok (text (mid_of (str v) start count))
  cut_mid _ _ r = ok null

  -- UPPER, LOWER and TRIM.
  abbrev pub on_text : (Text → Text) → Value dec host → Value dec host
  on_text f null = null
  on_text f v = text (f (str v))

  abbrev pub substitute_in :
      Value dec host → Text → Result (Value dec host) → Result (Value dec host)
  substitute_in v [] by = ok (text (str v))
  substitute_in v (c ∷ cs) by = do b ← by; ok (text (substituted 0 (c ∷ cs) (str b) (str v)))

  -- The case SUBSTITUTE.
  unfoldable pub substitute_of :
      Value dec host → List (Result (Value dec host)) → Result (Value dec host)
  substitute_of null rs = ok null
  substitute_of v rs = do find ← nth rs 1; substitute_in v (str find) (nth rs 2)

  -- The case REGEX.
  unfoldable pub regex_of : Text → Result (Value dec host) → Span → Result (Value dec host)
  regex_of t pattern span =
      let tested : Result (Value dec host) = (do
        p ← pattern
        b ← or_thrown (host.matches (codes "^(?:" ++ str p ++ codes ")$") t)
        ok (boolean b)) in
      if ltb max_regex_input (length t)
      then fail (ErrorCode.regex_input_too_long max_regex_input) span
      else tested

  -- The case INCLUDES.
  abbrev pub includes_of : Value dec host → Result (Value dec host) → Result (Value dec host)
  includes_of (many ts) r = do v ← r; ok (boolean (has_text ts (str v)))
  includes_of _ r = ok (boolean false)
