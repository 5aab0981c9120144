-- ===== src/Formula/Evaluate/Safety/DateCalls.antt =====
-- The functions on numbers and dates of packages/formula/src/evaluate.ts give values of their types.
use salesmaker.Base.{◌≡◌, refl, Bool, true, false, not, ◌&&◌, ◌||◌, arith, Option, none, some, List}
use salesmaker.Formula.Syntax.{Span, FormulaType, number_type, date_type, date_time_type}
use salesmaker.Formula.Types.{type_eq}
use salesmaker.Formula.Tables.{implies, every_type, every_type_sound}
use salesmaker.Formula.Post.{Runs, ◌▹◌}
use salesmaker.Formula.Runtime.{Decimals, Host}
use salesmaker.Formula.Values.{
  Value, null, text, boolean, number, instant, many, Fits, Kind, nothing, texts, booleans, numbers,
  instants, lists, kind_fits,
}
use salesmaker.Formula.Evaluate.Dates.{DateParts}
use salesmaker.Formula.Evaluate.DateCalls.{
  round_to, on_number, extreme, mod_of, checked_date, date_of, date_value_of, part_of,
  add_months_of, date_diff_of, business_of,
}
use salesmaker.Formula.Evaluate.Outcome.{HostThrows, Yields, or_thrown-Ends}
use salesmaker.Formula.Evaluate.Safety.Dates.{
  Outcome-if, iso_text-Ends, to_date-Ends, add_months_to-Ends,
}

-- Representations that a date or an instant never has.
abbrev other_kind : Kind → Bool
other_kind booleans = true
other_kind numbers = true
other_kind lists = true
other_kind _ = false

undated_rule : Kind → FormulaType → Bool
undated_rule k t =
    implies (type_eq t date_type || type_eq t date_time_type) (not (kind_fits t k && other_kind k))

undated_rules : (k : Kind) → every_type (undated_rule k) ≡ true
unfolding every_type undated_rule
undated_rules nothing = refl
undated_rules texts = refl
undated_rules booleans = refl
undated_rules numbers = refl
undated_rules instants = refl
undated_rules lists = refl

undated :
    (t : FormulaType) (k : Kind)
    → (type_eq t date_type || type_eq t date_time_type) ≡ true
    → kind_fits t k ≡ true
    → other_kind k ≡ true
    → ⊥
unfolding undated_rule
undated t k h p q = clash _ _ _ (every_type_sound (undated_rule k) (undated_rules k) t) h p q
  where
    clash : (a b c : Bool) → implies a (not (b && c)) ≡ true → a ≡ true → b ≡ true → c ≡ true → ⊥
    clash a b c r h p q = ground arith

module _ {dec : Decimals} (host : Host dec) where
  pub round_to-Yields :
      (n digits : Option dec.Decimal) → Yields host number_type (round_to host n digits)
  unfolding round_to
  round_to-Yields none none = Runs.returns refl
  round_to-Yields none (some d) = Runs.returns refl
  round_to-Yields (some n) none = Runs.returns refl
  round_to-Yields (some n) (some d) =
      Outcome-if host (Fits number_type) _
        (or_thrown-Ends host (host.places _ _) (λ e. HostThrows.places _ _ e) ▹ λ r _.
          Runs.returns refl)
        (or_thrown-Ends host (host.places _ _) (λ e. HostThrows.places _ _ e) ▹ λ r _.
          Runs.returns refl)

  pub on_number-Fits :
      (t : FormulaType) (f : dec.Decimal → dec.Decimal) (n : Option dec.Decimal)
      → kind_fits t numbers ≡ true
      → Fits t (on_number host f n)
  on_number-Fits t f none h = refl
  on_number-Fits t f (some d) h = h

  pub extreme-Fits :
      (t : FormulaType) (f : List dec.Decimal → dec.Decimal) (n : Option (List dec.Decimal))
      → kind_fits t numbers ≡ true
      → Fits t (extreme host f n)
  extreme-Fits t f none h = refl
  extreme-Fits t f (some ds) h = h

  pub mod_of-Yields :
      (a b : Option dec.Decimal) (s : Span) → Yields host number_type (mod_of host a b s)
  unfolding mod_of
  mod_of-Yields none none s = Runs.returns refl
  mod_of-Yields none (some b) s = Runs.returns refl
  mod_of-Yields (some a) none s = Runs.returns refl
  mod_of-Yields (some a) (some b) s =
      Outcome-if host (Fits number_type) (dec.is_zero b) (Runs.fails refl) (Runs.returns refl)

  checked_date-Yields :
      (good : Bool) (p : DateParts host) (s : Span)
      → Yields host date_type (checked_date host good p s)
  checked_date-Yields good p s =
      Outcome-if host (Fits date_type) good (to_date-Ends host p ▹ λ t _. Runs.returns refl)
        (Runs.fails refl)

  pub date_of-Yields :
      (y m d : Option dec.Decimal) (s : Span) → Yields host date_type (date_of host y m d s)
  unfolding date_of
  date_of-Yields none m d s = Runs.returns refl
  date_of-Yields (some y) none d s = Runs.returns refl
  date_of-Yields (some y) (some m) none s = Runs.returns refl
  date_of-Yields (some y) (some m) (some d) s = checked_date-Yields _ _ s

  pub date_value_of-Yields :
      (v : Value dec host) (s : Span) → Yields host date_type (date_value_of host v s)
  unfolding date_value_of
  date_value_of-Yields null s = Runs.returns refl
  date_value_of-Yields (text t) s = checked_date-Yields _ _ s
  date_value_of-Yields (boolean b) s = checked_date-Yields _ _ s
  date_value_of-Yields (number d) s = checked_date-Yields _ _ s
  date_value_of-Yields (instant i) s = iso_text-Ends host i ▹ λ t _. Runs.returns refl
  date_value_of-Yields (many ts) s = checked_date-Yields _ _ s

  pub part_of-Fits :
      (f : DateParts host → host.Number) (v : Value dec host) → Fits number_type (part_of host f v)
  part_of-Fits f null = refl
  part_of-Fits f (text t) = refl
  part_of-Fits f (boolean b) = refl
  part_of-Fits f (number d) = refl
  part_of-Fits f (instant i) = refl
  part_of-Fits f (many ts) = refl

  -- A date moves to a date, an instant to an instant.
  pub add_months_of-Yields :
      (t : FormulaType) (v : Value dec host) (n : Option dec.Decimal)
      → (type_eq t date_type || type_eq t date_time_type) ≡ true
      → Fits t v
      → Yields host t (add_months_of host v n)
  unfolding add_months_of
  add_months_of-Yields t null n h k = Runs.returns refl
  add_months_of-Yields t (text x) none h k = Runs.returns refl
  add_months_of-Yields t (text x) (some n) h k = add_months_to-Ends host _ _ ▹ λ d _. Runs.returns k
  add_months_of-Yields t (instant i) none h k = Runs.returns refl
  add_months_of-Yields t (instant i) (some n) h k =
      iso_text-Ends host i ▹ λ x _. add_months_to-Ends host _ _ ▹ λ d _. Runs.returns k
  add_months_of-Yields t (boolean b) none h k = Runs.returns refl
  add_months_of-Yields t (number d) none h k = Runs.returns refl
  add_months_of-Yields t (many ts) none h k = Runs.returns refl
  add_months_of-Yields t (boolean b) (some n) h k = absurd (undated t booleans h k refl)
  add_months_of-Yields t (number d) (some n) h k = absurd (undated t numbers h k refl)
  add_months_of-Yields t (many ts) (some n) h k = absurd (undated t lists h k refl)

  pub date_diff_of-Fits : (a b : Value dec host) → Fits number_type (date_diff_of host a b)
  unfolding date_diff_of
  date_diff_of-Fits null b = refl
  date_diff_of-Fits a null = refl
  date_diff_of-Fits a b = refl

  pub business_of-Fits : (a b : Value dec host) → Fits number_type (business_of host a b)
  business_of-Fits (text a) (text b) = refl
  business_of-Fits a b = refl
