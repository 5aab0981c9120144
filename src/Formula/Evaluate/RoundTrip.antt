-- ===== src/Formula/Evaluate/RoundTrip.antt =====
-- `toStored` and `fromStored` of packages/formula/src/evaluate.ts.
use salesmaker.Base.{
  ℕ, ◌≡◌, refl, ap, ◌≤◌, zero, suc, false, ◌&&◌, Option, none, some, [], ◌∷◌, length, take, arith,
}
use salesmaker.Base.Text.{Text}
use salesmaker.Formula.Syntax.{
  FormulaType, text_type, number_type, currency_type, percent_type, boolean_type, date_type,
  date_time_type, time_type, picklist_type, multi_picklist_type, Result, ok, ◌>>=◌,
}
use salesmaker.Formula.Runtime.{Decimals, Host}
use salesmaker.Formula.Values.{
  Value, Stored, string, null, text, boolean, number, instant, many, Fits, stored_number, or_thrown,
  from_stored, to_stored,
}

-- Printing and reading decimals, as decimal.js documents it: reading undoes printing, but for a negative
-- zero, and the empty text is no number.
abbrev pub ReadsDecimals : Decimals → Type 0
ReadsDecimals dec =
    ((d : dec.Decimal)
      → (dec.is_zero d && dec.is_negative d) ≡ false
      → dec.parse (dec.print d) ≡ some d)
    × (dec.parse [] ≡ none)

-- The text of an instant names it, and only a valid date has one.
abbrev pub ReadsInstants : {dec : Decimals} → Host dec → Type 0
ReadsInstants host =
    (i : host.Instant) (t : Text)
    → host.iso i ≡ some t
    → (host.parse_instant t ≡ i) × (host.is_invalid i ≡ false)

-- A boolean that is not null; a date of at most ten characters; a number that is no negative zero.
abbrev pub IsStorable : {dec : Decimals} {host : Host dec} → FormulaType → Value dec host → Type 0
IsStorable boolean_type null = ⊥
IsStorable date_type (text t) = length t ≤ 10
IsStorable {dec = dec} t (number d) = (dec.is_zero d && dec.is_negative d) ≡ false
IsStorable t v = Unit

take_all : (n : ℕ) (t : Text) → length t ≤ n → take n t ≡ t
take_all zero [] h = refl
take_all zero (c ∷ cs) h = absurd (omega arith)
take_all (suc n) [] h = refl
take_all (suc n) (c ∷ cs) h = ap (λ x. c ∷ x) (take_all n cs (omega arith))

module _ {dec : Decimals} (host : Host dec) (decimals : ReadsDecimals dec)
    (instants : ReadsInstants host) where
  printed_number :
      (d : dec.Decimal) (t : Text)
      → (dec.is_zero d && dec.is_negative d) ≡ false
      → dec.print d ≡ t
      → stored_number {dec = dec} {host = host} (string t) ≡ number d
  printed_number d [] z e =
      let k : dec.parse [] ≡ some d = rw e at (decimals.0 d z) in absurd (cc (k, decimals.1))
  printed_number d (c ∷ cs) z e =
      let k : dec.parse (c ∷ cs) ≡ some d = rw e at (decimals.0 d z) in rw k refl

  abbrev as_string : Text → Result (Stored dec host)
  as_string t = ok (string t)

  abbrev same_instant : host.Instant → Result (Value dec host)
  same_instant i = ok (instant i)

  instant_back :
      (i : host.Instant) (o : Option Text)
      → host.iso i ≡ o
      → (or_thrown o >>= as_string >>= from_stored date_time_type)
        ≡ (or_thrown o >>= as_string >>= λ raw. same_instant i)
  unfolding from_stored
  instant_back i none e = refl
  instant_back i (some t) e = let k = instants i t e in rw (k.0, k.1) refl

  back :
      (t : FormulaType) (v : Value dec host)
      → Fits t v
      → IsStorable t v
      → (do raw ← to_stored v; from_stored t raw) ≡ (do raw ← to_stored v; ok v)
  unfolding from_stored to_stored
  back boolean_type null f s = absurd s
  back t null f s = refl
  back text_type (text x) f s = refl
  back time_type (text x) f s = refl
  back picklist_type (text x) f s = refl
  back date_type (text x) f s = ap (λ y. ok (text y)) (take_all 10 x s)
  back t (text x) f s = absurd cc
  back boolean_type (boolean b) f s = refl
  back t (boolean b) f s = absurd cc
  back number_type (number d) f s = ap ok (printed_number d _ s refl)
  back currency_type (number d) f s = ap ok (printed_number d _ s refl)
  back percent_type (number d) f s = ap ok (printed_number d _ s refl)
  back t (number d) f s = absurd cc
  back date_time_type (instant i) f s = instant_back i (host.iso i) refl
  back t (instant i) f s = absurd cc
  back multi_picklist_type (many ts) f s = refl
  back t (many ts) f s = absurd cc

  -- With a decimal.js that reads back what it prints, but for a negative zero, and takes no empty text, and
  -- with dates that are valid where they have an ISO text and are read back from it: a value that fits a
  -- type comes back from its stored form, where it has one, and `fromStored` undoes `toStored`. Not null as
  -- a boolean, which comes back as false, nor a date of more than ten characters, which is cut, nor a
  -- negative zero.
  pub from_stored-to_stored :
      (t : FormulaType) (v : Value dec host) (raw : Stored dec host)
      → Fits t v
      → IsStorable t v
      → to_stored v ≡ ok raw
      → from_stored t raw ≡ ok v
  from_stored-to_stored t v raw f s e = rw e at (back t v f s)
