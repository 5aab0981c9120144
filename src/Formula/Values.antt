-- ===== src/Formula/Values.antt =====
-- packages/formula/src/evaluate.ts: the values of the language, and how stored values become such.
use salesmaker.Base.{
  ℕ, ◌≡◌, Bool, true, false, ◌||◌, ◌==◌, Option, none, some, List, [], ◌∷◌, ◌++◌, take,
  if◌then◌else◌,
}
use salesmaker.Base.Text.{Text, codes}
use salesmaker.Formula.Syntax.{
  FormulaType, text_type, number_type, currency_type, percent_type, boolean_type, date_type,
  date_time_type, time_type, picklist_type, multi_picklist_type, null_type, Result, ok, thrown,
  ◌>>=◌,
}
use salesmaker.Formula.Runtime.{Decimals, Host}

module _ (dec : Decimals) (host : Host dec) where
  -- `FormulaValue`.
  pub data Value : Type 0 where
    null : Value
    text : Text → Value
    boolean : Bool → Value
    number : dec.Decimal → Value
    instant : host.Instant → Value
    many : List Text → Value

  -- A stored value; `unset` is null or undefined, `other` any object that is none of the rest.
  pub data Stored : Type 0 where
    unset other : Stored
    string : Text → Stored
    truth : Bool → Stored
    float : host.Number → Stored
    decimal : dec.Decimal → Stored
    date : host.Instant → Stored
    strings : List Text → Stored

-- The representation of a value, and of a type.
pub data Kind : Type 0 where
  nothing texts booleans numbers instants lists : Kind

abbrev pub kind_code : Kind → ℕ
kind_code nothing = 0
kind_code texts = 1
kind_code booleans = 2
kind_code numbers = 3
kind_code instants = 4
kind_code lists = 5

abbrev pub kind_eq : Kind → Kind → Bool
kind_eq a b = kind_code a == kind_code b

abbrev pub kind_of_type : FormulaType → Kind
kind_of_type text_type = texts
kind_of_type number_type = numbers
kind_of_type currency_type = numbers
kind_of_type percent_type = numbers
kind_of_type boolean_type = booleans
kind_of_type date_type = texts
kind_of_type date_time_type = instants
kind_of_type time_type = texts
kind_of_type picklist_type = texts
kind_of_type multi_picklist_type = lists
kind_of_type null_type = nothing

abbrev pub kind_fits : FormulaType → Kind → Bool
kind_fits t k = kind_eq k nothing || kind_eq k (kind_of_type t)

-- `parts.join(';')` and `text.split(';')`.
abbrev pub join_with : ℕ → List Text → Text
join_with c [] = []
join_with c (t ∷ []) = t
join_with c (t ∷ u ∷ ts) = t ++ (c ∷ join_with c (u ∷ ts))

abbrev pub push_unit : ℕ → List Text → List Text
push_unit c [] = (c ∷ []) ∷ []
push_unit c (t ∷ ts) = (c ∷ t) ∷ ts

abbrev pub split_on : ℕ → Text → List Text
split_on c [] = [] ∷ []
split_on c (d ∷ ds) = if d == c then [] ∷ split_on c ds else push_unit d (split_on c ds)

-- What is none where the host throws.
abbrev pub or_thrown {ℓ} : {A : Type ℓ} → Option A → Result A
or_thrown none = thrown
or_thrown (some a) = ok a

-- `toISOString()`, which throws on an invalid date.
abbrev pub iso_text : {dec : Decimals} (host : Host dec) → host.Instant → Result Text
iso_text host i = or_thrown (host.iso i)

module _ {dec : Decimals} {host : Host dec} where
  abbrev pub kind_of : Value dec host → Kind
  kind_of null = nothing
  kind_of (text t) = texts
  kind_of (boolean b) = booleans
  kind_of (number d) = numbers
  kind_of (instant i) = instants
  kind_of (many ts) = lists

  -- Null fits every type.
  abbrev pub Fits : FormulaType → Value dec host → Type 0
  Fits t v = kind_fits t (kind_of v) ≡ true

  -- `isBlank`, `str`.
  abbrev pub is_blank_value : Value dec host → Bool
  is_blank_value null = true
  is_blank_value (text []) = true
  is_blank_value (many []) = true
  is_blank_value _ = false

  abbrev pub str : Value dec host → Text
  str (text t) = t
  str _ = []

  abbrev pub is_true : Value dec host → Bool
  is_true (boolean true) = true
  is_true _ = false

  abbrev pub from_decimal : Option dec.Decimal → Value dec host
  from_decimal none = null
  from_decimal (some d) = number d

  abbrev pub from_instant : host.Instant → Value dec host
  from_instant i = if host.is_invalid i then null else instant i

  abbrev pub stored_number : Stored dec host → Value dec host
  stored_number (decimal d) = number d
  stored_number (float n) = number (host.to_decimal n)
  stored_number (string []) = null
  stored_number (string (c ∷ cs)) = from_decimal (dec.parse (c ∷ cs))
  stored_number _ = null

  abbrev pub stored_boolean : Stored dec host → Value dec host
  stored_boolean (truth b) = boolean b
  stored_boolean _ = boolean false

  abbrev pub stored_instant : Stored dec host → Value dec host
  stored_instant (date i) = instant i
  stored_instant (string t) = from_instant (host.parse_instant t)
  stored_instant _ = null

  abbrev pub stored_many : Stored dec host → Value dec host
  stored_many (strings ts) = many ts
  stored_many (string t) = many (split_on b';' t)
  stored_many _ = null

  abbrev pub stored_text : Stored dec host → Value dec host
  stored_text (string t) = text t
  stored_text (float n) = text (host.print_number n)
  stored_text (truth true) = text (codes "true")
  stored_text (truth false) = text (codes "false")
  stored_text _ = null

  abbrev pub stored_date : Stored dec host → Result (Value dec host)
  stored_date (date i) = do t ← iso_text host i; ok (text (take 10 t))
  stored_date (string t) = ok (text (take 10 t))
  stored_date _ = ok null

  abbrev pub from_given : FormulaType → Stored dec host → Result (Value dec host)
  from_given number_type raw = ok (stored_number raw)
  from_given currency_type raw = ok (stored_number raw)
  from_given percent_type raw = ok (stored_number raw)
  from_given boolean_type raw = ok (stored_boolean raw)
  from_given date_type raw = stored_date raw
  from_given date_time_type raw = ok (stored_instant raw)
  from_given multi_picklist_type raw = ok (stored_many raw)
  from_given _ raw = ok (stored_text raw)

  abbrev pub if_unset : FormulaType → Value dec host
  if_unset boolean_type = boolean false
  if_unset _ = null

  -- `fromStored`
  unfoldable pub from_stored : FormulaType → Stored dec host → Result (Value dec host)
  from_stored type unset = ok (if_unset type)
  from_stored type raw = from_given type raw

  -- `toStored`
  unfoldable pub to_stored : Value dec host → Result (Stored dec host)
  to_stored null = ok unset
  to_stored (number d) = ok (string (dec.print d))
  to_stored (instant i) = do t ← iso_text host i; ok (string t)
  to_stored (text t) = ok (string t)
  to_stored (boolean b) = ok (truth b)
  to_stored (many ts) = ok (strings ts)
