-- ===== src/Formula/Evaluate/Safety/Stored.antt =====
-- Stored values in packages/formula/src/evaluate.ts: `fromStored` gives a value of the type asked for.
use salesmaker.Base.{
  ◌≡◌, refl, Bool, true, false, Option, none, some, List, [], ◌∷◌, Bool-cases, inl, inr,
}
use salesmaker.Base.Text.{Text}
use salesmaker.Formula.Syntax.{
  Span, FormulaType, text_type, number_type, currency_type, percent_type, boolean_type, date_type,
  date_time_type, time_type, picklist_type, multi_picklist_type, null_type,
}
use salesmaker.Formula.Types.{type_eq, TypedNode}
use salesmaker.Formula.Post.{Runs, ◌▹◌}
use salesmaker.Formula.Runtime.{Decimals, Host}
use salesmaker.Formula.Values.{
  Value, Stored, unset, other, string, truth, float, decimal, date, strings, Fits, from_decimal,
  from_instant, stored_number, stored_boolean, stored_instant, stored_many, stored_text,
  stored_date, from_given, if_unset, from_stored,
}
use salesmaker.Formula.Evaluate.{EvalContext, prior_with, prior_of}
use salesmaker.Formula.Evaluate.Outcome.{Yields}
use salesmaker.Formula.Evaluate.Safety.Dates.{iso_text-Ends}

module _ {dec : Decimals} (host : Host dec) where
  from_decimal-Fits :
      (o : Option dec.Decimal) → Fits number_type (from_decimal {dec = dec} {host = host} o)
  from_decimal-Fits none = refl
  from_decimal-Fits (some d) = refl

  stored_number-Fits : (raw : Stored dec host) → Fits number_type (stored_number raw)
  stored_number-Fits unset = refl
  stored_number-Fits other = refl
  stored_number-Fits (string []) = refl
  stored_number-Fits (string (c ∷ cs)) = from_decimal-Fits (dec.parse (c ∷ cs))
  stored_number-Fits (truth b) = refl
  stored_number-Fits (float n) = refl
  stored_number-Fits (decimal d) = refl
  stored_number-Fits (date i) = refl
  stored_number-Fits (strings ts) = refl

  stored_boolean-Fits : (raw : Stored dec host) → Fits boolean_type (stored_boolean raw)
  stored_boolean-Fits (truth b) = refl
  stored_boolean-Fits raw = refl

  from_instant-Fits :
      (i : host.Instant) → Fits date_time_type (from_instant {dec = dec} {host = host} i)
  from_instant-Fits i = elim (Bool-cases (host.is_invalid i)) [
    | inl e ↦ rw e refl
    | inr e ↦ rw e refl
  ]

  stored_instant-Fits : (raw : Stored dec host) → Fits date_time_type (stored_instant raw)
  stored_instant-Fits (date i) = refl
  stored_instant-Fits (string t) = from_instant-Fits (host.parse_instant t)
  stored_instant-Fits raw = refl

  stored_many-Fits : (raw : Stored dec host) → Fits multi_picklist_type (stored_many raw)
  stored_many-Fits (strings ts) = refl
  stored_many-Fits (string t) = refl
  stored_many-Fits raw = refl

  stored_text-Fits : (raw : Stored dec host) → Fits text_type (stored_text raw)
  stored_text-Fits (string t) = refl
  stored_text-Fits (float n) = refl
  stored_text-Fits (truth true) = refl
  stored_text-Fits (truth false) = refl
  stored_text-Fits raw = refl

  stored_date-Yields : (raw : Stored dec host) → Yields host date_type (stored_date raw)
  stored_date-Yields (date i) = iso_text-Ends host i ▹ λ t _. Runs.returns refl
  stored_date-Yields (string t) = Runs.returns refl
  stored_date-Yields raw = Runs.returns refl

  from_given-Yields :
      (t : FormulaType) (raw : Stored dec host)
      → type_eq t null_type ≡ false
      → Yields host t (from_given t raw)
  from_given-Yields text_type raw h = Runs.returns (stored_text-Fits raw)
  from_given-Yields number_type raw h = Runs.returns (stored_number-Fits raw)
  from_given-Yields currency_type raw h = Runs.returns (stored_number-Fits raw)
  from_given-Yields percent_type raw h = Runs.returns (stored_number-Fits raw)
  from_given-Yields boolean_type raw h = Runs.returns (stored_boolean-Fits raw)
  from_given-Yields date_type raw h = stored_date-Yields raw
  from_given-Yields date_time_type raw h = Runs.returns (stored_instant-Fits raw)
  from_given-Yields time_type raw h = Runs.returns (stored_text-Fits raw)
  from_given-Yields picklist_type raw h = Runs.returns (stored_text-Fits raw)
  from_given-Yields multi_picklist_type raw h = Runs.returns (stored_many-Fits raw)
  from_given-Yields null_type raw h = absurd cc

  if_unset-Fits : (t : FormulaType) → Fits t (if_unset {dec = dec} {host = host} t)
  if_unset-Fits boolean_type = refl
  if_unset-Fits t = refl

  pub from_stored-Yields :
      (t : FormulaType) (raw : Stored dec host)
      → type_eq t null_type ≡ false
      → Yields host t (from_stored t raw)
  unfolding from_stored
  from_stored-Yields t unset h = Runs.returns (if_unset-Fits t)
  from_stored-Yields t raw h = from_given-Yields t raw h

  -- The value before the write, of a field of the type `t`.
  module _ (t : FormulaType) where
    prior_with-Yields :
        (prior : Option (List Text → Stored dec host)) (added : Bool) (path : List Text) (s : Span)
        (rest : List TypedNode) (v : Value dec host)
        → type_eq t null_type ≡ false
        → Fits t v
        → Yields host t (prior_with host prior added (TypedNode.field t path s ∷ rest) v)
    prior_with-Yields none added path s rest v h k = Runs.returns k
    prior_with-Yields (some before) true path s rest v h k = Runs.returns k
    prior_with-Yields (some before) false path s rest v h k = from_stored-Yields t (before path) h

    pub prior_of-Yields :
        (ctx : EvalContext host) (path : List Text) (s : Span) (rest : List TypedNode)
        (v : Value dec host)
        → type_eq t null_type ≡ false
        → Fits t v
        → Yields host t (prior_of host ctx (TypedNode.field t path s ∷ rest) v)
    unfolding prior_of
    prior_of-Yields ctx path s rest v h k = prior_with-Yields ctx.prior ctx.is_new path s rest v h k
