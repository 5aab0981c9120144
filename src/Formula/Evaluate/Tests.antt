-- ===== src/Formula/Evaluate/Tests.antt =====
-- Evaluation on small formulas, with a host whose numbers and instants are the natural numbers and
-- whose numerals have one character.
use Prim.Native.String.{String}
use salesmaker.Base.{◌↔◌}
use salesmaker.Formula.Syntax.{org, boolean_type, currency_type}
use salesmaker.Formula.Environment.{
  FieldType, FieldMeta, ObjectMeta, formula_type_of, table_of, object_named, field_named,
  lookup_named, looked, inherited, inherited_global, resolve, resolve_global,
}
use salesmaker.Formula.Environment.Paths.{Leads, resolve_iff}
use salesmaker.Formula.Environment.Strict.{
  own_environment, own_environment-IsMetadataEnvironment, IsOwn, metadata_environment-Yields,
}
use salesmaker.Base.{
  ℕ, ◌+◌, ◌-◌, ◌*◌, ◌/◌, ◌%◌, ◌≡◌, refl, ap, Bool, true, false, Option, none, some, List, [], ◌∷◌,
  ◌==◌, ltb, leb, arith, if◌then◌else◌,
}
use salesmaker.Base.Text.{Text, codes, text_eq}
use salesmaker.Formula.Syntax.{
  Span, FormulaType, number_type, null_type, ok, fail, divide, division_by_zero,
}
use salesmaker.Formula.Types.{type_eq, found, CheckEnvironment, LiteralValue, TypedNode}
use salesmaker.Formula.Lexer.{is_ident_start}
use salesmaker.Formula.Parser.{parse}
use salesmaker.Formula.Rules.{arithmetic}
use salesmaker.Formula.Check.{
  check_formula, check, check_field, check_binary, no_picklist, binary_type, check_result,
}
use salesmaker.Formula.Runtime.{Sign, below, same, above, Decimals, Host}
use salesmaker.Formula.Values.{Stored, unset, string, null, number, from_stored, to_stored}
use salesmaker.Formula.Evaluate.{EvalContext, literal_value, binary_result, run, evaluate_formula}
use salesmaker.Formula.Evaluate.Operators.{arithmetic_values}
use salesmaker.Formula.Evaluate.Outcome.{Yields}
use salesmaker.Formula.Evaluate.Safety.Sound.{IsStrict, evaluate_formula-Yields}
use salesmaker.Formula.Evaluate.RoundTrip.{ReadsDecimals, ReadsInstants, from_stored-to_stored}

abbrev numeral : ℕ → Text
numeral d = (d + 48) ∷ []

abbrev read_numeral : Text → Option ℕ
read_numeral (c ∷ []) = some (c - 48)
read_numeral _ = none

abbrev sign : ℕ → ℕ → Sign
sign a b = if ltb a b then below else if ltb b a then above else same

abbrev first_of : List ℕ → ℕ
first_of [] = 0
first_of (d ∷ ds) = d

abbrev naturals : Decimals
naturals = record {
  Decimal = ℕ;
  parse = read_numeral;
  print = numeral;
  of_nat = λ n. n;
  eq = ◌==◌;
  cmp = sign;
  plus = ◌+◌;
  minus = ◌-◌;
  times = ◌*◌;
  div = ◌/◌;
  modulo = ◌%◌;
  pow = ◌*◌;
  neg = λ d. d;
  abs = λ d. d;
  floor = λ d. d;
  ceil = λ d. d;
  trunc = λ d. d;
  is_zero = λ d. d == 0;
  is_negative = λ d. false;
  is_finite = λ d. true;
  gt = λ a b. ltb b a;
  minimum = first_of;
  maximum = first_of;
}

abbrev start_of : Text → ℕ
start_of [] = 0
start_of (c ∷ cs) = c - 48

abbrev host : Host naturals
host = record {
  Number = ℕ;
  Instant = ℕ;
  number = λ n. n;
  of_text = start_of;
  of_decimal = λ d. d;
  to_decimal = λ n. n;
  add = ◌+◌;
  sub = ◌-◌;
  mul = ◌*◌;
  div = ◌/◌;
  rem = ◌%◌;
  floor_of = λ n. n;
  trunc_of = λ n. n;
  round_of = λ n. n;
  negate = λ n. n;
  places = λ d n. some d;
  same_number = ◌==◌;
  lt = ltb;
  le = leb;
  print_number = numeral;
  is_integer = λ n. true;
  count = λ n. n;
  utc = λ y m d. d;
  instant = λ ms. ms;
  time = λ i. i;
  utc_year = λ i. 1970;
  utc_month = λ i. 0;
  utc_date = λ i. i;
  utc_day = λ i. i;
  is_invalid = λ i. false;
  parse_instant = start_of;
  iso = λ i. some (numeral i);
  day_parts = λ i zone.
      some (
        (codes "year", codes "1970")
        ∷ (codes "month", codes "01")
        ∷ (codes "day", codes "01")
        ∷ []);
  upper = λ t. t;
  lower = λ t. t;
  trim = λ t. t;
  matches = λ p t. some true;
}

abbrev numbers : CheckEnvironment
numbers = record {
  field = λ path. found number_type;
  global = λ scope name. none;
  allow_prior_values = false;
}

abbrev source : Text
source = codes "7/a"

abbrev any_regex : Text → Bool
any_regex pattern = true

abbrev span : ℕ → ℕ → Span
span s e = record { start = s; end = e }

abbrev quotient : TypedNode
quotient =
    TypedNode.binary number_type divide
      (TypedNode.literal number_type (LiteralValue.text (codes "7")) (span 0 1))
      (TypedNode.field number_type (codes "a" ∷ []) (span 2 3)) (span 0 3)

source-checked : check_formula any_regex numbers source none ≡ ok quotient
unfolding check_formula parse is_ident_start check check_field check_binary no_picklist binary_type
    arithmetic check_result
source-checked = refl

abbrev where_a_is : Stored naturals host → EvalContext host
where_a_is raw = record {
  field = λ path. raw;
  prior = none;
  is_new = false;
  global = λ scope name. unset;
  now = 0;
  timezone = codes "UTC";
}

strict : IsStrict numbers
strict = (λ path t e. numeric t e, λ scope name t e. absurd cc)
  where
    numeric : (t : FormulaType) → found number_type ≡ found t → type_eq t null_type ≡ false
    numeric number_type e = refl
    numeric t e = absurd cc

evaluate_formula-Yields_example :
    Yields host number_type (evaluate_formula host (where_a_is (string (codes "2"))) quotient)
evaluate_formula-Yields_example =
    evaluate_formula-Yields host (where_a_is (string (codes "2"))) numbers strict any_regex source
      none quotient source-checked

seven_halves : evaluate_formula host (where_a_is (string (codes "2"))) quotient ≡ ok (number 3)
unfolding evaluate_formula run binary_result literal_value from_stored arithmetic_values
seven_halves = refl

by_zero :
    evaluate_formula host (where_a_is (string (codes "0"))) quotient
    ≡ fail division_by_zero (span 0 3)
unfolding evaluate_formula run binary_result literal_value from_stored arithmetic_values
by_zero = refl

by_nothing : evaluate_formula host (where_a_is unset) quotient ≡ ok null
unfolding evaluate_formula run binary_result literal_value from_stored arithmetic_values
by_nothing = refl

reads_decimals : ReadsDecimals naturals
reads_decimals = (λ d z. ap some (back d), refl)
  where
    back : (d : ℕ) → (d + 48) - 48 ≡ d
    back d = omega arith

reads_instants : ReadsInstants host
reads_instants i [] e = absurd cc
reads_instants i (c ∷ t) e = (let k : i + 48 ≡ c = cc in omega (arith, k), refl)

stored_five : to_stored {host = host} (number 5) ≡ ok (string (numeral 5))
unfolding to_stored
stored_five = refl

from_stored-to_stored_example :
    from_stored {host = host} number_type (string (numeral 5)) ≡ ok (number 5)
from_stored-to_stored_example =
    from_stored-to_stored host reads_decimals reads_instants number_type (number 5)
      (string (numeral 5)) refl refl stored_five

abbrev plain_field : String → FieldType → FieldMeta
plain_field name type = record {
  api_name = codes name;
  type = type;
  formula_return_type = none;
  relationship_name = none;
  reference_to = [];
}

-- A lead with an amount and an account; an account has a flag.
abbrev tenant : List ObjectMeta
tenant =
    record {
      api_name = codes "lead";
      fields = plain_field "a" FieldType.currency ∷ to_account ∷ [];
    }
    ∷ record { api_name = codes "account"; fields = plain_field "vip" FieldType.checkbox ∷ [] }
    ∷ []
  where
    to_account : FieldMeta
    to_account = record {
      api_name = codes "account_id";
      type = FieldType.lookup;
      formula_return_type = none;
      relationship_name = none;
      reference_to = codes "account" ∷ [];
    }

-- One of the names that every object inherits.
abbrev inherits : Text → Bool
inherits name = text_eq name (codes "constructor")

resolve_iff_example :
    (resolve inherits tenant (codes "lead") (codes "account" ∷ codes "vip" ∷ [])
      ≡ looked (found boolean_type))
    ↔ Leads inherits tenant (codes "lead") (codes "account" ∷ codes "vip" ∷ []) boolean_type
resolve_iff_example =
    resolve_iff inherits tenant (codes "lead") (codes "account" ∷ codes "vip" ∷ []) boolean_type

account_vip :
    resolve inherits tenant (codes "lead") (codes "account" ∷ codes "vip" ∷ [])
    ≡ looked (found boolean_type)
unfolding resolve table_of text_eq object_named lookup_named field_named formula_type_of
account_vip = refl

-- `constructor` of a user and of the organisation.
user_constructor : resolve inherits tenant (codes "user") (codes "constructor" ∷ []) ≡ inherited
unfolding resolve table_of text_eq object_named
user_constructor = refl

org_constructor : resolve_global inherits org (codes "constructor") ≡ inherited_global
unfolding resolve_global text_eq
org_constructor = refl

abbrev lead_quotient : TypedNode
lead_quotient =
    TypedNode.binary number_type divide
      (TypedNode.literal number_type (LiteralValue.text (codes "7")) (span 0 1))
      (TypedNode.field currency_type (codes "a" ∷ []) (span 2 3)) (span 0 3)

abbrev lead_environment : CheckEnvironment
lead_environment = own_environment inherits tenant (codes "lead") false

lead_source-checked : check_formula any_regex lead_environment source none ≡ ok lead_quotient
unfolding check_formula parse is_ident_start check check_field resolve table_of object_named
    field_named check_binary no_picklist formula_type_of binary_type arithmetic check_result
lead_source-checked = refl

amount : resolve inherits tenant (codes "lead") (codes "a" ∷ []) ≡ looked (found currency_type)
unfolding resolve table_of text_eq object_named field_named formula_type_of
amount = refl

lead_quotient-IsOwn : IsOwn inherits tenant (codes "lead") lead_quotient
unfolding IsOwn
lead_quotient-IsOwn = (tt, λ e. absurd (cc (amount, e)))

metadata_environment-Yields_example :
    Yields host number_type (evaluate_formula host (where_a_is (string (codes "2"))) lead_quotient)
metadata_environment-Yields_example =
    metadata_environment-Yields inherits tenant (codes "lead") lead_environment
      (own_environment-IsMetadataEnvironment inherits tenant (codes "lead") false) host
      (where_a_is (string (codes "2"))) any_regex source none lead_quotient lead_source-checked
      lead_quotient-IsOwn
