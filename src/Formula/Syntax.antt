-- ===== src/Formula/Syntax.antt =====
-- packages/formula/src/ast.ts and types.ts: expressions, types, errors, and what may throw.
use salesmaker.Base.{ℕ, Bool, Option, List}
use salesmaker.Base.Text.{Text}

pub record Span : Type 0 where
  pub start : ℕ
  pub end : ℕ

-- The canonical spellings of `op` tokens. `bang` is only ever a prefix.
pub data Operator : Type 0 where
  or_or and_and equal not_equal less less_equal greater greater_equal : Operator
  concat plus minus times divide power bang : Operator

pub data UnaryOp : Type 0 where
  negate complement : UnaryOp

pub data Scope : Type 0 where
  user org : Scope

mutual
  pub data Node : Type 0 where
    number : Text → Span → Node
    text : Text → Span → Node
    boolean : Bool → Span → Node
    null : Span → Node
    field : List Text → Span → Node
    global : Scope → Text → Span → Node
    unary : UnaryOp → Node → Span → Node
    binary : Operator → Node → Node → Span → Node
    call : Text → Args → Span → Node

  pub data Args : Type 0 where
    nil : Args
    cons : Node → Args → Args

abbrev pub span_of : Node → Span
span_of (number _ s) = s
span_of (text _ s) = s
span_of (boolean _ s) = s
span_of (null s) = s
span_of (field _ s) = s
span_of (global _ _ s) = s
span_of (unary _ _ s) = s
span_of (binary _ _ _ s) = s
span_of (call _ _ s) = s

-- `{ ...inner, span }`
abbrev pub with_span : Span → Node → Node
with_span s (number v _) = number v s
with_span s (text v _) = text v s
with_span s (boolean v _) = boolean v s
with_span s (null _) = null s
with_span s (field p _) = field p s
with_span s (global c n _) = global c n s
with_span s (unary o a _) = unary o a s
with_span s (binary o a b _) = binary o a b s
with_span s (call f xs _) = call f xs s

pub data FormulaType : Type 0 where
  text_type number_type currency_type percent_type boolean_type date_type date_time_type time_type
        picklist_type multi_picklist_type null_type :
      FormulaType

-- The codes of a `FormulaError`, each with its parameters.
pub data ErrorCode : Type 0 where
  too_long : ℕ → ErrorCode
  unterminated_comment invalid_number unterminated_text invalid_escape : ErrorCode
  unexpected_character : Option Text → ErrorCode
  empty unexpected_end : ErrorCode
  unexpected_token expected_close_paren unknown_global unknown_function : Text → ErrorCode
  too_deep too_many_hops : ℕ → ErrorCode
  unknown_field not_a_relationship too_many_hops_found : List Text → ErrorCode
  expected_type : Option FormulaType → FormulaType → ErrorCode
  expected_number expected_picklist expected_multipicklist expected_text : FormulaType → ErrorCode
  picklist_needs_function case_needs_else cannot_infer_type invalid_regex : ErrorCode
  type_mismatch branch_type_mismatch wrong_result_type : FormulaType → FormulaType → ErrorCode
  wrong_argument_count : Text → ℕ → Option ℕ → ℕ → ErrorCode
  division_by_zero invalid_power invalid_date : ErrorCode
  regex_input_too_long : ℕ → ErrorCode
  prior_not_allowed expected_field expected_text_literal : Text → ErrorCode

pub record FormulaError : Type 0 where
  pub code : ErrorCode
  pub span : Span

-- `err` is a thrown `FormulaSyntaxError` or `FormulaTypeError`; `thrown` is any other exception,
-- such as reading a property of undefined. `out_of_fuel` is the model's own.
pub data Result {ℓ} (A : Type ℓ) : Type ℓ where
  ok : A → Result A
  err : FormulaError → Result A
  thrown : Result A
  out_of_fuel : Result A

module _ {ℓ κ} {A : Type ℓ} {B : Type κ} where
  infixl 1 ◌>>=◌ ◌>>◌
  abbrev pub ◌>>=◌ : Result A → (A → Result B) → Result B
  ok a >>= f = f a
  err e >>= f = err e
  thrown >>= f = thrown
  out_of_fuel >>= f = out_of_fuel

  abbrev pub ◌>>◌ : Result A → Result B → Result B
  r >> s = r >>= λ _. s

abbrev pub fail {ℓ} : {A : Type ℓ} → ErrorCode → Span → Result A
fail code span = err (record { code = code; span = span })
