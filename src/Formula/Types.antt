-- ===== src/Formula/Types.antt =====
-- packages/formula/src/types.ts: the types of the language, and the environment of the checker.
use salesmaker.Base.{ℕ, Bool, true, false, ◌||◌, ◌==◌, Option, List, [], ◌∷◌}
use salesmaker.Base.Text.{Text}
use salesmaker.Formula.Syntax.{
  Span, Operator, UnaryOp, Scope, FormulaType, text_type, number_type, currency_type, percent_type,
  boolean_type, date_type, date_time_type, time_type, picklist_type, multi_picklist_type, null_type,
}

-- A number for each type, by which they are compared.
abbrev pub type_code : FormulaType → ℕ
type_code text_type = 0
type_code number_type = 1
type_code currency_type = 2
type_code percent_type = 3
type_code boolean_type = 4
type_code date_type = 5
type_code date_time_type = 6
type_code time_type = 7
type_code picklist_type = 8
type_code multi_picklist_type = 9
type_code null_type = 10

-- `a === b`
abbrev pub type_eq : FormulaType → FormulaType → Bool
type_eq a b = type_code a == type_code b

abbrev pub is_numeric : FormulaType → Bool
is_numeric number_type = true
is_numeric currency_type = true
is_numeric percent_type = true
is_numeric _ = false

-- `types.includes(t)`, `COMPARABLE.has(t)`
abbrev pub one_of : FormulaType → List FormulaType → Bool
one_of t [] = false
one_of t (u ∷ us) = type_eq t u || one_of t us

pub data FieldLookup : Type 0 where
  found : FormulaType → FieldLookup
  unknown_field not_a_relationship too_many_hops : FieldLookup

pub record CheckEnvironment : Type 0 where
  pub field : List Text → FieldLookup
  pub global : Scope → Text → Option FormulaType
  pub allow_prior_values : Bool

pub data LiteralValue : Type 0 where
  text : Text → LiteralValue
  boolean : Bool → LiteralValue
  null : LiteralValue

mutual
  pub data TypedNode : Type 0 where
    literal : FormulaType → LiteralValue → Span → TypedNode
    field : FormulaType → List Text → Span → TypedNode
    global : FormulaType → Scope → Text → Span → TypedNode
    unary : FormulaType → UnaryOp → TypedNode → Span → TypedNode
    binary : FormulaType → Operator → TypedNode → TypedNode → Span → TypedNode
    call : FormulaType → Text → TypedArgs → Span → TypedNode

  pub data TypedArgs : Type 0 where
    nil : TypedArgs
    cons : TypedNode → TypedArgs → TypedArgs

abbrev pub type_of : TypedNode → FormulaType
type_of (literal t _ _) = t
type_of (field t _ _) = t
type_of (global t _ _ _) = t
type_of (unary t _ _ _) = t
type_of (binary t _ _ _ _) = t
type_of (call t _ _ _) = t

abbrev pub span_of : TypedNode → Span
span_of (literal _ _ s) = s
span_of (field _ _ s) = s
span_of (global _ _ _ s) = s
span_of (unary _ _ _ s) = s
span_of (binary _ _ _ _ s) = s
span_of (call _ _ _ s) = s

abbrev pub args_list : TypedArgs → List TypedNode
args_list nil = []
args_list (cons a rest) = a ∷ args_list rest
