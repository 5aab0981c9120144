-- ===== src/Formula/Check/Typed.antt =====
-- The rules of the language of packages/formula, on typed expressions.
use salesmaker.Base.{suc, ◌≤◌, ◌≡◌, refl, ap, true, false, ◌||◌, some, List, length}
use salesmaker.Base.Text.{Text}
use salesmaker.Formula.Syntax.{
  Span, Operator, UnaryOp, Scope, Node, Args, FormulaType, number_type, boolean_type, null_type,
  picklist_type, multi_picklist_type,
}
use salesmaker.Formula.Types.{
  type_eq, is_numeric, found, CheckEnvironment, LiteralValue, text, boolean, null, TypedNode,
  TypedArgs, type_of, args_list,
}
use salesmaker.Formula.Functions.{Function, function_of, takes, needs_prior}
use salesmaker.Formula.Rules.{max_hops}
use salesmaker.Formula.Check.{count_args}
use salesmaker.Formula.Check.Parameters.{accepts}
use salesmaker.Formula.Check.Results.{or_null, operates, literal_is, gives}

-- A typed expression with its types taken off.
abbrev pub erase_literal : FormulaType → LiteralValue → Span → Node
erase_literal number_type (text v) s = Node.number v s
erase_literal t (text v) s = Node.text v s
erase_literal t (boolean b) s = Node.boolean b s
erase_literal t null s = Node.null s

unfoldable mutual
  pub erase : TypedNode → Node
  erase (TypedNode.literal t v s) = erase_literal t v s
  erase (TypedNode.field t path s) = Node.field path s
  erase (TypedNode.global t scope name s) = Node.global scope name s
  erase (TypedNode.unary t o a s) = Node.unary o (erase a) s
  erase (TypedNode.binary t o a b s) = Node.binary o (erase a) (erase b) s
  erase (TypedNode.call t name args s) = Node.call name (erase_args args) s

  pub erase_args : TypedArgs → Args
  erase_args TypedArgs.nil = Args.nil
  erase_args (TypedArgs.cons a rest) = Args.cons (erase a) (erase_args rest)

-- Neither of the two picklist types.
abbrev pub IsPlain : FormulaType → Type 0
IsPlain t = (type_eq t picklist_type || type_eq t multi_picklist_type) ≡ false

-- The rules, for every part of an expression: a literal has the type of its value; a field is one
-- that the environment knows, at most `max_hops` lookups away, and has its type; so has a global; a
-- minus stands before a number or null, a `!` before a truth value or null; no side of an operator is
-- a picklist, and the tables of operators (Check.Operators) have a line for the types of its sides and
-- of its result; a call is of a function of the table, with as many arguments as it takes, each of
-- which stands for its parameter by the table of parameters (Check.Parameters), with a type that it
-- gives, and of one that reads prior values only where these are allowed. That the pattern of REGEX is
-- one that the runtime takes is not among the rules.
mutual
  pub data IsTyped (env : CheckEnvironment) : TypedNode → Type 0 where
    literal :
        {t : FormulaType} {v : LiteralValue} {s : Span}
        → literal_is t v ≡ true
        → IsTyped env (TypedNode.literal t v s)
    field :
        {t : FormulaType} {path : List Text} {s : Span}
        → length path ≤ suc max_hops
        → env.field path ≡ found t
        → IsTyped env (TypedNode.field t path s)
    global :
        {t : FormulaType} {scope : Scope} {name : Text} {s : Span}
        → env.global scope name ≡ some t
        → IsTyped env (TypedNode.global t scope name s)
    negate :
        {a : TypedNode} {s : Span}
        → IsTyped env a
        → (is_numeric (type_of a) || type_eq (type_of a) null_type) ≡ true
        → IsTyped env (TypedNode.unary (type_of a) UnaryOp.negate a s)
    complement :
        {a : TypedNode} {s : Span}
        → IsTyped env a
        → or_null boolean_type (type_of a) ≡ true
        → IsTyped env (TypedNode.unary boolean_type UnaryOp.complement a s)
    binary :
        {t : FormulaType} {o : Operator} {a b : TypedNode} {s : Span}
        → IsTyped env a
        → IsTyped env b
        → IsPlain (type_of a)
        → IsPlain (type_of b)
        → operates o (type_of a) (type_of b) t ≡ true
        → IsTyped env (TypedNode.binary t o a b s)
    call :
        {t : FormulaType} {name : Text} {f : Function} {args : TypedArgs} {s : Span}
        → AllTyped env args
        → function_of name ≡ some f
        → takes f (length (args_list args)) ≡ true
        → (needs_prior f ≡ true → env.allow_prior_values ≡ true)
        → accepts f (args_list args) ≡ true
        → gives f (args_list args) t ≡ true
        → IsTyped env (TypedNode.call t name args s)

  pub data AllTyped (env : CheckEnvironment) : TypedArgs → Type 0 where
    nil : AllTyped env TypedArgs.nil
    cons :
        {a : TypedNode} {rest : TypedArgs}
        → IsTyped env a
        → AllTyped env rest
        → AllTyped env (TypedArgs.cons a rest)

-- Typed, and the expression `n` underneath.
abbrev pub Types : CheckEnvironment → Node → TypedNode → Type 0
Types env n t = (erase t ≡ n) × IsTyped env t

-- The number of the arguments does not change.
pub length-erase_args : (args : TypedArgs) → length (args_list args) ≡ count_args (erase_args args)
unfolding erase_args
length-erase_args TypedArgs.nil = refl
length-erase_args (TypedArgs.cons a rest) = ap suc (length-erase_args rest)
