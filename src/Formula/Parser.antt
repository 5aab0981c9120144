-- ===== src/Formula/Parser.antt =====
-- packages/formula/src/parser.ts: precedence climbing over the tokens. The position is the rest of
-- the tokens; the nesting depth is passed down, since every normal return restores it.
pub mod Returns
use salesmaker.Base.{
  ℕ, zero, suc, ◌+◌, ◌-◌, ◌*◌, Bool, true, false, ◌&&◌, ◌||◌, Option, none, some, List, [], ◌∷◌,
  map, ◌==◌, leb, ltb, if◌then◌else◌, length,
}
use salesmaker.Base.Text.{Text, codes, text_eq}
use salesmaker.Formula.Syntax.{
  Span, Operator, or_or, and_and, equal, not_equal, less, less_equal, greater, greater_equal,
  concat, plus, minus, times, divide, power, bang, UnaryOp, negate, complement, Scope, user, org,
  Node, Args, nil, cons, span_of, with_span, ErrorCode, empty, unexpected_end, unexpected_token,
  expected_close_paren, unknown_global, unknown_function, too_deep, Result, ok, thrown, out_of_fuel,
  ◌>>=◌, fail,
}
use salesmaker.Formula.Lexer.{
  TokenKind, number, text, ident, global, op, open_paren, close_paren, comma, eof, Token, tokenize,
}

-- `INFIX`: left and right binding powers
unfoldable pub infix_power : Operator → Option (ℕ × ℕ)
infix_power or_or = some (10, 11)
infix_power and_and = some (20, 21)
infix_power equal = some (30, 31)
infix_power not_equal = some (30, 31)
infix_power less = some (40, 41)
infix_power less_equal = some (40, 41)
infix_power greater = some (40, 41)
infix_power greater_equal = some (40, 41)
infix_power concat = some (50, 51)
infix_power plus = some (60, 61)
infix_power minus = some (60, 61)
infix_power times = some (70, 71)
infix_power divide = some (70, 71)
infix_power power = some (81, 80)
infix_power bang = none

abbrev prefix_power : ℕ
prefix_power = 90

abbrev pub max_depth : ℕ
max_depth = 100

-- The canonical spelling, which is an operator token's value.
spelling : Operator → Text
spelling or_or = codes "||"
spelling and_and = codes "&&"
spelling equal = codes "="
spelling not_equal = codes "!="
spelling less = codes "<"
spelling less_equal = codes "<="
spelling greater = codes ">"
spelling greater_equal = codes ">="
spelling concat = codes "&"
spelling plus = codes "+"
spelling minus = codes "-"
spelling times = codes "*"
spelling divide = codes "/"
spelling power = codes "^"
spelling bang = codes "!"

-- `t.value || t.kind`: an empty text literal is described by its kind.
describe : TokenKind → Text
unfolding spelling
describe eof = codes "end"
describe (text []) = codes "text"
describe (text (c ∷ v)) = c ∷ v
describe (number v) = v
describe (ident v) = v
describe (global v) = v
describe (op o) = spelling o
describe open_paren = codes "("
describe close_paren = codes ")"
describe comma = codes ","

-- The token at the position and those behind it. The last token is never passed.
abbrev pub Tokens : Type 0
Tokens = Token × List Token

abbrev pub peek : Tokens → Token
peek ts = ts.0

abbrev pub advance : Tokens → Tokens
advance (t, []) = (t, [])
advance (t, u ∷ ts) = (u, ts)

-- `toLowerCase` and `toUpperCase` of identifiers, which are ASCII.
unfoldable pub lower : ℕ → ℕ
lower c = if leb b'A' c && leb c b'Z' then c + 32 else c

unfoldable pub upper : ℕ → ℕ
upper c = if leb b'a' c && leb c b'z' then c - 32 else c

abbrev grow : ℕ → List Text → List Text
grow c [] = (c ∷ []) ∷ []
grow c (part ∷ parts) = (c ∷ part) ∷ parts

-- `split('.')`
split_dots : Text → List Text
split_dots [] = [] ∷ []
split_dots (c ∷ s) = let parts = split_dots s in if c == b'.' then [] ∷ parts else grow c parts

abbrev has_dot : Text → Bool
has_dot [] = false
has_dot (c ∷ s) = c == b'.' || has_dot s

abbrev tail : Text → Text
tail [] = []
tail (c ∷ s) = s

scope_of : Text → Option Scope
scope_of s =
    if text_eq (map lower s) (codes "user")
    then some user
    else if text_eq (map lower s) (codes "org")
    then some org
    else none

-- The case 'global' of `prefix`.
global_scope : Text → Span → Option Scope → Text → Result Node
global_scope value span none name = fail (unknown_global value) span
global_scope value span (some scope) name = ok (Node.global scope (map lower name) span)

global_parts : Text → Span → List Text → Result Node
unfolding global_scope scope_of text_eq lower
global_parts value span (scope ∷ name ∷ []) = global_scope value span (scope_of scope) name
global_parts value span _ = fail (unknown_global value) span

parse_global : Text → Span → Result Node
unfolding split_dots global_parts
parse_global value span = global_parts value span (split_dots (tail value))

-- The case 'ident' of `prefix` that is no call.
parse_name : Text → Span → Node
unfolding split_dots text_eq lower upper
parse_name value span =
    if text_eq (map upper value) (codes "TRUE")
    then Node.boolean true span
    else if text_eq (map upper value) (codes "FALSE")
    then Node.boolean false span
    else if text_eq (map upper value) (codes "NULL")
    then Node.null span
    else Node.field (split_dots (map lower value)) span

-- `.5` reads `0.5`.
number_value : Text → Text
number_value [] = []
number_value (c ∷ v) = if c == b'.' then b'0' ∷ c ∷ v else c ∷ v

abbrev join_spans : Span → Span → Span
join_spans a b = record { start = a.start; end = b.end }

-- `expect(')', 'expected_close_paren')`: the span of the parenthesis, and the tokens behind it.
abbrev closing : TokenKind → Tokens → Result (Span × Tokens)
closing close_paren ts = ok ((peek ts).span, advance ts)
closing kind ts = fail (expected_close_paren (describe kind)) (peek ts).span

expect_close : Tokens → Result (Span × Tokens)
unfolding describe
expect_close ts = closing (peek ts).kind ts

abbrev is_open : TokenKind → Bool
is_open open_paren = true
is_open _ = false

abbrev is_close : TokenKind → Bool
is_close close_paren = true
is_close _ = false

-- What the recursive calls of a part of the parser do: `expression` by its binding power.
abbrev pub Expression : Type 0
Expression = ℕ → Tokens → Result (Node × Tokens)

-- One round of the loop of `expression` over infix operators; `more` goes on with the loop.
infix_operator :
    Expression
    → (Node → Tokens → Result (Node × Tokens))
    → ℕ
    → Node
    → Tokens
    → Operator
    → Option (ℕ × ℕ)
    → Result (Node × Tokens)
infix_operator expr more min left ts o none =
    fail (unexpected_token (describe (op o))) (peek ts).span
infix_operator expr more min left ts o (some (l, r)) = elim (ltb l min) [
  | true ↦ ok (left, ts)
  | false ↦ do
    (right, rest) ← expr r (advance ts)
    more (Node.binary o left right (join_spans (span_of left) (span_of right))) rest
]

infix_token :
    Expression
    → (Node → Tokens → Result (Node × Tokens))
    → ℕ
    → Node
    → Tokens
    → TokenKind
    → Result (Node × Tokens)
unfolding infix_operator infix_power describe
infix_token expr more min left ts (op o) = infix_operator expr more min left ts o (infix_power o)
infix_token expr more min left ts _ = ok (left, ts)

-- `prefix` at an operator.
unary_operator : Expression → Tokens → Operator → Result (Node × Tokens)
unfolding describe
unary_operator expr ts minus = do
  (operand, rest) ← expr prefix_power (advance ts)
  ok (Node.unary negate operand (join_spans (peek ts).span (span_of operand)), rest)
unary_operator expr ts bang = do
  (operand, rest) ← expr prefix_power (advance ts)
  ok (Node.unary complement operand (join_spans (peek ts).span (span_of operand)), rest)
unary_operator expr ts plus = expr prefix_power (advance ts)
unary_operator expr ts o = fail (unexpected_token (describe (op o))) (peek ts).span

-- `prefix`, by the kind of the token at the position; `call` parses a call from its parenthesis.
primary_token :
    Expression
    → (Text → Span → Tokens → Result (Node × Tokens))
    → Tokens
    → TokenKind
    → Result (Node × Tokens)
unfolding unary_operator parse_global parse_name number_value expect_close describe
primary_token expr call ts (number value) =
    ok (Node.number (number_value value) (peek ts).span, advance ts)
primary_token expr call ts (text value) = ok (Node.text value (peek ts).span, advance ts)
primary_token expr call ts (global value) = do
  node ← parse_global value (peek ts).span
  ok (node, advance ts)
primary_token expr call ts (ident value) =
    if is_open (peek (advance ts)).kind
    then call value (peek ts).span (advance ts)
    else ok (parse_name value (peek ts).span, advance ts)
primary_token expr call ts open_paren = do
  (inner, rest) ← expr 0 (advance ts)
  (close, rest') ← expect_close rest
  ok (with_span (join_spans (peek ts).span close) inner, rest')
primary_token expr call ts (op o) = unary_operator expr ts o
primary_token expr call ts eof = fail unexpected_end (peek ts).span
primary_token expr call ts kind = fail (unexpected_token (describe kind)) (peek ts).span

-- `call`, at the opening parenthesis; `arguments` parses one argument or more.
call_at : (Tokens → Result (Args × Tokens)) → Text → Span → Tokens → Result (Node × Tokens)
unfolding expect_close upper
call_at arguments name span ts = elim (has_dot name) [
  | true ↦ fail (unknown_function name) span
  | false ↦ do
    (args, rest) ←
        (if is_close (peek (advance ts)).kind then ok (nil, advance ts) else arguments (advance ts))
    (close, rest') ← expect_close rest
    ok (Node.call (map upper name) args (join_spans span close), rest')
]

-- The loop of `call` behind an argument.
more_arguments :
    (Tokens → Result (Args × Tokens)) → Node → Tokens → TokenKind → Result (Args × Tokens)
more_arguments arguments arg ts comma = do
  (args, rest) ← arguments (advance ts)
  ok (cons arg args, rest)
more_arguments arguments arg ts _ = ok (cons arg nil, ts)

mutual
  unfolding infix_token primary_token call_at more_arguments

  expression : ℕ → ℕ → Expression
  expression zero d min ts = out_of_fuel
  expression (suc f) d min ts = elim (ltb max_depth (suc d)) [
    | true ↦ fail (too_deep max_depth) (peek ts).span
    | false ↦ do (left, rest) ← primary f (suc d) ts; operators f (suc d) min left rest
  ]

  operators : ℕ → ℕ → ℕ → Node → Tokens → Result (Node × Tokens)
  operators zero d min left ts = out_of_fuel
  operators (suc f) d min left ts =
      infix_token (expression f d) (operators f d min) min left ts (peek ts).kind

  primary : ℕ → ℕ → Tokens → Result (Node × Tokens)
  primary zero d ts = out_of_fuel
  primary (suc f) d ts = primary_token (expression f d) (call f d) ts (peek ts).kind

  call : ℕ → ℕ → Text → Span → Tokens → Result (Node × Tokens)
  call zero d name span ts = out_of_fuel
  call (suc f) d name span ts = call_at (arguments f d) name span ts

  arguments : ℕ → ℕ → Tokens → Result (Args × Tokens)
  arguments zero d ts = out_of_fuel
  arguments (suc f) d ts = do
    (arg, rest) ← expression f d 0 ts
    more_arguments (arguments f d) arg rest (peek rest).kind

-- `Parser.parse`: the whole of the tokens is one expression.
abbrev at_end : Node → TokenKind → Span → Result Node
at_end node eof span = ok node
at_end node kind span = fail (unexpected_token (describe kind)) span

abbrev parse_expression : ℕ → Tokens → Result Node
parse_expression f ts = do
  (node, rest) ← expression f 0 0 ts
  at_end node (peek rest).kind (peek rest).span

parse_from : ℕ → Tokens → TokenKind → Result Node
unfolding expression describe
parse_from f ts eof = fail empty (peek ts).span
parse_from f ts kind = parse_expression f ts

parse_tokens : ℕ → List Token → Result Node
unfolding parse_from
parse_tokens f [] = thrown
parse_tokens f (t ∷ ts) = parse_from f (t, ts) t.kind

-- `parse`, with fuel for every token.
unfoldable pub parse : Text → Result Node
unfolding parse_tokens tokenize
parse source = do tokens ← tokenize source; parse_tokens (3 * length tokens + 2) tokens
