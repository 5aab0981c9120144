-- ===== src/Formula/Lexer.antt =====
-- packages/formula/src/lexer.ts. The rest of the source stands for the position.
pub mod Spans
use salesmaker.Base.{
  ℕ, zero, suc, ◌+◌, ◌-◌, Bool, true, false, ◌&&◌, ◌||◌, Option, none, some, List, [], ◌∷◌, ◌++◌,
  ◌==◌, leb, ltb, if◌then◌else◌, length, drop,
}
use salesmaker.Base.Text.{Text, codes}
use salesmaker.Formula.Syntax.{
  Span, Operator, or_or, and_and, equal, not_equal, less, less_equal, greater, greater_equal,
  concat, plus, minus, times, divide, power, bang, ErrorCode, too_long, unterminated_comment,
  invalid_number, unterminated_text, invalid_escape, unexpected_character, FormulaError, Result, ok,
  err, out_of_fuel, ◌>>=◌, fail,
}

pub data TokenKind : Type 0 where
  number text ident global : Text → TokenKind
  op : Operator → TokenKind
  open_paren close_paren comma eof : TokenKind

pub record Token : Type 0 where
  pub kind : TokenKind
  pub span : Span

abbrev operators : List (Text × Operator)
operators =
    (codes "&&", and_and)
    ∷ (codes "||", or_or)
    ∷ (codes "==", equal)
    ∷ (codes "!=", not_equal)
    ∷ (codes "<>", not_equal)
    ∷ (codes "<=", less_equal)
    ∷ (codes ">=", greater_equal)
    ∷ (codes "+", plus)
    ∷ (codes "-", minus)
    ∷ (codes "*", times)
    ∷ (codes "/", divide)
    ∷ (codes "^", power)
    ∷ (codes "&", concat)
    ∷ (codes "=", equal)
    ∷ (codes "<", less)
    ∷ (codes ">", greater)
    ∷ (codes "!", bang)
    ∷ []

unfoldable pub in_range : ℕ → ℕ → ℕ → Bool
in_range lo hi c = leb lo c && leb c hi

unfoldable pub is_digit : ℕ → Bool
unfolding in_range
is_digit c = in_range b'0' b'9' c

-- `IDENT_START` and `IDENT_PART`
unfoldable pub is_ident_start : ℕ → Bool
unfolding in_range
is_ident_start c = in_range b'A' b'Z' c || in_range b'a' b'z' c || c == b'_'

unfoldable pub is_ident_part : ℕ → Bool
unfolding is_ident_start is_digit
is_ident_part c = is_ident_start c || is_digit c

-- `\s` of a regular expression
unfoldable pub is_space : ℕ → Bool
unfolding in_range
is_space c =
    in_range 9 13 c
    || c == 32
    || c == 0xA0
    || c == 0x1680
    || in_range 0x2000 0x200A c
    || c == 0x2028
    || c == 0x2029
    || c == 0x202F
    || c == 0x205F
    || c == 0x3000
    || c == 0xFEFF

abbrev max_formula_length : ℕ
max_formula_length = 5000

-- A test of `source.charAt(i)`, which is the empty string behind the end and passes no test.
abbrev head_is : (ℕ → Bool) → Text → Bool
head_is p [] = false
head_is p (c ∷ r) = p c

abbrev tail : Text → Text
tail [] = []
tail (c ∷ r) = r

-- The longest prefix whose characters pass a test, and what follows it.
span_while : (ℕ → Bool) → Text → Text × Text
span_while p [] = ([], [])
span_while p (c ∷ r) = let (a, rest) = span_while p r in if p c then (c ∷ a, rest) else ([], c ∷ r)

-- The two loops over digits, around an optional point.
lex_number : Text → Text × Text
unfolding span_while is_digit
lex_number s =
    let (whole, r) = span_while is_digit s in
    let (fraction, r') = span_while is_digit (tail r) in
    if head_is (λ c. c == b'.') r then (whole ++ b'.' ∷ fraction, r') else (whole, r)

-- The identifier's loop: dots are part of it where a name follows.
lex_ident : Text → Text × Text
lex_ident [] = ([], [])
lex_ident (c ∷ r) =
    let (a, rest) = lex_ident r in
    if is_ident_part c || (c == b'.' && head_is is_ident_start r)
    then (c ∷ a, rest)
    else ([], c ∷ r)

-- `source.indexOf('*/', i)`, as what follows it.
after_comment : Text → Option Text
after_comment [] = none
after_comment (a ∷ []) = none
after_comment (a ∷ b ∷ r) =
    let rest = after_comment (b ∷ r) in if a == b'*' && b == b'/' then some r else rest

-- The table of escapes, at one character.
escape_of : ℕ → Option ℕ
escape_of c =
    if c == b'n'
    then some 10
    else if c == b't'
    then some 9
    else if c == b'\\'
    then some c
    else if c == b'\''
    then some c
    else if c == b'"'
    then some c
    else none

-- The loop over a text literal: the value and the rest, or the error with its span's start and
-- whether the span is the escape's.
pub data Literal : Type 0 where
  closed : Text → Text → Literal
  unterminated : Literal
  bad_escape : (position : ℕ) → Literal

abbrev prepend : ℕ → Literal → Literal
prepend c (closed v r) = closed (c ∷ v) r
prepend c unterminated = unterminated
prepend c (bad_escape i) = bad_escape i

abbrev escaped : Option ℕ → ℕ → Literal → Literal
escaped none i rest = bad_escape i
escaped (some d) i rest = prepend d rest

lex_text : ℕ → ℕ → Text → Literal
unfolding escape_of
lex_text quote i [] = unterminated
lex_text quote i (c ∷ []) =
    if c == quote then closed [] [] else if c == b'\\' then bad_escape i else unterminated
lex_text quote i (c ∷ next ∷ r) =
    let after_escape = lex_text quote (i + 2) r in
    let after_char = lex_text quote (i + 1) (next ∷ r) in
    if c == quote
    then closed [] (next ∷ r)
    else if c == b'\\'
    then escaped (escape_of next) i after_escape
    else prepend c after_char

starts_with : Text → Text → Bool
starts_with [] s = true
starts_with (c ∷ p) [] = false
starts_with (c ∷ p) (d ∷ s) = c == d && starts_with p s

-- `OPERATORS.find`
find_operator : List (Text × Operator) → Text → Option (Text × Operator)
unfolding starts_with
find_operator [] s = none
find_operator ((spelling, o) ∷ table) s =
    let later = find_operator table s in
    if starts_with spelling s then some (spelling, o) else later

-- One round of the loop over the source.
pub data Step : Type 0 where
  skip : (rest : Text) → Step
  token : TokenKind → (rest : Text) → Step
  stop : FormulaError → Step

abbrev stop_at : ErrorCode → ℕ → ℕ → Step
stop_at code start end = stop (record { code = code; span = record { start = start; end = end } })

-- The position of a rest of a source of length `n`.
abbrev position : ℕ → Text → ℕ
position n rest = n - length rest

comment_step : ℕ → ℕ → Option Text → Step
comment_step n i none = stop_at unterminated_comment i n
comment_step n i (some rest) = skip rest

literal_step : ℕ → ℕ → Literal → Step
literal_step n i (closed value rest) = token (TokenKind.text value) rest
literal_step n i unterminated = stop_at unterminated_text i n
literal_step n i (bad_escape at) = stop_at invalid_escape at (at + 2)

operator_step : ℕ → ℕ → Text → Option (Text × Operator) → Step
operator_step i c s none = stop_at (unexpected_character (some (c ∷ []))) i (i + 1)
operator_step i c s (some (spelling, o)) = token (op o) (drop (length spelling) s)

-- A number may not run into a name.
number_step : ℕ → ℕ → Text → Text → Step
number_step n i digits rest =
    if head_is is_ident_start rest
    then stop_at invalid_number i (position n rest + 1)
    else token (TokenKind.number digits) rest

-- A dollar sign alone is no name.
name_step : ℕ → ℕ → Text → Text → Step
name_step i c name rest =
    if c == b'$' && length (c ∷ name) == 1
    then stop_at (unexpected_character none) i (i + 1)
    else token (if c == b'$' then global (c ∷ name) else ident (c ∷ name)) rest

lex_step : ℕ → ℕ → ℕ → Text → Step
lex_step n i c r =
    let (digits, after_digits) = lex_number (c ∷ r) in
    let (name, after_name) = lex_ident r in
    if is_space c
    then skip r
    else if c == b'/' && head_is (λ d. d == b'*') r
    then comment_step n i (after_comment (tail r))
    else if is_digit c || (c == b'.' && head_is is_digit r)
    then number_step n i digits after_digits
    else if c == b'\'' || c == b'"'
    then literal_step n i (lex_text c (i + 1) r)
    else if c == b'$' || is_ident_start c
    then name_step i c name after_name
    else if c == b'('
    then token open_paren r
    else if c == b')'
    then token close_paren r
    else if c == b','
    then token comma r
    else operator_step i c (c ∷ r) (find_operator operators (c ∷ r))

-- What a round adds to the tokens of the rest, which `more` lexes.
lex_round : (Text → Result (List Token)) → ℕ → ℕ → Step → Result (List Token)
lex_round more n start (skip rest) = more rest
lex_round more n start (token kind rest) = do
  tokens ← more rest
  ok (record { kind = kind; span = record { start = start; end = position n rest } } ∷ tokens)
lex_round more n start (stop e) = err e

-- The loop, whose rounds each take a character at least.
lex : ℕ → ℕ → Text → Result (List Token)
lex zero n s = out_of_fuel
lex (suc f) n [] = ok (record { kind = eof; span = record { start = n; end = n } } ∷ [])
lex (suc f) n (c ∷ r) =
    lex_round (lex f n) n (position n (c ∷ r)) (lex_step n (position n (c ∷ r)) c r)

unfoldable pub tokenize : Text → Result (List Token)
unfolding lex lex_round lex_step lex_number lex_ident comment_step literal_step operator_step
    number_step name_step after_comment lex_text find_operator is_space
tokenize source =
    if ltb max_formula_length (length source)
    then fail (too_long max_formula_length)
        (record { start = max_formula_length; end = length source })
    else lex (suc (length source)) (length source) source
