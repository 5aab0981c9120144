-- ===== src/Formula/Lexer/Spans.antt =====
-- The lexer returns on every source, and its tokens stand one behind another in the source.
use salesmaker.Base.{
  ℕ, zero, suc, ◌+◌, ◌-◌, ◌≤◌, ◌<◌, ◌≡◌, refl, ◌≢◌, Bool, true, false, ◌&&◌, ◌||◌, Option, none,
  some, List, [], ◌∷◌, ◌==◌, ltb, if◌then◌else◌, length, drop, arith, Bool-cases, inl, inr, All,
}
use salesmaker.Base.Text.{Text}
use salesmaker.Formula.Syntax.{Operator, FormulaError, Result}
use salesmaker.Formula.Post.{Post, returns, throws, ◌⟫◌, weaken}
use salesmaker.Formula.Lexer.{
  TokenKind, number, ident, global, open_paren, close_paren, comma, eof, Token, operators, is_space,
  is_digit, is_ident_start, head_is, tail, span_while, lex_number, lex_ident, after_comment,
  Literal, closed, unterminated, bad_escape, prepend, escaped, escape_of, lex_text, find_operator,
  starts_with, Step, skip, token, stop, position, comment_step, literal_step, operator_step,
  number_step, name_step, lex_round, lex_step, lex, tokenize, max_formula_length,
}

-- From position `i` on, the tokens follow one another inside a source of length `n`, none of them
-- is empty, and the one end marker stands last.
pub data Chain (n : ℕ) : ℕ → List Token → Type 0 where
  last :
      {i : ℕ} → i ≤ n → Chain n i (record { kind = eof; span = record { start = n; end = n } } ∷ [])
  next :
      {i : ℕ} {t : Token} {ts : List Token}
      → i ≤ t.span.start
      → t.span.start < t.span.end
      → t.span.end ≤ n
      → t.kind ≢ eof
      → Chain n t.span.end ts
      → Chain n i (t ∷ ts)

-- A round leaves at most `m` characters, and makes no end marker.
data Moves (m : ℕ) : Step → Type 0 where
  skips : {rest : Text} → length rest ≤ m → Moves m (skip rest)
  tokens :
      {kind : TokenKind} {rest : Text} → kind ≢ eof → length rest ≤ m → Moves m (token kind rest)
  stops : {e : FormulaError} → Moves m (stop e)

length-span_while : (p : ℕ → Bool) (s : Text) → length (span_while p s).1 ≤ length s
unfolding span_while
length-span_while p [] = omega arith
length-span_while p (c ∷ r) = ground (arith, length-span_while p r)

length-tail : (s : Text) → length (tail s) ≤ length s
length-tail [] = omega arith
length-tail (c ∷ s) = omega arith

length-lex_number :
    (c : ℕ) (r : Text) → (is_digit c || c == b'.') ≡ true → length (lex_number (c ∷ r)).1 ≤ length r
unfolding lex_number span_while
length-lex_number c r h = ground (
  arith,
  length-span_while is_digit r,
  length-span_while is_digit (tail r),
  length-span_while is_digit (tail (span_while is_digit r).1),
  length-tail (span_while is_digit r).1,
)

length-lex_ident : (s : Text) → length (lex_ident s).1 ≤ length s
unfolding lex_ident
length-lex_ident [] = omega arith
length-lex_ident (c ∷ r) = ground (arith, length-lex_ident r)

after_comment-shorter :
    (s : Text) {rest : Text} → after_comment s ≡ some rest → length rest ≤ length s
unfolding after_comment
after_comment-shorter [] e = cc
after_comment-shorter (a ∷ []) e = cc
after_comment-shorter (a ∷ b ∷ r) {rest} e =
    ground (arith, after_comment-shorter (b ∷ r) {rest = rest})

-- A closed literal leaves no more than it was given.
abbrev Leaves : ℕ → Literal → Type 0
Leaves m (closed v rest) = length rest ≤ m
Leaves m unterminated = Unit
Leaves m (bad_escape i) = Unit

prepend-Leaves : (c m : ℕ) (l : Literal) → Leaves m l → Leaves (suc m) (prepend c l)
prepend-Leaves c m (closed v r) h = omega arith
prepend-Leaves c m unterminated h = tt
prepend-Leaves c m (bad_escape i) h = tt

escaped-Leaves :
    (o : Option ℕ) (i m : ℕ) (l : Literal) → Leaves m l → Leaves (suc (suc m)) (escaped o i l)
escaped-Leaves none i m l h = tt
escaped-Leaves (some d) i m (closed v r) h = omega arith
escaped-Leaves (some d) i m unterminated h = tt
escaped-Leaves (some d) i m (bad_escape j) h = tt

lex_text-Leaves : (quote i : ℕ) (s : Text) → Leaves (length s) (lex_text quote i s)
unfolding lex_text
lex_text-Leaves quote i [] = tt
lex_text-Leaves quote i (c ∷ []) = ground arith
lex_text-Leaves quote i (c ∷ d ∷ r) = elim (Bool-cases (c == quote)) [
  | inl e ↦ rw e (omega arith)
  | inr e ↦ rw e (elim (Bool-cases (c == b'\\')) [
    | inl e' ↦ rw e' (
        escaped-Leaves (escape_of d) i _ (lex_text quote (i + 2) r)
          (lex_text-Leaves quote (i + 2) r))
    | inr e' ↦ rw e' (
        prepend-Leaves c _ (lex_text quote (i + 1) (d ∷ r)) (lex_text-Leaves quote (i + 1) (d ∷ r)))
  ])
]

-- What `find` finds has a spelling that is not empty.
abbrev Spelled : Option (Text × Operator) → Type 0
Spelled none = Unit
Spelled (some p) = 0 < length p.0

find_operator-Spelled :
    (table : List (Text × Operator)) (s : Text)
    → All (λ q. 0 < length q.0) table
    → Spelled (find_operator table s)
unfolding find_operator
find_operator-Spelled [] s h = tt
find_operator-Spelled (q ∷ table) s (h, hs) = elim (Bool-cases (starts_with q.0 s)) [
  | inl hit ↦ rw hit h
  | inr miss ↦ rw miss (find_operator-Spelled table s hs)
]

length-drop : (k : ℕ) (r : Text) → length (drop k r) ≤ length r
length-drop zero r = omega arith
length-drop (suc k) [] = omega arith
length-drop (suc k) (c ∷ r) = omega (arith, length-drop k r)

length-drop_pos : (k : ℕ) (c : ℕ) (r : Text) → 0 < k → length (drop k (c ∷ r)) ≤ length r
length-drop_pos zero c r h = absurd (omega arith)
length-drop_pos (suc k) c r h = length-drop k r

-- What follows a comment is no longer than what it was looked for in.
abbrev Within : ℕ → Option Text → Type 0
Within m none = Unit
Within m (some rest) = length rest ≤ m

after_comment-Within : (s : Text) → Within (length s) (after_comment s)
after_comment-Within s = go (after_comment s) refl
  where
    go : (o : Option Text) → after_comment s ≡ o → Within (length s) o
    go none e = tt
    go (some rest) e = after_comment-shorter s e

comment_step-Moves :
    (n i m k : ℕ) (o : Option Text) → Within m o → m ≤ k → Moves k (comment_step n i o)
unfolding comment_step
comment_step-Moves n i m k none w h = stops
comment_step-Moves n i m k (some rest) w h = skips (omega arith)

literal_step-Moves : (n i m : ℕ) (l : Literal) → Leaves m l → Moves m (literal_step n i l)
unfolding literal_step
literal_step-Moves n i m (closed v rest) w = tokens (λ e. cc) w
literal_step-Moves n i m unterminated w = stops
literal_step-Moves n i m (bad_escape at) w = stops

operator_step-Moves :
    (i c : ℕ) (r : Text) (o : Option (Text × Operator))
    → Spelled o
    → Moves (length r) (operator_step i c (c ∷ r) o)
unfolding operator_step
operator_step-Moves i c r none h = stops
operator_step-Moves i c r (some p) h = tokens (λ e. cc) (length-drop_pos (length p.0) c r h)

operators-Spelled : All (λ q. 0 < length q.0) operators
operators-Spelled = omega arith

Moves-if :
    (b : Bool) (m : ℕ) (s t : Step)
    → (b ≡ true → Moves m s)
    → Moves m t
    → Moves m (if b then s else t)
Moves-if true m s t h k = h refl
Moves-if false m s t h k = k

if-ne-eof : (b : Bool) (v : Text) → (if b then global v else ident v) ≢ eof
if-ne-eof true v e = cc
if-ne-eof false v e = cc

number_step-Moves :
    (n i m : ℕ) (digits rest : Text) → length rest ≤ m → Moves m (number_step n i digits rest)
unfolding number_step
number_step-Moves n i m digits rest h =
    Moves-if (head_is is_ident_start rest) m _ (token (number digits) rest) (λ _. stops)
      (tokens (λ e. cc) h)

name_step-Moves :
    (i c m : ℕ) (name rest : Text) → length rest ≤ m → Moves m (name_step i c name rest)
unfolding name_step
name_step-Moves i c m name rest h =
    Moves-if (c == b'$' && length (c ∷ name) == 1) m _
      (token (if c == b'$' then global (c ∷ name) else ident (c ∷ name)) rest) (λ _. stops)
      (tokens (if-ne-eof _ _) h)

digit_or_point : (a b d : Bool) → (a || (b && d)) ≡ true → (a || b) ≡ true
digit_or_point a b d h = ground arith

token-Moves : (k : TokenKind) (r : Text) → k ≢ eof → Moves (length r) (token k r)
token-Moves k r h = tokens h (omega arith)

lex_step-Moves : (n i c : ℕ) (r : Text) → Moves (length r) (lex_step n i c r)
unfolding lex_step
lex_step-Moves n i c r =
    let m : ℕ = length r in
    let digits : Text = (lex_number (c ∷ r)).0 in
    let after : Text = (lex_number (c ∷ r)).1 in
    let name : Text = (lex_ident r).0 in
    let behind : Text = (lex_ident r).1 in
    Moves-if (is_space c) m (skip r) _ (λ _. skips (omega arith))
      (Moves-if (c == b'/' && head_is (λ d. d == b'*') r) m
        (comment_step n i (after_comment (tail r))) _
        (λ _. comment_step-Moves n i _ m _ (after_comment-Within (tail r)) (length-tail r))
        (Moves-if (is_digit c || (c == b'.' && head_is is_digit r)) m (number_step n i digits after)
          _
          (λ h. number_step-Moves n i m digits after (
            length-lex_number c r (digit_or_point (is_digit c) (c == b'.') (head_is is_digit r) h)))
          (Moves-if (c == b'\'' || c == b'"') m (literal_step n i (lex_text c (i + 1) r)) _
            (λ _. literal_step-Moves n i m _ (lex_text-Leaves c (i + 1) r))
            (Moves-if (c == b'$' || is_ident_start c) m (name_step i c name behind) _
              (λ _. name_step-Moves i c m name behind (length-lex_ident r))
              (Moves-if (c == b'(') m (token open_paren r) _
                (λ _. token-Moves open_paren r (λ e. cc))
                (Moves-if (c == b')') m (token close_paren r) _
                  (λ _. token-Moves close_paren r (λ e. cc))
                  (Moves-if (c == b',') m (token comma r) _ (λ _. token-Moves comma r (λ e. cc))
                    (operator_step-Moves i c r (find_operator operators (c ∷ r))
                      (find_operator-Spelled operators (c ∷ r) operators-Spelled)))))))))

Chain-mono : {n i j : ℕ} {ts : List Token} → j ≤ i → Chain n i ts → Chain n j ts
Chain-mono h (last k) = last (omega arith)
Chain-mono h (next a b c k r) = next (omega arith) b c k r

lex_round-Chain :
    (more : Text → Result (List Token)) (n m : ℕ) (step : Step)
    → suc m ≤ n
    → ((rest : Text) → length rest ≤ m → Post (Chain n (position n rest)) (more rest))
    → Moves m step
    → Post (Chain n (n - suc m)) (lex_round more n (n - suc m) step)
unfolding lex_round
lex_round-Chain more n m (skip rest) h ih (skips w) =
    weaken (λ ts. Chain-mono (omega arith)) (ih rest w)
lex_round-Chain more n m (token kind rest) h ih (tokens k w) =
    ih rest w ⟫ λ ts c. returns (next (omega arith) (omega arith) (omega arith) k c)
lex_round-Chain more n m (stop e) h ih w = throws

lex-Chain :
    (f n : ℕ) (s : Text) → length s < f → length s ≤ n → Post (Chain n (position n s)) (lex f n s)
unfolding lex
lex-Chain zero n s h k = absurd (omega arith)
lex-Chain (suc f) n [] h k = returns (last (omega arith))
lex-Chain (suc f) n (c ∷ r) h k =
    lex_round-Chain (lex f n) n (length r) (lex_step n (position n (c ∷ r)) c r) k
      (λ rest w. lex-Chain f n rest (omega arith) (omega arith)) (lex_step-Moves n _ c r)

-- On every source the lexer returns: either a syntax error, or tokens that stand one behind another
-- inside the source, none of them empty, with the end marker last and nowhere else.
pub tokenize-Chain : (source : Text) → Post (Chain (length source) 0) (tokenize source)
unfolding tokenize
tokenize-Chain source = elim (Bool-cases (ltb max_formula_length (length source))) [
  | inl long ↦ rw long throws
  | inr short ↦ rw short (
      let n : ℕ = length source in
      let e : n - n ≡ 0 = omega arith in
      rw e at (lex-Chain (suc n) n source (omega arith) (omega arith)))
]
