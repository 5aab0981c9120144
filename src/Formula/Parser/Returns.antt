-- ===== src/Formula/Parser/Returns.antt =====
-- The parser returns on every formula: its fuel, three rounds for each token, is enough.
use salesmaker.Base.{
  ℕ, zero, suc, ◌+◌, ◌*◌, ◌≤◌, ◌<◌, ◌≡◌, refl, Bool, true, false, Option, none, some, List, [], ◌∷◌,
  length, arith, Bool-cases, inl, inr, ltb, if◌then◌else◌,
}
use salesmaker.Base.Text.{Text}
use salesmaker.Formula.Syntax.{
  Span, Scope, Operator, minus, bang, plus, Node, Args, nil, Result, ok,
}
use salesmaker.Formula.Post.{Post, returns, throws, ◌⟫◌, weaken}
use salesmaker.Formula.Lexer.{
  TokenKind, number, text, ident, global, op, open_paren, close_paren, comma, eof, Token,
}
use salesmaker.Formula.Lexer.Spans.{Chain, last, next, tokenize-Chain}
use salesmaker.Formula.Parser.{
  Tokens, peek, advance, max_depth, infix_power, parse_global, closing, expect_close, Expression,
  global_scope, global_parts, scope_of, split_dots, tail, parse_name, prefix_power, infix_token,
  infix_operator, unary_operator, primary_token, call_at, more_arguments, is_open, is_close,
  has_dot, parse_from, expression, operators, primary, call, arguments, at_end, parse_tokens, parse,
}

-- The end marker stands last, and nowhere else.
abbrev Ends : Token → List Token → Type 0
Ends t [] = t.kind ≡ eof
Ends t (u ∷ ts) = (t.kind ≡ eof → ⊥) × Ends u ts

abbrev Ended : Tokens → Type 0
Ended ts = Ends ts.0 ts.1

-- The tokens left, the end marker aside.
abbrev left : Tokens → ℕ
left ts = length ts.1

-- What a part of the parser leaves behind: tokens with their end marker, at most `n` of them.
abbrev Leaves {ℓ} : {A : Type ℓ} → ℕ → A × Tokens → Type 0
Leaves n r = Ended r.1 × (left r.1 ≤ n)

advance-Ended : (ts : Tokens) → Ended ts → Ended (advance ts)
advance-Ended (t, []) h = h
advance-Ended (t, u ∷ ts) h = h.1

-- Past any token but the end marker the parser moves on.
left-advance :
    (ts : Tokens) → Ended ts → ((peek ts).kind ≡ eof → ⊥) → suc (left (advance ts)) ≡ left ts
left-advance (t, []) h k = absurd (k h)
left-advance (t, u ∷ ts) h k = refl

expect_close-Leaves : (ts : Tokens) → Ended ts → Post (Leaves (left ts)) (expect_close ts)
unfolding expect_close
expect_close-Leaves ts h = go (peek ts).kind refl
  where
    go : (k : TokenKind) → (peek ts).kind ≡ k → Post (Leaves (left ts)) (closing k ts)
    go close_paren e = returns (advance-Ended ts h, omega (arith, left-advance ts h (λ e'. cc)))
    go _ e = throws

global_scope-returns :
    (value : Text) (span : Span) (scope : Option Scope) (name : Text)
    → Post (λ _. Unit {0}) (global_scope value span scope name)
unfolding global_scope
global_scope-returns value span none name = throws
global_scope-returns value span (some scope) name = returns tt

global_parts-returns :
    (value : Text) (span : Span) (parts : List Text)
    → Post (λ _. Unit {0}) (global_parts value span parts)
unfolding global_parts
global_parts-returns value span [] = throws
global_parts-returns value span (a ∷ []) = throws
global_parts-returns value span (a ∷ b ∷ []) = global_scope-returns value span (scope_of a) b
global_parts-returns value span (a ∷ b ∷ c ∷ r) = throws

parse_global-returns : (value : Text) (span : Span) → Post (λ _. Unit {0}) (parse_global value span)
unfolding parse_global
parse_global-returns value span = global_parts-returns value span (split_dots (tail value))

-- An expression takes a token at least.
abbrev Takes {ℓ} : {A : Type ℓ} → ℕ → A × Tokens → Type 0
Takes n r = Ended r.1 × (left r.1 < n)

-- A parser of expressions that returns on fewer than `n` tokens.
abbrev Below : ℕ → Expression → Type 0
Below n expr = (p : ℕ) (ts : Tokens) → Ended ts → left ts < n → Post (Takes (left ts)) (expr p ts)

infix_token-Leaves :
    (expr : Expression) (more : Node → Tokens → Result (Node × Tokens)) (min : ℕ) (node : Node)
    (ts : Tokens)
    → Ended ts
    → Below (left ts) expr
    → ((node' : Node) (ts' : Tokens)
        → Ended ts'
        → left ts' < left ts
        → Post (Leaves (left ts')) (more node' ts'))
    → (k : TokenKind) → (peek ts).kind ≡ k
    → Post (Leaves (left ts)) (infix_token expr more min node ts k)
unfolding infix_token
infix_token-Leaves expr more min node ts e h g (op o) q = go (infix_power o)
  where
    step :
        (l r : ℕ) (b : Bool)
        → ltb l min ≡ b
        → Post (Leaves (left ts)) (infix_operator expr more min node ts o (some (l, r)))
    step l r true q' = rw (q', infix_operator) (returns (e, omega arith))
    step l r false q' =
        let shorter : suc (left (advance ts)) ≡ left ts = left-advance ts e (λ q''. cc) in
        rw (q', infix_operator)
          (h r (advance ts) (advance-Ended ts e) (omega arith) ⟫ λ a t.
            weaken (λ b u. (u.0, omega arith)) (g _ a.1 t.0 (omega arith)))

    go : (p : Option (ℕ × ℕ)) → Post (Leaves (left ts)) (infix_operator expr more min node ts o p)
    go none = throws
    go (some (l, r)) = step l r (ltb l min) refl
infix_token-Leaves expr more min node ts e h g _ q = returns (e, omega arith)

unary_operator-Takes :
    (expr : Expression) (ts : Tokens) (o : Operator)
    → Ended ts
    → (peek ts).kind ≡ op o
    → Below (left ts) expr
    → Post (Takes (left ts)) (unary_operator expr ts o)
unfolding unary_operator
unary_operator-Takes expr ts minus e q h =
    let shorter : suc (left (advance ts)) ≡ left ts = left-advance ts e (λ q'. cc) in
    h prefix_power (advance ts) (advance-Ended ts e) (omega arith) ⟫ λ a t.
    returns (t.0, omega arith)
unary_operator-Takes expr ts bang e q h =
    let shorter : suc (left (advance ts)) ≡ left ts = left-advance ts e (λ q'. cc) in
    h prefix_power (advance ts) (advance-Ended ts e) (omega arith) ⟫ λ a t.
    returns (t.0, omega arith)
unary_operator-Takes expr ts plus e q h =
    let shorter : suc (left (advance ts)) ≡ left ts = left-advance ts e (λ q'. cc) in
    weaken (λ a t. (t.0, omega arith))
      (h prefix_power (advance ts) (advance-Ended ts e) (omega arith))
unary_operator-Takes expr ts _ e q h = throws

primary_token-Takes :
    (expr : Expression) (callee : Text → Span → Tokens → Result (Node × Tokens)) (ts : Tokens)
    → Ended ts
    → Below (left ts) expr
    → ((name : Text) (span : Span) (ts' : Tokens)
        → Ended ts'
        → (peek ts').kind ≡ open_paren
        → left ts' < left ts
        → Post (Takes (left ts')) (callee name span ts'))
    → (k : TokenKind) → (peek ts).kind ≡ k
    → Post (Takes (left ts)) (primary_token expr callee ts k)
unfolding primary_token
primary_token-Takes expr callee ts e h g (number v) q =
    returns (advance-Ended ts e, omega (arith, left-advance ts e (λ q'. cc)))
primary_token-Takes expr callee ts e h g (text v) q =
    returns (advance-Ended ts e, omega (arith, left-advance ts e (λ q'. cc)))
primary_token-Takes expr callee ts e h g (global v) q = parse_global-returns v _ ⟫ λ _ _.
    returns (advance-Ended ts e, omega (arith, left-advance ts e (λ q'. cc)))
primary_token-Takes expr callee ts e h g (ident v) q = go (peek (advance ts)).kind refl
  where
    shorter : suc (left (advance ts)) ≡ left ts
    shorter = left-advance ts e (λ q'. cc)

    go :
        (k : TokenKind)
        → (peek (advance ts)).kind ≡ k
        → Post (Takes (left ts)) (
            if is_open k
            then callee v (peek ts).span (advance ts)
            else ok (parse_name v (peek ts).span, advance ts))
    go open_paren q' =
        weaken (λ a t. (t.0, omega (arith, shorter)))
          (g v _ (advance ts) (advance-Ended ts e) q' (omega (arith, shorter)))
    go _ q' = returns (advance-Ended ts e, omega (arith, shorter))
primary_token-Takes expr callee ts e h g (op o) q = unary_operator-Takes expr ts o e q h
primary_token-Takes expr callee ts e h g open_paren q =
    let shorter : suc (left (advance ts)) ≡ left ts = left-advance ts e (λ q'. cc) in
    h 0 (advance ts) (advance-Ended ts e) (omega arith) ⟫ λ a t.
    expect_close-Leaves a.1 t.0 ⟫ λ b u. returns (u.0, omega arith)
primary_token-Takes expr callee ts e h g eof q = throws
primary_token-Takes expr callee ts e h g close_paren q = throws
primary_token-Takes expr callee ts e h g comma q = throws

call_at-Takes :
    (arguments : Tokens → Result (Args × Tokens)) (name : Text) (span : Span) (ts : Tokens)
    → Ended ts
    → (peek ts).kind ≡ open_paren
    → ((ts' : Tokens) → Ended ts' → left ts' < left ts → Post (Leaves (left ts')) (arguments ts'))
    → Post (Takes (left ts)) (call_at arguments name span ts)
unfolding call_at
call_at-Takes args name span ts e q h = elim (Bool-cases (has_dot name)) [
  | inl dotted ↦ rw (dotted, call_at) throws
  | inr plain ↦
      rw (plain, call_at)
        (args-Leaves ⟫ λ a t.
          expect_close-Leaves a.1 t.0 ⟫ λ b u. returns (u.0, omega (arith, shorter)))
]
  where
    shorter : suc (left (advance ts)) ≡ left ts
    shorter = left-advance ts e (λ q'. cc)

    args-Leaves :
        Post
          (Leaves (left (advance ts)))
          (if is_close (peek (advance ts)).kind then ok (nil, advance ts) else args (advance ts))
    args-Leaves = elim (Bool-cases (is_close (peek (advance ts)).kind)) [
      | inl close ↦ rw close (returns (advance-Ended ts e, omega arith))
      | inr open' ↦ rw open' (h (advance ts) (advance-Ended ts e) (omega (arith, shorter)))
    ]

more_arguments-Leaves :
    (args : Tokens → Result (Args × Tokens)) (arg : Node) (ts : Tokens)
    → Ended ts
    → ((ts' : Tokens) → Ended ts' → left ts' < left ts → Post (Leaves (left ts')) (args ts'))
    → (k : TokenKind) → (peek ts).kind ≡ k
    → Post (Leaves (left ts)) (more_arguments args arg ts k)
unfolding more_arguments
more_arguments-Leaves args arg ts e h comma q =
    let shorter : suc (left (advance ts)) ≡ left ts = left-advance ts e (λ q'. cc) in
    h (advance ts) (advance-Ended ts e) (omega arith) ⟫ λ a t. returns (t.0, omega arith)
more_arguments-Leaves args arg ts e h _ q = returns (e, omega arith)

mutual
  unfolding expression

  expression-Takes :
      (f d p : ℕ) (ts : Tokens)
      → Ended ts
      → 3 * left ts + 2 ≤ f
      → Post (Takes (left ts)) (expression f d p ts)
  expression-Takes zero d p ts e h = absurd (omega arith)
  expression-Takes (suc f) d p ts e h = elim (Bool-cases (ltb max_depth (suc d))) [
    | inl deep ↦ rw (deep, expression) throws
    | inr fits ↦
        rw (fits, expression)
          (primary-Takes f (suc d) ts e (omega arith) ⟫ λ a t.
            weaken (λ b u. (u.0, omega arith))
              (operators-Leaves f (suc d) p a.0 a.1 t.0 (omega arith)))
  ]

  operators-Leaves :
      (f d p : ℕ) (node : Node) (ts : Tokens)
      → Ended ts
      → 3 * left ts + 1 ≤ f
      → Post (Leaves (left ts)) (operators f d p node ts)
  operators-Leaves zero d p node ts e h = absurd (omega arith)
  operators-Leaves (suc f) d p node ts e h =
      infix_token-Leaves (expression f d) (operators f d p) p node ts e
        (λ p' ts' e' l. expression-Takes f d p' ts' e' (omega arith))
        (λ node' ts' e' l. operators-Leaves f d p node' ts' e' (omega arith)) (peek ts).kind refl

  primary-Takes :
      (f d : ℕ) (ts : Tokens)
      → Ended ts
      → 3 * left ts + 1 ≤ f
      → Post (Takes (left ts)) (primary f d ts)
  primary-Takes zero d ts e h = absurd (omega arith)
  primary-Takes (suc f) d ts e h =
      primary_token-Takes (expression f d) (call f d) ts e
        (λ p' ts' e' l. expression-Takes f d p' ts' e' (omega arith))
        (λ name span ts' e' q l. call-Takes f d name span ts' e' q (omega arith)) (peek ts).kind
        refl

  call-Takes :
      (f d : ℕ) (name : Text) (span : Span) (ts : Tokens)
      → Ended ts
      → (peek ts).kind ≡ open_paren
      → 3 * left ts + 3 ≤ f
      → Post (Takes (left ts)) (call f d name span ts)
  call-Takes zero d name span ts e q h = absurd (omega arith)
  call-Takes (suc f) d name span ts e q h =
      call_at-Takes (arguments f d) name span ts e q
        (λ ts' e' l. arguments-Leaves f d ts' e' (omega arith))

  arguments-Leaves :
      (f d : ℕ) (ts : Tokens)
      → Ended ts
      → 3 * left ts + 3 ≤ f
      → Post (Leaves (left ts)) (arguments f d ts)
  arguments-Leaves zero d ts e h = absurd (omega arith)
  arguments-Leaves (suc f) d ts e h = expression-Takes f d 0 ts e (omega arith) ⟫ λ a t.
      weaken (λ b u. (u.0, omega arith))
        (more_arguments-Leaves (arguments f d) a.0 a.1 t.0
          (λ ts' e' l. arguments-Leaves f d ts' e' (omega arith)) (peek a.1).kind refl)

not-Chain-nil : {n i : ℕ} → Chain n i [] → ⊥
not-Chain-nil c = elim c [ ]

Chain-Ends : {n i : ℕ} {t : Token} {ts : List Token} → Chain n i (t ∷ ts) → Ends t ts
Chain-Ends (last h) = refl
Chain-Ends (next {ts = []} a b c k r) = absurd (not-Chain-nil r)
Chain-Ends (next {ts = u ∷ us} a b c k r) = (k, Chain-Ends r)

at_end-returns :
    (node : Node) (k : TokenKind) (span : Span) → Post (λ _. Unit {0}) (at_end node k span)
at_end-returns node eof span = returns tt
at_end-returns node _ span = throws

parse_from-returns :
    (f : ℕ) (ts : Tokens)
    → Ended ts
    → 3 * left ts + 2 ≤ f
    → (k : TokenKind) → Post (λ _. Unit {0}) (parse_from f ts k)
unfolding parse_from
parse_from-returns f ts e h eof = throws
parse_from-returns f ts e h _ =
    expression-Takes f 0 0 ts e h ⟫ λ a t. at_end-returns a.0 (peek a.1).kind (peek a.1).span

parse_tokens-returns :
    {n : ℕ} (ts : List Token)
    → Chain n 0 ts
    → Post (λ _. Unit {0}) (parse_tokens (3 * length ts + 2) ts)
unfolding parse_tokens
parse_tokens-returns [] c = absurd (not-Chain-nil c)
parse_tokens-returns (t ∷ ts) c = parse_from-returns _ (t, ts) (Chain-Ends c) (omega arith) t.kind

-- `parse` returns on every source: it gives an expression or throws a syntax error, throws nothing
-- else, and its fuel is enough.
pub parse-returns : (source : Text) → Post (λ _. Unit {0}) (parse source)
unfolding parse
parse-returns source = tokenize-Chain source ⟫ λ ts c. parse_tokens-returns ts c
