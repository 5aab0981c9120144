-- ===== src/Formula/Check/Sound.antt =====
-- What the checker lets through: the typed expression is the one that was parsed, and every part of
-- it obeys the rules of the language.
use salesmaker.Base.{
  ℕ, suc, ◌-◌, ◌≤◌, ◌≡◌, refl, ap, ◌∙◌, Bool, true, false, not, ◌&&◌, ◌||◌, Option, none, some,
  List, arith, Bool-cases, inl, inr, length, if◌then◌else◌, ltb, ltb→le,
}
use salesmaker.Base.Text.{Text}
use salesmaker.Formula.Syntax.{
  Span, Operator, UnaryOp, Scope, Node, Args, FormulaType, boolean_type, null_type, picklist_type,
  multi_picklist_type, ErrorCode, fail, ok,
}
use salesmaker.Formula.Types.{
  type_eq, is_numeric, FieldLookup, found, unknown_field, not_a_relationship, too_many_hops,
  CheckEnvironment, TypedNode, TypedArgs, type_of, span_of, args_list,
}
use salesmaker.Formula.Post.{Post, returns, throws, ◌⟫◌, both_hold}
use salesmaker.Formula.Functions.{Function, function_of, arity, takes, needs_prior}
use salesmaker.Formula.Rules.{max_hops}
use salesmaker.Formula.Check.{
  typed_field, check_field, typed_global, check_unary, no_picklist, check_binary, known, check_call,
  count_args, check, check_args,
}
use salesmaker.Formula.Check.Returns.{check_function-Gives}
use salesmaker.Formula.Check.Accepts.{check_function-Accepts}
use salesmaker.Formula.Check.Typed.{
  erase, erase_args, IsPlain, literal, field, global, negate, complement, binary, call, nil, cons,
  AllTyped, Types, length-erase_args,
}
use salesmaker.Formula.Check.Sides.{expect_type-or_null, binary_type-Operates}

negated : (a b : Bool) → (not a && not b) ≡ false → (a || b) ≡ true
negated a b h = ground arith

no_picklist-IsPlain : (a : TypedNode) → Post (λ _. IsPlain (type_of a)) (no_picklist a)
unfolding no_picklist
no_picklist-IsPlain a =
    elim (Bool-cases
      (type_eq (type_of a) picklist_type || type_eq (type_of a) multi_picklist_type)) [
        | inl e ↦ rw (e, no_picklist) throws
        | inr e ↦ rw (e, no_picklist) (returns refl)
      ]

module _ (env : CheckEnvironment) where
  typed_field-Types :
      (path : List Text) (s : Span) (l : FieldLookup)
      → length path ≤ suc max_hops
      → env.field path ≡ l
      → Post (Types env (Node.field path s)) (typed_field path s l)
  unfolding erase
  typed_field-Types path s (found t) h e = returns (refl, field h e)
  typed_field-Types path s unknown_field h e = throws
  typed_field-Types path s not_a_relationship h e = throws
  typed_field-Types path s too_many_hops h e = throws

  check_field-Types :
      (path : List Text) (s : Span) → Post (Types env (Node.field path s)) (check_field env path s)
  unfolding check_field
  check_field-Types path s = elim (Bool-cases (ltb max_hops (length path - 1))) [
    | inl far ↦ rw far throws
    | inr near ↦
        rw near (typed_field-Types path s (env.field path) (omega (arith, ltb→le _ _ near)) refl)
  ]

  typed_global-Types :
      (scope : Scope) (name : Text) (s : Span) (o : Option FormulaType)
      → env.global scope name ≡ o
      → Post (Types env (Node.global scope name s)) (typed_global scope name s o)
  unfolding erase
  typed_global-Types scope name s none e = throws
  typed_global-Types scope name s (some t) e = returns (refl, global e)

  negated_type :
      (n : Node) (a : TypedNode) (s : Span)
      → Types env n a
      → (b : Bool) → (not (is_numeric (type_of a)) && not (type_eq (type_of a) null_type)) ≡ b
      → Post (Types env (Node.unary UnaryOp.negate n s)) (
          if b
          then fail (ErrorCode.expected_number (type_of a)) (span_of a)
          else ok (TypedNode.unary (type_of a) UnaryOp.negate a s))
  unfolding erase
  negated_type n a s h true e = throws
  negated_type n a s (e, h) false good =
      returns (ap (λ x. Node.unary UnaryOp.negate x s) e, negate h (negated _ _ good))

  check_unary-Types :
      (o : UnaryOp) (n : Node) (a : TypedNode) (s : Span)
      → Types env n a
      → Post (Types env (Node.unary o n s)) (check_unary o a s)
  unfolding check_unary erase
  check_unary-Types UnaryOp.negate n a s (e, h) =
      negated_type n a s (e, h)
        (not (is_numeric (type_of a)) && not (type_eq (type_of a) null_type)) refl
  check_unary-Types UnaryOp.complement n a s (e, h) = expect_type-or_null a boolean_type ⟫ λ _ k.
      returns (ap (λ x. Node.unary UnaryOp.complement x s) e, complement h k)

check_binary-Types :
    (env : CheckEnvironment) (o : Operator) (n m : Node) (t u : TypedNode) (s : Span)
    → Types env n t
    → Types env m u
    → Post (Types env (Node.binary o n m s)) (check_binary o t u s)
unfolding check_binary erase
check_binary-Types env o n m t u s h k = no_picklist-IsPlain t ⟫ λ _ p.
    no_picklist-IsPlain u ⟫ λ _ q. binary_type-Operates o t u s ⟫ λ τ g.
    returns (λ i. Node.binary o (h.0 i) (k.0 i) s, binary h.1 k.1 p q g)

known-Done :
    (o : Option Function) (name : Text) (s : Span) → Post (λ f. o ≡ some f) (known o name s)
known-Done none name s = throws
known-Done (some f) name s = returns refl

-- The call is allowed.
abbrev Allows : CheckEnvironment → Function → ℕ → Type 0
Allows env f n = (takes f n ≡ true) × (needs_prior f ≡ true → env.allow_prior_values ≡ true)

check_call-Allows :
    (env : CheckEnvironment) (f : Function) (name : Text) (n : ℕ) (s : Span)
    → Post (λ _. Allows env f n) (check_call env f name n s)
unfolding check_call
check_call-Allows env f name n s = elim (Bool-cases (takes f n)) [
  | inr few ↦ rw (few, check_call) throws
  | inl enough ↦
      rw (enough, check_call)
        (elim (Bool-cases (needs_prior f && not env.allow_prior_values)) [
          | inl barred ↦ rw barred throws
          | inr open' ↦ rw open' (returns (refl, ground arith))
        ])
]

least_arity : (f : Function) (n : ℕ) → takes f n ≡ true → (arity f).0 ≤ n
unfolding takes
least_arity f n h = ground arith

counted :
    (f : Function) (ts : TypedArgs) (rest : Args)
    → erase_args ts ≡ rest
    → takes f (count_args rest) ≡ true
    → takes f (length (args_list ts)) ≡ true
counted f ts rest e h = ap (takes f) (length-erase_args ts ∙ ap count_args e) ∙ h

module _ (valid_regex : Text → Bool) (env : CheckEnvironment) where
  mutual
    unfolding check erase

    check-Types' : (n : Node) → Post (Types env n) (check valid_regex env n)
    check-Types' (Node.number v s) = returns (refl, literal refl)
    check-Types' (Node.text v s) = returns (refl, literal refl)
    check-Types' (Node.boolean v s) = returns (refl, literal refl)
    check-Types' (Node.null s) = returns (refl, literal refl)
    check-Types' (Node.field path s) = check_field-Types env path s
    check-Types' (Node.global scope name s) =
        typed_global-Types env scope name s (env.global scope name) refl
    check-Types' (Node.unary o a s) = check-Types' a ⟫ λ t h. check_unary-Types env o a t s h
    check-Types' (Node.binary o a b s) =
        check-Types' a ⟫ λ t h. check-Types' b ⟫ λ u k. check_binary-Types env o a b t u s h k
    check-Types' (Node.call name rest s) = known-Done (function_of name) name s ⟫ λ f e.
        check_call-Allows env f name (count_args rest) s ⟫ λ _ al. check_args-Types rest ⟫ λ ts hs.
        both_hold
          (check_function-Accepts valid_regex f (args_list ts) s
            (least_arity f _ (counted f ts rest hs.0 al.0)))
          (check_function-Gives valid_regex f (args_list ts) s
            (least_arity f _ (counted f ts rest hs.0 al.0)))
        ⟫ λ t g. returns (
          ap (λ x. Node.call name x s) hs.0,
          call hs.1 e (counted f ts rest hs.0 al.0) al.1 g.0 g.1,
        )

    check_args-Types :
        (args : Args)
        → Post (λ t. (erase_args t ≡ args) × AllTyped env t) (check_args valid_regex env args)
    check_args-Types Args.nil = returns (refl, nil)
    check_args-Types (Args.cons a rest) = check-Types' a ⟫ λ t h.
        check_args-Types rest ⟫ λ ts hs. returns ((λ i. Args.cons (h.0 i) (hs.0 i)), cons h.1 hs.1)

  -- The checker gives a typed expression or throws a formula error, and nothing else; what it gives
  -- is the expression that it was given, and every part of it obeys the rules of the language, which
  -- IsTyped states: those of the tables of operators and of parameters for operators and arguments.
  pub check-Types : (n : Node) → Post (Types env n) (check valid_regex env n)
  check-Types n = check-Types' n
