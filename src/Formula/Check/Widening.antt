-- ===== src/Formula/Check/Widening.antt =====
-- `unify` of packages/formula/src/check.ts, over many branches: all of them widen to the type that it
-- gives, which is a number type where they are numbers or null.
use salesmaker.Base.{
  ◌≡◌, refl, Bool, true, false, ◌&&◌, Option, none, some, List, [], ◌∷◌, arith, if◌then◌else◌,
}
use salesmaker.Formula.Syntax.{Span, FormulaType, null_type, ErrorCode, ok, fail}
use salesmaker.Formula.Types.{type_eq, is_numeric, TypedNode, type_of}
use salesmaker.Formula.Tables.{implies, every_type, every_type_sound, every_two, every_two_sound}
use salesmaker.Formula.Post.{Post, returns, throws, ◌⟫◌, weaken}
use salesmaker.Formula.Rules.{joined, unify, unify_from, unify_all}
use salesmaker.Formula.Check.Results.{widens, all_widen, numeric_or_null}

pub both_true : {a b : Bool} → a ≡ true → b ≡ true → (a && b) ≡ true
both_true h k = ground arith

pub first_true : (a b : Bool) → (a && b) ≡ true → a ≡ true
first_true a b h = ground arith

pub second_true : (a b : Bool) → (a && b) ≡ true → b ≡ true
second_true a b h = ground arith

-- What `unify` does to the two types.
join_rule : FormulaType → FormulaType → Option FormulaType → Bool
join_rule a b none = true
join_rule a b (some c) =
    widens a c && widens b c && implies (numeric_or_null a && numeric_or_null b) (numeric_or_null c)

join_rules : every_two (λ a b. join_rule a b (unify a b)) ≡ true
unfolding every_two every_type join_rule unify
join_rules = refl

trans_rules :
    every_type (λ a. every_two (λ b c. implies (widens a b && widens b c) (widens a c))) ≡ true
unfolding every_two every_type
trans_rules = refl

widens_trans : (a b c : FormulaType) → widens a b ≡ true → widens b c ≡ true → widens a c ≡ true
widens_trans a b c h k =
    let t : implies (widens a b && widens b c) (widens a c) ≡ true =
      every_two_sound (λ b c. implies (widens a b && widens b c) (widens a c))
        (every_type_sound (λ a. every_two (λ b c. implies (widens a b && widens b c) (widens a c)))
          trans_rules a)
        b c in
    ground arith

self_rules : every_type (λ a. widens a a) ≡ true
unfolding every_type
self_rules = refl

pub widens_refl : (a : FormulaType) → widens a a ≡ true
widens_refl = every_type_sound (λ a. widens a a) self_rules

-- `c` is a type to which `a` and `b` widen, a number or null where they are.
abbrev Joins : FormulaType → FormulaType → FormulaType → Type 0
Joins a b c =
    (widens a c ≡ true)
    × (widens b c ≡ true)
    × (numeric_or_null a ≡ true → numeric_or_null b ≡ true → numeric_or_null c ≡ true)

unify-Joins : (a b c : FormulaType) → unify a b ≡ some c → Joins a b c
unfolding join_rule
unify-Joins a b c e =
    let h : join_rule a b (unify a b) ≡ true =
      every_two_sound (λ a b. join_rule a b (unify a b)) join_rules a b in
    joins (rw e at h)
  where
    joins : join_rule a b (some c) ≡ true → Joins a b c
    joins h = (ground arith, ground arith, λ p q. ground arith)

joined-Post :
    (o : Option FormulaType) (t : FormulaType) (n : TypedNode)
    → Post (λ u. o ≡ some u) (joined o t n)
joined-Post none t n = throws
joined-Post (some u) t n = returns refl

abbrev pub all_numeric : List TypedNode → Bool
all_numeric [] = true
all_numeric (n ∷ ns) = numeric_or_null (type_of n) && all_numeric ns

abbrev Covers : FormulaType → List TypedNode → FormulaType → Type 0
Covers t ns u =
    (widens t u ≡ true)
    × (all_widen ns u ≡ true)
    × (numeric_or_null t ≡ true → all_numeric ns ≡ true → numeric_or_null u ≡ true)

unify_from-Covers : (t : FormulaType) (ns : List TypedNode) → Post (Covers t ns) (unify_from t ns)
unfolding unify_from
unify_from-Covers t [] = returns (widens_refl t, refl, λ p q. p)
unify_from-Covers t (n ∷ ns) = joined-Post (unify t (type_of n)) t n ⟫ λ u e.
    let j : Joins t (type_of n) u = unify-Joins t (type_of n) u e in
    weaken
      (λ v (c : Covers u ns v). (
        widens_trans t u v j.0 c.0,
        both_true (widens_trans (type_of n) u v j.1 c.0) c.1,
        λ p q. c.2 (j.2 p (first_true _ _ q)) (second_true _ _ q),
      ))
      (unify_from-Covers u ns)

-- `h.unify`: all branches widen to the type, which is not null.
abbrev pub Unifies : List TypedNode → FormulaType → Type 0
Unifies ns u = (all_widen ns u ≡ true) × (all_numeric ns ≡ true → is_numeric u ≡ true)

numeric_type :
    (u : FormulaType) → type_eq u null_type ≡ false → numeric_or_null u ≡ true → is_numeric u ≡ true
numeric_type u h k = ground arith

pub unify_all-Unifies : (ns : List TypedNode) (s : Span) → Post (Unifies ns) (unify_all ns s)
unfolding unify_all
unify_all-Unifies ns s = unify_from-Covers null_type ns ⟫ λ u c. typed u c _ refl
  where
    typed :
        (u : FormulaType)
        → Covers null_type ns u
        → (b : Bool) → type_eq u null_type ≡ b
        → Post (Unifies ns) (if b then fail ErrorCode.cannot_infer_type s else ok u)
    typed u c true e = throws
    typed u c false e = returns (c.1, λ k. numeric_type u e (c.2 refl k))
