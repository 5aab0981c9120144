-- ===== src/Formula/Environment/Strict.antt =====
-- What the environment over the metadata knows, and the formulas of a tenant from their text to their
-- values.
use salesmaker.Base.{
  ◌≡◌, refl, sym, ap, ◌∙◌, subst, Bool, true, false, Option, none, some, List, [], ◌∷◌,
}
use salesmaker.Base.Text.{Text}
use salesmaker.Formula.Syntax.{Scope, FormulaType, text_type, null_type, ok}
use salesmaker.Formula.Types.{
  type_eq, FieldLookup, found, unknown_field, CheckEnvironment, TypedNode, TypedArgs, type_of,
}
use salesmaker.Formula.Runtime.{Decimals, Host}
use salesmaker.Formula.Check.{check_formula}
use salesmaker.Formula.Evaluate.{EvalContext, evaluate_formula}
use salesmaker.Formula.Evaluate.Outcome.{Yields}
use salesmaker.Formula.Evaluate.Safety.Sound.{IsStrict, evaluate_typed}
use salesmaker.Formula.Post.{of_ok}
use salesmaker.Formula.Check.Typed.{IsTyped, AllTyped}
use salesmaker.Formula.Check.Expected.{check_formula-IsExpected}
use salesmaker.Formula.Environment.{
  FieldType, number, currency, percent, date, datetime, time, checkbox, picklist, multi_picklist,
  formula, rollup_summary, FieldMeta, ObjectMeta, plain_type, formula_type_of, platform, globals,
  has_name, table_of, object_named, field_named, lookup_named, target_of, found_field, Resolved,
  looked, inherited, PlatformRead, own_table, inherited_value, absent, platform_read, GlobalRead,
  global_type, inherited_global, no_global, known_name, follow, resolve_at, resolve, known_global,
  resolve_global, IsMetadataEnvironment,
}

plain_type-ne_null : (t : FieldType) → type_eq (plain_type t) null_type ≡ false
plain_type-ne_null number = refl
plain_type-ne_null rollup_summary = refl
plain_type-ne_null currency = refl
plain_type-ne_null percent = refl
plain_type-ne_null checkbox = refl
plain_type-ne_null date = refl
plain_type-ne_null datetime = refl
plain_type-ne_null time = refl
plain_type-ne_null picklist = refl
plain_type-ne_null multi_picklist = refl
plain_type-ne_null t = refl

formula_type_of-ne_null :
    (t : FieldType) (r : Option FieldType) → type_eq (formula_type_of t r) null_type ≡ false
unfolding formula_type_of
formula_type_of-ne_null formula none = refl
formula_type_of-ne_null formula (some t) = plain_type-ne_null t
formula_type_of-ne_null t r = plain_type-ne_null t

-- A type that is found is not null.
IsGood : Resolved → Type 0
IsGood (looked (found t)) = type_eq t null_type ≡ false
IsGood _ = Unit

known_name-IsGood : (a b : Bool) → IsGood (known_name a b)
unfolding IsGood
known_name-IsGood true b = refl
known_name-IsGood false true = tt
known_name-IsGood false false = tt

found_field-IsGood : (f : Option FieldMeta) → IsGood (found_field f)
unfolding IsGood
found_field-IsGood none = tt
found_field-IsGood (some f) = formula_type_of-ne_null f.type f.formula_return_type

follow-IsGood :
    (onward : Text → Resolved) (l f : Option FieldMeta)
    → ((next : Text) → IsGood (onward next))
    → IsGood (follow onward l f)
unfolding IsGood
follow-IsGood onward none none h = tt
follow-IsGood onward none (some f) h = tt
follow-IsGood onward (some l) f h = h (target_of l.type l.reference_to)

module _ (inherits : Text → Bool) where
  resolve_at-IsGood :
      (onward : Text → Resolved) (table : PlatformRead) (o : Option ObjectMeta) (segment : Text)
      (path : List Text)
      → ((next : Text) → IsGood (onward next))
      → IsGood (resolve_at inherits onward table o segment path)
  unfolding IsGood
  resolve_at-IsGood onward (own_table table) o segment [] h =
      known_name-IsGood (has_name table segment) (inherits segment)
  resolve_at-IsGood onward (own_table table) o segment (next ∷ path) h = tt
  resolve_at-IsGood onward inherited_value o segment [] h = tt
  resolve_at-IsGood onward inherited_value o segment (next ∷ path) h = tt
  resolve_at-IsGood onward absent none segment path h = tt
  resolve_at-IsGood onward absent (some o) segment [] h =
      found_field-IsGood (field_named o.fields segment)
  resolve_at-IsGood onward absent (some o) segment (next ∷ path) h =
      follow-IsGood onward (lookup_named o.fields segment) (field_named o.fields segment) h

  resolve-IsGood :
      (os : List ObjectMeta) (current : Text) (path : List Text)
      → IsGood (resolve inherits os current path)
  unfolding resolve IsGood
  resolve-IsGood os current [] = tt
  resolve-IsGood os current (segment ∷ path) =
      resolve_at-IsGood (λ next. resolve inherits os next path)
        (platform_read (table_of platform current) (inherits current)) (object_named os current)
        segment path (λ next. resolve-IsGood os next path)

  -- The reads with no inherited values among them.
  abbrev pub own_lookup : Resolved → FieldLookup
  own_lookup (looked l) = l
  own_lookup inherited = unknown_field

  abbrev pub own_global : GlobalRead → Option FormulaType
  own_global (global_type t) = some t
  own_global inherited_global = none
  own_global no_global = none

  abbrev pub own_environment : List ObjectMeta → Text → Bool → CheckEnvironment
  own_environment os root allow = record {
    field = λ path. own_lookup (resolve inherits os root path);
    global = λ scope name. own_global (resolve_global inherits scope name);
    allow_prior_values = allow;
  }

  -- They are an environment of the metadata.
  pub own_environment-IsMetadataEnvironment :
      (os : List ObjectMeta) (root : Text) (allow : Bool)
      → IsMetadataEnvironment inherits os root (own_environment os root allow)
  own_environment-IsMetadataEnvironment os root allow = record {
    field = λ path l e. ap own_lookup e;
    global = λ scope name t e. ap own_global e;
    unknown = λ scope name e. ap own_global e;
  }

  good_lookup :
      (r : Resolved) (t : FormulaType)
      → IsGood r
      → own_lookup r ≡ found t
      → type_eq t null_type ≡ false
  unfolding IsGood
  good_lookup (looked (found u)) t h e =
      let same : u ≡ t = cc in subst (λ x. type_eq x null_type ≡ false) same h
  good_lookup (looked unknown_field) t h e = absurd cc
  good_lookup (looked l) t h e = absurd cc
  good_lookup inherited t h e = absurd cc

  good_global :
      (a b : Bool) (t : FormulaType)
      → own_global (known_global inherits a b) ≡ some t
      → type_eq t null_type ≡ false
  good_global true b t e =
      let same : text_type ≡ t = cc in subst (λ x. type_eq x null_type ≡ false) same refl
  good_global false true t e = absurd cc
  good_global false false t e = absurd cc

  own_environment-IsStrict :
      (os : List ObjectMeta) (root : Text) (allow : Bool) → IsStrict (own_environment os root allow)
  unfolding resolve_global
  own_environment-IsStrict os root allow = (
    λ path t e. good_lookup (resolve inherits os root path) t (resolve-IsGood os root path) e,
    λ scope name t e. good_global (has_name (globals scope) name) (inherits name) t e,
  )

  module _ (os : List ObjectMeta) (root : Text) where
    -- An expression of which no field and no global is read from what objects inherit.
    unfoldable mutual
      pub IsOwn : TypedNode → Type 0
      IsOwn (TypedNode.literal t v s) = Unit
      IsOwn (TypedNode.field t path s) = resolve inherits os root path ≡ inherited → ⊥
      IsOwn (TypedNode.global t scope name s) =
          resolve_global inherits scope name ≡ inherited_global → ⊥
      IsOwn (TypedNode.unary t o a s) = IsOwn a
      IsOwn (TypedNode.binary t o a b s) = IsOwn a × IsOwn b
      IsOwn (TypedNode.call t name args s) = AllOwn args

      pub AllOwn : TypedArgs → Type 0
      AllOwn TypedArgs.nil = Unit
      AllOwn (TypedArgs.cons a rest) = IsOwn a × AllOwn rest

    module _ (env : CheckEnvironment) (meta : IsMetadataEnvironment inherits os root env) where
      field_kept :
          (path : List Text) (t : FormulaType) (r : Resolved)
          → resolve inherits os root path ≡ r
          → (r ≡ inherited → ⊥)
          → env.field path ≡ found t
          → own_lookup r ≡ found t
      field_kept path t (looked l) e h k = sym (meta.field path l e) ∙ k
      field_kept path t inherited e h k = absurd (h refl)

      global_kept :
          (scope : Scope) (name : Text) (t : FormulaType) (r : GlobalRead)
          → resolve_global inherits scope name ≡ r
          → (r ≡ inherited_global → ⊥)
          → env.global scope name ≡ some t
          → own_global r ≡ some t
      global_kept scope name t (global_type u) e h k = sym (meta.global scope name u e) ∙ k
      global_kept scope name t inherited_global e h k = absurd (h refl)
      global_kept scope name t no_global e h k = sym (meta.unknown scope name e) ∙ k

      clean : CheckEnvironment
      clean = own_environment os root env.allow_prior_values

      mutual
        unfolding IsOwn AllOwn clean

        kept : {n : TypedNode} → IsTyped env n → IsOwn n → IsTyped clean n
        kept (IsTyped.literal h) w = IsTyped.literal h
        kept (IsTyped.field {t = t} {path = path} l e) w =
            IsTyped.field l (field_kept path t (resolve inherits os root path) refl w e)
        kept (IsTyped.global {t = t} {scope = scope} {name = name} e) w =
            IsTyped.global (global_kept scope name t (resolve_global inherits scope name) refl w e)
        kept (IsTyped.negate h k) w = IsTyped.negate (kept h w) k
        kept (IsTyped.complement h k) w = IsTyped.complement (kept h w) k
        kept (IsTyped.binary h k p q g) w = IsTyped.binary (kept h w.0) (kept k w.1) p q g
        kept (IsTyped.call al e h k stand g) w = IsTyped.call (all_kept al w) e h k stand g

        all_kept : {args : TypedArgs} → AllTyped env args → AllOwn args → AllTyped clean args
        all_kept AllTyped.nil w = AllTyped.nil
        all_kept (AllTyped.cons h k) w = AllTyped.cons (kept h w.0) (all_kept k w.1)

      -- Over any metadata of a tenant, and whatever values its records hold: with an environment that answers
      -- as the metadata of an object does wherever no inherited value is read, a formula that `checkFormula`
      -- accepts in it, and that reads no property that JavaScript objects inherit in
      -- place of the type of a field or of a global, gives a value of its type or null, one of the five runtime
      -- errors, or it throws and the host has an operation that throws.
      pub metadata_environment-Yields :
          {dec : Decimals} (host : Host dec) (ctx : EvalContext host) (valid_regex : Text → Bool)
          (source : Text) (o : Option FormulaType) (t : TypedNode)
          → check_formula valid_regex env source o ≡ ok t
          → IsOwn t
          → Yields host (type_of t) (evaluate_formula host ctx t)
      unfolding clean
      metadata_environment-Yields host ctx valid_regex source o t e w =
          evaluate_typed host ctx clean (own_environment-IsStrict os root env.allow_prior_values) t
            (kept (of_ok (rw e at (check_formula-IsExpected valid_regex env source o))).1 w)
