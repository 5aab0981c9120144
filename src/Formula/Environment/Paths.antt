-- ===== src/Formula/Environment/Paths.antt =====
-- What a path of segments leads to in the metadata, without the loop of
-- packages/formula/src/environment.ts.
use salesmaker.Base.{
  ◌≡◌, refl, ap, ◌∙◌, ◌↔◌, Bool, true, false, Option, none, some, List, [], ◌∷◌, subst,
}
use salesmaker.Base.Text.{Text, text_eq}
use salesmaker.Formula.Syntax.{FormulaType, text_type}
use salesmaker.Formula.Types.{found}
use salesmaker.Formula.Environment.{
  FieldMeta, ObjectMeta, formula_type_of, Table, platform, has_name, table_of, object_named,
  field_named, lookup_named, target_of, looked, found_field, known_name, platform_read, follow,
  resolve_at, resolve,
}
use salesmaker.Formula.Environment.Named.{
  IsLast, IsLast-sound, last_complete, IsFollowed, lookup_named-IsFollowed, IsFollowed-lookup_named,
  LeadsTo, target-LeadsTo, LeadsTo-target,
}

abbrev pub is_object : Text → ObjectMeta → Bool
is_object name o = text_eq o.api_name name

abbrev pub is_field : Text → FieldMeta → Bool
is_field name f = text_eq f.api_name name

object_sound :
    (os : List ObjectMeta) (name : Text) (o : ObjectMeta)
    → object_named os name ≡ some o
    → IsLast (is_object name) os o
unfolding object_named
object_sound os name =
    IsLast-sound (is_object name) (λ xs. object_named xs name) refl (λ x xs. refl) os

object_complete :
    (os : List ObjectMeta) (name : Text) (o : ObjectMeta)
    → IsLast (is_object name) os o
    → object_named os name ≡ some o
unfolding object_named
object_complete os name =
    last_complete (is_object name) (λ xs. object_named xs name) refl (λ x xs. refl) os

field_sound :
    (fs : List FieldMeta) (name : Text) (f : FieldMeta)
    → field_named fs name ≡ some f
    → IsLast (is_field name) fs f
unfolding field_named
field_sound fs name =
    IsLast-sound (is_field name) (λ xs. field_named xs name) refl (λ x xs. refl) fs

field_complete :
    (fs : List FieldMeta) (name : Text) (f : FieldMeta)
    → IsLast (is_field name) fs f
    → field_named fs name ≡ some f
unfolding field_named
field_complete fs name =
    last_complete (is_field name) (λ xs. field_named xs name) refl (λ x xs. refl) fs

module _ (inherits : Text → Bool) (os : List ObjectMeta) where
  -- No platform record, and no inherited name.
  abbrev pub IsTenantName : Text → Type 0
  IsTenantName current = (table_of platform current ≡ none) × (inherits current ≡ false)

  -- From an object, a path leads to a type: its last segment is a name of a platform record, or the last field of
  -- that name of the last object of that name of the tenant; and every segment before is the relationship name of a
  -- lookup there, of the first that has it, which leads on from the first object that it refers to.
  pub data Leads : Text → List Text → FormulaType → Type 0 where
    platform_name :
        {current segment : Text} (table : Table)
        → table_of platform current ≡ some table
        → has_name table segment ≡ true
        → Leads current (segment ∷ []) text_type
    own_field :
        {current segment : Text} (o : ObjectMeta) (f : FieldMeta)
        → IsTenantName current
        → IsLast (is_object current) os o
        → IsLast (is_field segment) o.fields f
        → Leads current (segment ∷ []) (formula_type_of f.type f.formula_return_type)
    hop :
        {current segment next target : Text} {path : List Text} {t : FormulaType} (o : ObjectMeta)
        (l : FieldMeta)
        → IsTenantName current
        → IsLast (is_object current) os o
        → IsFollowed o.fields segment l
        → LeadsTo l target
        → Leads target (next ∷ path) t
        → Leads current (segment ∷ next ∷ path) t

  known_name-Leads :
      (current segment : Text) (table : Table) (t : FormulaType) (a b : Bool)
      → table_of platform current ≡ some table
      → has_name table segment ≡ a
      → known_name a b ≡ looked (found t)
      → Leads current (segment ∷ []) t
  known_name-Leads current segment table t true b e k h =
      let same : text_type ≡ t = cc in
      subst (λ x. Leads current (segment ∷ []) x) same (platform_name table e k)
  known_name-Leads current segment table t false true e k h = absurd cc
  known_name-Leads current segment table t false false e k h = absurd cc

  found_field-Leads :
      (current segment : Text) (o : ObjectMeta) (t : FormulaType) (f : Option FieldMeta)
      → IsTenantName current
      → object_named os current ≡ some o
      → field_named o.fields segment ≡ f
      → found_field f ≡ looked (found t)
      → Leads current (segment ∷ []) t
  found_field-Leads current segment o t none e k l h = absurd cc
  found_field-Leads current segment o t (some f) e k l h =
      let same : formula_type_of f.type f.formula_return_type ≡ t = cc in
      subst (λ x. Leads current (segment ∷ []) x) same
        (own_field o f e (object_sound os current o k) (field_sound o.fields segment f l))

  follow-Leads :
      (current segment next : Text) (path : List Text) (o : ObjectMeta) (t : FormulaType)
      (l f : Option FieldMeta)
      → IsTenantName current
      → object_named os current ≡ some o
      → lookup_named o.fields segment ≡ l
      → ((c : Text)
          → resolve inherits os c (next ∷ path) ≡ looked (found t)
          → Leads c (next ∷ path) t)
      → follow (λ c. resolve inherits os c (next ∷ path)) l f ≡ looked (found t)
      → Leads current (segment ∷ next ∷ path) t
  follow-Leads current segment next path o t none none e k m ih h = absurd cc
  follow-Leads current segment next path o t none (some f) e k m ih h = absurd cc
  follow-Leads current segment next path o t (some l) f e k m ih h =
      hop o l e (object_sound os current o k) (lookup_named-IsFollowed o.fields segment l m)
        (target-LeadsTo l) (ih (target_of l.type l.reference_to) h)

  resolve_at-Leads :
      (current segment : Text) (path : List Text) (t : FormulaType) (table : Option Table)
      (b : Bool) (o : Option ObjectMeta)
      → table_of platform current ≡ table
      → inherits current ≡ b
      → object_named os current ≡ o
      → ((c : Text) → resolve inherits os c path ≡ looked (found t) → Leads c path t)
      → resolve_at inherits (λ c. resolve inherits os c path) (platform_read table b) o segment path
        ≡ looked (found t)
      → Leads current (segment ∷ path) t
  resolve_at-Leads current segment [] t (some table) b o e i k ih h =
      known_name-Leads current segment table t (has_name table segment) (inherits segment) e refl h
  resolve_at-Leads current segment (next ∷ path) t (some table) b o e i k ih h = absurd cc
  resolve_at-Leads current segment [] t none true o e i k ih h = absurd cc
  resolve_at-Leads current segment (next ∷ path) t none true o e i k ih h = absurd cc
  resolve_at-Leads current segment path t none false none e i k ih h = absurd cc
  resolve_at-Leads current segment [] t none false (some o) e i k ih h =
      found_field-Leads current segment o t (field_named o.fields segment) (e, i) k refl h
  resolve_at-Leads current segment (next ∷ path) t none false (some o) e i k ih h =
      follow-Leads current segment next path o t (lookup_named o.fields segment)
        (field_named o.fields segment) (e, i) k refl ih h

  resolve-Leads :
      (current : Text) (path : List Text) (t : FormulaType)
      → resolve inherits os current path ≡ looked (found t)
      → Leads current path t
  unfolding resolve
  resolve-Leads current [] t h = absurd cc
  resolve-Leads current (segment ∷ path) t h =
      resolve_at-Leads current segment path t (table_of platform current) (inherits current)
        (object_named os current) refl refl refl (λ c k. resolve-Leads c path t k) h

  Leads-resolve :
      {current : Text} {path : List Text} {t : FormulaType}
      → Leads current path t
      → resolve inherits os current path ≡ looked (found t)
  unfolding resolve
  Leads-resolve (platform_name table e k) = rw (e, k) refl
  Leads-resolve (own_field {current = current} {segment = segment} o f e k l) =
      rw (e.0, e.1, object_complete os current o k, field_complete o.fields segment f l) refl
  Leads-resolve
        (hop {current = current} {segment = segment} {next = next} {target = target} {path = path} o
          l e k m g r) =
      rw (e.0, e.1, object_complete os current o k, IsFollowed-lookup_named o.fields segment l m)
        (ap (λ c. resolve inherits os c (next ∷ path)) (LeadsTo-target l target g)
          ∙ Leads-resolve r)

  -- The loop of `field` finds a type for a path exactly where the path leads to it, whatever names objects
  -- inherit: over the last object and the last field of each name, and the first lookup, of type lookup,
  -- master_detail or user, that a segment names.
  pub resolve_iff :
      (current : Text) (path : List Text) (t : FormulaType)
      → (resolve inherits os current path ≡ looked (found t)) ↔ Leads current path t
  resolve_iff current path t = (resolve-Leads current path t, λ h. Leads-resolve h)
