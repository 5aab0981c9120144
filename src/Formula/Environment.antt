-- ===== src/Formula/Environment.antt =====
-- packages/formula/src/environment.ts: the environment of the checker over a tenant's metadata, with the
-- lookups of MetadataIndex in packages/metadata/src/runtime.ts. A table of names is the list of its own
-- names.
pub mod Named
pub mod Strict
pub mod Paths
use salesmaker.Base.{
  ◌≡◌, ℕ, ◌-◌, Bool, true, false, ◌&&◌, ◌||◌, Option, none, some, List, [], ◌∷◌, ◌++◌,
  if◌then◌else◌, length, take,
}
use salesmaker.Base.Text.{Text, codes, text_eq}
use salesmaker.Formula.Syntax.{
  Scope, user, org, FormulaType, text_type, number_type, currency_type, percent_type, boolean_type,
  date_type, date_time_type, time_type, picklist_type, multi_picklist_type,
}
use salesmaker.Formula.Types.{
  FieldLookup, found, unknown_field, not_a_relationship, CheckEnvironment,
}

-- `FIELD_TYPES`
pub data FieldType : Type 0 where
  id text textarea long_text rich_text email phone url number currency percent date datetime :
      FieldType
  time checkbox picklist multi_picklist lookup master_detail auto_number formula : FieldType
  rollup_summary geolocation user_field : FieldType

-- `FieldMeta`, as far as the environment reads it.
pub record FieldMeta : Type 0 where
  pub api_name : Text
  pub type : FieldType
  pub formula_return_type : Option FieldType
  pub relationship_name : Option Text
  pub reference_to : List Text

pub record ObjectMeta : Type 0 where
  pub api_name : Text
  pub fields : List FieldMeta

-- A type that is no formula.
abbrev pub plain_type : FieldType → FormulaType
plain_type number = number_type
plain_type rollup_summary = number_type
plain_type currency = currency_type
plain_type percent = percent_type
plain_type checkbox = boolean_type
plain_type date = date_type
plain_type datetime = date_time_type
plain_type time = time_type
plain_type picklist = picklist_type
plain_type multi_picklist = multi_picklist_type
plain_type _ = text_type

-- `formulaTypeOf`; a formula that returns a formula is a text.
unfoldable pub formula_type_of : FieldType → Option FieldType → FormulaType
formula_type_of formula none = text_type
formula_type_of formula (some t) = plain_type t
formula_type_of t r = plain_type t

-- `endsWith`, and the text without its last units.
abbrev pub ends_in : Text → Text → Bool
ends_in suffix [] = text_eq [] suffix
ends_in suffix (c ∷ cs) = text_eq (c ∷ cs) suffix || ends_in suffix cs

abbrev pub cut_last : ℕ → Text → Text
cut_last n t = take (length t - n) t

abbrev pub implied_name : Text → Text
implied_name name =
    if ends_in (codes "__c") name
    then cut_last 3 name ++ codes "__r"
    else if ends_in (codes "_id") name
    then cut_last 3 name
    else name

abbrev pub name_or : Option Text → Text → Text
name_or none name = implied_name name
name_or (some []) name = implied_name name
name_or (some (c ∷ cs)) name = c ∷ cs

-- `relationshipName`
unfoldable pub relationship_name : FieldMeta → Text
relationship_name f = name_or f.relationship_name f.api_name

abbrev pub Table : Type 0
Table = List Text

-- `PLATFORM`: the fields of platform records, all of them texts.
abbrev pub platform : List (Text × Table)
platform =
    (
      codes "user",
      codes "id"
          ∷ codes "name"
          ∷ codes "email"
          ∷ codes "title"
          ∷ codes "department"
          ∷ codes "phone"
          ∷ [],
    )
    ∷ (codes "queue", codes "id" ∷ codes "name" ∷ codes "email" ∷ [])
    ∷ (codes "record_type", codes "id" ∷ codes "name" ∷ codes "api_name" ∷ [])
    ∷ (codes "pipeline", codes "id" ∷ codes "name" ∷ [])
    ∷ []

-- `GLOBALS`, all of them texts.
abbrev pub globals : Scope → Table
globals user =
    codes "id"
    ∷ codes "name"
    ∷ codes "email"
    ∷ codes "title"
    ∷ codes "department"
    ∷ codes "locale"
    ∷ codes "timezone"
    ∷ codes "profile"
    ∷ []
globals org = codes "id" ∷ codes "name" ∷ codes "corporate_currency" ∷ codes "default_timezone" ∷ []

abbrev pub has_name : Table → Text → Bool
has_name [] name = false
has_name (n ∷ ns) name = text_eq n name || has_name ns name

unfoldable pub table_of : List (Text × Table) → Text → Option Table
table_of [] name = none
table_of ((n, t) ∷ ts) name = let rest = table_of ts name in if text_eq n name then some t else rest

-- `Map.get`, of a map in which a later entry replaces an earlier one of the same name.
abbrev pub or_this {ℓ} : {A : Type ℓ} → Option A → Bool → A → Option A
or_this (some later) same a = some later
or_this none true a = some a
or_this none false a = none

unfoldable pub object_named : List ObjectMeta → Text → Option ObjectMeta
object_named [] name = none
object_named (o ∷ os) name = or_this (object_named os name) (text_eq o.api_name name) o

unfoldable pub field_named : List FieldMeta → Text → Option FieldMeta
field_named [] name = none
field_named (f ∷ fs) name = or_this (field_named fs name) (text_eq f.api_name name) f

-- `LOOKUPS`
abbrev pub is_lookup : FieldType → Bool
is_lookup lookup = true
is_lookup master_detail = true
is_lookup user_field = true
is_lookup _ = false

-- The lookup that a segment of a path follows: the first of that name.
unfoldable pub lookup_named : List FieldMeta → Text → Option FieldMeta
unfolding relationship_name
lookup_named [] segment = none
lookup_named (f ∷ fs) segment =
    let rest = lookup_named fs segment in
    if is_lookup f.type && text_eq (relationship_name f) segment then some f else rest

abbrev pub default_target : FieldType → Text
default_target user_field = codes "user"
default_target _ = []

-- A polymorphic lookup is followed as its first target.
abbrev pub target_of : FieldType → List Text → Text
target_of type [] = default_target type
target_of type (t ∷ ts) = t

-- What a read of the metadata comes to: the result of a lookup; or, where a table of the program is read
-- under the name of a property that every JavaScript object inherits, such as `constructor`, what the
-- runtime has there, in place of a type.
pub data Resolved : Type 0 where
  looked : FieldLookup → Resolved
  inherited : Resolved

abbrev pub found_field : Option FieldMeta → Resolved
found_field none = looked unknown_field
found_field (some f) = looked (found (formula_type_of f.type f.formula_return_type))

abbrev pub not_followed : Option FieldMeta → Resolved
not_followed none = looked unknown_field
not_followed (some f) = looked not_a_relationship

-- `platform[segment]`: an own name first, then an inherited one.
abbrev pub known_name : (own is_inherited : Bool) → Resolved
known_name true is_inherited = looked (found text_type)
known_name false true = inherited
known_name false false = looked unknown_field

-- A segment before the end is followed: `onward` says what the rest of the path is, from an object on.
abbrev pub follow : (Text → Resolved) → Option FieldMeta → Option FieldMeta → Resolved
follow onward none f = not_followed f
follow onward (some l) f = onward (target_of l.type l.reference_to)

-- `PLATFORM[current]`
pub data PlatformRead : Type 0 where
  own_table : Table → PlatformRead
  inherited_value absent : PlatformRead

abbrev pub platform_read : Option Table → Bool → PlatformRead
platform_read (some table) is_inherited = own_table table
platform_read none true = inherited_value
platform_read none false = absent

-- `GLOBALS[scope][name]`
pub data GlobalRead : Type 0 where
  global_type : FormulaType → GlobalRead
  inherited_global no_global : GlobalRead

-- `inherits` says which names the runtime's objects inherit.
module _ (inherits : Text → Bool) where
  abbrev pub resolve_at :
      (Text → Resolved) → PlatformRead → Option ObjectMeta → Text → List Text → Resolved
  resolve_at onward (own_table table) o segment [] =
      known_name (has_name table segment) (inherits segment)
  resolve_at onward (own_table table) o segment (next ∷ path) = looked not_a_relationship
  resolve_at onward inherited_value o segment [] = inherited
  resolve_at onward inherited_value o segment (next ∷ path) = looked not_a_relationship
  resolve_at onward absent none segment path = looked unknown_field
  resolve_at onward absent (some o) segment [] = found_field (field_named o.fields segment)
  resolve_at onward absent (some o) segment (next ∷ path) =
      follow onward (lookup_named o.fields segment) (field_named o.fields segment)

  -- `field`: the loop over the path, from an object on.
  unfoldable pub resolve : List ObjectMeta → Text → List Text → Resolved
  resolve os current [] = looked unknown_field
  resolve os current (segment ∷ path) =
      resolve_at (λ next. resolve os next path)
        (platform_read (table_of platform current) (inherits current)) (object_named os current)
        segment path

  -- `global`: the type, if any, or an inherited value in its place.
  abbrev pub known_global : (own is_inherited : Bool) → GlobalRead
  known_global true is_inherited = global_type text_type
  known_global false true = inherited_global
  known_global false false = no_global

  unfoldable pub resolve_global : Scope → Text → GlobalRead
  resolve_global scope name = known_global (has_name (globals scope) name) (inherits name)

  -- `metadataEnvironment`, as far as it is an environment of types: it answers as the reads do, wherever they
  -- come to no inherited value.
  pub record IsMetadataEnvironment (os : List ObjectMeta) (root : Text) (env : CheckEnvironment)
      : Type 0 where
    pub field :
        (path : List Text) (l : FieldLookup) → resolve os root path ≡ looked l → env.field path ≡ l
    pub global :
        (scope : Scope) (name : Text) (t : FormulaType)
        → resolve_global scope name ≡ global_type t
        → env.global scope name ≡ some t
    pub unknown :
        (scope : Scope) (name : Text)
        → resolve_global scope name ≡ no_global
        → env.global scope name ≡ none
