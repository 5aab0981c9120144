-- ===== src/Permissions/Engine.antt =====
-- packages/permissions/src/engine.ts: from a user's grants to effective permissions.
pub mod Spec
pub mod Objects
pub mod Fields
pub mod Laws
mod Tests
use Prim.Native.String.{String}
use salesmaker.Base.{
  Bool, true, false, not, ◌&&◌, ◌||◌, Option, none, some, List, [], ◌∷◌, ◌++◌, includes, lookup,
  insert, if◌then◌else◌,
}
use salesmaker.Permissions.Access.{
  ObjectAccess, FieldAccess, no_object_access, no_field_access, flags_of, partial_of,
  is_system_permission, normalise_object_access, restrict_object_access, or_object, clear_flags,
}

-- `Partial<Record<…>>`: a key may be present with the value undefined.
pub record Grants : Type 0 where
  pub system : List String
  pub objects : List (String × Option ObjectAccess)
  pub fields : List (String × Option (List (String × Option FieldAccess)))

pub record Group : Type 0 where
  pub sets : List Grants
  pub muting : Option Grants

pub record PermissionSource : Type 0 where
  pub profile : Grants
  pub sets : List Grants
  pub groups : List Group

-- Effective permissions are the finished accumulator. The set of system permissions is the list
-- of its members in the order of insertion.
pub record Accumulator : Type 0 where
  pub system : List String
  pub objects : List (String × ObjectAccess)
  pub fields : List (String × List (String × FieldAccess))

abbrev pub empty : Accumulator
empty = record { system = []; objects = []; fields = [] }

-- `Set.add` and `Set.delete`
unfoldable pub set_add : String → List String → List String
set_add name names = if includes names name then names else names ++ name ∷ []

unfoldable pub set_delete : String → List String → List String
set_delete name [] = []
set_delete name (x ∷ xs) =
    if includes (x ∷ []) name then set_delete name xs else x ∷ set_delete name xs

unfoldable pub add_system : List String → List String → List String
add_system acc [] = acc
add_system acc (name ∷ names) =
    add_system (if is_system_permission name then set_add name acc else acc) names

unfoldable pub add_object :
    List (String × ObjectAccess) → String → Option ObjectAccess → List (String × ObjectAccess)
add_object acc object none = acc
add_object acc object (some access) =
    insert object
      (or_object (lookup object acc) (some (normalise_object_access (partial_of access)))) acc

unfoldable pub add_objects :
    List (String × ObjectAccess)
    → List (String × Option ObjectAccess)
    → List (String × ObjectAccess)
add_objects acc [] = acc
add_objects acc ((object, access) ∷ rest) = add_objects (add_object acc object access) rest

abbrev pub field_of : Option FieldAccess → FieldAccess
field_of none = no_field_access
field_of (some a) = a

unfoldable pub or_field : FieldAccess → FieldAccess → FieldAccess
or_field prev access = record {
  read = prev.read || access.read || (prev.edit || access.edit);
  edit = prev.edit || access.edit;
}

unfoldable pub add_field :
    List (String × FieldAccess) → String → Option FieldAccess → List (String × FieldAccess)
add_field target field none = target
add_field target field (some access) =
    insert field (or_field (field_of (lookup field target)) access) target

unfoldable pub add_by_field :
    List (String × FieldAccess) → List (String × Option FieldAccess) → List (String × FieldAccess)
add_by_field target [] = target
add_by_field target ((field, access) ∷ rest) = add_by_field (add_field target field access) rest

-- `x ?? {}`
abbrev pub or_empty {ℓ} : {A : Type ℓ} → Option (List A) → List A
or_empty none = []
or_empty (some xs) = xs

unfoldable pub add_fields :
    List (String × List (String × FieldAccess))
    → List (String × Option (List (String × Option FieldAccess)))
    → List (String × List (String × FieldAccess))
add_fields acc [] = acc
add_fields acc ((object, by_field) ∷ rest) =
    add_fields (insert object (add_by_field (or_empty (lookup object acc)) (or_empty by_field)) acc)
      rest

unfoldable pub add : Accumulator → Grants → Accumulator
add acc grants = record {
  system = add_system acc.system grants.system;
  objects = add_objects acc.objects grants.objects;
  fields = add_fields acc.fields grants.fields;
}

unfoldable pub mute_system : List String → List String → List String
mute_system acc [] = acc
mute_system acc (name ∷ names) = mute_system (set_delete name acc) names

unfoldable pub mute_object :
    List (String × ObjectAccess)
    → String
    → Option ObjectAccess
    → Option ObjectAccess
    → List (String × ObjectAccess)
mute_object acc object (some current) (some muted) =
    insert object (restrict_object_access (clear_flags current muted)) acc
mute_object acc object _ _ = acc

unfoldable pub mute_objects :
    List (String × ObjectAccess)
    → List (String × Option ObjectAccess)
    → List (String × ObjectAccess)
mute_objects acc [] = acc
mute_objects acc ((object, muted) ∷ rest) =
    mute_objects (mute_object acc object (lookup object acc) muted) rest

unfoldable pub clear_field : FieldAccess → FieldAccess → FieldAccess
clear_field current muted =
    let read = current.read && not muted.read in
    record { read = read; edit = read && current.edit && not muted.edit }

unfoldable pub mute_field :
    List (String × FieldAccess)
    → String
    → Option FieldAccess
    → Option FieldAccess
    → List (String × FieldAccess)
mute_field target field (some current) (some muted) =
    insert field (clear_field current muted) target
mute_field target field _ _ = target

unfoldable pub mute_by_field :
    List (String × FieldAccess) → List (String × Option FieldAccess) → List (String × FieldAccess)
mute_by_field target [] = target
mute_by_field target ((field, muted) ∷ rest) =
    mute_by_field (mute_field target field (lookup field target) muted) rest

unfoldable pub mute_target :
    List (String × List (String × FieldAccess))
    → String
    → Option (List (String × FieldAccess))
    → Option (List (String × Option FieldAccess))
    → List (String × List (String × FieldAccess))
mute_target acc object none by_field = acc
mute_target acc object (some target) by_field =
    insert object (mute_by_field target (or_empty by_field)) acc

unfoldable pub mute_fields :
    List (String × List (String × FieldAccess))
    → List (String × Option (List (String × Option FieldAccess)))
    → List (String × List (String × FieldAccess))
mute_fields acc [] = acc
mute_fields acc ((object, by_field) ∷ rest) =
    mute_fields (mute_target acc object (lookup object acc) by_field) rest

unfoldable pub mute : Accumulator → Grants → Accumulator
mute acc muting = record {
  system = mute_system acc.system muting.system;
  objects = mute_objects acc.objects muting.objects;
  fields = mute_fields acc.fields muting.fields;
}

-- An accumulator's dictionaries, read as grants.
abbrev pub present {ℓ} : {A : Type ℓ} → List (String × A) → List (String × Option A)
present [] = []
present ((k, v) ∷ m) = (k, some v) ∷ present m

abbrev pub present_fields :
    List (String × List (String × FieldAccess))
    → List (String × Option (List (String × Option FieldAccess)))
present_fields [] = []
present_fields ((k, v) ∷ m) = (k, some (present v)) ∷ present_fields m

unfoldable pub merge : Accumulator → Accumulator → Accumulator
merge into from = add into (record {
  system = from.system;
  objects = present from.objects;
  fields = present_fields from.fields;
})

unfoldable pub add_sets : Accumulator → List Grants → Accumulator
add_sets acc [] = acc
add_sets acc (set ∷ sets) = add_sets (add acc set) sets

abbrev pub mute_if : Accumulator → Option Grants → Accumulator
mute_if own none = own
mute_if own (some muting) = mute own muting

unfoldable pub group_permissions : Group → Accumulator
group_permissions group = mute_if (add_sets empty group.sets) group.muting

unfoldable pub add_groups : Accumulator → List Group → Accumulator
add_groups acc [] = acc
add_groups acc (group ∷ groups) = add_groups (merge acc (group_permissions group)) groups

unfoldable pub effective_permissions : PermissionSource → Accumulator
effective_permissions source =
    add_groups (add_sets (add empty source.profile) source.sets) source.groups

unfoldable pub has_system_permission : Accumulator → String → Bool
has_system_permission permissions name = includes permissions.system name

abbrev pub full_access : ObjectAccess
full_access = record {
  read = true;
  create = true;
  edit = true;
  delete = true;
  view_all = true;
  modify_all = true;
}

-- `normaliseObjectAccess({ read: true, viewAll: true })`
abbrev view_access : ObjectAccess
view_access = normalise_object_access (record {
  read = some true;
  create = none;
  edit = none;
  delete = none;
  view_all = some true;
  modify_all = none;
})

-- The data-wide permissions, `view_all_data` and `modify_all_data`, applied to a granted access.
unfoldable pub widen : (view modify : Bool) → ObjectAccess → ObjectAccess
unfolding or_object normalise_object_access
widen view modify granted =
    let viewed = if view then or_object (some granted) (some view_access) else granted in
    let modified = if modify then record viewed { modify_all = true } else viewed in
    if modified.modify_all then full_access else modified

unfoldable pub object_access : Accumulator → String → ObjectAccess
object_access permissions object =
    widen (has_system_permission permissions "view_all_data")
      (has_system_permission permissions "modify_all_data")
      (flags_of (lookup object permissions.objects))

-- What the catalogue, or the field's definition, says of a field.
pub record FieldFlags : Type 0 where
  pub system : Bool
  pub required : Bool

-- `a ?? b`
abbrev pub or_else {ℓ} : {A : Type ℓ} → Option A → Option A → Option A
or_else none b = b
or_else (some a) b = some a

abbrev pub is_system : Option FieldFlags → Bool
is_system none = false
is_system (some f) = f.system

abbrev pub is_required : Option FieldFlags → Bool
is_required none = false
is_required (some f) = f.required

unfoldable pub field_rule : ObjectAccess → Option FieldFlags → FieldAccess → FieldAccess
field_rule obj flags granted =
    let can_write = obj.edit || obj.create in
    if not obj.read
    then no_field_access
    else if is_system flags
    then record { read = true; edit = false }
    else if is_required flags
    then record { read = true; edit = can_write }
    else record { read = granted.read; edit = granted.edit && can_write }

-- `standard` is the catalogue's `standardField(object, field)`.
unfoldable pub field_access :
    Accumulator
    → (standard : Option FieldFlags) → String
    → String
    → (definition : Option FieldFlags) → FieldAccess
field_access permissions standard object field definition =
    field_rule (object_access permissions object) (or_else standard definition)
      (field_of (lookup field (or_empty (lookup object permissions.fields))))
