-- ===== src/Permissions/Engine/Fields.antt =====
-- Field access: every stored grant has Read wherever it has Edit.
use Prim.Native.String.{String}
use text.Mathlib.Text.{◌==◌ as str_eq}
use salesmaker.Base.{
  ◌≡◌, true, Option, none, some, List, [], ◌∷◌, lookup, insert, Bool-cases, inl, inr, arith,
}
use salesmaker.Permissions.Access.{FieldAccess}
use salesmaker.Permissions.Engine.{
  Grants, Group, PermissionSource, Accumulator, field_of, or_field, add_field, add_by_field,
  or_empty, add_fields, add, present_fields, merge, add_sets, group_permissions, add_groups,
  effective_permissions,
}

abbrev pub EditReads : FieldAccess → Type 0
EditReads a = a.edit ≡ true → a.read ≡ true

abbrev FieldsRead : List (String × FieldAccess) → Type 0
FieldsRead [] = Unit
FieldsRead ((k, a) ∷ m) = EditReads a × FieldsRead m

abbrev AllRead : List (String × List (String × FieldAccess)) → Type 0
AllRead [] = Unit
AllRead ((k, t) ∷ m) = FieldsRead t × AllRead m

insert-FieldsRead :
    (k : String) (v : FieldAccess) (m : List (String × FieldAccess))
    → EditReads v
    → FieldsRead m
    → FieldsRead (insert k v m)
unfolding insert
insert-FieldsRead k v [] e w = (e, tt)
insert-FieldsRead k v ((j, u) ∷ m) e (d, w) = elim (Bool-cases (str_eq j k)) [
  | inl h ↦ rw h (e, w)
  | inr h ↦ rw h (d, insert-FieldsRead k v m e w)
]

insert-AllRead :
    (k : String) (t : List (String × FieldAccess)) (m : List (String × List (String × FieldAccess)))
    → FieldsRead t
    → AllRead m
    → AllRead (insert k t m)
unfolding insert
insert-AllRead k t [] e w = (e, tt)
insert-AllRead k t ((j, u) ∷ m) e (d, w) = elim (Bool-cases (str_eq j k)) [
  | inl h ↦ rw h (e, w)
  | inr h ↦ rw h (d, insert-AllRead k t m e w)
]

lookup-FieldsRead :
    (k : String) (m : List (String × List (String × FieldAccess)))
    → AllRead m
    → FieldsRead (or_empty (lookup k m))
unfolding lookup
lookup-FieldsRead k [] w = tt
lookup-FieldsRead k ((j, t) ∷ m) (d, w) = elim (Bool-cases (str_eq j k)) [
  | inl h ↦ rw h d
  | inr h ↦ rw h (lookup-FieldsRead k m w)
]

lookup-EditReads :
    (k : String) (m : List (String × FieldAccess))
    → FieldsRead m
    → EditReads (field_of (lookup k m))
unfolding lookup
lookup-EditReads k [] w = λ h. h
lookup-EditReads k ((j, a) ∷ m) (d, w) = elim (Bool-cases (str_eq j k)) [
  | inl h ↦ rw h d
  | inr h ↦ rw h (lookup-EditReads k m w)
]

or_field-EditReads : (a b : FieldAccess) → EditReads (or_field a b)
unfolding or_field
or_field-EditReads a b = ground arith

add_by_field-FieldsRead :
    (t : List (String × FieldAccess)) (es : List (String × Option FieldAccess))
    → FieldsRead t
    → FieldsRead (add_by_field t es)
unfolding add_by_field add_field
add_by_field-FieldsRead t [] w = w
add_by_field-FieldsRead t ((f, none) ∷ es) w = add_by_field-FieldsRead t es w
add_by_field-FieldsRead t ((f, some a) ∷ es) w =
    add_by_field-FieldsRead (add_field t f (some a)) es
      (insert-FieldsRead f _ t (or_field-EditReads (field_of (lookup f t)) a) w)

add_fields-AllRead :
    (m : List (String × List (String × FieldAccess)))
    (es : List (String × Option (List (String × Option FieldAccess))))
    → AllRead m
    → AllRead (add_fields m es)
unfolding add_fields
add_fields-AllRead m [] w = w
add_fields-AllRead m ((o, by_field) ∷ es) w =
    add_fields-AllRead (insert o (add_by_field (or_empty (lookup o m)) (or_empty by_field)) m) es (
      insert-AllRead o _ m (add_by_field-FieldsRead _ (or_empty by_field) (lookup-FieldsRead o m w))
        w)

add_sets-AllRead :
    (acc : Accumulator) (ss : List Grants) → AllRead acc.fields → AllRead (add_sets acc ss).fields
unfolding add_sets add
add_sets-AllRead acc [] w = w
add_sets-AllRead acc (s ∷ ss) w =
    add_sets-AllRead (add acc s) ss (add_fields-AllRead acc.fields s.fields w)

add_groups-AllRead :
    (acc : Accumulator) (gs : List Group) → AllRead acc.fields → AllRead (add_groups acc gs).fields
unfolding add_groups merge add
add_groups-AllRead acc [] w = w
add_groups-AllRead acc (g ∷ gs) w =
    add_groups-AllRead (merge acc (group_permissions g)) gs
      (add_fields-AllRead acc.fields (present_fields (group_permissions g).fields) w)

-- Under effective permissions no field can be edited and not read.
pub stored-IsReadable :
    (source : PermissionSource) (o f : String)
    → EditReads (field_of (lookup f (or_empty (lookup o (effective_permissions source).fields))))
unfolding effective_permissions add
stored-IsReadable source o f = lookup-EditReads f _ (
    lookup-FieldsRead o _ (
      add_groups-AllRead _ source.groups
        (add_sets-AllRead _ source.sets (add_fields-AllRead [] source.profile.fields tt))))
