-- ===== src/Permissions/Engine/Laws.antt =====
-- What the engine promises to its callers about the access to objects and fields.
use Prim.Native.String.{String}
use text.Mathlib.Text.{◌==◌ as str_eq}
use mathlib.Core.List.{Memᴰ}
use salesmaker.Base.{
  not, ◌&&◌, ◌≡◌, Bool, true, false, ◌||◌, Option, none, some, List, [], ◌∷◌, if◌then◌else◌, arith,
}
use salesmaker.Permissions.Access.{ObjectAccess, FieldAccess, no_object_access}
use salesmaker.Permissions.Access.Closure.{
  IsClosed, Below, join, join-IsClosed, Below-join_left, Below-join_right, Below-trans,
  normalise-IsClosed, restrict-IsClosed, no_access-IsClosed,
}
use salesmaker.Permissions.Engine.{
  Grants, Group, PermissionSource, Accumulator, effective_permissions, has_system_permission, widen,
  field_rule, object_access, full_access, FieldFlags, is_system, or_else, field_access,
}
use salesmaker.Permissions.Engine.Spec.{
  at_object, entry, granted, mute_entry, muted, sets_grant, mute_option, groups_grant,
}
use salesmaker.Permissions.Engine.Objects.{effective_permissions-object}
use salesmaker.Permissions.Engine.Fields.{stored-IsReadable}

entry-IsClosed : (a : Option ObjectAccess) → IsClosed (entry a)
entry-IsClosed none = no_access-IsClosed
entry-IsClosed (some a) = normalise-IsClosed _

entry_if-IsClosed :
    (b : Bool) (a : Option ObjectAccess) → IsClosed (if b then entry a else no_object_access)
entry_if-IsClosed true a = entry-IsClosed a
entry_if-IsClosed false a = no_access-IsClosed

granted-IsClosed : (o : String) (es : List (String × Option ObjectAccess)) → IsClosed (granted o es)
granted-IsClosed o [] = no_access-IsClosed
granted-IsClosed o ((j, a) ∷ es) =
    join-IsClosed (entry_if-IsClosed (str_eq j o) a) (granted-IsClosed o es)

sets_grant-IsClosed : (o : String) (ss : List Grants) → IsClosed (sets_grant o ss)
sets_grant-IsClosed o [] = no_access-IsClosed
sets_grant-IsClosed o (s ∷ ss) =
    join-IsClosed (granted-IsClosed o s.objects) (sets_grant-IsClosed o ss)

mute_entry_if-IsClosed :
    (b : Bool) (m : Option ObjectAccess) (a : ObjectAccess)
    → IsClosed a
    → IsClosed (if b then mute_entry m a else a)
mute_entry_if-IsClosed true none a c = c
mute_entry_if-IsClosed true (some m) a c = restrict-IsClosed _
mute_entry_if-IsClosed false m a c = c

muted-IsClosed :
    (o : String) (es : List (String × Option ObjectAccess)) (a : ObjectAccess)
    → IsClosed a
    → IsClosed (muted o es a)
muted-IsClosed o [] a c = c
muted-IsClosed o ((j, m) ∷ es) a c =
    muted-IsClosed o es (if str_eq j o then mute_entry m a else a)
      (mute_entry_if-IsClosed (str_eq j o) m a c)

mute_option-IsClosed :
    (o : String) (m : Option Grants) (a : ObjectAccess) → IsClosed a → IsClosed (mute_option o m a)
mute_option-IsClosed o none a c = c
mute_option-IsClosed o (some m) a c = muted-IsClosed o m.objects a c

groups_grant-IsClosed : (o : String) (gs : List Group) → IsClosed (groups_grant o gs)
groups_grant-IsClosed o [] = no_access-IsClosed
groups_grant-IsClosed o (g ∷ gs) =
    join-IsClosed (mute_option-IsClosed o g.muting _ (sets_grant-IsClosed o g.sets))
      (groups_grant-IsClosed o gs)

-- Whatever the sources grant and mute, the effective access to every object obeys the dependency
-- rules between its flags.
pub effective_permissions-IsClosed :
    (source : PermissionSource) (o : String)
    → IsClosed (at_object o (effective_permissions source).objects)
effective_permissions-IsClosed source o = rw (effective_permissions-object source o) (
    join-IsClosed
      (join-IsClosed (granted-IsClosed o source.profile.objects)
        (sets_grant-IsClosed o source.sets))
      (groups_grant-IsClosed o source.groups))

Below-sets_grant :
    (o : String) {s : Grants} {ss : List Grants}
    → Memᴰ s ss
    → Below (granted o s.objects) (sets_grant o ss)
Below-sets_grant o {ss = []} m = elim m [ ]
Below-sets_grant o {s} {ss = t ∷ ss} (Memᴰ.head e) =
    rw e (Below-join_left (granted o t.objects) (sets_grant o ss))
Below-sets_grant o {s} {ss = t ∷ ss} (Memᴰ.tail m) =
    Below-trans (Below-sets_grant o m) (Below-join_right (granted o t.objects) (sets_grant o ss))

-- A muting set takes away only what its own group grants: what the profile or a directly assigned
-- set grants on an object stays, whatever the groups mute.
pub grants-survive :
    (source : PermissionSource) (o : String) (s : Grants)
    → Memᴰ s (source.profile ∷ source.sets)
    → Below (granted o s.objects) (at_object o (effective_permissions source).objects)
grants-survive source o s m = rw (effective_permissions-object source o) (
    Below-trans (Below-sets_grant o m) (
      Below-join_left (join (granted o source.profile.objects) (sets_grant o source.sets))
        (groups_grant o source.groups)))

widen-IsClosed :
    (view modify : Bool) (a : ObjectAccess) → IsClosed a → IsClosed (widen view modify a)
unfolding widen
widen-IsClosed view modify a c = ground arith

-- The access that callers see to any object obeys the dependency rules, data-wide permissions
-- included.
pub object_access-IsClosed :
    (source : PermissionSource) (o : String)
    → IsClosed (object_access (effective_permissions source) o)
unfolding object_access
object_access-IsClosed source o = widen-IsClosed _ _ _ (effective_permissions-IsClosed source o)

widen_modify : (view : Bool) (a : ObjectAccess) → widen view true a ≡ full_access
unfolding widen
widen_modify view a = ground arith

widen_view :
    (modify : Bool) (a : ObjectAccess)
    → ((widen true modify a).read ≡ true) × ((widen true modify a).view_all ≡ true)
unfolding widen
widen_view modify a = ground arith

Below-widen : (view modify : Bool) (a : ObjectAccess) → Below a (widen view modify a)
unfolding widen
Below-widen view modify a = ground arith

-- Data-wide permissions: `modify_all_data` gives every flag on every object, `view_all_data` gives
-- Read and View All on every object, and neither takes anything away.
pub object_access_wide :
    (p : Accumulator) (o : String)
    → (has_system_permission p "modify_all_data" ≡ true → object_access p o ≡ full_access)
      × (has_system_permission p "view_all_data" ≡ true
          → ((object_access p o).read ≡ true) × ((object_access p o).view_all ≡ true))
      × Below (at_object o p.objects) (object_access p o)
unfolding object_access
object_access_wide p o =
    (λ e. rw e (widen_modify _ _), λ e. rw e (widen_view _ _), Below-widen _ _ _)

rules_hold :
    (obj : ObjectAccess) (flags : Option FieldFlags) (g : FieldAccess)
    → (g.edit ≡ true → g.read ≡ true)
    → ((field_rule obj flags g).read ≡ ((field_rule obj flags g).read && obj.read))
      × ((field_rule obj flags g).edit ≡ (
          (field_rule obj flags g).edit
          && (field_rule obj flags g).read
          && (obj.edit || obj.create)
          && not (is_system flags)))
unfolding field_rule
rules_hold obj flags g h = ground arith

-- Field access under effective permissions, on every branch: a field is read only where its object
-- is, and written only where it is read, where the object is edited or created, and where the field
-- is no system field.
pub field_access_rules :
    (source : PermissionSource) (standard : Option FieldFlags) (o f : String)
    (definition : Option FieldFlags)
    → let p = effective_permissions source in
      let a = field_access p standard o f definition in
      (a.read ≡ (a.read && (object_access p o).read))
      × (a.edit ≡ (
          a.edit
          && a.read
          && ((object_access p o).edit || (object_access p o).create)
          && not (is_system (or_else standard definition))))
unfolding field_access
field_access_rules source standard o f definition =
    rules_hold _ (or_else standard definition) _ (stored-IsReadable source o f)
