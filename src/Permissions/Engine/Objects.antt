-- ===== src/Permissions/Engine/Objects.antt =====
-- Object access: the dictionaries of the engine agree with the description, object by object.
use Prim.Native.String.{String}
use text.Mathlib.Text.{◌==◌ as str_eq}
use text.Mathlib.TextEquality.{eq_iff}
use salesmaker.Base.{
  ◌≡◌, refl, sym, ap, ◌∙◌, Option, none, some, List, [], ◌∷◌, lookup, insert, lookup-insert,
  if◌then◌else◌, Bool-cases, inl, inr, arith,
}
use salesmaker.Permissions.Access.{
  ObjectAccess, no_object_access, restrict_object_access, or_object, clear_flags,
}
use salesmaker.Permissions.Access.Closure.{
  IsClosed, join, none-join, or_object-join, join_assoc, join-none, join-IsClosed,
  normalise-IsClosed, restrict-IsClosed, normalise_of_IsClosed, no_access-IsClosed,
}
use salesmaker.Permissions.Engine.{
  Grants, Group, PermissionSource, Accumulator, empty, add_object, add_objects, add, mute_object,
  mute_objects, mute, present, merge, add_sets, group_permissions, add_groups,
  effective_permissions, mute_if,
}
use salesmaker.Permissions.Engine.Spec.{
  at_object, entry, granted, mute_entry, muted, sets_grant, mute_option, group_grant, groups_grant,
  source_grant,
}

-- No key twice, and every access closed under the dependency rules.
abbrev pub IsWellFormed : List (String × ObjectAccess) → Type 0
IsWellFormed [] = Unit
IsWellFormed ((k, a) ∷ m) = (lookup k m ≡ none) × IsClosed a × IsWellFormed m

add_object-at :
    (o : String) (m : List (String × ObjectAccess)) (j : String) (a : Option ObjectAccess)
    → at_object o (add_object m j a)
      ≡ join (at_object o m) (if str_eq j o then entry a else no_object_access)
unfolding add_object or_object
add_object-at o m j none = elim (Bool-cases (str_eq j o)) [
  | inl e ↦ rw e (sym (join-none (at_object o m)))
  | inr e ↦ rw e (sym (join-none (at_object o m)))
]
add_object-at o m j (some a) = elim (Bool-cases (str_eq j o)) [
  | inl e ↦ rw (lookup-insert, e, (eq_iff j o).0 e) (unfold join in refl)
  | inr e ↦ rw (lookup-insert, e) (sym (join-none (at_object o m)))
]

pub add_objects-at :
    (o : String) (m : List (String × ObjectAccess)) (es : List (String × Option ObjectAccess))
    → at_object o (add_objects m es) ≡ join (at_object o m) (granted o es)
unfolding add_objects
add_objects-at o m [] = sym (join-none (at_object o m))
add_objects-at o m ((j, a) ∷ es) =
    add_objects-at o (add_object m j a) es ∙ (rw (add_object-at o m j a) (join_assoc _ _ _))

mute_object-at :
    (o : String) (m : List (String × ObjectAccess)) (j : String) (c a : Option ObjectAccess)
    → lookup j m ≡ c
    → at_object o (mute_object m j c a)
      ≡ (if str_eq j o then mute_entry a (at_object o m) else at_object o m)
unfolding mute_object restrict_object_access clear_flags
mute_object-at o m j none none h = elim (Bool-cases (str_eq j o)) [ inl e ↦ rw e | inr e ↦ rw e ]
mute_object-at o m j (some c) none h = elim (Bool-cases (str_eq j o)) [
  | inl e ↦ rw e
  | inr e ↦ rw e
]
mute_object-at o m j none (some a) h = elim (Bool-cases (str_eq j o)) [
  | inl e ↦ rw (e, ← (eq_iff j o).0 e, h)
  | inr e ↦ rw e
]
mute_object-at o m j (some c) (some a) h = elim (Bool-cases (str_eq j o)) [
  | inl e ↦ rw (lookup-insert, e, ← (eq_iff j o).0 e, h)
  | inr e ↦ rw (lookup-insert, e)
]

pub mute_objects-at :
    (o : String) (m : List (String × ObjectAccess)) (es : List (String × Option ObjectAccess))
    → at_object o (mute_objects m es) ≡ muted o es (at_object o m)
unfolding mute_objects
mute_objects-at o m [] = refl
mute_objects-at o m ((j, a) ∷ es) =
    mute_objects-at o (mute_object m j (lookup j m) a) es
    ∙ ap (muted o es) (mute_object-at o m j (lookup j m) a refl)

-- Well-formedness is kept by every write.
insert-IsWellFormed :
    (k : String) (v : ObjectAccess) (m : List (String × ObjectAccess))
    → IsClosed v
    → IsWellFormed m
    → IsWellFormed (insert k v m)
unfolding insert
insert-IsWellFormed k v [] c w = (unfold lookup in refl, c, tt)
insert-IsWellFormed k v ((j, u) ∷ m) c (fresh, d, w) = elim (Bool-cases (str_eq j k)) [
  | inl e ↦ rw e (rw ((eq_iff j k).0 e) at fresh, c, w)
  | inr e ↦
      rw e (
        rw lookup-insert (ground (arith, eq_iff j k, eq_iff k j)),
        d,
        insert-IsWellFormed k v m c w,
      )
]

lookup-IsClosed :
    (o : String) (m : List (String × ObjectAccess)) → IsWellFormed m → IsClosed (at_object o m)
unfolding lookup
lookup-IsClosed o [] w = no_access-IsClosed
lookup-IsClosed o ((j, a) ∷ m) (_, c, w) = elim (Bool-cases (str_eq j o)) [
  | inl e ↦ rw e c
  | inr e ↦ rw e (lookup-IsClosed o m w)
]

add_object-IsWellFormed :
    (m : List (String × ObjectAccess)) (j : String) (a : Option ObjectAccess)
    → IsWellFormed m
    → IsWellFormed (add_object m j a)
unfolding add_object
add_object-IsWellFormed m j none w = w
add_object-IsWellFormed m j (some a) w =
    insert-IsWellFormed j _ m
      (rw (or_object-join _ _) (join-IsClosed (lookup-IsClosed j m w) (normalise-IsClosed _))) w

add_objects-IsWellFormed :
    (m : List (String × ObjectAccess)) (es : List (String × Option ObjectAccess))
    → IsWellFormed m
    → IsWellFormed (add_objects m es)
unfolding add_objects
add_objects-IsWellFormed m [] w = w
add_objects-IsWellFormed m ((j, a) ∷ es) w =
    add_objects-IsWellFormed (add_object m j a) es (add_object-IsWellFormed m j a w)

mute_object-IsWellFormed :
    (m : List (String × ObjectAccess)) (j : String) (c a : Option ObjectAccess)
    → IsWellFormed m
    → IsWellFormed (mute_object m j c a)
unfolding mute_object
mute_object-IsWellFormed m j (some c) (some a) w = insert-IsWellFormed j _ m (restrict-IsClosed _) w
mute_object-IsWellFormed m j none a w = w
mute_object-IsWellFormed m j (some c) none w = w

mute_objects-IsWellFormed :
    (m : List (String × ObjectAccess)) (es : List (String × Option ObjectAccess))
    → IsWellFormed m
    → IsWellFormed (mute_objects m es)
unfolding mute_objects
mute_objects-IsWellFormed m [] w = w
mute_objects-IsWellFormed m ((j, a) ∷ es) w =
    mute_objects-IsWellFormed (mute_object m j (lookup j m) a) es
      (mute_object-IsWellFormed m j (lookup j m) a w)

-- Reading a well-formed dictionary back as grants loses nothing.
granted-none :
    (o : String) (m : List (String × ObjectAccess))
    → lookup o m ≡ none
    → granted o (present m) ≡ no_object_access
unfolding lookup join
granted-none o [] h = refl
granted-none o ((j, a) ∷ m) h = elim (Bool-cases (str_eq j o)) [
  | inl e ↦ cc (rw e at h)
  | inr e ↦ rw e (granted-none o m (rw e at h))
]

pub granted-present :
    (o : String) (m : List (String × ObjectAccess))
    → IsWellFormed m
    → granted o (present m) ≡ at_object o m
unfolding lookup
granted-present o [] w = refl
granted-present o ((j, a) ∷ m) (fresh, c, w) = elim (Bool-cases (str_eq j o)) [
  | inl e ↦
      rw (e, normalise_of_IsClosed a c, granted-none o m (rw ((eq_iff j o).0 e) at fresh))
        (join-none a)
  | inr e ↦ rw (e, none-join) (granted-present o m w)
]

add_sets-at :
    (o : String) (acc : Accumulator) (ss : List Grants)
    → at_object o (add_sets acc ss).objects ≡ join (at_object o acc.objects) (sets_grant o ss)
unfolding add_sets add
add_sets-at o acc [] = sym (join-none _)
add_sets-at o acc (s ∷ ss) =
    add_sets-at o (add acc s) ss ∙ (rw (add_objects-at o acc.objects s.objects) (join_assoc _ _ _))

add_sets-IsWellFormed :
    (acc : Accumulator) (ss : List Grants)
    → IsWellFormed acc.objects
    → IsWellFormed (add_sets acc ss).objects
unfolding add_sets add
add_sets-IsWellFormed acc [] w = w
add_sets-IsWellFormed acc (s ∷ ss) w =
    add_sets-IsWellFormed (add acc s) ss (add_objects-IsWellFormed acc.objects s.objects w)

mute_if-IsWellFormed :
    (own : Accumulator) (m : Option Grants)
    → IsWellFormed own.objects
    → IsWellFormed (mute_if own m).objects
unfolding mute
mute_if-IsWellFormed own none w = w
mute_if-IsWellFormed own (some m) w = mute_objects-IsWellFormed own.objects m.objects w

pub group_permissions-IsWellFormed : (g : Group) → IsWellFormed (group_permissions g).objects
unfolding group_permissions
group_permissions-IsWellFormed g =
    mute_if-IsWellFormed (add_sets empty g.sets) g.muting (add_sets-IsWellFormed empty g.sets tt)

mute_if-at :
    (o : String) (own : Accumulator) (m : Option Grants)
    → at_object o (mute_if own m).objects ≡ mute_option o m (at_object o own.objects)
unfolding mute
mute_if-at o own none = refl
mute_if-at o own (some m) = mute_objects-at o own.objects m.objects

group_permissions-at :
    (o : String) (g : Group) → at_object o (group_permissions g).objects ≡ group_grant o g
unfolding group_permissions
group_permissions-at o g =
    mute_if-at o (add_sets empty g.sets) g.muting
    ∙ ap (mute_option o g.muting)
        (add_sets-at o empty g.sets ∙ (unfold lookup in none-join (sets_grant o g.sets)))

merge-at :
    (o : String) (into from : Accumulator)
    → IsWellFormed from.objects
    → at_object o (merge into from).objects
      ≡ join (at_object o into.objects) (at_object o from.objects)
unfolding merge add
merge-at o into from w =
    add_objects-at o into.objects (present from.objects)
    ∙ ap (join (at_object o into.objects)) (granted-present o from.objects w)

add_groups-at :
    (o : String) (acc : Accumulator) (gs : List Group)
    → at_object o (add_groups acc gs).objects ≡ join (at_object o acc.objects) (groups_grant o gs)
unfolding add_groups
add_groups-at o acc [] = sym (join-none _)
add_groups-at o acc (g ∷ gs) =
    add_groups-at o (merge acc (group_permissions g)) gs
    ∙ (rw
        (
          merge-at o acc (group_permissions g) (group_permissions-IsWellFormed g),
          group_permissions-at o g,
        )
        (join_assoc _ _ _))

profile-at : (o : String) (p : Grants) → at_object o (add empty p).objects ≡ granted o p.objects
unfolding add
profile-at o p = add_objects-at o [] p.objects ∙ (unfold lookup in none-join (granted o p.objects))

-- For every object the engine's dictionaries hold the union of what the profile, the assigned
-- sets and the groups grant on it, each group's part less what the group's own muting set names.
pub effective_permissions-object :
    (source : PermissionSource) (o : String)
    → at_object o (effective_permissions source).objects ≡ source_grant o source
unfolding effective_permissions
effective_permissions-object source o =
    add_groups-at o _ source.groups
    ∙ ap (λ a. join a (groups_grant o source.groups))
        (add_sets-at o (add empty source.profile) source.sets
          ∙ ap (λ a. join a (sets_grant o source.sets)) (profile-at o source.profile))
