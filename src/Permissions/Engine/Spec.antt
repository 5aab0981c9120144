-- ===== src/Permissions/Engine/Spec.antt =====
-- What the permissions of one object and of one field should be, without dictionaries: the
-- description that the engine is compared with.
use Prim.Native.String.{String}
use text.Mathlib.Text.{◌==◌ as str_eq}
use salesmaker.Base.{Option, none, some, List, [], ◌∷◌, lookup, if◌then◌else◌}
use salesmaker.Permissions.Access.{
  ObjectAccess, no_object_access, flags_of, partial_of, normalise_object_access,
  restrict_object_access, clear_flags,
}
use salesmaker.Permissions.Access.Closure.{join}
use salesmaker.Permissions.Engine.{Grants, Group, PermissionSource}

abbrev pub at_object : String → List (String × ObjectAccess) → ObjectAccess
at_object o m = flags_of (lookup o m)

abbrev pub entry : Option ObjectAccess → ObjectAccess
entry none = no_object_access
entry (some a) = normalise_object_access (partial_of a)

-- What one bundle grants on the object `o`.
abbrev pub granted : String → List (String × Option ObjectAccess) → ObjectAccess
granted o [] = no_object_access
granted o ((j, a) ∷ es) = join (if str_eq j o then entry a else no_object_access) (granted o es)

abbrev pub mute_entry : Option ObjectAccess → ObjectAccess → ObjectAccess
mute_entry none a = a
mute_entry (some m) a = restrict_object_access (clear_flags a m)

-- What a muting set leaves of an access to the object `o`.
abbrev pub muted : String → List (String × Option ObjectAccess) → ObjectAccess → ObjectAccess
muted o [] a = a
muted o ((j, m) ∷ es) a = muted o es (if str_eq j o then mute_entry m a else a)

abbrev pub sets_grant : String → List Grants → ObjectAccess
sets_grant o [] = no_object_access
sets_grant o (s ∷ ss) = join (granted o s.objects) (sets_grant o ss)

abbrev pub mute_option : String → Option Grants → ObjectAccess → ObjectAccess
mute_option o none a = a
mute_option o (some m) a = muted o m.objects a

abbrev pub group_grant : String → Group → ObjectAccess
group_grant o g = mute_option o g.muting (sets_grant o g.sets)

abbrev pub groups_grant : String → List Group → ObjectAccess
groups_grant o [] = no_object_access
groups_grant o (g ∷ gs) = join (group_grant o g) (groups_grant o gs)

-- The union over the profile, the sets, and each group's sets less what that group mutes.
abbrev pub source_grant : String → PermissionSource → ObjectAccess
source_grant o source =
    join (join (granted o source.profile.objects) (sets_grant o source.sets))
      (groups_grant o source.groups)
