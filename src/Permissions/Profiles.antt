-- ===== src/Permissions/Profiles.antt =====
-- packages/permissions/src/catalogue.ts: the profiles that every organisation starts with. The
-- standard objects, with their fields under field-level security, are a parameter.
mod Tests
use Prim.Native.String.{String}
use text.Mathlib.Text.{◌==◌ as str_eq}
use salesmaker.Base.{
  ◌≡◌, refl, Bool, true, false, not, ◌||◌, Option, none, some, List, [], ◌∷◌, map, All, all, any,
  includes, insert, if◌then◌else◌,
}
use salesmaker.Permissions.Access.{
  PartialAccess, ObjectAccess, FieldAccess, normalise_object_access, system_permissions,
}
use salesmaker.Permissions.Engine.{Grants}

abbrev never_default : List String
never_default = "bypass_calling_window" ∷ []

-- The API names of the standard objects, each with those of its fields.
abbrev pub Standard : Type 0
Standard = List (String × List String)

abbrev field_grants : FieldAccess → List String → List (String × Option FieldAccess)
field_grants access = map (λ f. (f, some access))

unfoldable pub objects_for :
    (String → PartialAccess) → Standard → List (String × Option ObjectAccess)
objects_for object [] = []
objects_for object ((name, fields) ∷ rest) =
    let others = objects_for object rest in
    let access = normalise_object_access (object name) in
    if not access.read then others else (name, some access) ∷ others

unfoldable pub fields_for :
    (String → PartialAccess)
    → FieldAccess
    → Standard
    → List (String × Option (List (String × Option FieldAccess)))
fields_for object field [] = []
fields_for object field ((name, fields) ∷ rest) =
    let others = fields_for object field rest in
    let access = normalise_object_access (object name) in
    if not access.read then others else (name, some (field_grants field fields)) ∷ others

unfoldable pub grants_for : List String → (String → PartialAccess) → FieldAccess → Standard → Grants
grants_for system object field standard = record {
  system = system;
  objects = objects_for object standard;
  fields = fields_for object field standard;
}

abbrev core_sales : List String
core_sales = "lead" ∷ "account" ∷ "contact" ∷ "opportunity" ∷ "activity" ∷ "quote" ∷ []

unfoldable pub granted_by_default : List String → List String
granted_by_default [] = []
granted_by_default (p ∷ ps) =
    let rest = granted_by_default ps in if includes never_default p then rest else p ∷ rest

abbrev administers : String → PartialAccess
administers name = record {
  read = some true;
  create = some true;
  edit = none;
  delete = none;
  view_all = none;
  modify_all = some true;
}

abbrev works : String → PartialAccess
works name = record {
  read = some true;
  create =
      if includes core_sales name || str_eq name "contract" || str_eq name "order"
      then some true
      else none;
  edit =
      if includes core_sales name || str_eq name "contract" || str_eq name "order"
      then some true
      else none;
  delete = if includes core_sales name then some true else none;
  view_all = none;
  modify_all = none;
}

abbrev looks : String → PartialAccess
looks name = record {
  read = some true;
  create = none;
  edit = none;
  delete = none;
  view_all = none;
  modify_all = none;
}

unfoldable pub system_administrator : Standard → Grants
unfolding granted_by_default
system_administrator =
    grants_for (granted_by_default system_permissions) administers
      (record { read = true; edit = true })

unfoldable pub standard_user : Standard → Grants
standard_user =
    grants_for ("run_reports" ∷ "use_ai_assistant" ∷ []) works (record { read = true; edit = true })

unfoldable pub read_only : Standard → Grants
read_only = grants_for ("run_reports" ∷ []) looks (record { read = true; edit = false })

unfoldable pub default_profiles : Standard → List Grants
default_profiles standard =
    system_administrator standard ∷ standard_user standard ∷ read_only standard ∷ []

-- No flag but Read.
abbrev pub only_reads : Option ObjectAccess → Bool
only_reads none = true
only_reads (some a) = not (a.create || a.edit || a.delete || a.view_all || a.modify_all)

objects_for-looks :
    (standard : Standard) → all (λ e. only_reads e.1) (objects_for looks standard) ≡ true
unfolding objects_for normalise_object_access
objects_for-looks [] = refl
objects_for-looks ((name, fields) ∷ rest) = objects_for-looks rest

abbrev pub lacks_never_default : Grants → Bool
lacks_never_default g = not (any (includes g.system) never_default)

-- Whatever the standard objects are: none of the profiles holds a system permission that is never
-- granted by default, and on every object the Read Only profile sets no flag but Read.
pub default_profiles_lem :
    (standard : Standard)
    → (all lacks_never_default (default_profiles standard) ≡ true)
      × (all (λ e. only_reads e.1) (read_only standard).objects ≡ true)
unfolding default_profiles read_only grants_for standard_user system_administrator
default_profiles_lem standard = (refl, objects_for-looks standard)
