-- ===== src/Permissions/Access.antt =====
-- packages/permissions/src/catalogue.ts (names and flags) and the flag arithmetic of
-- packages/permissions/src/engine.ts.
pub mod Closure
use Prim.Native.String.{String}
use salesmaker.Base.{
  Bool, true, false, not, ◌&&◌, ◌||◌, Option, none, some, List, [], ◌∷◌, includes,
}

-- `SYSTEM_PERMISSIONS`
abbrev pub system_permissions : List String
system_permissions =
    "manage_users" ∷ "customize_application" ∷ "view_setup" ∷ "import_records" ∷ "export_reports"
    ∷ "mass_update" ∷ "transfer_records" ∷ "run_reports" ∷ "manage_dashboards" ∷ "api_enabled"
    ∷ "view_all_data" ∷ "modify_all_data" ∷ "manage_billing" ∷ "use_ai_assistant"
    ∷ "approve_ai_actions" ∷ "manage_automations" ∷ "manage_territories" ∷ "view_wallboard"
    ∷ "bypass_calling_window" ∷ []

unfoldable pub is_system_permission : String → Bool
is_system_permission name = includes system_permissions name

pub record ObjectAccess : Type 0 where
  pub read : Bool
  pub create : Bool
  pub edit : Bool
  pub delete : Bool
  pub view_all : Bool
  pub modify_all : Bool

-- `Partial<ObjectAccess>`
pub record PartialAccess : Type 0 where
  pub read : Option Bool
  pub create : Option Bool
  pub edit : Option Bool
  pub delete : Option Bool
  pub view_all : Option Bool
  pub modify_all : Option Bool

pub record FieldAccess : Type 0 where
  pub read : Bool
  pub edit : Bool

abbrev pub no_object_access : ObjectAccess
no_object_access = record {
  read = false;
  create = false;
  edit = false;
  delete = false;
  view_all = false;
  modify_all = false;
}

abbrev pub no_field_access : FieldAccess
no_field_access = record { read = false; edit = false }

-- `x ?? false`
abbrev pub or_false : Option Bool → Bool
or_false none = false
or_false (some b) = b

abbrev pub partial_of : ObjectAccess → PartialAccess
partial_of a = record {
  read = some a.read;
  create = some a.create;
  edit = some a.edit;
  delete = some a.delete;
  view_all = some a.view_all;
  modify_all = some a.modify_all;
}

unfoldable pub normalise_object_access : PartialAccess → ObjectAccess
normalise_object_access access =
    let modify_all = or_false access.modify_all in
    let view_all = or_false access.view_all || modify_all in
    let del = or_false access.delete || modify_all in
    let edit = or_false access.edit || del in
    let create = or_false access.create in
    let read = or_false access.read || create || edit || view_all in
    record {
      read = read;
      create = create;
      edit = edit;
      delete = del;
      view_all = view_all;
      modify_all = modify_all;
    }

unfoldable pub restrict_object_access : ObjectAccess → ObjectAccess
restrict_object_access access =
    let read = access.read in
    let create = access.create && read in
    let edit = access.edit && read in
    let del = access.delete && edit in
    let view_all = access.view_all && read in
    let modify_all = access.modify_all && del && view_all in
    record {
      read = read;
      create = create;
      edit = edit;
      delete = del;
      view_all = view_all;
      modify_all = modify_all;
    }

-- The flags of an object that may be missing from a dictionary.
abbrev pub flags_of : Option ObjectAccess → ObjectAccess
flags_of none = no_object_access
flags_of (some a) = a

-- The loop over `OBJECT_FLAGS`, one flag after another.
unfoldable pub or_object : Option ObjectAccess → Option ObjectAccess → ObjectAccess
or_object a b = record {
  read = (flags_of a).read || (flags_of b).read;
  create = (flags_of a).create || (flags_of b).create;
  edit = (flags_of a).edit || (flags_of b).edit;
  delete = (flags_of a).delete || (flags_of b).delete;
  view_all = (flags_of a).view_all || (flags_of b).view_all;
  modify_all = (flags_of a).modify_all || (flags_of b).modify_all;
}

-- `for (const f of OBJECT_FLAGS) if (muted[f]) next[f] = false`
unfoldable pub clear_flags : ObjectAccess → ObjectAccess → ObjectAccess
clear_flags current muted = record {
  read = current.read && not muted.read;
  create = current.create && not muted.create;
  edit = current.edit && not muted.edit;
  delete = current.delete && not muted.delete;
  view_all = current.view_all && not muted.view_all;
  modify_all = current.modify_all && not muted.modify_all;
}
