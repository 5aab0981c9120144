-- ===== src/Permissions/Engine/Tests.antt =====
-- The engine on a small set of grants: a reader's profile, a set that edits, a muted group.
use salesmaker.Base.{◌≡◌, refl, ◌&&◌, ◌||◌, ◌↔◌, not, true, false, none, some, [], ◌∷◌}
use mathlib.Core.List.{Memᴰ}
use salesmaker.Permissions.Access.{
  ObjectAccess, partial_of, no_object_access, normalise_object_access, restrict_object_access,
}
use salesmaker.Permissions.Access.Closure.{
  IsClosed, Below, given, normalise-IsClosed, normalise_least, restrict_greatest,
  no_access-IsClosed,
}
use salesmaker.Permissions.Engine.{
  Grants, PermissionSource, effective_permissions, object_access, is_system, or_else, field_access,
}
use salesmaker.Permissions.Engine.Spec.{at_object, granted, source_grant}
use salesmaker.Permissions.Engine.Objects.{effective_permissions-object}
use salesmaker.Permissions.Engine.Laws.{
  effective_permissions-IsClosed, grants-survive, object_access-IsClosed, field_access_rules,
}

abbrev reads : ObjectAccess
reads = record {
  read = true;
  create = false;
  edit = false;
  delete = false;
  view_all = false;
  modify_all = false;
}

abbrev edits : ObjectAccess
edits = record {
  read = true;
  create = false;
  edit = true;
  delete = false;
  view_all = false;
  modify_all = false;
}

abbrev reader : Grants
reader = record {
  system = "api_enabled" ∷ [];
  objects = ("account", some reads) ∷ [];
  fields = ("account", some (("phone", some (record { read = true; edit = true })) ∷ [])) ∷ [];
}

abbrev editor : Grants
editor = record {
  system = [];
  objects = ("account", some edits) ∷ ("lead", some edits) ∷ [];
  fields = [];
}

abbrev muter : Grants
muter = record {
  system = [];
  objects = ("account", some reads) ∷ ("lead", some reads) ∷ [];
  fields = [];
}

abbrev user : PermissionSource
user = record {
  profile = reader;
  sets = editor ∷ [];
  groups = record { sets = editor ∷ []; muting = some muter } ∷ [];
}

effective_permissions-object_example :
    at_object "account" (effective_permissions user).objects ≡ source_grant "account" user
effective_permissions-object_example = effective_permissions-object user "account"

effective_permissions-IsClosed_example :
    IsClosed (at_object "account" (effective_permissions user).objects)
effective_permissions-IsClosed_example = effective_permissions-IsClosed user "account"

grants-survive_example :
    Below (granted "lead" editor.objects) (at_object "lead" (effective_permissions user).objects)
grants-survive_example = grants-survive user "lead" editor (Memᴰ.tail (Memᴰ.head refl))

object_access-IsClosed_example : IsClosed (object_access (effective_permissions user) "account")
object_access-IsClosed_example = object_access-IsClosed user "account"

field_access_rules_example :
    let p = effective_permissions user in
    let a = field_access p none "account" "phone" none in
    (a.read ≡ (a.read && (object_access p "account").read))
    × (a.edit ≡ (
        a.edit
        && a.read
        && ((object_access p "account").edit || (object_access p "account").create)
        && not (is_system (or_else none none))))
field_access_rules_example = field_access_rules user none "account" "phone" none

normalise_least_example :
    IsClosed (normalise_object_access (partial_of reads))
    × (Below (given (partial_of reads)) (normalise_object_access (partial_of edits))
        ↔ Below
            (normalise_object_access (partial_of reads))
            (normalise_object_access (partial_of edits)))
normalise_least_example =
    normalise_least (partial_of reads) (normalise_object_access (partial_of edits))
      (normalise-IsClosed (partial_of edits))

restrict_greatest_example :
    IsClosed (restrict_object_access edits)
    × (Below no_object_access edits ↔ Below no_object_access (restrict_object_access edits))
restrict_greatest_example = restrict_greatest edits no_object_access no_access-IsClosed
