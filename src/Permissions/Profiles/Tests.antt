-- ===== src/Permissions/Profiles/Tests.antt =====
-- The default profiles over two objects.
use salesmaker.Base.{◌≡◌, true, [], ◌∷◌, all}
use salesmaker.Permissions.Profiles.{
  Standard, default_profiles, read_only, only_reads, lacks_never_default, default_profiles_lem,
}

abbrev two_objects : Standard
two_objects = ("lead", "phone" ∷ []) ∷ ("order", []) ∷ []

default_profiles_lem_example :
    (all lacks_never_default (default_profiles two_objects) ≡ true)
    × (all (λ e. only_reads e.1) (read_only two_objects).objects ≡ true)
default_profiles_lem_example = default_profiles_lem two_objects
