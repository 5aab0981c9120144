-- ===== src/Permissions/Cache/Alike.antt =====
-- PermissionCache of packages/permissions/src/cache.ts over the engine's serialised permissions.
use Prim.Native.String.{String}
use salesmaker.Base.{ℕ, ◌≡◌, refl, ap, Bool, true, Option, some}
use salesmaker.Base.Text.{Text, codes}
use salesmaker.Permissions.Access.{is_system_permission}
use salesmaker.Permissions.Engine.{
  Accumulator, has_system_permission, FieldFlags, object_access, field_access,
}
use salesmaker.Permissions.Cache.{
  Address, key, Store, Serialised, serialise, revived, get_or_compute, permission_codec,
}
use salesmaker.Permissions.Cache.RoundTrip.{restored, restored-same}
use salesmaker.Permissions.Cache.Coherence.{IsPlain, Reaches, Answers, get_or_compute-Answers}

-- Both answer every question alike.
pub Alike : Accumulator → Accumulator → Type 0
Alike p q =
    (object field : String) (standard definition : Option FieldFlags) (name : String)
    → is_system_permission name ≡ true
    → (has_system_permission q name ≡ has_system_permission p name)
      × (object_access q object ≡ object_access p object)
      × (field_access q standard object field definition
          ≡ field_access p standard object field definition)

pub Alike-refl : (p : Accumulator) → Alike p p
unfolding Alike
Alike-refl p object field standard definition name h = (refl, refl, refl)

restored-Alike : (p : Accumulator) → Alike p (restored p)
unfolding Alike
restored-Alike p = restored-same p

abbrev pub perm : Text
perm = codes "perm"

module _ (print : ℕ → Text) (injective : (m n : ℕ) → print m ≡ print n → m ≡ n)
    (stringify : Serialised → Text) (parse : Text → Option Serialised)
    (truth : Address → Accumulator)
    (parses : (a : Address)
      → parse (stringify (serialise (truth a))) ≡ some (serialise (truth a))) where
  pub codec_round_trip :
      (a : Address)
      → (q : Accumulator) × ((permission_codec stringify parse).decode
            ((permission_codec stringify parse).encode (truth a))
          ≡ some q)
        × Alike (truth a) q
  unfolding permission_codec
  codec_round_trip a = (restored (truth a), ap revived (parses a), restored-Alike (truth a))

  abbrev pub Served : Store → Type 0
  Served = Reaches print injective perm (permission_codec stringify parse) truth

  abbrev pub AnswersAlike : Address → Option Accumulator → Type 0
  AnswersAlike =
      Answers print injective perm (permission_codec stringify parse) truth Alike Alike-refl
        codec_round_trip

  -- With a JSON parser that reads back what is printed of the permissions, with numbers that print differently, and with
  -- ids that have no colon: after any calls that computed the permissions of their own user and version
  -- or threw, any losses of entries and any failures of the store, a call that computes the permissions
  -- of its user and version answers, and the permissions that it answers with decide every question as the
  -- computed ones do: every system permission of the catalogue, the access to every object and to every field.
  pub permission_cache-Alike :
      (store : Store) (a : Address) (get_fails set_fails : Bool)
      → Served store
      → IsPlain a
      → AnswersAlike a
          (get_or_compute
            (permission_codec stringify parse)
            store
            get_fails
            set_fails
            (key print perm a)
            (some (truth a))).value
  permission_cache-Alike =
      get_or_compute-Answers print injective perm (permission_codec stringify parse) truth Alike
        Alike-refl codec_round_trip
