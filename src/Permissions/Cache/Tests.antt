-- ===== src/Permissions/Cache/Tests.antt =====
-- The cache with numbers as values, and with the permissions of two versions.
use Prim.Native.Nat.{pred, zero, suc}
use Prim.Native.String.{String}
use salesmaker.Base.{ℕ, ◌≡◌, refl, true, false, Option, none, some, List, [], ◌∷◌}
use salesmaker.Base.Text.{Text, codes, text_eq}
use salesmaker.Permissions.Access.{is_system_permission}
use salesmaker.Permissions.Engine.{Accumulator, has_system_permission, object_access, field_access}
use salesmaker.Permissions.Cache.{
  Address, key, Store, Codec, Serialised, serialise, sort_names, insert_name, get_or_compute,
  permission_codec,
}
use salesmaker.Permissions.Cache.RoundTrip.{restored, restored-same}
use salesmaker.Permissions.Cache.Coherence.{empty, call, Answers, get_or_compute-Answers}
use salesmaker.Permissions.Cache.Alike.{perm, AnswersAlike, permission_cache-Alike}

abbrev print : ℕ → Text
print n = n ∷ []

print_injective : (m n : ℕ) → print m ≡ print n → m ≡ n
print_injective m n e = cc

abbrev user : ℕ → Address
user v = record { tenant = codes "t"; user = codes "u"; version = v }

abbrev user_key : ℕ → Text
user_key v = key print perm (user v)

-- Numbers
abbrev first_code : Text → Option ℕ
first_code [] = none
first_code (c ∷ cs) = some c

abbrev numbers : Codec ℕ
numbers = record { encode = λ n. n ∷ []; decode = first_code }

abbrev version_of : Address → ℕ
version_of a = a.version

abbrev first_call : Store
first_call = (get_or_compute numbers (λ k. none) true false (user_key 3) (some 3)).store

get_or_compute-Answers_example :
    Answers print print_injective perm numbers version_of
      (λ m n. m ≡ n)
      (λ m. refl)
      (λ a. (a.version, refl, refl))
      (user 3)
      (get_or_compute numbers first_call false true (user_key 3) (some 3)).value
get_or_compute-Answers_example =
    get_or_compute-Answers print print_injective perm numbers version_of (λ m n. m ≡ n) (λ m. refl)
      (λ a. (a.version, refl, refl)) first_call (user 3) false true
      (call (user 3) true false (some 3) empty (refl, refl) refl) (refl, refl)

-- Permissions
abbrev viewer : Accumulator
viewer = record {
  system = "view_all_data" ∷ "api_enabled" ∷ [];
  objects = [];
  fields = ("account", ("phone", record { read = true; edit = true }) ∷ []) ∷ [];
}

abbrev nobody : Accumulator
nobody = record { system = []; objects = []; fields = [] }

restored-same_example :
    (has_system_permission (restored viewer) "api_enabled"
      ≡ has_system_permission viewer "api_enabled")
    × (object_access (restored viewer) "account" ≡ object_access viewer "account")
    × (field_access (restored viewer) none "account" "phone" none
        ≡ field_access viewer none "account" "phone" none)
unfolding is_system_permission
restored-same_example = restored-same viewer "account" "phone" none none "api_enabled" refl

-- The permissions of the versions: none at first, then those of a viewer.
abbrev permissions_at : ℕ → Accumulator
permissions_at zero = nobody
permissions_at (suc v) = viewer

abbrev truth : Address → Accumulator
truth a = permissions_at a.version

abbrev stringify_names : List String → Text
stringify_names [] = 1 ∷ []
stringify_names (n ∷ ns) = 2 ∷ []

abbrev stringify : Serialised → Text
stringify s = stringify_names s.system

abbrev parse : Text → Option Serialised
parse [] = none
parse (c ∷ cs) = some (serialise (permissions_at (pred c)))

parses_at :
    (v : ℕ) → parse (stringify (serialise (permissions_at v))) ≡ some (serialise (permissions_at v))
unfolding serialise sort_names insert_name text_eq
parses_at zero = refl
parses_at (suc v) = refl

parses : (a : Address) → parse (stringify (serialise (truth a))) ≡ some (serialise (truth a))
parses a = parses_at a.version

abbrev served : Store
served =
    (get_or_compute (permission_codec stringify parse) (λ k. none) false false (user_key 1)
      (some viewer)).store

permission_cache-Alike_example :
    AnswersAlike print print_injective stringify parse truth parses
      (user 1)
      (get_or_compute
        (permission_codec stringify parse)
        served
        false
        false
        (user_key 1)
        (some viewer)).value
permission_cache-Alike_example =
    permission_cache-Alike print print_injective stringify parse truth parses served (user 1) false
      false (call (user 1) false false (some viewer) empty (refl, refl) refl) (refl, refl)
