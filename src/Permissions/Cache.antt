-- ===== src/Permissions/Cache.antt =====
-- packages/permissions/src/cache.ts: values cached per user and version; and the form in which
-- packages/permissions/src/engine.ts puts permissions there. JSON and the printing of a version are
-- the runtime's.
pub mod Coherence
pub mod RoundTrip
pub mod Alike
mod Tests
use Prim.Native.String.{String}
use salesmaker.Base.{
  ℕ, ◌+◌, Bool, true, false, Option, none, some, List, [], ◌∷◌, ◌++◌, if◌then◌else◌, Dictionary,
}
use salesmaker.Base.Text.{Text, codes, text_eq, text_lt}
use salesmaker.Permissions.Access.{ObjectAccess, FieldAccess, is_system_permission}
use salesmaker.Permissions.Engine.{Accumulator, set_add}

-- `SerialisedPermissions`
pub record Serialised : Type 0 where
  pub system : List String
  pub objects : Dictionary ObjectAccess
  pub fields : Dictionary (Dictionary FieldAccess)

-- `sort()` of texts.
unfoldable pub insert_name : String → List String → List String
insert_name name [] = name ∷ []
insert_name name (n ∷ ns) =
    if text_lt (codes name) (codes n) then name ∷ n ∷ ns else n ∷ insert_name name ns

unfoldable pub sort_names : List String → List String
unfolding insert_name
sort_names [] = []
sort_names (n ∷ ns) = insert_name n (sort_names ns)

-- `serialisePermissions`
unfoldable pub serialise : Accumulator → Serialised
serialise p = record { system = sort_names p.system; objects = p.objects; fields = p.fields }

-- `new Set(names.filter(isSystemPermission))`
unfoldable pub known_names : List String → List String → List String
known_names seen [] = seen
known_names seen (n ∷ ns) = known_names (if is_system_permission n then set_add n seen else seen) ns

-- `deserialisePermissions`
unfoldable pub deserialise : Serialised → Accumulator
deserialise s = record { system = known_names [] s.system; objects = s.objects; fields = s.fields }

-- Whose value, and of which version of the permissions.
pub record Address : Type 0 where
  pub tenant : Text
  pub user : Text
  pub version : ℕ

abbrev pub colon : ℕ
colon = b':'

-- `key`; `print` is the printing of a number.
unfoldable pub key : (print : ℕ → Text) → Text → Address → Text
key print namespace a =
    namespace ++ (colon ∷ (a.tenant ++ (colon ∷ (a.user ++ (colon ∷ print a.version)))))

-- What the store holds.
abbrev pub Store : Type 0
Store = Text → Option Text

abbrev pub put : Text → Text → Store → Store
put k raw store = λ asked. if text_eq k asked then some raw else store asked

-- `Codec`; `none` where decoding throws.
pub record Codec (A : Type 0) : Type 0 where
  pub encode : A → Text
  pub decode : Text → Option A

-- What a call returns, `none` where `compute` throws, what it leaves in the store, and how many errors
-- it reports.
pub record Reply (A : Type 0) : Type 0 where
  pub value : Option A
  pub store : Store
  pub errors : ℕ

-- What reading comes to.
pub data Cached (A : Type 0) : Type 0 where
  hit : A → Cached A
  miss failure : Cached A

module _ {A : Type 0} (codec : Codec A) where
  abbrev pub decoded : Option A → Cached A
  decoded none = failure
  decoded (some a) = hit a

  -- An empty text counts as missing.
  abbrev pub read_cached : Bool → Option Text → Cached A
  read_cached true raw = failure
  read_cached false none = miss
  read_cached false (some []) = miss
  read_cached false (some (c ∷ cs)) = decoded (codec.decode (c ∷ cs))

  abbrev pub computed : Store → Text → Bool → Option A → ℕ → Reply A
  computed store k set_fails none errors = record { value = none; store = store; errors = errors }
  computed store k true (some a) errors = record {
    value = some a;
    store = store;
    errors = errors + 1;
  }
  computed store k false (some a) errors = record {
    value = some a;
    store = put k (codec.encode a) store;
    errors = errors;
  }

  abbrev pub reply_of : Store → Text → Bool → Option A → Cached A → Reply A
  reply_of store k set_fails compute (hit a) = record { value = some a; store = store; errors = 0 }
  reply_of store k set_fails compute miss = computed store k set_fails compute 0
  reply_of store k set_fails compute failure = computed store k set_fails compute 1

  -- `getOrCompute`; the flags say whether the store fails at reading and at writing.
  unfoldable pub get_or_compute :
      Store → (get_fails set_fails : Bool) → Text → (compute : Option A) → Reply A
  get_or_compute store get_fails set_fails k compute =
      reply_of store k set_fails compute (read_cached get_fails (store k))

abbrev pub revived : Option Serialised → Option Accumulator
revived none = none
revived (some s) = some (deserialise s)

-- The codec of `PermissionCache`, and the printing and the parsing of JSON.
unfoldable pub permission_codec :
    (stringify : Serialised → Text) (parse : Text → Option Serialised) → Codec Accumulator
permission_codec stringify parse = record {
  encode = λ p. stringify (serialise p);
  decode = λ raw. revived (parse raw);
}
