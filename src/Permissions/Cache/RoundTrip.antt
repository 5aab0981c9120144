-- ===== src/Permissions/Cache/RoundTrip.antt =====
-- Permissions that come back from the cache, `deserialisePermissions(serialisePermissions(p))` of
-- packages/permissions/src/engine.ts, answer every question as before.
use Prim.Native.String.{String}
use text.Mathlib.Text.{◌==◌ as str_eq}
use text.Mathlib.TextEquality.{eq_iff}
use salesmaker.Base.{
  ◌≡◌, refl, ap, ◌∙◌, Bool, true, false, ◌&&◌, ◌||◌, Option, List, [], ◌∷◌, ◌++◌, arith, includes,
  Bool-cases, inl, inr,
}
use salesmaker.Base.Text.{codes, text_lt}
use salesmaker.Permissions.Access.{is_system_permission}
use salesmaker.Permissions.Engine.{
  Accumulator, set_add, has_system_permission, FieldFlags, object_access, field_access,
}
use salesmaker.Permissions.Cache.{insert_name, sort_names, serialise, known_names, deserialise}

includes-insert_name :
    (m n : String) (ns : List String)
    → includes (insert_name m ns) n ≡ (str_eq m n || includes ns n)
unfolding insert_name
includes-insert_name m n [] = refl
includes-insert_name m n (k ∷ ns) = elim (Bool-cases (text_lt (codes m) (codes k))) [
  | inl e ↦ rw e refl
  | inr e ↦ rw e (ground (arith, includes-insert_name m n ns))
]

includes-sort_names : (n : String) (ns : List String) → includes (sort_names ns) n ≡ includes ns n
unfolding sort_names
includes-sort_names n [] = refl
includes-sort_names n (m ∷ ns) =
    includes-insert_name m n (sort_names ns) ∙ ap (λ b. str_eq m n || b) (includes-sort_names n ns)

includes-append :
    (n : String) (ms ns : List String) → includes (ms ++ ns) n ≡ (includes ms n || includes ns n)
includes-append n [] ns = refl
includes-append n (m ∷ ms) ns = ground (arith, includes-append n ms ns)

absorbed :
    (m n : String) (ns : List String)
    → includes ns m ≡ true
    → includes ns n ≡ (str_eq m n || includes ns n)
absorbed m n ns h = elim (Bool-cases (str_eq m n)) [
  | inl e ↦ rw e (rw ((eq_iff m n).0 e) at h)
  | inr e ↦ rw e refl
]

includes-set_add :
    (m n : String) (ns : List String) → includes (set_add m ns) n ≡ (str_eq m n || includes ns n)
unfolding set_add
includes-set_add m n ns = elim (Bool-cases (includes ns m)) [
  | inl e ↦ rw e (absorbed m n ns e)
  | inr e ↦ rw e (ground (arith, includes-append n ns (m ∷ [])))
]

known_same : (m n : String) → str_eq m n ≡ true → is_system_permission m ≡ is_system_permission n
known_same m n e = ap is_system_permission ((eq_iff m n).0 e)

kept_name :
    (same seen rest m n : Bool)
    → (same ≡ true → m ≡ n)
    → m ≡ true
    → ((same || seen) || (rest && n)) ≡ (seen || ((same || rest) && n))
kept_name same seen rest m n h k = ground arith

dropped_name :
    (same seen rest m n : Bool)
    → (same ≡ true → m ≡ n)
    → m ≡ false
    → (seen || (rest && n)) ≡ (seen || ((same || rest) && n))
dropped_name same seen rest m n h k = ground arith

includes-known_names :
    (n : String) (seen ns : List String)
    → includes (known_names seen ns) n
      ≡ (includes seen n || (includes ns n && is_system_permission n))
unfolding known_names
includes-known_names n seen [] = ground arith
includes-known_names n seen (m ∷ ns) = elim (Bool-cases (is_system_permission m)) [
  | inl e ↦ rw e (
      includes-known_names n (set_add m seen) ns
      ∙ ap (λ b. b || (includes ns n && is_system_permission n)) (includes-set_add m n seen)
      ∙ kept_name (str_eq m n) (includes seen n) (includes ns n) _ _ (known_same m n) e)
  | inr e ↦ rw e (
      includes-known_names n seen ns
      ∙ dropped_name (str_eq m n) (includes seen n) (includes ns n) _ _ (known_same m n) e)
]

-- What comes back from the cache.
abbrev pub restored : Accumulator → Accumulator
restored p = deserialise (serialise p)

restored-includes :
    (p : Accumulator) (n : String)
    → has_system_permission (restored p) n ≡ (has_system_permission p n && is_system_permission n)
unfolding has_system_permission deserialise serialise
restored-includes p n =
    includes-known_names n [] (sort_names p.system)
    ∙ ap (λ b. b && is_system_permission n) (includes-sort_names n p.system)

restored-known :
    (p : Accumulator) (n : String)
    → is_system_permission n ≡ true
    → has_system_permission (restored p) n ≡ has_system_permission p n
restored-known p n h = restored-includes p n ∙ ground (arith, h)

restored-object :
    (p : Accumulator) (object : String) → object_access (restored p) object ≡ object_access p object
unfolding object_access is_system_permission deserialise serialise
restored-object p object =
    rw (restored-known p "view_all_data" refl, restored-known p "modify_all_data" refl) refl

restored-field :
    (p : Accumulator) (object field : String) (standard definition : Option FieldFlags)
    → field_access (restored p) standard object field definition
      ≡ field_access p standard object field definition
unfolding field_access deserialise serialise
restored-field p object field standard definition = rw (restored-object p object) refl

-- The permissions that a user had before they were cached and those that come back give the same
-- answer to every question: every system permission that the catalogue knows, the access to every
-- object, and the access to every field.
pub restored-same :
    (p : Accumulator) (object field : String) (standard definition : Option FieldFlags)
    (name : String)
    → is_system_permission name ≡ true
    → (has_system_permission (restored p) name ≡ has_system_permission p name)
      × (object_access (restored p) object ≡ object_access p object)
      × (field_access (restored p) standard object field definition
          ≡ field_access p standard object field definition)
restored-same p object field standard definition name h = (
  restored-known p name h,
  restored-object p object,
  restored-field p object field standard definition,
)
