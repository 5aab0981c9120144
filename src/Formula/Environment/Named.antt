-- ===== src/Formula/Environment/Named.antt =====
-- What a name stands for among the metadata that packages/formula/src/environment.ts reads: the last object
-- or field of that name, the first lookup that is followed by it, and where a lookup leads.
use salesmaker.Base.{
  ◌≡◌, refl, sym, ap, ◌∙◌, subst, ◌⊎◌, inl, inr, Bool, true, false, ◌&&◌, Option, none, some, List,
  [], ◌∷◌, ◌++◌, All, Bool-cases, arith, if◌then◌else◌,
}
use salesmaker.Base.Text.{Text, codes, text_eq}
use salesmaker.Formula.Environment.{
  FieldType, lookup, master_detail, user_field, FieldMeta, relationship_name, or_this, is_lookup,
  lookup_named, default_target, target_of,
}

module _ {A : Type 0} (p : A → Bool) where
  -- The last of the list that passes a test.
  abbrev pub IsLast : List A → A → Type 0
  IsLast xs x =
      (front : List A) × (back : List A) × (xs ≡ front ++ x ∷ back)
      × (p x ≡ true)
      × All (λ y. p y ≡ false) back

  -- A search from the end.
  module _ (f : List A → Option A) (nil : f [] ≡ none)
      (cons : (x : A) (xs : List A) → f (x ∷ xs) ≡ or_this (f xs) (p x) x) where
    first_or_later :
        (x : A) (xs : List A) (o : Option A) (b : Bool) (y : A)
        → f xs ≡ o
        → p x ≡ b
        → (f xs ≡ none → All (λ z. p z ≡ false) xs)
        → (f xs ≡ some y → IsLast xs y)
        → or_this o b x ≡ some y
        → IsLast (x ∷ xs) y
    first_or_later x xs (some z) b y e k h l r =
        let (front, back, same, good, bad) = l (e ∙ r) in
        (x ∷ front, back, ap (λ ys. x ∷ ys) same, good, bad)
    first_or_later x xs none true y e k h l r =
        let same : x ≡ y = cc in subst (IsLast (x ∷ xs)) same ([], xs, refl, k, h e)
    first_or_later x xs none false y e k h l r = absurd cc

    nobody_step :
        (x : A) (xs : List A) (o : Option A) (b : Bool)
        → f xs ≡ o
        → p x ≡ b
        → (f xs ≡ none → All (λ z. p z ≡ false) xs)
        → or_this o b x ≡ none
        → All (λ z. p z ≡ false) (x ∷ xs)
    nobody_step x xs (some z) b e k h r = absurd cc
    nobody_step x xs none true e k h r = absurd cc
    nobody_step x xs none false e k h r = (k, h e)

    last_nobody : (xs : List A) → f xs ≡ none → All (λ z. p z ≡ false) xs
    last_nobody [] e = tt
    last_nobody (x ∷ xs) e =
        nobody_step x xs (f xs) (p x) refl refl (last_nobody xs) (sym (cons x xs) ∙ e)

    pub IsLast-sound : (xs : List A) (y : A) → f xs ≡ some y → IsLast xs y
    IsLast-sound [] y e = let clash : none ≡ some y = sym nil ∙ e in absurd cc
    IsLast-sound (x ∷ xs) y e =
        first_or_later x xs (f xs) (p x) y refl refl (last_nobody xs) (IsLast-sound xs y)
          (sym (cons x xs) ∙ e)

    All-bad : (xs : List A) → All (λ z. p z ≡ false) xs → f xs ≡ none
    All-bad [] h = nil
    All-bad (x ∷ xs) h = cons x xs ∙ rw (All-bad xs h.1, h.0) refl

    found_here :
        (front back : List A) (y : A)
        → p y ≡ true
        → All (λ z. p z ≡ false) back
        → f (front ++ y ∷ back) ≡ some y
    found_here [] back y g h = cons y back ∙ rw (All-bad back h, g) refl
    found_here (x ∷ front) back y g h =
        cons x (front ++ y ∷ back) ∙ rw (found_here front back y g h) refl

    pub last_complete : (xs : List A) (y : A) → IsLast xs y → f xs ≡ some y
    last_complete xs y (front, back, same, good, bad) = ap f same ∙ found_here front back y good bad

-- The types of lookups.
abbrev pub IsLookupType : FieldType → Type 0
IsLookupType t = (t ≡ lookup) ⊎ ((t ≡ master_detail) ⊎ (t ≡ user_field))

lookup_type : (t : FieldType) → is_lookup t ≡ true → IsLookupType t
lookup_type lookup h = inl refl
lookup_type master_detail h = inr (inl refl)
lookup_type user_field h = inr (inr refl)
lookup_type t h = absurd cc

type_lookup : (t : FieldType) → IsLookupType t → is_lookup t ≡ true
type_lookup t (inl e) = ap is_lookup e
type_lookup t (inr (inl e)) = ap is_lookup e
type_lookup t (inr (inr e)) = ap is_lookup e

-- The first lookup that the segment names.
abbrev pub IsFollowed : List FieldMeta → Text → FieldMeta → Type 0
IsFollowed fields segment l =
    (front : List FieldMeta) × (back : List FieldMeta) × (fields ≡ front ++ l ∷ back)
    × IsLookupType l.type
    × (text_eq (relationship_name l) segment ≡ true)
    × All (λ g. IsLookupType g.type → text_eq (relationship_name g) segment ≡ false) front

split_and : (a b : Bool) → (a && b) ≡ true → (a ≡ true) × (b ≡ true)
split_and a b h = ground arith

not_both : (a b : Bool) → (a && b) ≡ false → a ≡ true → b ≡ false
not_both a b h k = ground arith

neither : (t : FieldType) (b : Bool) → (IsLookupType t → b ≡ false) → (is_lookup t && b) ≡ false
neither t b h = elim (Bool-cases (is_lookup t)) [
  | inl e ↦ rw e (h (lookup_type t e))
  | inr e ↦ rw e refl
]

IsFollowed-step :
    (f l : FieldMeta) (fs : List FieldMeta) (segment : Text) (b : Bool)
    → (is_lookup f.type && text_eq (relationship_name f) segment) ≡ b
    → (lookup_named fs segment ≡ some l → IsFollowed fs segment l)
    → (if b then some f else lookup_named fs segment) ≡ some l
    → IsFollowed (f ∷ fs) segment l
IsFollowed-step f l fs segment true e h k =
    let same : f ≡ l = cc in
    let parts = split_and (is_lookup f.type) (text_eq (relationship_name f) segment) e in
    subst (IsFollowed (f ∷ fs) segment) same ([], fs, refl, lookup_type f.type parts.0, parts.1, tt)
IsFollowed-step f l fs segment false e h k =
    let (front, back, same, type, name, none_before) = h k in
    (
      f ∷ front,
      back,
      ap (λ xs. f ∷ xs) same,
      type,
      name,
      (
        λ w.
            not_both (is_lookup f.type) (text_eq (relationship_name f) segment) e
              (type_lookup f.type w),
        none_before,
      ),
    )

pub lookup_named-IsFollowed :
    (fs : List FieldMeta) (segment : Text) (l : FieldMeta)
    → lookup_named fs segment ≡ some l
    → IsFollowed fs segment l
unfolding lookup_named
lookup_named-IsFollowed [] segment l e = absurd cc
lookup_named-IsFollowed (f ∷ fs) segment l e =
    IsFollowed-step f l fs segment (is_lookup f.type && text_eq (relationship_name f) segment) refl
      (lookup_named-IsFollowed fs segment l) e

followed_at :
    (front back : List FieldMeta) (segment : Text) (l : FieldMeta)
    → IsLookupType l.type
    → text_eq (relationship_name l) segment ≡ true
    → All (λ g. IsLookupType g.type → text_eq (relationship_name g) segment ≡ false) front
    → lookup_named (front ++ l ∷ back) segment ≡ some l
unfolding lookup_named
followed_at [] back segment l t n h = rw (type_lookup l.type t, n) refl
followed_at (f ∷ front) back segment l t n h =
    rw (neither f.type (text_eq (relationship_name f) segment) h.0)
      (followed_at front back segment l t n h.1)

pub IsFollowed-lookup_named :
    (fs : List FieldMeta) (segment : Text) (l : FieldMeta)
    → IsFollowed fs segment l
    → lookup_named fs segment ≡ some l
IsFollowed-lookup_named fs segment l (front, back, same, t, n, h) =
    ap (λ xs. lookup_named xs segment) same ∙ followed_at front back segment l t n h

-- Where a lookup leads: to the first object that it refers to; where there is none, a user field to `user`,
-- and any other to the object without a name.
abbrev pub LeadsTo : FieldMeta → Text → Type 0
LeadsTo l next =
    ((rest : List Text) × (l.reference_to ≡ next ∷ rest))
    ⊎ ((l.reference_to ≡ [])
        × (((l.type ≡ user_field) × (next ≡ codes "user"))
            ⊎ ((l.type ≡ user_field → ⊥) × (next ≡ []))))

target-LeadsTo' :
    (t : FieldType) (rs : List Text)
    → ((rest : List Text) × (rs ≡ target_of t rs ∷ rest))
      ⊎ ((rs ≡ [])
          × (((t ≡ user_field) × (target_of t rs ≡ codes "user"))
              ⊎ ((t ≡ user_field → ⊥) × (target_of t rs ≡ []))))
target-LeadsTo' t (r ∷ rs) = inl (rs, refl)
target-LeadsTo' user_field [] = inr (refl, inl (refl, refl))
target-LeadsTo' t [] = inr (refl, inr ((λ e. absurd cc), refl))

pub target-LeadsTo : (l : FieldMeta) → LeadsTo l (target_of l.type l.reference_to)
target-LeadsTo l = target-LeadsTo' l.type l.reference_to

no_user : (t : FieldType) → (t ≡ user_field → ⊥) → default_target t ≡ []
no_user user_field h = absurd (h refl)
no_user t h = refl

pub LeadsTo-target :
    (l : FieldMeta) (next : Text) → LeadsTo l next → target_of l.type l.reference_to ≡ next
LeadsTo-target l next (inl (rest, e)) = ap (target_of l.type) e
LeadsTo-target l next (inr (e, inl (u, n))) = ap (target_of l.type) e ∙ ap default_target u ∙ sym n
LeadsTo-target l next (inr (e, inr (u, n))) = ap (target_of l.type) e ∙ no_user l.type u ∙ sym n
