-- ===== src/Permissions/Cache/Coherence.antt =====
-- The cache of packages/permissions/src/cache.ts never answers with a value of another user, of another
-- tenant or of another version.
use salesmaker.Base.{
  ℕ, ◌≡◌, refl, sym, subst, ap, ◌∙◌, Bool, true, false, not, ◌==◌, Option, none, some, [], ◌∷◌,
  ◌++◌, arith, if◌then◌else◌, all, Bool-cases, inl, inr,
}
use salesmaker.Base.Text.{Text, text_eq, text_eq_iff}
use salesmaker.Permissions.Cache.{
  Address, colon, key, Store, put, Codec, Cached, hit, miss, failure, decoded, read_cached,
  computed, reply_of, get_or_compute,
}

abbrev pub NoColon : Text → Type 0
NoColon t = all (λ c. not (c == colon)) t ≡ true

-- Two texts up to a colon, which neither of them has, are the same where what goes on after them is.
split_same :
    (s t x y : Text)
    → NoColon s
    → NoColon t
    → (s ++ (colon ∷ x)) ≡ (t ++ (colon ∷ y))
    → (s ≡ t) × (x ≡ y)
split_same [] [] x y h k e = (refl, cc)
split_same [] (c ∷ t) x y h k e = let first : colon ≡ c = cc in absurd (ground arith)
split_same (c ∷ s) [] x y h k e = let first : c ≡ colon = cc in absurd (ground arith)
split_same (c ∷ s) (d ∷ t) x y h k e =
    let first : c ≡ d = cc in
    let rest : (s ++ (colon ∷ x)) ≡ (t ++ (colon ∷ y)) = cc in
    let r : (s ≡ t) × (x ≡ y) = split_same s t x y (ground arith) (ground arith) rest in (cc, r.1)

strip : (n x y : Text) → (n ++ x) ≡ (n ++ y) → x ≡ y
strip [] x y e = e
strip (c ∷ n) x y e = let rest : (n ++ x) ≡ (n ++ y) = cc in strip n x y rest

-- Ids without a colon, as the UUIDs that they are.
abbrev pub IsPlain : Address → Type 0
IsPlain a = NoColon a.tenant × NoColon a.user

module _ (print : ℕ → Text) (injective : (m n : ℕ) → print m ≡ print n → m ≡ n)
    (namespace : Text) where
  -- A key names one address.
  key_injective :
      (a b : Address)
      → IsPlain a
      → IsPlain b
      → key print namespace a ≡ key print namespace b
      → a ≡ b
  unfolding key
  key_injective a b h k e =
      let whole : (colon ∷ (a.tenant ++ (colon ∷ (a.user ++ (colon ∷ print a.version)))))
          ≡ (colon ∷ (b.tenant ++ (colon ∷ (b.user ++ (colon ∷ print b.version))))) =
        strip namespace _ _ e in
      let parts : (a.tenant ++ (colon ∷ (a.user ++ (colon ∷ print a.version))))
          ≡ (b.tenant ++ (colon ∷ (b.user ++ (colon ∷ print b.version)))) =
        cc in
      let tenants =
        split_same a.tenant b.tenant (a.user ++ (colon ∷ print a.version))
          (b.user ++ (colon ∷ print b.version)) h.0 k.0 parts in
      let users = split_same a.user b.user (print a.version) (print b.version) h.1 k.1 tenants.1 in
      let versions = injective a.version b.version users.1 in
      λ i. record { tenant = tenants.0 i; user = users.0 i; version = versions i }

  module _ {A : Type 0} (codec : Codec A) (truth : Address → A) where
    -- Every entry is the encoded value of its address.
    pub Coherent : Store → Type 0
    Coherent store =
        (a : Address) (raw : Text)
        → IsPlain a
        → store (key print namespace a) ≡ some raw
        → raw ≡ codec.encode (truth a)

    put-Coherent :
        (store : Store) (a : Address)
        → IsPlain a
        → Coherent store
        → Coherent (put (key print namespace a) (codec.encode (truth a)) store)
    unfolding Coherent
    put-Coherent store a h c b raw k e =
        elim (Bool-cases (text_eq (key print namespace a) (key print namespace b))) [
          | inl same ↦
              let one : a ≡ b =
                key_injective a b h k
                  ((text_eq_iff (key print namespace a) (key print namespace b)).0 same) in
              let held : some (codec.encode (truth a)) ≡ some raw = rw same at e in
              let same_text : codec.encode (truth a) ≡ raw = cc in
              sym same_text ∙ ap (λ x. codec.encode (truth x)) one
          | inr other ↦ c b raw k (rw other at e)
        ]

    -- What a computation gives: it throws, or it gives the value of the address.
    abbrev pub IsTrue : Address → Option A → Type 0
    IsTrue a none = Unit
    IsTrue a (some v) = v ≡ truth a

    computed-Coherent :
        (store : Store) (a : Address) (fails : Bool) (compute : Option A) (errors : ℕ)
        → IsPlain a
        → IsTrue a compute
        → Coherent store
        → Coherent (computed codec store (key print namespace a) fails compute errors).store
    computed-Coherent store a fails none errors h t c = c
    computed-Coherent store a true (some v) errors h t c = c
    computed-Coherent store a false (some v) errors h t c = rw t (put-Coherent store a h c)

    reply-Coherent :
        (store : Store) (a : Address) (fails : Bool) (compute : Option A) (r : Cached A)
        → IsPlain a
        → IsTrue a compute
        → Coherent store
        → Coherent (reply_of codec store (key print namespace a) fails compute r).store
    reply-Coherent store a fails compute (hit v) h t c = c
    reply-Coherent store a fails compute miss h t c =
        computed-Coherent store a fails compute 0 h t c
    reply-Coherent store a fails compute failure h t c =
        computed-Coherent store a fails compute 1 h t c

    -- The stores that calls, in any order, lead to, with failures of the store at any of them, and
    -- with entries that expire or are evicted at any time.
    pub data Reaches : Store → Type 0 where
      empty : Reaches (λ k. none)
      call :
          {store : Store} (a : Address) (get_fails set_fails : Bool) (compute : Option A)
          → Reaches store
          → IsPlain a
          → IsTrue a compute
          → Reaches
              (get_or_compute codec store get_fails set_fails (key print namespace a) compute).store
      expire :
          {store : Store} (gone : Text → Bool)
          → Reaches store
          → Reaches (λ k. if gone k then none else store k)

    gone-Coherent :
        (store : Store) (gone : Text → Bool)
        → Coherent store
        → Coherent (λ k. if gone k then none else store k)
    unfolding Coherent
    gone-Coherent store gone c b raw k e = elim (Bool-cases (gone (key print namespace b))) [
      | inl g ↦ let clash : none ≡ some raw = rw g at e in absurd cc
      | inr g ↦ c b raw k (rw g at e)
    ]

    empty-Coherent : Coherent (λ k. none)
    unfolding Coherent
    empty-Coherent a raw h e = absurd cc

    Reaches-Coherent : {store : Store} → Reaches store → Coherent store
    unfolding get_or_compute
    Reaches-Coherent empty = empty-Coherent
    Reaches-Coherent (call {store = store} a get_fails set_fails compute r h t) =
        reply-Coherent store a set_fails compute
          (read_cached codec get_fails (store (key print namespace a))) h t (Reaches-Coherent r)
    Reaches-Coherent (expire {store = store} gone r) = gone-Coherent store gone (Reaches-Coherent r)

    -- What is as good as the value, such as permissions that answer every question alike.
    module _ (Same : A → A → Type 0) (same_refl : (v : A) → Same v v)
        (round_trip : (a : Address)
          → (w : A) × (codec.decode (codec.encode (truth a)) ≡ some w) × Same (truth a) w) where
      -- The answer is as good as the value of the address.
      abbrev pub Answers : Address → Option A → Type 0
      Answers a none = ⊥
      Answers a (some v) = Same (truth a) v

      computed-Answers :
          (store : Store) (a : Address) (fails : Bool) (errors : ℕ)
          → Answers a
              (computed codec store (key print namespace a) fails (some (truth a)) errors).value
      computed-Answers store a true errors = same_refl (truth a)
      computed-Answers store a false errors = same_refl (truth a)

      reply-Answers :
          (store : Store) (a : Address) (fails : Bool) (r : Cached A)
          → ((v : A) → r ≡ hit v → Same (truth a) v)
          → Answers a (reply_of codec store (key print namespace a) fails (some (truth a)) r).value
      reply-Answers store a fails (hit v) h = h v refl
      reply-Answers store a fails miss h = computed-Answers store a fails 0
      reply-Answers store a fails failure h = computed-Answers store a fails 1

      hit-Same :
          (a : Address) (raw : Text) (v : A)
          → raw ≡ codec.encode (truth a)
          → decoded codec (codec.decode raw) ≡ hit v
          → Same (truth a) v
      hit-Same a raw v e h =
          let (w, back, good) = round_trip a in
          let same : decoded codec (some w) ≡ hit v = rw (e, back) at h in
          let one : w ≡ v = cc in subst (Same (truth a)) one good

      read-Same :
          (a : Address) (fails : Bool) (held : Option Text) (v : A)
          → ((raw : Text) → held ≡ some raw → raw ≡ codec.encode (truth a))
          → read_cached codec fails held ≡ hit v
          → Same (truth a) v
      read-Same a true held v h e = absurd cc
      read-Same a false none v h e = absurd cc
      read-Same a false (some []) v h e = absurd cc
      read-Same a false (some (c ∷ cs)) v h e = hit-Same a (c ∷ cs) v (h (c ∷ cs) refl) e

      -- Whatever calls came before, in whatever order and for whatever users and versions, whatever
      -- entries were lost, and whichever accesses to the store failed, then or now: a call whose
      -- computation gives the value of its user and version answers with that value, or with one as
      -- good as it that came back from the store. Provided that every earlier computation gave the
      -- value of its own user and version, or threw; that ids have no colon; that different versions
      -- print differently; and that the codec decodes what it encodes of the value of an address, to that
      -- value or to one as good as it.
      pub get_or_compute-Answers :
          (store : Store) (a : Address) (get_fails set_fails : Bool)
          → Reaches store
          → IsPlain a
          → Answers a
              (get_or_compute codec store get_fails set_fails
                (key print namespace a)
                (some (truth a))).value
      unfolding get_or_compute Coherent
      get_or_compute-Answers store a get_fails set_fails r h =
          reply-Answers store a set_fails
            (read_cached codec get_fails (store (key print namespace a)))
            (λ v.
              read-Same a get_fails (store (key print namespace a)) v
                (λ raw. Reaches-Coherent r a raw h))
