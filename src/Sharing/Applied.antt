-- ===== src/Sharing/Applied.antt =====
-- What `applyRule` of packages/query-engine/src/sharing-rules.ts does to the shares of the rule, record by
-- record.
use text.Mathlib.TextEquality.{eq_iff}
use salesmaker.Base.{
  ℕ, ◌≡◌, refl, sym, ap, ◌∙◌, Bool, true, false, not, ◌&&◌, ◌||◌, Option, some, List, [], ◌∷◌, ◌++◌,
  map, ◌==◌, any, arith, if◌then◌else◌, Bool-cases, inl, inr,
}
use salesmaker.Sharing.{
  Principal, Share, Row, Rule, Written, conflicts, select, member, add_share, add_shares, returned,
  by_rule, rule_share, without, insert_matches, on_active, rule_matches, apply_rule,
}

module _ {ℓ} {A : Type ℓ} where
  any-append : (p : A → Bool) (xs ys : List A) → any p (xs ++ ys) ≡ (any p xs || any p ys)
  any-append p [] ys = refl
  any-append p (x ∷ xs) ys = ground (arith, any-append p xs ys)

  any_implied :
      (p q : A → Bool)
      → ((x : A) → p x ≡ true → q x ≡ true)
      → (xs : List A) → any p xs ≡ true
      → any q xs ≡ true
  any_implied p q h [] e = e
  any_implied p q h (x ∷ xs) e = ground (arith, h x, any_implied p q h xs, e)

  any-select : (p q : A → Bool) (xs : List A) → any p (select q xs) ≡ any (λ x. q x && p x) xs
  any-select p q [] = refl
  any-select p q (x ∷ xs) = elim (Bool-cases (q x)) [
    | inl e ↦ rw e (ground (arith, any-select p q xs))
    | inr e ↦ rw e (any-select p q xs)
  ]

  any_under :
      (p q : A → Bool) (b : Bool)
      → ((x : A) → p x ≡ (q x && b))
      → (xs : List A) → any p xs ≡ (any q xs && b)
  any_under p q b h [] = refl
  any_under p q b h (x ∷ xs) = ground (arith, h x, any_under p q b h xs)

module _ {C : Type 0} (r : Rule C) where
  -- Whether the rule shares the record `n`.
  abbrev pub is_shared : ℕ → List Share → Bool
  is_shared n = any (λ s. by_rule r s && (s.of_record == n))

  kept_one :
      (mine : Bool) (a n : ℕ) (ids : List ℕ)
      → (not (mine && member a ids) && (mine && (a == n)))
        ≡ ((mine && (a == n)) && not (member n ids))
  kept_one mine a n ids = elim (Bool-cases (a == n)) [
    | inl e ↦ let same : a ≡ n = ground (arith, e) in rw same (ground arith)
    | inr e ↦ ground (arith, e)
  ]

  is_shared-without :
      (n : ℕ) (ids : List ℕ) (shares : List Share)
      → is_shared n (without r ids shares) ≡ (is_shared n shares && not (member n ids))
  is_shared-without n ids shares =
      any-select (λ s. by_rule r s && (s.of_record == n))
        (λ s. not (by_rule r s && member s.of_record ids)) shares
      ∙ any_under
          (λ s. not (by_rule r s && member s.of_record ids) && (by_rule r s && (s.of_record == n)))
          (λ s. by_rule r s && (s.of_record == n)) (not (member n ids))
          (λ s. kept_one (by_rule r s) s.of_record n ids) shares

  rule_share-by_rule : (row : Row) → by_rule r (rule_share r row) ≡ true
  unfolding by_rule rule_share
  rule_share-by_rule row = ground (arith, eq_iff r.object r.object)

  conflicting :
      (row : Row) (s : Share)
      → conflicts (rule_share r row) s ≡ true
      → (by_rule r s && (s.of_record == row.id)) ≡ true
  unfolding by_rule rule_share conflicts
  conflicting row s h = ground (arith, h)

  is_added :
      (n : ℕ) (row : Row) (b : Bool)
      → (b || any (λ s. by_rule r s && (s.of_record == n)) (rule_share r row ∷ []))
        ≡ (b || (row.id == n))
  unfolding by_rule rule_share
  is_added n row b = ground (arith, eq_iff r.object r.object)

  or_assoc : (a b c : Bool) → ((a || b) || c) ≡ (a || (b || c))
  or_assoc a b c = ground arith

  held_already :
      (n : ℕ) (row : Row) (shares : List Share)
      → any (conflicts (rule_share r row)) shares ≡ true
      → is_shared n shares ≡ (is_shared n shares || (row.id == n))
  held_already n row shares e = elim (Bool-cases (row.id == n)) [
    | inl same ↦
        let one : row.id ≡ n = ground (arith, same) in
        let held : is_shared row.id shares ≡ true =
          any_implied (conflicts (rule_share r row)) (λ s. by_rule r s && (s.of_record == row.id))
            (conflicting row) shares e in
        let here : is_shared n shares ≡ true = rw one at held in rw here refl
    | inr differ ↦ rw differ (ground arith)
  ]

  is_shared-add_share :
      (n : ℕ) (row : Row) (w : Written)
      → is_shared n (add_share (rule_share r row) w).shares
        ≡ (is_shared n w.shares || (row.id == n))
  unfolding add_share
  is_shared-add_share n row w = elim (Bool-cases (any (conflicts (rule_share r row)) w.shares)) [
    | inl e ↦ rw e (held_already n row w.shares e)
    | inr e ↦ rw e (
        any-append (λ s. by_rule r s && (s.of_record == n)) w.shares (rule_share r row ∷ [])
        ∙ is_added n row (is_shared n w.shares))
  ]

  is_shared-add_shares :
      (n : ℕ) (rows : List Row) (w : Written)
      → is_shared n (add_shares (map (rule_share r) rows) w).shares
        ≡ (is_shared n w.shares || any (λ row. row.id == n) rows)
  unfolding add_shares
  is_shared-add_shares n [] w = ground arith
  is_shared-add_shares n (row ∷ rows) w =
      is_shared-add_shares n rows (add_share (rule_share r row) w)
      ∙ ap (λ b. b || any (λ row. row.id == n) rows) (is_shared-add_share n row w)
      ∙ or_assoc (is_shared n w.shares) (row.id == n) (any (λ row. row.id == n) rows)

  -- Whether the table has the record, and `matches` holds for it.
  abbrev pub is_matched : (Row → Bool) → List Row → ℕ → Bool
  is_matched matches table n = any (λ row. matches row && (row.id == n)) table

  chosen_one :
      (row : Row) (matches : Bool) (n : ℕ) (ids : List ℕ)
      → ((member row.id ids && matches) && (row.id == n))
        ≡ ((matches && (row.id == n)) && member n ids)
  chosen_one row matches n ids = elim (Bool-cases (row.id == n)) [
    | inl e ↦ let same : row.id ≡ n = ground (arith, e) in rw same (ground arith)
    | inr e ↦ ground (arith, e)
  ]

  any-chosen :
      (matches : Row → Bool) (n : ℕ) (ids : List ℕ) (table : List Row)
      → any (λ row. row.id == n) (select (λ row. member row.id ids && matches row) table)
        ≡ (is_matched matches table n && member n ids)
  any-chosen matches n ids table =
      any-select (λ row. row.id == n) (λ row. member row.id ids && matches row) table
      ∙ any_under (λ row. (member row.id ids && matches row) && (row.id == n))
          (λ row. matches row && (row.id == n)) (member n ids)
          (λ row. chosen_one row (matches row) n ids) table

  -- The shares that the rule did not write.
  abbrev pub others : List Share → List Share
  others = select (λ s. not (by_rule r s))

  others-without :
      (ids : List ℕ) (shares : List Share) → others (without r ids shares) ≡ others shares
  others-without ids [] = refl
  others-without ids (s ∷ ss) = elim (Bool-cases (by_rule r s)) [
    | inl e ↦ elim (Bool-cases (member s.of_record ids)) [
      | inl f ↦ rw (e, f) (others-without ids ss)
      | inr f ↦ rw (e, f) (rw e (others-without ids ss))
    ]
    | inr e ↦ rw e (rw e (ap (λ rest. s ∷ rest) (others-without ids ss)))
  ]

  others-append :
      (s : Share) (shares : List Share)
      → by_rule r s ≡ true
      → others (shares ++ (s ∷ [])) ≡ others shares
  others-append s [] e = rw e refl
  others-append s (t ∷ ts) e = rw (others-append s ts e) refl

  others-add_shares :
      (rows : List Row) (w : Written)
      → others (add_shares (map (rule_share r) rows) w).shares ≡ others w.shares
  unfolding add_shares add_share
  others-add_shares [] w = refl
  others-add_shares (row ∷ rows) w =
      others-add_shares rows (add_share (rule_share r row) w)
      ∙ elim (Bool-cases (any (conflicts (rule_share r row)) w.shares)) [
        | inl e ↦ rw e refl
        | inr e ↦ rw e (others-append (rule_share r row) w.shares (rule_share-by_rule row))
      ]

  -- A batch leaves of the rule what is wanted for the records in it, and all else as it was.
  abbrev pub Applies :
      (wanted : ℕ → Bool) → (in_batch : ℕ → Bool) → (before after : List Share) → Type 0
  Applies wanted in_batch before after =
      ((n : ℕ) → is_shared n after ≡ (if in_batch n then wanted n else is_shared n before))
      × (others after ≡ others before)

  removed : (a b : Bool) → (a && not b) ≡ (if b then false else a)
  removed a true = ground arith
  removed a false = ground arith

  rewritten :
      (before hit b : Bool) → ((before && not b) || (hit && b)) ≡ (if b then hit else before)
  rewritten before hit true = ground arith
  rewritten before hit false = ground arith

  either : (s t w x : Bool) → (if t then w else (if s then w else x)) ≡ (if s || t then w else x)
  either s t w x = ground arith

  insert-Applies :
      (m : Row → Bool) (table : List Row) (ids : List ℕ) (shares : List Share)
      → Applies
          (is_matched m table)
          (λ n. member n ids)
          shares
          (add_shares
            (map (rule_share r) (select (λ row. member row.id ids && m row) table))
            (record { shares = without r ids shares; count = 0 })).shares
  insert-Applies m table ids shares = (
    λ n.
        is_shared-add_shares n (select (λ row. member row.id ids && m row) table)
          (record { shares = without r ids shares; count = 0 })
        ∙ rw (is_shared-without n ids shares, any-chosen m n ids table)
            (rewritten (is_shared n shares) (is_matched m table n) (member n ids)),
    others-add_shares (select (λ row. member row.id ids && m row) table)
          (record { shares = without r ids shares; count = 0 })
        ∙ others-without ids shares,
  )

  pub Applies-trans :
      (wanted : ℕ → Bool) (first second both : ℕ → Bool) (a b c : List Share)
      → Applies wanted first a b
      → Applies wanted second b c
      → ((n : ℕ) → both n ≡ (first n || second n))
      → Applies wanted both a c
  Applies-trans wanted first second both a b c h k e = (
    λ n.
        k.0 n
        ∙ ap (λ x. if second n then wanted n else x) (h.0 n)
        ∙ either (first n) (second n) (wanted n) (is_shared n a)
        ∙ ap (λ x. if x then wanted n else is_shared n a) (sym (e n)),
    k.1 ∙ h.1,
  )

  on_active-Applies :
      (table : List Row) (m : Row → Bool) (ids : List ℕ) (shares : List Share) (active : Bool)
      (matches : Option (Row → Bool))
      → (active ≡ true → matches ≡ some m)
      → (w : Written) × (on_active r table ids shares active matches ≡ returned w)
        × Applies (λ n. active && is_matched m table n) (λ n. member n ids) shares w.shares
  on_active-Applies table m ids shares true matches h = (
    add_shares (map (rule_share r) (select (λ row. member row.id ids && m row) table))
        (record { shares = without r ids shares; count = 0 }),
    ap (insert_matches r table ids (without r ids shares)) (h refl),
    insert-Applies m table ids shares,
  )
  on_active-Applies table m ids shares false matches h = (
    record { shares = without r ids shares; count = 0 },
    refl,
    (
      λ n. is_shared-without n ids shares ∙ removed (is_shared n shares) (member n ids),
      others-without ids shares,
    ),
  )

  module _ (users_of : Principal → ℕ → Bool) (criteria_of : C → Option (Row → Bool))
      (table : List Row) (m : Row → Bool)
      (decides : r.active ≡ true → rule_matches users_of criteria_of r ≡ some m) where
    -- An active rule shares the records that it matches.
    abbrev pub wanted : ℕ → Bool
    wanted n = r.active && is_matched m table n

    pub apply_rule-Applies :
        (ids : List ℕ) (shares : List Share)
        → (w : Written) × (apply_rule users_of criteria_of r table ids shares ≡ returned w)
          × Applies wanted (λ n. member n ids) shares w.shares
    unfolding apply_rule
    apply_rule-Applies ids shares =
        on_active-Applies table m ids shares r.active (rule_matches users_of criteria_of r) decides
