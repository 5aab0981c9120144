-- ===== src/Sharing/Recalculate/Exact.antt =====
-- What the shares of a rule are when `recalculateRule` of packages/query-engine/src/sharing-rules.ts ends.
use salesmaker.Base.{
  ℕ, zero, suc, ◌+◌, ◌<◌, ◌≡◌, refl, ap, ◌∙◌, Bool, true, false, ◌&&◌, Option, none, some, List, [],
  ◌∷◌, ltb, arith, if◌then◌else◌, length, take, drop, Bool-cases, inl, inr,
}
use salesmaker.Sharing.{
  Principal, Share, Row, Rule, Written, returned, select, member, rule_matches, by_rule,
  remove_rule_shares,
}
use salesmaker.Sharing.Applied.{
  is_shared, is_matched, others, Applies, Applies-trans, wanted, apply_rule-Applies,
}
use salesmaker.Sharing.Recalculate.{
  Progress, Recalculated, finished, after, page, last_id, counted, Continue, Rollback, on_written,
  batches, finish, recalculate,
}
use salesmaker.Sharing.Recalculate.Pages.{
  IsFrom, ids_of, member-split, drop-ids, drop-IsFrom, take_all, length-ids, length-split, start,
  next_rest,
}

module _ {C : Type 0} (users_of : Principal → ℕ → Bool) (criteria_of : C → Option (Row → Bool))
    (rollback : Rollback) (r : Rule C) (table : List Row) (m : Row → Bool)
    (decides : r.active ≡ true → rule_matches users_of criteria_of r ≡ some m) where
  -- The end of the loop: it has counted the rows, and it has dealt with their ids.
  abbrev pub Settles : Progress → List Row → List Share → Recalculated → Type 0
  Settles p rows before result =
      (q : Progress) × (final : List Share) × (result ≡ finished q final)
      × (q.done ≡ p.done + length rows)
      × Applies r (wanted r users_of criteria_of table m decides) (λ n. member n (ids_of rows))
          before final

  on_written-Settles :
      (k : ℕ) (go : Continue) (row : Row) (rows : List Row) (p : Progress) (before : List Share)
      (w : Written)
      → Applies r
          (wanted r users_of criteria_of table m decides)
          (λ n. member n (row.id ∷ take k (ids_of rows)))
          before
          w.shares
      → ((q : Progress) (b : List Share)
          → Settles q (drop k rows) b (go (last_id row.id (take k (ids_of rows))) q b))
      → Settles p
          (row ∷ rows)
          before
          (on_written rollback (suc k) go row.id (take k (ids_of rows)) p before (returned w))
  on_written-Settles k go row rows p before w h next =
      elim (Bool-cases (ltb (suc (length (take k (ids_of rows)))) (suc k))) [
        | inl e ↦
            let whole : take k (ids_of rows) ≡ ids_of rows = take_all k rows (ground arith) in
            (
              counted p (suc (length (take k (ids_of rows)))) w.count,
              w.shares,
              rw e refl,
              omega (arith, ap length whole, length-ids rows),
              rw whole at h,
            )
        | inr e ↦
            let (q, final, ends, count, settled) =
              next (counted p (suc (length (take k (ids_of rows)))) w.count) w.shares in
            (
              q,
              final,
              rw e ends,
              omega (arith, count, length-split k rows),
              Applies-trans r (wanted r users_of criteria_of table m decides)
                  (λ n. member n (row.id ∷ take k (ids_of rows)))
                  (λ n. member n (ids_of (drop k rows))) (λ n. member n (row.id ∷ ids_of rows))
                  before w.shares final h settled
                  (λ n. rw (drop-ids k rows) (member-split n (suc k) (row.id ∷ ids_of rows))),
            )
      ]

  batches-Settles :
      (k fuel : ℕ) (cursor : Option ℕ) (p : Progress) (before : List Share) (rows : List Row)
      → select (after cursor) table ≡ rows
      → IsFrom (start cursor) rows
      → length rows < fuel
      → Settles p rows before
          (batches users_of criteria_of rollback r (suc k) table fuel cursor p before)
  unfolding batches page IsFrom
  batches-Settles k zero cursor p before rows e f h = absurd (omega arith)
  batches-Settles k (suc fuel) cursor p before [] e f h =
      rw e (p, before, refl, omega arith, (λ n. refl, refl))
  batches-Settles k (suc fuel) cursor p before (row ∷ rows) e (l, f) h =
      let (w, applied, kept) =
        apply_rule-Applies r users_of criteria_of table m decides (row.id ∷ take k (ids_of rows))
          before in
      rw (e, applied)
        (on_written-Settles k
          (λ c. batches users_of criteria_of rollback r (suc k) table fuel (some c)) row rows p
          before w kept
          (λ q b.
            batches-Settles k fuel (some (last_id row.id (take k (ids_of rows)))) q b (drop k rows)
              (next_rest cursor k table row rows e (l, f)) (drop-IsFrom k row rows f)
              (omega (arith, h, length-split k rows))))

  select_all : (rows : List Row) → select (after none) rows ≡ rows
  select_all [] = refl
  select_all (row ∷ rows) = ap (λ rest. row ∷ rest) (select_all rows)

  is_shared-removed :
      (n : ℕ) (shares : List Share) → is_shared r n (remove_rule_shares r shares) ≡ false
  unfolding remove_rule_shares
  is_shared-removed n [] = refl
  is_shared-removed n (s ∷ ss) = elim (Bool-cases (by_rule r s)) [
    | inl e ↦ rw e (is_shared-removed n ss)
    | inr e ↦ rw e (rw (e, is_shared-removed n ss) refl)
  ]

  others-removed : (shares : List Share) → others r (remove_rule_shares r shares) ≡ others r shares
  unfolding remove_rule_shares
  others-removed [] = refl
  others-removed (s ∷ ss) = elim (Bool-cases (by_rule r s)) [
    | inl e ↦ rw e (others-removed ss)
    | inr e ↦ rw e (rw e (ap (λ rest. s ∷ rest) (others-removed ss)))
  ]

  is_shared-swept :
      (b : Bool) (n : ℕ) (shares : List Share)
      → is_shared r n (if b then shares else remove_rule_shares r shares)
        ≡ (b && is_shared r n shares)
  is_shared-swept true n shares = refl
  is_shared-swept false n shares = is_shared-removed n shares

  others-swept :
      (b : Bool) (shares : List Share)
      → others r (if b then shares else remove_rule_shares r shares) ≡ others r shares
  others-swept true shares = refl
  others-swept false shares = others-removed shares

  while_active :
      (b here x y : Bool) → (b && (if here then b && x else y)) ≡ (b && (if here then x else y))
  while_active b here x y = ground arith

  -- With a batch of at least one record, a table in the order of ids, and conditions of the rule that can be
  -- read, where it is active: the recalculation ends, after it has counted every record of the table once. Then
  -- the rule shares, where it is active, exactly the records of the table that it matches, and of the records
  -- that are not in the table those that it shared before; an inactive rule shares nothing. All shares that
  -- the rule did not write are as they were, in their order.
  pub recalculate-Exact :
      (size : ℕ) (shares : List Share)
      → 0 < size
      → IsFrom 0 table
      → (q : Progress) × (final : List Share) × (recalculate users_of criteria_of rollback r size
            table shares
          ≡ finished q final)
        × (q.done ≡ length table)
        × ((n : ℕ)
            → is_shared r n final ≡ (
                r.active
                && (if member n (ids_of table)
                    then is_matched r m table n
                    else is_shared r n shares)))
        × (others r final ≡ others r shares)
  unfolding recalculate
  recalculate-Exact zero shares h f = absurd (omega arith)
  recalculate-Exact (suc k) shares h f =
      let (q, final, ends, count, settled) =
        batches-Settles k (suc (length table)) none
          (record { done = 0; total = length table; written = 0 }) shares table (select_all table) f
          (omega arith) in
      (
        q,
        if r.active then final else remove_rule_shares r final,
        ap (finish users_of criteria_of rollback r (suc k) table) ends,
        omega (arith, count),
        λ n.
            is_shared-swept r.active n final
            ∙ ap (λ b. r.active && b) (settled.0 n)
            ∙ while_active r.active (member n (ids_of table)) (is_matched r m table n)
                (is_shared r n shares),
        others-swept r.active final ∙ settled.1,
      )
