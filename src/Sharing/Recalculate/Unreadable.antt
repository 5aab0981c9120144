-- ===== src/Sharing/Recalculate/Unreadable.antt =====
-- `recalculateRule` of packages/query-engine/src/sharing-rules.ts for a rule whose conditions cannot be read: an
-- owner rule without a source, or criteria that the parser of filters refuses.
use salesmaker.Base.{
  ℕ, zero, suc, ◌<◌, ◌≡◌, refl, sym, ap, ◌∙◌, Bool, true, false, Option, none, some, List, [], ◌∷◌,
  map, arith, length, take, Bool-cases, Option-cases, inl, inr,
}
use salesmaker.Sharing.{
  Principal, Share, Row, Rule, thrown, select, without, on_active, rule_matches, apply_rule,
}
use salesmaker.Sharing.Recalculate.{
  Progress, finished, failed, Rollback, after, page, on_written, batches, finish, recalculate,
}
use salesmaker.Sharing.Recalculate.Pages.{IsFrom}
use salesmaker.Sharing.Recalculate.Exact.{recalculate-Exact}

module _ {C : Type 0} (users_of : Principal → ℕ → Bool) (criteria_of : C → Option (Row → Bool))
    (rollback : Rollback) (r : Rule C) where
  -- The batch throws behind its deletion.
  refused :
      (table : List Row) (ids : List ℕ) (shares : List Share) (active : Bool)
      (matches : Option (Row → Bool))
      → active ≡ true
      → matches ≡ none
      → on_active r table ids shares active matches ≡ thrown (without r ids shares)
  refused table ids shares true none h k = refl
  refused table ids shares false matches h k = absurd cc
  refused table ids shares active (some m) h k = absurd cc

  abbrev at_first : ℕ → Progress
  at_first n = record { done = 0; total = n; written = 0 }

  stops_first :
      (size : ℕ) (row : Row) (rows : List Row) (shares : List Share)
      → 0 < size
      → r.active ≡ true
      → rule_matches users_of criteria_of r ≡ none
      → (dirty : List Share) × (recalculate users_of criteria_of rollback r size (row ∷ rows) shares
          ≡ failed (at_first (suc (length rows))) (rollback shares dirty))
  unfolding recalculate batches page apply_rule
  stops_first zero row rows shares h active unreadable = absurd (omega arith)
  stops_first (suc k) row rows shares h active unreadable =
      let ids = row.id ∷ take k (map (λ x. x.id) (select (after none) rows)) in
      (
        without r ids shares,
        ap
            (λ o. finish users_of criteria_of rollback r (suc k) (row ∷ rows) (
              on_written rollback (suc k)
                (λ c.
                  batches users_of criteria_of rollback r (suc k) (row ∷ rows) (length (row ∷ rows))
                    (some c))
                row.id (take k (map (λ x. x.id) (select (after none) rows)))
                (at_first (suc (length rows))) shares o))
            (refused (row ∷ rows) ids shares r.active (rule_matches users_of criteria_of r) active
              unreadable),
      )

  abbrev Ends : ℕ → List Row → List Share → Type 0
  Ends size table shares =
      (q : Progress) × (final : List Share) × (recalculate users_of criteria_of rollback r size
          table shares
        ≡ finished q final)

  -- A rule that is inactive, or whose conditions can be read, is recalculated to the end.
  readable-Ends :
      (size : ℕ) (table : List Row) (shares : List Share) (m : Row → Bool)
      → 0 < size
      → IsFrom 0 table
      → (r.active ≡ true → rule_matches users_of criteria_of r ≡ some m)
      → Ends size table shares
  readable-Ends size table shares m h f decides =
      let (q, final, ends, count, shared, kept) =
        recalculate-Exact users_of criteria_of rollback r table m decides size shares h f in
      (q, final, ends)

  empty-Ends : (size : ℕ) (shares : List Share) → 0 < size → Ends size [] shares
  unfolding recalculate batches page
  empty-Ends zero shares h = absurd (omega arith)
  empty-Ends (suc k) shares h = (_, _, refl)

  -- What a failure leaves.
  abbrev pub FailsBefore : ℕ → List Row → List Share → Type 0
  FailsBefore size table shares =
      (p : Progress) (left : List Share)
      → recalculate users_of criteria_of rollback r size table shares ≡ failed p left
      → (left ≡ shares)
        × (p.done ≡ 0)
        × (r.active ≡ true)
        × (rule_matches users_of criteria_of r ≡ none)

  never :
      (size : ℕ) (table : List Row) (shares : List Share)
      → Ends size table shares
      → FailsBefore size table shares
  never size table shares (q, final, ends) p left e = absurd (cc (ends, e))

  first-FailsBefore :
      (size : ℕ) (table : List Row) (shares : List Share)
      → ((before dirty : List Share) → rollback before dirty ≡ before)
      → 0 < size
      → r.active ≡ true
      → rule_matches users_of criteria_of r ≡ none
      → FailsBefore size table shares
  first-FailsBefore size [] shares rolls h a u p left e =
      never size [] shares (empty-Ends size shares h) p left e
  first-FailsBefore size (row ∷ rows) shares rolls h a u p left e =
      let (dirty, ends) = stops_first size row rows shares h a u in
      let same : failed (at_first (suc (length rows))) (rollback shares dirty) ≡ failed p left =
        sym ends ∙ e in
      let here : rollback shares dirty ≡ left = cc in
      let there : at_first (suc (length rows)) ≡ p = cc in
      (sym here ∙ rolls shares dirty, ap (λ q. q.done) (sym there), a, u)

  -- Where a transaction that is rolled back leaves the shares as they were before it, with batches of at least
  -- one record and a table in the order of ids: if the recalculation fails, then all shares are as they were
  -- before it, those of the rule that the batch had already deleted too, no record is counted, and the rule is
  -- active and its conditions cannot be read. And it does fail for such a rule, where there is a record.
  pub recalculate-failed :
      (size : ℕ) (table : List Row) (shares : List Share)
      → ((before dirty : List Share) → rollback before dirty ≡ before)
      → 0 < size
      → IsFrom 0 table
      → FailsBefore size table shares
        × (r.active ≡ true
            → rule_matches users_of criteria_of r ≡ none
            → 0 < length table
            → (p : Progress) × (recalculate users_of criteria_of rollback r size table shares
                ≡ failed p shares))
  recalculate-failed size table shares rolls h f = (
    elim (Bool-cases r.active) [
      | inr idle ↦
          never size table shares
            (readable-Ends size table shares (λ row. false) h f (λ a. absurd (cc (idle, a))))
      | inl active ↦ elim (Option-cases (rule_matches users_of criteria_of r)) [
        | inl u ↦ first-FailsBefore size table shares rolls h active u
        | inr m ↦ never size table shares (readable-Ends size table shares m.0 h f (λ a. m.1))
      ]
    ],
    fails table,
  )
    where
      fails :
          (rows : List Row)
          → r.active ≡ true
          → rule_matches users_of criteria_of r ≡ none
          → 0 < length rows
          → (p : Progress) × (recalculate users_of criteria_of rollback r size rows shares
              ≡ failed p shares)
      fails [] a u k = absurd (omega arith)
      fails (row ∷ rows) a u k =
          let (dirty, ends) = stops_first size row rows shares h a u in
          (
            at_first (suc (length rows)),
            ends ∙ ap (failed (at_first (suc (length rows)))) (rolls shares dirty),
          )
