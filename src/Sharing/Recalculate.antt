-- ===== src/Sharing/Recalculate.antt =====
-- `recalculateRule` of packages/query-engine/src/sharing-rules.ts: one rule over all records of its
-- object, a batch of ids at a time.
pub mod Pages
pub mod Exact
pub mod Unreadable
use salesmaker.Base.{
  ℕ, zero, suc, ◌+◌, Bool, true, false, Option, none, some, List, [], ◌∷◌, map, if◌then◌else◌, ltb,
  length, take,
}
use salesmaker.Sharing.{
  Principal, Share, Row, Rule, Attempt, returned, thrown, select, apply_rule, remove_rule_shares,
}

-- `RecalculationProgress`
pub record Progress : Type 0 where
  pub done : ℕ
  pub total : ℕ
  pub written : ℕ

-- The progress and the shares at the end; where a batch throws, those of the batches before it.
pub data Recalculated : Type 0 where
  finished failed : Progress → List Share → Recalculated
  out_of_fuel : Recalculated

-- `id > cursor`, or no cursor
abbrev pub after : Option ℕ → Row → Bool
after none row = true
after (some c) row = ltb c row.id

-- SELECT id … ORDER BY id LIMIT
unfoldable pub page : ℕ → List Row → Option ℕ → List ℕ
page size table cursor = take size (map (λ row. row.id) (select (after cursor) table))

-- `ids.at(-1)` where there is one.
unfoldable pub last_id : ℕ → List ℕ → ℕ
last_id i [] = i
last_id i (j ∷ js) = last_id j js

abbrev pub counted : Progress → ℕ → ℕ → Progress
counted p ids written = record p { done = p.done + ids; written = p.written + written }

-- What goes on after a batch.
abbrev pub Continue : Type 0
Continue = ℕ → Progress → List Share → Recalculated

-- What the rollback of a transaction leaves, of the shares before it and those that it wrote.
abbrev pub Rollback : Type 0
Rollback = (before dirty : List Share) → List Share

abbrev pub on_written :
    Rollback → ℕ → Continue → ℕ → List ℕ → Progress → List Share → Attempt → Recalculated
on_written rollback size go i is p shares (thrown dirty) = failed p (rollback shares dirty)
on_written rollback size go i is p shares (returned w) =
    if ltb (suc (length is)) size
    then finished (counted p (suc (length is)) w.count) w.shares
    else go (last_id i is) (counted p (suc (length is)) w.count) w.shares

-- A batch of ids, and `applyRule` on it.
abbrev pub on_page :
    Rollback
    → ℕ
    → (List ℕ → List Share → Attempt)
    → Continue
    → List ℕ
    → Progress
    → List Share
    → Recalculated
on_page rollback size apply go [] p shares = finished p shares
on_page rollback size apply go (i ∷ is) p shares =
    on_written rollback size go i is p shares (apply (i ∷ is) shares)

module _ {C : Type 0} (users_of : Principal → ℕ → Bool) (criteria_of : C → Option (Row → Bool))
    (rollback : Rollback) (r : Rule C) (size : ℕ) (table : List Row) where
  -- The loop, a transaction a batch.
  unfoldable pub batches : ℕ → Option ℕ → Progress → List Share → Recalculated
  batches zero cursor p shares = out_of_fuel
  batches (suc fuel) cursor p shares =
      on_page rollback size (apply_rule users_of criteria_of r table) (λ c. batches fuel (some c))
        (page size table cursor) p shares

  abbrev pub finish : Recalculated → Recalculated
  finish (finished p shares) = finished p (if r.active then shares else remove_rule_shares r shares)
  finish result = result

  -- `recalculateRule`
  unfoldable pub recalculate : List Share → Recalculated
  recalculate shares = finish (
      batches (suc (length table)) none (record { done = 0; total = length table; written = 0 })
        shares)
