-- ===== src/Assignment/Pick.antt =====
-- packages/records/src/assignment.ts, the methods of `assignRecords`: the candidates that are looked
-- at for one record, and who is chosen.
use Prim.Native.String.{String}
use salesmaker.Base.{
  ℕ, suc, Bool, true, false, ◌&&◌, ◌||◌, Option, none, some, List, [], ◌∷◌, ◌++◌, map, ltb, ◌==◌,
  if◌then◌else◌, take, drop, all, includes, Dictionary, lookup,
}
use salesmaker.Base.Text.{codes, text_lt}
use salesmaker.Calendar.{Clock}
use salesmaker.Formula.Runtime.{Sign, below, above, same, unordered}
use salesmaker.Assignment.{
  Method, round_robin, weighted, load_balanced, skills_based, sticky_account, queue, specific_user,
  OwnerType, user_owner, queue_owner, Entry, User, Batch, Skip, missing_skills, Candidate, count_of,
  unavailable,
}

-- The reason that the log gives.
pub data Reason : Type 0 where
  parked named matching_account next_in_turn fewest_open fallen_back : Reason
  furthest_below : ℕ → Reason
  has_skills : List String → Reason

pub record Choice : Type 0 where
  pub type : OwnerType
  pub id : String
  pub reason : Reason

-- The candidates that were looked at, and the choice among them.
abbrev pub Decision : Type 0
Decision = Option Choice × List Candidate

-- The comparisons of the runtime: `localeCompare` below nought, and the sign of the difference of two
-- quotients, a count by a weight.
pub record Runtime : Type 0 where
  pub precedes : String → String → Bool
  pub share_sign : ℕ → ℕ → ℕ → ℕ → Sign

-- What the query for one record gives: its account, its company key, and the tag of its skill field.
pub record Row : Type 0 where
  pub id : String
  pub owner : Option String
  pub account : Option String
  pub company_key : Option String
  pub skill_tag : Option String

-- The owners of the accounts, by their id and by their company key.
pub record AccountOwners : Type 0 where
  pub by_id : Dictionary String
  pub by_key : Dictionary String

abbrev pub found_in : Dictionary String → Option String → Option String
found_in owners none = none
found_in owners (some key) = lookup key owners

abbrev pub or_else : Option String → Option String → Option String
or_else none other = other
or_else (some a) other = some a

unfoldable pub sticky_owner : AccountOwners → Row → Option String
sticky_owner owners row =
    or_else (found_in owners.by_id row.account) (found_in owners.by_key row.company_key)

-- `findIndex((u) => u > after)`, with nought where there is none.
unfoldable pub start_after : String → List String → ℕ → ℕ
start_after after [] i = 0
start_after after (u ∷ us) i =
    let rest = start_after after us (suc i) in if text_lt (codes after) (codes u) then i else rest

abbrev pub start_of : Option String → List String → ℕ
start_of none ids = 0
start_of (some after) ids = start_after after ids 0

-- The pool in the order of a round: from the start to the end, and then from the beginning.
unfoldable pub rotation : Option String → List String → List String
unfolding start_after
rotation last ids = drop (start_of last ids) ids ++ take (start_of last ids) ids

abbrev pub ids_of : List (String × ℕ) → List String
ids_of pool = map (λ p. p.0) pool

-- The first of the least, which is where a stable sort puts it.
unfoldable pub least_from {ℓ} : {A : Type ℓ} → (A → A → Bool) → A → List A → A
least_from less a [] = a
least_from less a (b ∷ bs) = least_from less (if less b a then b else a) bs

abbrev pub least_of {ℓ} : {A : Type ℓ} → (A → A → Bool) → List A → Option A
least_of less [] = none
least_of less (a ∷ bs) = some (least_from less a bs)

-- `filter`
unfoldable pub keep {ℓ} : {A : Type ℓ} → (A → Bool) → List A → List A
keep p [] = []
keep p (a ∷ bs) = if p a then a ∷ keep p bs else keep p bs

module _ (clock : Clock) (now : ℕ) (runtime : Runtime) where
  -- `check`: a candidate, skipped where the user is not available.
  abbrev pub candidate_of : Batch → String → Candidate
  candidate_of batch id = record { user = id; skipped = unavailable clock now batch id }

  abbrev pub is_free : Option Skip → Bool
  is_free none = true
  is_free (some why) = false

  abbrev pub is_available : Batch → String → Bool
  is_available batch id = is_free (unavailable clock now batch id)

  abbrev pub user_choice : Reason → String → Choice
  user_choice reason id = record { type = user_owner; id = id; reason = reason }

  -- One named user.
  abbrev pub pick_one : Batch → Reason → String → Decision
  pick_one batch reason id = (
    if is_available batch id then some (user_choice reason id) else none,
    candidate_of batch id ∷ [],
  )

  -- ROUND_ROBIN, over the pool in its order: it stops at the first who is available.
  unfoldable pub pick_first : Batch → List String → Decision
  pick_first batch [] = (none, [])
  pick_first batch (id ∷ ids) =
      let rest = pick_first batch ids in
      if is_available batch id
      then (some (user_choice next_in_turn id), candidate_of batch id ∷ [])
      else (rest.0, candidate_of batch id ∷ rest.1)

  -- The comparison of WEIGHTED: the share by weight, then the id.
  abbrev pub share_less : Dictionary ℕ → String × ℕ → String × ℕ → Bool
  share_less counts (a, wa) (b, wb) =
      elim (runtime.share_sign (count_of counts a) wa (count_of counts b) wb) [
        | below ↦ true
        | above ↦ false
        | same ↦ runtime.precedes a b
        | unordered ↦ runtime.precedes a b
      ]

  abbrev pub shared : Option (String × ℕ) → Option Choice
  shared none = none
  shared (some p) = some (user_choice (furthest_below p.1) p.0)

  unfoldable pub pick_weighted : Batch → Dictionary ℕ → List (String × ℕ) → Decision
  unfolding keep least_from
  pick_weighted batch counts pool = (
    shared (least_of (share_less counts) (keep (λ p. is_available batch p.0) pool)),
    map (λ p. candidate_of batch p.0) pool,
  )

  -- The comparison of LOAD_BALANCED: the open records, then the id.
  abbrev pub load_less : Batch → String → String → Bool
  load_less batch a b =
      ltb (count_of batch.open_count a) (count_of batch.open_count b)
      || ((count_of batch.open_count a == count_of batch.open_count b) && runtime.precedes a b)

  abbrev pub skills_of : Option User → List String
  skills_of none = []
  skills_of (some u) = u.skills

  abbrev pub has_all : Batch → List String → String → Bool
  has_all batch required id = all (λ s. includes (skills_of (lookup id batch.users)) s) required

  abbrev pub skilled_candidate : Batch → List String → String → Candidate
  skilled_candidate batch required id =
      if has_all batch required id
      then candidate_of batch id
      else record { user = id; skipped = some missing_skills }

  abbrev pub is_eligible : Batch → List String → String → Bool
  is_eligible batch required id = has_all batch required id && is_available batch id

  abbrev pub loaded : Reason → Option String → Option Choice
  loaded reason none = none
  loaded reason (some id) = some (user_choice reason id)

  -- LOAD_BALANCED and SKILLS_BASED.
  unfoldable pub pick_loaded : Batch → Reason → List String → List String → Decision
  unfolding keep least_from
  pick_loaded batch reason required ids = (
    loaded reason (least_of (load_less batch) (keep (is_eligible batch required) ids)),
    map (skilled_candidate batch required) ids,
  )

  -- The skills that SKILLS_BASED asks for.
  abbrev pub required_of : Entry → Row → List String
  required_of entry row = elim row.skill_tag [
    | none ↦ entry.skills
    | some tag ↦ entry.skills ++ tag ∷ []
  ]

  abbrev pub pick_target : Batch → Option String → Decision
  pick_target batch none = (none, [])
  pick_target batch (some id) = pick_one batch named id

  abbrev pub pick_queue : Option String → Decision
  pick_queue none = (none, [])
  pick_queue (some id) = (some (record { type = queue_owner; id = id; reason = parked }), [])

  abbrev pub pick_sticky : Batch → Option String → Option Decision
  pick_sticky batch none = none
  pick_sticky batch (some id) = some (pick_one batch matching_account id)

  -- The choice by the method, without the fallback; none where the entry does not apply.
  unfoldable pub pick_by :
      Method
      → Entry
      → List (String × ℕ)
      → AccountOwners
      → Batch
      → Dictionary ℕ
      → Option String
      → Row
      → Option Decision
  unfolding sticky_owner pick_first pick_weighted pick_loaded
  pick_by queue entry pool owners batch counts last row = some (pick_queue entry.target_queue)
  pick_by specific_user entry pool owners batch counts last row =
      some (pick_target batch entry.target_user)
  pick_by sticky_account entry pool owners batch counts last row =
      pick_sticky batch (sticky_owner owners row)
  pick_by round_robin entry pool owners batch counts last row =
      some (pick_first batch (rotation last (ids_of pool)))
  pick_by weighted entry pool owners batch counts last row = some (pick_weighted batch counts pool)
  pick_by load_balanced entry pool owners batch counts last row =
      some (pick_loaded batch fewest_open [] (ids_of pool))
  pick_by skills_based entry pool owners batch counts last row =
      some (
        pick_loaded batch (has_skills (required_of entry row)) (required_of entry row)
          (ids_of pool))
