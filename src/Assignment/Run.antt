-- ===== src/Assignment/Run.antt =====
-- packages/records/src/assignment.ts, `assignRecords`: an entry over the records that it matches, and
-- the entries in turn. The criteria in SQL are given as the list of the records that an entry matches.
use Prim.Native.String.{String}
use text.Mathlib.Text.{◌==◌ as str_eq}
use salesmaker.Base.{
  ℕ, ◌+◌, Bool, true, false, not, Option, none, some, List, [], ◌∷◌, ◌++◌, includes, Dictionary,
}
use salesmaker.Calendar.{Clock}
use salesmaker.Assignment.{
  Method, round_robin, OwnerType, user_owner, queue_owner, Fallback, Entry, Batch, Candidate,
  count_up,
}
use salesmaker.Assignment.Pick.{
  fallen_back, Choice, Decision, Runtime, Row, AccountOwners, pick_by, keep,
}

-- `AssignmentOutcome`; `owner` is the choice, and none where the owner is kept.
pub record Outcome : Type 0 where
  pub record_id : String
  pub chosen : Option Choice
  pub previous : Option String
  pub entry : String
  pub method : Method
  pub changed : Bool

-- What the loop over the records of an entry has come to: the batch, the cursor of the entry (its
-- counts, its last user and its turns), the records that it applied to, and their outcomes.
pub record Progress : Type 0 where
  pub batch : Batch
  pub counts : Dictionary ℕ
  pub last_user : Option String
  pub turns : ℕ
  pub applied : List String
  pub outcomes : List (Outcome × List Candidate)

abbrev pub fallback_choice : Option Fallback → Option Choice
fallback_choice none = none
fallback_choice (some f) = some (record { type = f.type; id = f.id; reason = fallen_back })

-- The fallback of the entry, where nobody was chosen.
abbrev pub or_fallback : Option Choice → Option Fallback → Option Choice
or_fallback none fallback = fallback_choice fallback
or_fallback (some c) fallback = some c

abbrev pub is_other : Choice → Option String → Bool
is_other c none = true
is_other c (some previous) = not (str_eq c.id previous)

abbrev pub is_changed : Option Choice → Option String → Bool
is_changed none previous = false
is_changed (some c) previous = is_other c previous

abbrev pub outcome_of : Entry → Row → Option Choice → Outcome
outcome_of entry row chosen = record {
  record_id = row.id;
  chosen = chosen;
  previous = row.owner;
  entry = entry.id;
  method = entry.method;
  changed = is_changed chosen row.owner;
}

abbrev pub handed : String → Batch → Batch
handed id batch = record {
  users = batch.users;
  open_count = count_up id batch.open_count;
  new_today = count_up id batch.new_today;
}

-- The turn moves on by ROUND_ROBIN only.
abbrev pub next_turn : Method → String → Option String → Option String
next_turn round_robin id last = some id
next_turn _ id last = last

-- What a user is handed counts at once, so that the next record of the batch sees it.
abbrev pub hand_to : OwnerType → String → Entry → Progress → Progress
hand_to queue_owner id entry p = p
hand_to user_owner id entry p = record p {
  batch = handed id p.batch;
  counts = count_up id p.counts;
  last_user = next_turn entry.method id p.last_user;
  turns = p.turns + 1;
}

abbrev pub hand_out : Entry → Option Choice → Progress → Progress
hand_out entry none p = p
hand_out entry (some c) p = hand_to c.type c.id entry p

abbrev pub settle : Entry → Row → Option Choice → List Candidate → Progress → Progress
settle entry row chosen candidates p = record p {
  applied = p.applied ++ row.id ∷ [];
  outcomes = p.outcomes ++ (outcome_of entry row chosen, candidates) ∷ [];
}

-- One record: nothing where the entry does not apply, and it may be taken up by a later entry.
abbrev pub apply_decision : Entry → Row → Option Decision → Progress → Progress
apply_decision entry row none p = p
apply_decision entry row (some (chosen, candidates)) p =
    settle entry row (or_fallback chosen entry.fallback) candidates
      (hand_out entry (or_fallback chosen entry.fallback) p)

module _ (clock : Clock) (now : ℕ) (runtime : Runtime) where
  unfoldable pub assign_record :
      Entry → List (String × ℕ) → AccountOwners → Row → Progress → Progress
  unfolding pick_by
  assign_record entry pool owners row p =
      apply_decision entry row
        (pick_by clock now runtime entry.method entry pool owners p.batch p.counts p.last_user row)
        p

  -- The loop over the records that the entry matches.
  unfoldable pub assign_matched :
      Entry → List (String × ℕ) → AccountOwners → List Row → Progress → Progress
  unfolding assign_record
  assign_matched entry pool owners [] p = p
  assign_matched entry pool owners (row ∷ rows) p =
      assign_matched entry pool owners rows (assign_record entry pool owners row p)

  -- What the queries of an entry give: whom its pool names, with the weights; the users with their
  -- counts; the cursor; the owners of the accounts; and which of the rows its criteria match.
  pub record Loaded : Type 0 where
    pub entry : Entry
    pub pool : List (String × ℕ)
    pub owners : AccountOwners
    pub batch : Batch
    pub counts : Dictionary ℕ
    pub last_user : Option String
    pub turns : ℕ
    pub matched : List Row → List Row

  abbrev pub started : Loaded → Progress
  started l = record {
    batch = l.batch;
    counts = l.counts;
    last_user = l.last_user;
    turns = l.turns;
    applied = [];
    outcomes = [];
  }

  -- The loop over the entries: a record that an entry applied to is no longer one of the rest.
  unfoldable pub assign_entries : List Loaded → List Row → List (Outcome × List Candidate)
  unfolding assign_matched keep
  assign_entries [] remaining = []
  assign_entries (l ∷ ls) [] = []
  assign_entries (l ∷ ls) (row ∷ rows) =
      let p = assign_matched l.entry l.pool l.owners (l.matched (row ∷ rows)) (started l) in
      p.outcomes ++ assign_entries ls (keep (λ r. not (includes p.applied r.id)) (row ∷ rows))
