-- ===== src/Assignment/Capacity.antt =====
-- The capacity of users in packages/records/src/assignment.ts: over all records of an entry.
use Prim.Native.String.{String}
use text.Mathlib.Text.{◌==◌ as str_eq}
use text.Mathlib.TextEquality.{eq_iff}
use salesmaker.Base.{
  ℕ, ◌+◌, ◌≤◌, max, ◌≡◌, refl, ap, ◌∙◌, Bool, true, false, not, Option, none, some, List, [], ◌∷◌,
  arith, Bool-cases, inl, inr, if◌then◌else◌, leb, Dictionary, lookup, lookup-insert,
}
use salesmaker.Calendar.{Clock}
use salesmaker.Assignment.{
  OwnerType, user_owner, queue_owner, Fallback, Entry, User, Batch, inactive, out_of_office,
  outside_working_hours, at_capacity, daily_limit, or_zero, count_of, reached, count_up, is_outside,
  skip_user, unavailable,
}
use salesmaker.Assignment.Pick.{
  Choice, Decision, Runtime, Row, AccountOwners, is_available, is_free,
}
use salesmaker.Assignment.Run.{
  Progress, or_fallback, handed, hand_to, hand_out, apply_decision, assign_record, assign_matched,
}
use salesmaker.Assignment.Available.{is_free_owner, IsFree, IsFreeDecision, pick_by-IsFree}

count_of-count_up :
    (a b : String) (counts : Dictionary ℕ)
    → count_of (count_up a counts) b
      ≡ (if str_eq a b then count_of counts a + 1 else count_of counts b)
unfolding count_of count_up
count_of-count_up a b counts =
    ap or_zero (lookup-insert a b (count_of counts a + 1) counts) ∙ tested (str_eq a b)
  where
    tested :
        (t : Bool)
        → or_zero (if t then some (count_of counts a + 1) else lookup b counts)
          ≡ (if t then count_of counts a + 1 else or_zero (lookup b counts))
    tested true = refl
    tested false = refl

-- A fallback that is no user.
abbrev pub IsNoUser : Option Fallback → Type 0
IsNoUser none = Unit
IsNoUser (some f) = f.type ≡ queue_owner

module _ (clock : Clock) (now : ℕ) (runtime : Runtime) where
  -- Who is available has room under the limit.
  has_room :
      (u : User) (held today limit : ℕ)
      → u.max_open ≡ some limit
      → is_free clock now runtime (skip_user clock now (some u) held today) ≡ true
      → held + 1 ≤ limit
  has_room u held today limit e h = below_limit (leb limit held) refl (rw e at h)
    where
      below_limit :
          (t : Bool)
          → leb limit held ≡ t
          → is_free clock now runtime (
              if not u.active
              then some inactive
              else if u.ooo
              then some out_of_office
              else if is_outside clock now u
              then some outside_working_hours
              else if t
              then some at_capacity
              else if reached u.max_new_per_day today
              then some daily_limit
              else none)
            ≡ true
          → held + 1 ≤ limit
      below_limit true k f = absurd (ground arith)
      below_limit false k f = ground arith

  module _ (id : String) (u : User) (limit : ℕ) (e : u.max_open ≡ some limit) where
    -- What the user has open, within the limit or within what it was.
    abbrev held : Batch → ℕ
    held batch = count_of batch.open_count id

    available_room :
        (batch : Batch)
        → lookup id batch.users ≡ some u
        → is_available clock now runtime batch id ≡ true
        → held batch + 1 ≤ limit
    unfolding unavailable
    available_room batch k h =
        has_room u (held batch) (count_of batch.new_today id) limit e (rw k at h)

    handed-held :
        (batch : Batch) (other : String)
        → lookup id batch.users ≡ some u
        → is_available clock now runtime batch other ≡ true
        → held (handed other batch) ≤ max limit (held batch)
    handed-held batch other k h = elim (Bool-cases (str_eq other id)) [
      | inl same ↦
          let e : other ≡ id = (eq_iff other id).0 same in
          let room : held batch + 1 ≤ limit = available_room batch k (rw e at h) in
          let same_count : count_of batch.open_count other ≡ held batch =
            ap (count_of batch.open_count) e in
          rw (count_of-count_up other id batch.open_count, same) (omega (arith, room, same_count))
      | inr differ ↦ rw (count_of-count_up other id batch.open_count, differ) (omega arith)
    ]

    -- One more record: the users stay the same, and what the user has stays within bounds.
    abbrev Keeps : Progress → Progress → Type 0
    Keeps p q = (lookup id q.batch.users ≡ some u) × (held q.batch ≤ max limit (held p.batch))

    hand_to-Keeps :
        (entry : Entry) (p : Progress) (type : OwnerType) (other : String)
        → lookup id p.batch.users ≡ some u
        → is_free_owner clock now runtime p.batch type other ≡ true
        → Keeps p (hand_to type other entry p)
    hand_to-Keeps entry p queue_owner other k h = (k, omega arith)
    hand_to-Keeps entry p user_owner other k h = (k, handed-held p.batch other k h)

    hand_out-Keeps :
        (entry : Entry) (p : Progress) (o : Option Choice)
        → lookup id p.batch.users ≡ some u
        → IsFree clock now runtime p.batch o
        → Keeps p (hand_out entry o p)
    hand_out-Keeps entry p none k h = (k, omega arith)
    hand_out-Keeps entry p (some c) k h = hand_to-Keeps entry p c.type c.id k h

    fallback-IsFree :
        (batch : Batch) (o : Option Choice) (f : Option Fallback)
        → IsNoUser f
        → IsFree clock now runtime batch o
        → IsFree clock now runtime batch (or_fallback o f)
    fallback-IsFree batch (some c) f n h = h
    fallback-IsFree batch none none n h = tt
    fallback-IsFree batch none (some f) n h = rw n refl

    module _ (entry : Entry) (no_user : IsNoUser entry.fallback) (pool : List (String × ℕ))
        (owners : AccountOwners) where
      apply_decision-Keeps :
          (row : Row) (p : Progress) (d : Option Decision)
          → lookup id p.batch.users ≡ some u
          → IsFreeDecision clock now runtime p.batch d
          → Keeps p (apply_decision entry row d p)
      apply_decision-Keeps row p none k h = (k, omega arith)
      apply_decision-Keeps row p (some d) k h =
          hand_out-Keeps entry p (or_fallback d.0 entry.fallback) k
            (fallback-IsFree p.batch d.0 entry.fallback no_user h)

      assign_record-Keeps :
          (row : Row) (p : Progress)
          → lookup id p.batch.users ≡ some u
          → Keeps p (assign_record clock now runtime entry pool owners row p)
      unfolding assign_record
      assign_record-Keeps row p k = apply_decision-Keeps row p _ k (
          pick_by-IsFree clock now runtime entry pool owners p.batch p.counts p.last_user row
            entry.method)

      -- However many records an entry hands out, in whatever order and by whatever method, a user with a
      -- limit of open records ends with no more than that limit, or with what the user had before where
      -- that was more; provided that the fallback of the entry, which is not checked, names no user.
      pub assign_matched-le :
          (rows : List Row) (p : Progress)
          → lookup id p.batch.users ≡ some u
          → held (assign_matched clock now runtime entry pool owners rows p).batch
            ≤ max limit (held p.batch)
      unfolding assign_matched
      assign_matched-le [] p k = omega arith
      assign_matched-le (row ∷ rows) p k =
          let step : Keeps p (assign_record clock now runtime entry pool owners row p) =
            assign_record-Keeps row p k in
          omega (
            arith,
            step.1,
            assign_matched-le rows (assign_record clock now runtime entry pool owners row p) step.0,
          )
