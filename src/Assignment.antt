-- ===== src/Assignment.antt =====
-- packages/records/src/assignment.ts: who gets a record. The users, counts, pools, criteria and
-- cursors that the code reads from the database are given; ids are texts.
pub mod Pick
pub mod Run
pub mod Available
pub mod Capacity
pub mod Turn
pub mod Order
pub mod Fair
mod Tests
use Prim.Native.String.{String}
use salesmaker.Base.{
  ℕ, ◌+◌, Bool, true, false, not, ◌&&◌, ◌||◌, Option, none, some, List, [], leb, if◌then◌else◌,
  Dictionary, lookup, insert,
}
use salesmaker.Calendar.{Weekday, Interval, Calendar, Clock, is_open}

-- `AssignmentMethod`
pub data Method : Type 0 where
  round_robin weighted load_balanced skills_based sticky_account queue specific_user : Method

pub data OwnerType : Type 0 where
  user_owner queue_owner : OwnerType

pub record Fallback : Type 0 where
  pub type : OwnerType
  pub id : String

-- `Entry` with its `EntrySettings`, as far as they decide who gets a record.
pub record Entry : Type 0 where
  pub id : String
  pub method : Method
  pub skills : List String
  pub fallback : Option Fallback
  pub target_user : Option String
  pub target_queue : Option String

pub record User : Type 0 where
  pub active : Bool
  pub timezone : String
  pub working_hours : Option (Weekday → List Interval)
  pub ooo : Bool
  pub skills : List String
  pub max_open : Option ℕ
  pub max_new_per_day : Option ℕ

-- `Batch`: the users of an entry, and what they have, counted on as records are handed out.
pub record Batch : Type 0 where
  pub users : Dictionary User
  pub open_count : Dictionary ℕ
  pub new_today : Dictionary ℕ

-- Why a candidate is skipped.
pub data Skip : Type 0 where
  inactive out_of_office outside_working_hours at_capacity daily_limit missing_skills : Skip

pub record Candidate : Type 0 where
  pub user : String
  pub skipped : Option Skip

-- `counts.get(id) ?? 0`
abbrev pub or_zero : Option ℕ → ℕ
or_zero none = 0
or_zero (some n) = n

unfoldable pub count_of : Dictionary ℕ → String → ℕ
count_of counts id = or_zero (lookup id counts)

-- A limit that there is, and that the count has come to.
abbrev pub reached : Option ℕ → ℕ → Bool
reached none n = false
reached (some max) n = leb max n

-- `counts.set(id, (counts.get(id) ?? 0) + 1)`
unfoldable pub count_up : String → Dictionary ℕ → Dictionary ℕ
count_up id counts = insert id (count_of counts id + 1) counts

module _ (clock : Clock) (now : ℕ) where
  -- Outside the working hours that the user has.
  abbrev pub is_outside : User → Bool
  is_outside u = elim u.working_hours [
    | none ↦ false
    | some hours ↦
        not
          (is_open clock now (record { timezone = u.timezone; hours = some hours; holidays = [] }))
  ]

  abbrev pub skip_user : Option User → ℕ → ℕ → Option Skip
  skip_user none held today = some inactive
  skip_user (some u) held today =
      if not u.active
      then some inactive
      else if u.ooo
      then some out_of_office
      else if is_outside u
      then some outside_working_hours
      else if reached u.max_open held
      then some at_capacity
      else if reached u.max_new_per_day today
      then some daily_limit
      else none

  -- `unavailable`
  unfoldable pub unavailable : Batch → String → Option Skip
  unavailable batch id =
      skip_user (lookup id batch.users) (count_of batch.open_count id) (count_of batch.new_today id)
