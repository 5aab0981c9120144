-- ===== src/Assignment/Tests.antt =====
-- An entry over two users, one of whom has room for one record.
use Prim.Native.String.{String}
use salesmaker.Base.{ℕ, ◌≤◌, max, ◌≡◌, refl, true, false, none, some, List, [], ◌∷◌, lookup, insert}
use salesmaker.Base.Text.{codes, text_lt}
use salesmaker.Calendar.{Clock, LocalDate, mon}
use salesmaker.Formula.Runtime.{same}
use salesmaker.Assignment.{
  round_robin, load_balanced, Entry, User, Batch, count_of, count_up, unavailable,
}
use salesmaker.Assignment.Pick.{
  fewest_open, Runtime, Row, AccountOwners, ids_of, pick_loaded, pick_by,
}
use salesmaker.Assignment.Run.{Progress, assign_matched}
use salesmaker.Assignment.Capacity.{assign_matched-le}
use salesmaker.Assignment.Order.{is_decided, pick_by-is_decided}
use salesmaker.Assignment.Fair.{IsLeastLoaded, pick_loaded-IsLeastLoaded}

abbrev first_day : LocalDate
first_day = record { year = 2026; month_day = 101 }

abbrev clock : Clock
clock = record {
  local_date = λ instant zone. first_day;
  zoned_instant = λ date minutes zone. minutes;
  next_date = λ date. date;
  previous_date = λ date. date;
  weekday_of = λ date. mon;
}

abbrev runtime : Runtime
runtime = record { precedes = λ a b. text_lt (codes a) (codes b); share_sign = λ a wa b wb. same }

abbrev busy : User
busy = record {
  active = true;
  timezone = "UTC";
  working_hours = none;
  ooo = false;
  skills = [];
  max_open = some 3;
  max_new_per_day = none;
}

abbrev free : User
free = record {
  active = true;
  timezone = "UTC";
  working_hours = none;
  ooo = false;
  skills = [];
  max_open = none;
  max_new_per_day = none;
}

abbrev team : Batch
team = record {
  users = ("ann", busy) ∷ ("bob", free) ∷ [];
  open_count = ("ann", 2) ∷ ("bob", 7) ∷ [];
  new_today = [];
}

abbrev pool : List (String × ℕ)
pool = ("ann", 1) ∷ ("bob", 1) ∷ []

abbrev entry : Entry
entry = record {
  id = "entry";
  method = load_balanced;
  skills = [];
  fallback = none;
  target_user = none;
  target_queue = none;
}

abbrev no_accounts : AccountOwners
no_accounts = record { by_id = []; by_key = [] }

abbrev lead : String → Row
lead id = record { id = id; owner = none; account = none; company_key = none; skill_tag = none }

abbrev start : Progress
start = record {
  batch = team;
  counts = [];
  last_user = none;
  turns = 0;
  applied = [];
  outcomes = [];
}

assign_matched-le_example :
    count_of
      (assign_matched clock 0 runtime entry pool no_accounts
        (lead "a" ∷ lead "b" ∷ [])
        start).batch.open_count
      "ann"
    ≤ max 3 (count_of team.open_count "ann")
unfolding lookup
assign_matched-le_example =
    assign_matched-le clock 0 runtime "ann" busy 3 refl entry tt pool no_accounts
      (lead "a" ∷ lead "b" ∷ []) start refl

pick_by-is_decided_example :
    is_decided (pick_by clock 0 runtime round_robin entry pool no_accounts team [] none (lead "a"))
    ≡ true
unfolding unavailable lookup count_of
pick_by-is_decided_example =
    pick_by-is_decided clock 0 runtime entry pool no_accounts team [] none (lead "a") round_robin
      refl refl

pick_loaded-IsLeastLoaded_example :
    IsLeastLoaded clock 0 runtime team []
      (ids_of pool)
      (pick_loaded clock 0 runtime team fewest_open [] (ids_of pool)).0
pick_loaded-IsLeastLoaded_example =
    pick_loaded-IsLeastLoaded clock 0 runtime team fewest_open [] (ids_of pool)

-- Ann takes the first record, and is then full.
two_records :
    count_of
      (assign_matched clock 0 runtime entry pool no_accounts
        (lead "a" ∷ lead "b" ∷ [])
        start).batch.open_count
      "bob"
    ≡ 8
unfolding count_of lookup assign_matched unavailable count_up insert
two_records = refl
