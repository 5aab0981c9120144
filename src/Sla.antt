-- ===== src/Sla.antt =====
-- packages/records/src/sla.ts: the clock of an SLA policy on a record, its ladder of steps, and the
-- operations that stop it. An instant is its number of milliseconds.
pub mod Tick
pub mod Laws
pub mod Life
pub mod Start
pub mod Started
mod Tests
use Prim.Native.String.{String}
use text.Mathlib.Text.{◌==◌ as str_eq}
use salesmaker.Base.{
  ℕ, zero, suc, ◌+◌, ◌*◌, ◌/◌, min, Bool, true, false, not, ◌&&◌, ◌||◌, Option, none, some, List,
  [], ◌∷◌, ◌++◌, ltb, leb, ◌==◌, if◌then◌else◌, includes,
}
use salesmaker.Calendar.{Calendar, Clock, always_open, add_business_minutes}

pub data SlaStep : Type 0 where
  warn breach manager reassign : SlaStep

pub data Status : Type 0 where
  running breached met cancelled : Status

pub data Metric : Type 0 where
  first_touch qualify : Metric

pub record Policy : Type 0 where
  pub id : String
  pub metric : Metric
  pub target_minutes : ℕ
  pub owner_timezone : Bool
  pub warn_at_percent : Option ℕ
  pub manager_at_percent : Option ℕ
  pub reassign_at_percent : Option ℕ
  pub reassign_rule_id : Option String

-- A row of `sla_timer` with its policy.
pub record Timer : Type 0 where
  pub policy : Policy
  pub object : String
  pub record_id : String
  pub owner_id : String
  pub started_at : ℕ
  pub due_at : ℕ
  pub status : Status
  pub steps_done : List SlaStep
  pub next_action_at : Option ℕ
  pub met_at : Option ℕ
  pub breached_at : Option ℕ
  pub version : ℕ

abbrev pub step_code : SlaStep → ℕ
step_code warn = 0
step_code breach = 1
step_code manager = 2
step_code reassign = 3

abbrev pub step_eq : SlaStep → SlaStep → Bool
step_eq a b = step_code a == step_code b

abbrev pub has_step : List SlaStep → SlaStep → Bool
has_step [] k = false
has_step (s ∷ ss) k = step_eq s k || has_step ss k

abbrev pub is_running : Status → Bool
is_running running = true
is_running _ = false

-- RUNNING or BREACHED.
abbrev pub is_open : Status → Bool
is_open running = true
is_open breached = true
is_open _ = false

abbrev pub metric_eq : Metric → Metric → Bool
metric_eq first_touch first_touch = true
metric_eq qualify qualify = true
metric_eq _ _ = false

-- The steps of a policy, in the order in which the source writes them.
abbrev pub Steps : Type 0
Steps = List (SlaStep × ℕ)

-- `Math.round` of a percentage: halves go up.
abbrev pub percent_of : ℕ → ℕ → ℕ
percent_of target percent = (2 * target * percent + 100) / 200

abbrev pub or_else {ℓ} : {A : Type ℓ} → Option A → A → A
or_else none d = d
or_else (some a) d = a

abbrev pub first_of {ℓ} : {A : Type ℓ} → Option A → Option A → Option A
first_of none o = o
first_of (some a) o = some a

module _ (clock : Clock) (policy : Policy) (calendar : Calendar) (start : ℕ) where
  -- Where the calendar never opens every minute counts.
  unfoldable pub at_percent : ℕ → ℕ
  at_percent percent =
      let minutes = percent_of policy.target_minutes percent in
      or_else
        (first_of (add_business_minutes clock calendar start minutes)
          (add_business_minutes clock always_open start minutes))
        start

  -- A percentage that is null or 0 gives no step.
  abbrev pub step_at : SlaStep → Option ℕ → Steps
  step_at step none = []
  step_at step (some zero) = []
  step_at step (some (suc n)) = (step, at_percent (suc n)) ∷ []

  abbrev pub reassign_at : Option String → Steps
  reassign_at none = []
  reassign_at (some rule) =
      if str_eq rule "" then [] else step_at reassign policy.reassign_at_percent

  unfoldable pub step_instants : Steps
  step_instants =
      (breach, at_percent 100)
      ∷ (step_at warn policy.warn_at_percent
          ++ (step_at manager policy.manager_at_percent ++ reassign_at policy.reassign_rule_id))

abbrev pub earlier : ℕ → Option ℕ → Option ℕ
earlier a none = some a
earlier a (some b) = some (min a b)

unfoldable pub next_action : Steps → List SlaStep → Option ℕ
next_action [] done = none
next_action ((step, at) ∷ steps) done =
    let rest = next_action steps done in if has_step done step then rest else earlier at rest

-- The update of one clock by `meetSlaTimers`.
unfoldable pub meet : ℕ → Timer → Timer
meet now t = record t {
  status = if is_running t.status && leb now t.due_at then met else breached;
  met_at = some now;
  breached_at = if is_running t.status && ltb t.due_at now then some t.due_at else t.breached_at;
  next_action_at = none;
  version = suc t.version;
}

abbrev pub is_none {ℓ} : {A : Type ℓ} → Option A → Bool
is_none none = true
is_none (some a) = false

-- The clocks that a touch or a qualification meets.
unfoldable pub is_met_by : String → String → Metric → Timer → Bool
is_met_by object record_id metric t =
    str_eq t.object object
    && str_eq t.record_id record_id
    && is_open t.status
    && is_none t.met_at
    && metric_eq t.policy.metric metric

-- An update of the rows that a condition selects, with their number.
unfoldable pub update_where : (Timer → Bool) → (Timer → Timer) → List Timer → List Timer × ℕ
update_where selects change [] = ([], 0)
update_where selects change (t ∷ ts) =
    let (rest, n) = update_where selects change ts in
    if selects t then (change t ∷ rest, suc n) else (t ∷ rest, n)

unfoldable pub meet_sla_timers : String → String → Metric → ℕ → List Timer → List Timer × ℕ
meet_sla_timers object record_id metric now =
    update_where (is_met_by object record_id metric) (meet now)

unfoldable pub cancel : Timer → Timer
cancel t = record t { status = cancelled; next_action_at = none; version = suc t.version }

unfoldable pub is_cancelled_by : String → List String → Timer → Bool
is_cancelled_by object record_ids t =
    str_eq t.object object && includes record_ids t.record_id && is_running t.status

unfoldable pub cancel_sla_timers : String → List String → List Timer → List Timer × ℕ
cancel_sla_timers object record_ids = update_where (is_cancelled_by object record_ids) cancel
