-- ===== src/Sla/Start.antt =====
-- `startSlaTimers`, `calendarFor` and `notify`: what an assignment starts and moves.
use Prim.Native.String.{String}
use text.Mathlib.Text.{◌==◌ as str_eq}
use salesmaker.Base.{
  ℕ, Bool, true, false, not, ◌&&◌, ◌||◌, Option, none, some, List, [], ◌∷◌, ◌++◌, any, includes,
  if◌then◌else◌, length, map,
}
use salesmaker.Calendar.{Calendar, Clock}
use salesmaker.Sla.{
  SlaStep, breach, step_eq, Status, running, cancelled, Policy, Timer, Steps, is_open, is_none,
  step_instants, next_action, update_where, or_else,
}
use salesmaker.Sla.Life.{move_owner}
use salesmaker.Sla.Tick.{Notification}
use salesmaker.Filter.{distinct}

pub record Assigned : Type 0 where
  pub record_id : String
  pub owner_id : String

-- An owner's time zone, when the owner is found and has one.
abbrev in_zone : Calendar → Option String → Calendar
in_zone calendar none = calendar
in_zone calendar (some zone) =
    if str_eq zone "" then calendar else record calendar { timezone = zone }

unfoldable pub calendar_for :
    (Policy → Calendar) → (String → Option String) → Policy → String → Calendar
calendar_for load timezone_of policy owner =
    if policy.owner_timezone then in_zone (load policy) (timezone_of owner) else load policy

-- Open clocks follow the record to its new owner.
unfoldable pub follows : String → Assigned → Timer → Bool
follows object a t =
    str_eq t.object object && str_eq t.record_id a.record_id && is_open t.status && is_none t.met_at

unfoldable pub move_owners : String → List Assigned → List Timer → List Timer
move_owners object [] timers = timers
move_owners object (a ∷ rest) timers =
    move_owners object rest (update_where (follows object a) (move_owner a.owner_id) timers).0

abbrev step_at? : Steps → SlaStep → Option ℕ
step_at? [] step = none
step_at? ((s, at) ∷ steps) step = if step_eq s step then some at else step_at? steps step

abbrev pub is_cancelled : Status → Bool
is_cancelled cancelled = true
is_cancelled _ = false

-- A clock of the policy on the record that is not cancelled.
unfoldable pub has_timer : Policy → String → List Timer → Bool
has_timer policy record_id = any (λ t.
    str_eq t.policy.id policy.id && str_eq t.record_id record_id && not (is_cancelled t.status))

module _ (clock : Clock) (calendar_of : Policy → String → Calendar) (object : String)
    (now : ℕ) where
  unfoldable pub new_timer : Policy → Assigned → Timer
  new_timer policy a =
      let steps = step_instants clock policy (calendar_of policy a.owner_id) now in
      record {
        policy = policy;
        object = object;
        record_id = a.record_id;
        owner_id = a.owner_id;
        started_at = now;
        due_at = or_else (step_at? steps breach) now;
        status = running;
        steps_done = [];
        next_action_at = next_action steps [];
        met_at = none;
        breached_at = none;
        version = 1;
      }

  -- The rows for one policy; `matching` are the records that its criteria select, and `timers` the
  -- rows before.
  unfoldable pub new_rows : Policy → List String → List Timer → List Assigned → List Timer
  new_rows policy matching timers [] = []
  new_rows policy matching timers (a ∷ rest) =
      let rows = new_rows policy matching timers rest in
      if not (includes matching a.record_id) || has_timer policy a.record_id timers
      then rows
      else new_timer policy a ∷ rows

  -- One policy; criteria that no longer compile, `none`, start nothing.
  abbrev pub start_policy : Policy → Option (List String) → List Assigned → List Timer → List Timer
  start_policy policy none assigned timers = timers
  start_policy policy (some matching) assigned timers =
      timers ++ new_rows policy matching timers assigned

  -- The whole operation, with the number of clocks that it starts; `criteria` is the query of each
  -- policy for the records that match.
  unfoldable pub start_policies :
      (Policy → Option (List String)) → List Policy → List Assigned → List Timer → List Timer
  start_policies criteria [] assigned timers = timers
  start_policies criteria (p ∷ ps) assigned timers =
      start_policies criteria ps assigned (start_policy p (criteria p) assigned timers)

  unfoldable pub start_sla_timers :
      (Policy → Option (List String)) → List Policy → List Assigned → List Timer → List Timer
  start_sla_timers criteria policies assigned timers =
      start_policies criteria policies assigned (move_owners object assigned timers)

-- `notify`: the rows that it creates, the users to whom an event goes, each once, and the number of
-- rows.
unfoldable pub notify : List Notification → List Notification × List String × ℕ
notify [] = ([], [], 0)
notify (n ∷ ns) = (n ∷ ns, distinct (map (λ r. r.user_id) (n ∷ ns)), length (n ∷ ns))
