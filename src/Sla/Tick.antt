-- ===== src/Sla/Tick.antt =====
-- `runSlaTick`: the due steps of the running clocks.
use Prim.Native.String.{String}
use text.Mathlib.Text.{◌==◌ as str_eq}
use salesmaker.Base.{
  ℕ, suc, Bool, false, not, ◌&&◌, ◌||◌, Option, none, some, List, [], ◌∷◌, ◌++◌, ltb, leb, ◌==◌,
  if◌then◌else◌,
}
use salesmaker.Calendar.{Calendar, Clock}
use salesmaker.Sla.{
  SlaStep, warn, breach, manager, reassign, Status, Policy, Timer, has_step, is_running, is_open,
  Steps, step_instants, next_action,
}

pub data Kind : Type 0 where
  sla_warning sla_breach sla_escalation : Kind

pub record Notification : Type 0 where
  pub user_id : String
  pub kind : Kind
  pub object : String
  pub record_id : String

pub record Reassignment : Type 0 where
  pub object : String
  pub record_id : String
  pub rule_id : String

-- `SlaTickResult`, with the notifications that are sent.
pub record TickResult : Type 0 where
  pub warned : ℕ
  pub breached : ℕ
  pub escalated : ℕ
  pub reassign : List Reassignment
  pub notifications : List Notification

-- What the tick reads of the database: the calendar for a policy and an owner, the users, and the
-- manager of each.
pub record Directory : Type 0 where
  pub calendar_for : Policy → String → Calendar
  pub is_user : String → Bool
  pub manager_of : String → Option String

-- The variables of the loop over the steps.
pub record Progress : Type 0 where
  pub done : List SlaStep
  pub status : Status
  pub breached_at : Option ℕ
  pub result : TickResult

abbrev pub no_result : TickResult
no_result = record { warned = 0; breached = 0; escalated = 0; reassign = []; notifications = [] }

unfoldable pub send : Timer → Kind → String → TickResult → TickResult
send t kind user result = record result {
  notifications =
      result.notifications
      ++ record { user_id = user; kind = kind; object = t.object; record_id = t.record_id } ∷ [];
}

-- A notification for a user that may be missing.
abbrev pub send_to : Timer → Kind → Option String → TickResult → TickResult
send_to t kind none result = result
send_to t kind (some user) result = send t kind user result

abbrev pub warn_owner : Timer → Option String → TickResult → TickResult
warn_owner t none result = result
warn_owner t (some owner) result =
    let sent = send t sla_warning owner result in record sent { warned = suc sent.warned }

abbrev pub escalate : Timer → Option String → TickResult → TickResult
escalate t none result = result
escalate t (some m) result =
    let sent = send t sla_escalation m result in record sent { escalated = suc sent.escalated }

abbrev pub manager_of_owner : Directory → Option String → Option String
manager_of_owner dir none = none
manager_of_owner dir (some owner) = dir.manager_of owner

abbrev pub reassign_by : Timer → Option String → TickResult → TickResult
reassign_by t none result = result
reassign_by t (some rule) result = if str_eq rule "" then result else record result {
  reassign =
      result.reassign ++ record { object = t.object; record_id = t.record_id; rule_id = rule } ∷ [];
}

module _ (dir : Directory) (t : Timer) (owner : Option String) where
  -- What one due step does.
  unfoldable pub act : SlaStep → ℕ → Progress → Progress
  act warn at p = record p {
    result = if is_running p.status then warn_owner t owner p.result else p.result;
  }
  act breach at p =
      if is_running p.status
      then record p {
        status = Status.breached;
        breached_at = some at;
        result = send_to t sla_breach owner (record p.result { breached = suc p.result.breached });
      }
      else p
  act manager at p = record p { result = escalate t (manager_of_owner dir owner) p.result }
  act reassign at p = record p { result = reassign_by t t.policy.reassign_rule_id p.result }

  -- The loop over the steps.
  unfoldable pub run_steps : ℕ → Steps → Progress → Progress
  run_steps now [] p = p
  run_steps now ((step, at) ∷ steps) p =
      let skipped = run_steps now steps p in
      let acted = run_steps now steps (act step at (record p { done = p.done ++ step ∷ [] })) in
      if has_step p.done step || ltb now at then skipped else acted

abbrev pub reached : ℕ → Option ℕ → Bool
reached now none = false
reached now (some at) = leb at now

module _ (clock : Clock) (dir : Directory) (now : ℕ) where
  abbrev pub owner_of : Timer → Option String
  owner_of t = if dir.is_user t.owner_id then some t.owner_id else none

  unfoldable pub steps_of : Timer → Steps
  steps_of t = step_instants clock t.policy (dir.calendar_for t.policy t.owner_id) t.started_at

  -- One clock: its new row, and what is done.
  unfoldable pub tick : Timer → TickResult → Timer × TickResult
  unfolding steps_of
  tick t result =
      let steps = steps_of t in
      let p = run_steps dir t (owner_of t) now steps (record {
        done = t.steps_done;
        status = t.status;
        breached_at = t.breached_at;
        result = result;
      }) in
      (
        record t {
          steps_done = p.done;
          status = p.status;
          breached_at = p.breached_at;
          next_action_at = next_action steps p.done;
          version = suc t.version;
        },
        p.result,
      )

  -- The clocks that the tick may claim.
  unfoldable pub is_due : Timer → Bool
  is_due t = is_open t.status && reached now t.next_action_at

  -- The whole tick; `claims` is what the limit and the row locks leave to it of the clocks that are due.
  unfoldable pub run_sla_tick : (Timer → Bool) → List Timer → TickResult → List Timer × TickResult
  unfolding is_due tick
  run_sla_tick claims [] result = ([], result)
  run_sla_tick claims (t ∷ ts) result =
      let (ticked, acted) = tick t result in
      let (rest, last) = run_sla_tick claims ts acted in
      let (others, without) = run_sla_tick claims ts result in
      if is_due t && claims t then (ticked ∷ rest, last) else (t ∷ others, without)

-- The clocks whose breach is audited, when the tick breached any: by their rows before the tick.
unfoldable pub audited : ℕ → TickResult → List Timer → List Timer
audited now result [] = []
audited now result (t ∷ ts) =
    let rest = audited now result ts in
    if not (result.breached == 0) && is_running t.status && leb t.due_at now then t ∷ rest else rest
