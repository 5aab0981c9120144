-- ===== src/Sla/Life.antt =====
-- The life of a clock: the operations of packages/records/src/sla.ts as steps, and what holds of
-- every clock that they lead to.
use Prim.Native.String.{String}
use salesmaker.Base.{
  ℕ, suc, ◌≡◌, refl, inl, inr, Bool, true, false, not, ◌&&◌, ◌||◌, Option, none, some, List, [],
  ◌∷◌, ◌++◌, ltb, leb, Bool-cases, arith,
}
use salesmaker.Calendar.{Clock}
use salesmaker.Sla.{
  SlaStep, warn, breach, manager, reassign, Status, breached, met, Metric, Timer, has_step,
  is_running, is_open, is_none, Steps, meet, is_met_by, cancel, is_cancelled_by,
}
use salesmaker.Sla.Tick.{
  TickResult, no_result, Directory, Progress, act, run_steps, tick, steps_of, is_due, owner_of,
}

-- The row that `startSlaTimers` moves to a new owner.
unfoldable pub move_owner : String → Timer → Timer
move_owner owner t = record t { owner_id = owner; version = suc t.version }

module _ (clock : Clock) (dir : Directory) where
  pub data Event : Timer → Timer → Type 0 where
    meets :
        (object record_id : String) (metric : Metric) (now : ℕ) {t : Timer}
        → is_met_by object record_id metric t ≡ true
        → Event t (meet now t)
    cancels :
        (object : String) (record_ids : List String) {t : Timer}
        → is_cancelled_by object record_ids t ≡ true
        → Event t (cancel t)
    ticks :
        (now : ℕ) {t : Timer} (result : TickResult)
        → is_due clock dir now t ≡ true
        → Event t (tick clock dir now t result).0
    moves :
        (owner : String) {t : Timer}
        → (is_open t.status && is_none t.met_at) ≡ true
        → Event t (move_owner owner t)

  pub data Reaches (t : Timer) : Timer → Type 0 where
    start : Reaches t t
    after : {u v : Timer} → Reaches t u → Event u v → Reaches t v

-- As `startSlaTimers` creates it.
unfoldable pub is_new : Timer → Bool
is_new t = is_running t.status && is_none t.met_at && is_none t.breached_at

abbrev pub in_time : Status → Option ℕ → ℕ → Bool
in_time met none due = false
in_time met (some at) due = leb at due
in_time _ at due = true

abbrev pub has_time : Status → Option ℕ → Bool
has_time breached at = not (is_none at)
has_time _ at = true

-- A clock that is met or cancelled, and one that was met after its breach, has no next action; a
-- running clock has not been met; a clock that is met was met by its due time; a clock that is
-- breached has the time of its breach.
unfoldable pub is_valid : Timer → Bool
is_valid t =
    (is_none t.next_action_at || (is_open t.status && is_none t.met_at))
    && (not (is_running t.status) || is_none t.met_at)
    && in_time t.status t.met_at t.due_at
    && has_time t.status t.breached_at

abbrev started : Timer → TickResult → Progress
started t result = record {
  done = t.steps_done;
  status = t.status;
  breached_at = t.breached_at;
  result = result;
}

-- What the loop of a tick keeps of the status and the time of the breach.
abbrev is_kept : Progress → Bool
is_kept p = is_open p.status && has_time p.status p.breached_at

module _ (dir : Directory) (t : Timer) (owner : Option String) where
  act-is_kept :
      (s : SlaStep) (a : ℕ) (p : Progress)
      → is_kept p ≡ true
      → is_kept (act dir t owner s a p) ≡ true
  unfolding act
  act-is_kept warn a p h = h
  act-is_kept breach a p h = elim (Bool-cases (is_running p.status)) [
    | inl e ↦ rw e refl
    | inr e ↦ rw e h
  ]
  act-is_kept manager a p h = h
  act-is_kept reassign a p h = h

  run_steps-is_kept :
      (now : ℕ) (steps : Steps) (p : Progress)
      → is_kept p ≡ true
      → is_kept (run_steps dir t owner now steps p) ≡ true
  unfolding run_steps
  run_steps-is_kept now [] p h = h
  run_steps-is_kept now ((s, a) ∷ steps) p h = elim (Bool-cases (has_step p.done s || ltb now a)) [
    | inl e ↦ rw e (run_steps-is_kept now steps p h)
    | inr e ↦
        rw e
          (run_steps-is_kept now steps _ (act-is_kept s a (record p { done = p.done ++ s ∷ [] }) h))
  ]

meet-is_valid :
    (object record_id : String) (metric : Metric) (now : ℕ) (t : Timer)
    → is_met_by object record_id metric t ≡ true
    → is_valid t ≡ true
    → is_valid (meet now t) ≡ true
unfolding is_valid meet is_met_by
meet-is_valid object record_id metric now t e h = ground arith

cancel-is_valid : (t : Timer) → is_valid (cancel t) ≡ true
unfolding is_valid cancel
cancel-is_valid t = refl

move-is_valid :
    (owner : String) (t : Timer) → is_valid t ≡ true → is_valid (move_owner owner t) ≡ true
unfolding is_valid move_owner
move-is_valid owner t h = h

-- A clock that is due has not been met.
due_is_open :
    (clock : Clock) (dir : Directory) (now : ℕ) (t : Timer)
    → is_due clock dir now t ≡ true
    → is_valid t ≡ true
    → (is_none t.met_at && is_kept (started t no_result)) ≡ true
unfolding is_valid is_due
due_is_open clock dir now t e h = ground arith

progress_is_valid :
    (t : Timer) (p : Progress) (next : Option ℕ) (version : ℕ)
    → is_none t.met_at ≡ true
    → is_kept p ≡ true
    → is_valid (record t {
      steps_done = p.done;
      status = p.status;
      breached_at = p.breached_at;
      next_action_at = next;
      version = version;
    })
      ≡ true
unfolding is_valid
progress_is_valid t p next version e h = ground arith

module _ (clock : Clock) (dir : Directory) where
  tick-is_valid :
      (now : ℕ) (t : Timer) (result : TickResult)
      → is_due clock dir now t ≡ true
      → is_valid t ≡ true
      → is_valid (tick clock dir now t result).0 ≡ true
  unfolding tick
  tick-is_valid now t result e h =
      let both = due_is_open clock dir now t e h in
      progress_is_valid t
        (run_steps dir t (owner_of clock dir now t) now (steps_of clock dir now t)
          (started t result))
        _ _ (ground (arith, both))
        (run_steps-is_kept dir t (owner_of clock dir now t) now (steps_of clock dir now t)
          (started t result) (ground (arith, both)))

  Event-is_valid : {t u : Timer} → Event clock dir t u → is_valid t ≡ true → is_valid u ≡ true
  Event-is_valid {t} (meets object record_id metric now e) h =
      meet-is_valid object record_id metric now t e h
  Event-is_valid {t} (cancels object record_ids e) h = cancel-is_valid t
  Event-is_valid {t} (ticks now result e) h = tick-is_valid now t result e h
  Event-is_valid {t} (moves owner e) h = move-is_valid owner t h

  new_is_valid : (t : Timer) → is_new t ≡ true → is_valid t ≡ true
  unfolding is_new is_valid
  new_is_valid t h = ground arith

  -- Every clock that a new one comes to, by meeting it, cancelling it, ticks when it is due, and
  -- moves to other owners while it is open, in any order, is valid.
  pub Reaches-is_valid : {t u : Timer} → Reaches clock dir t u → is_new t ≡ true → is_valid u ≡ true
  Reaches-is_valid {t} start n = new_is_valid t n
  Reaches-is_valid (after r e) n = Event-is_valid e (Reaches-is_valid r n)
