-- ===== src/Sla/Laws.antt =====
-- A tick acts on every due step, and on none twice.
use Prim.Native.String.{String}
use salesmaker.Base.{
  ℕ, ◌≡◌, refl, sym, ap, subst, inl, inr, Bool, true, false, ◌&&◌, ◌||◌, Option, List, [], ◌∷◌,
  ◌++◌, All, ltb, Bool-cases, arith,
}
use salesmaker.Calendar.{Clock}
use salesmaker.Sla.{
  SlaStep, warn, breach, manager, reassign, Timer, has_step, step_eq, is_running, Steps,
  next_action,
}
use salesmaker.Sla.Tick.{
  TickResult, Directory, Progress, act, run_steps, tick, steps_of, reached, is_due, owner_of,
}

has_step-append :
    (xs : List SlaStep) (s k : SlaStep) → has_step (xs ++ s ∷ []) k ≡ (has_step xs k || step_eq s k)
has_step-append [] s k = ground arith
has_step-append (x ∷ xs) s k = ground (arith, has_step-append xs s k)

step_eq_refl : (s : SlaStep) → step_eq s s ≡ true
step_eq_refl warn = refl
step_eq_refl breach = refl
step_eq_refl manager = refl
step_eq_refl reassign = refl

-- Done, or not due yet.
abbrev pub IsSettled : ℕ → List SlaStep → SlaStep × ℕ → Type 0
IsSettled now done (s, a) = (has_step done s || ltb now a) ≡ true

module _ (dir : Directory) (t : Timer) (owner : Option String) where
  act-done : (s : SlaStep) (a : ℕ) (p : Progress) → (act dir t owner s a p).done ≡ p.done
  unfolding act
  act-done warn a p = refl
  act-done breach a p = elim (Bool-cases (is_running p.status)) [
    | inl e ↦ rw e refl
    | inr e ↦ rw e refl
  ]
  act-done manager a p = refl
  act-done reassign a p = refl

  -- A step that is done stays done.
  kept :
      (now : ℕ) (steps : Steps) (p : Progress) (k : SlaStep)
      → has_step p.done k ≡ true
      → has_step (run_steps dir t owner now steps p).done k ≡ true
  unfolding run_steps
  kept now [] p k h = h
  kept now ((s, a) ∷ steps) p k h = elim (Bool-cases (has_step p.done s || ltb now a)) [
    | inl e ↦ rw e (kept now steps p k h)
    | inr e ↦ rw e (
        kept now steps (act dir t owner s a (record p { done = p.done ++ s ∷ [] })) k (
          ground (
            arith,
            h,
            act-done s a (record p { done = p.done ++ s ∷ [] }),
            has_step-append p.done s k,
          )))
  ]

  skip_step :
      (now : ℕ) (s : SlaStep) (a : ℕ) (steps : Steps) (p : Progress)
      → (has_step p.done s || ltb now a) ≡ true
      → run_steps dir t owner now ((s, a) ∷ steps) p ≡ run_steps dir t owner now steps p
  unfolding run_steps
  skip_step now s a steps p e = rw e refl

  take_step :
      (now : ℕ) (s : SlaStep) (a : ℕ) (steps : Steps) (p : Progress)
      → (has_step p.done s || ltb now a) ≡ false
      → run_steps dir t owner now ((s, a) ∷ steps) p
        ≡ run_steps dir t owner now steps
            (act dir t owner s a (record p { done = p.done ++ s ∷ [] }))
  unfolding run_steps
  take_step now s a steps p e = rw e refl

  abbrev AllSettled : ℕ → Steps → Progress → Type 0
  AllSettled now steps q = All (IsSettled now q.done) steps

  settle_step :
      (now : ℕ) (s : SlaStep) (a : ℕ) (steps : Steps) (p : Progress)
      → ((q : Progress) → AllSettled now steps (run_steps dir t owner now steps q))
      → AllSettled now ((s, a) ∷ steps) (run_steps dir t owner now ((s, a) ∷ steps) p)
  settle_step now s a steps p h = elim (Bool-cases (has_step p.done s || ltb now a)) [
    | inl e ↦
        subst (AllSettled now ((s, a) ∷ steps)) (sym (skip_step now s a steps p e))
          (ground (arith, e, kept now steps p s), h p)
    | inr e ↦ subst (AllSettled now ((s, a) ∷ steps)) (sym (take_step now s a steps p e)) (
        let q = act dir t owner s a (record p { done = p.done ++ s ∷ [] }) in
        (
          ground (
            arith,
            kept now steps q s,
            act-done s a (record p { done = p.done ++ s ∷ [] }),
            has_step-append p.done s s,
            step_eq_refl s,
          ),
          h q,
        ))
  ]

  -- After the loop every step is done or not due yet.
  settled :
      (now : ℕ) (steps : Steps) (p : Progress)
      → All (IsSettled now (run_steps dir t owner now steps p).done) steps
  settled now [] p = tt
  settled now ((s, a) ∷ steps) p = settle_step now s a steps p (settled now steps)

  -- The loop does nothing more where every step is done or not due yet.
  run_steps-IsSettled :
      (now : ℕ) (steps : Steps) (p : Progress)
      → All (IsSettled now p.done) steps
      → run_steps dir t owner now steps p ≡ p
  unfolding run_steps
  run_steps-IsSettled now [] p h = refl
  run_steps-IsSettled now ((s, a) ∷ steps) p (h, hs) = rw h (run_steps-IsSettled now steps p hs)

next_action-IsSettled :
    (now : ℕ) (steps : Steps) (done : List SlaStep)
    → All (IsSettled now done) steps
    → reached now (next_action steps done) ≡ false
unfolding next_action
next_action-IsSettled now [] done h = refl
next_action-IsSettled now ((s, a) ∷ steps) done (h, hs) =
    ground (arith, h, next_action-IsSettled now steps done hs)

and_false : (a b : Bool) → b ≡ false → (a && b) ≡ false
and_false a b h = ground arith

module _ (clock : Clock) (dir : Directory) (now : ℕ) (t : Timer) where
  -- The loop of the tick.
  abbrev loop : Progress → Progress
  loop = run_steps dir t (owner_of clock dir now t) now (steps_of clock dir now t)

  -- After a tick the clock is not due at that instant: its next action lies ahead, or there is none.
  pub tick-is_due :
      (result : TickResult) → is_due clock dir now (tick clock dir now t result).0 ≡ false
  unfolding tick is_due
  tick-is_due result = and_false _ _ (
      next_action-IsSettled now (steps_of clock dir now t) (loop _).done
        (settled dir t (owner_of clock dir now t) now (steps_of clock dir now t) _))

  -- A second tick at the same instant warns, breaches, escalates, reassigns and notifies nothing.
  pub tick-twice :
      (first second : TickResult)
      → (tick clock dir now (tick clock dir now t first).0 second).1 ≡ second
  unfolding tick steps_of
  tick-twice first second =
      ap (λ p. p.result)
        (run_steps-IsSettled dir (tick clock dir now t first).0 (owner_of clock dir now t) now
          (steps_of clock dir now t) _
          (settled dir t (owner_of clock dir now t) now (steps_of clock dir now t) _))
