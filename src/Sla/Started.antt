-- ===== src/Sla/Started.antt =====
-- The clocks that `startSlaTimers` of packages/records/src/sla.ts starts for a policy.
use Prim.Native.String.{String}
use text.Mathlib.Text.{◌==◌ as str_eq}
use text.Mathlib.TextEquality.{eq_iff}
use mathlib.Core.List.{Memᴰ}
use salesmaker.Base.{
  ℕ, ◌≡◌, refl, sym, ap, subst, Bool, true, false, not, ◌&&◌, ◌||◌, List, [], ◌∷◌, any, includes,
  if◌then◌else◌, Bool-cases, inl, inr, arith,
}
use salesmaker.Calendar.{Calendar, Clock}
use salesmaker.Sla.{Status, cancelled, Policy, Timer, step_instants, next_action}
use salesmaker.Sla.Life.{is_new}
use salesmaker.Sla.Start.{Assigned, is_cancelled, has_timer, new_timer, new_rows}

-- Whatever clock the policy has on the record is cancelled.
abbrev pub IsFree : Policy → String → List Timer → Type 0
IsFree policy r timers =
    (t : Timer) → Memᴰ t timers → t.policy.id ≡ policy.id → t.record_id ≡ r → t.status ≡ cancelled

cancelled_sound : (s : Status) → is_cancelled s ≡ true → s ≡ cancelled
cancelled_sound cancelled h = refl
cancelled_sound s h = absurd cc

is_live : Policy → String → Timer → Bool
is_live policy r t =
    str_eq t.policy.id policy.id && str_eq t.record_id r && not (is_cancelled t.status)

dead :
    (policy : Policy) (r : String) (t : Timer)
    → is_live policy r t ≡ false
    → t.policy.id ≡ policy.id
    → t.record_id ≡ r
    → t.status ≡ cancelled
unfolding is_live
dead policy r t h p e =
    cancelled_sound t.status
      (ground (arith, h, (eq_iff t.policy.id policy.id).1 p, (eq_iff t.record_id r).1 e))

has_timer-IsFree :
    (policy : Policy) (r : String) (timers : List Timer)
    → any (is_live policy r) timers ≡ false
    → IsFree policy r timers
has_timer-IsFree policy r [] h t (m) = elim m [ ]
has_timer-IsFree policy r (u ∷ us) h t (Memᴰ.head e) =
    subst (λ x. x.policy.id ≡ policy.id → x.record_id ≡ r → x.status ≡ cancelled) (sym e)
      (dead policy r u (ground arith))
has_timer-IsFree policy r (u ∷ us) h t (Memᴰ.tail m) =
    has_timer-IsFree policy r us (ground arith) t m

not_live :
    (policy : Policy) (r : String) (t : Timer)
    → (t.policy.id ≡ policy.id → t.record_id ≡ r → t.status ≡ cancelled)
    → is_live policy r t ≡ false
unfolding is_live
not_live policy r t h = elim (Bool-cases (str_eq t.policy.id policy.id)) [
  | inr e ↦ rw e refl
  | inl e ↦ elim (Bool-cases (str_eq t.record_id r)) [
    | inr k ↦ rw (e, k) refl
    | inl k ↦
        let gone : t.status ≡ cancelled =
          h ((eq_iff t.policy.id policy.id).0 e) ((eq_iff t.record_id r).0 k) in
        rw (e, k) (ap (λ s. not (is_cancelled s)) gone)
  ]
]

IsFree-has_timer :
    (policy : Policy) (r : String) (timers : List Timer)
    → IsFree policy r timers
    → any (is_live policy r) timers ≡ false
IsFree-has_timer policy r [] h = refl
IsFree-has_timer policy r (u ∷ us) h = ground (
  arith,
  not_live policy r u (h u (Memᴰ.head refl)),
  IsFree-has_timer policy r us (λ t m. h t (Memᴰ.tail m)),
)

module _ (clock : Clock) (calendar_of : Policy → String → Calendar) (object : String)
    (now : ℕ) where
  -- A new clock of the policy for the record assigned, from now on, that waits for the first of the steps of the
  -- policy in the calendar of the owner.
  abbrev pub Starts : Policy → Assigned → Timer → Type 0
  Starts policy a t =
      (t.policy ≡ policy)
      × (t.object ≡ object)
      × (t.record_id ≡ a.record_id)
      × (t.owner_id ≡ a.owner_id)
      × (t.started_at ≡ now)
      × (is_new t ≡ true)
      × (t.steps_done ≡ [])
      × (t.next_action_at
          ≡ next_action (step_instants clock policy (calendar_of policy a.owner_id) now) [])

  new_timer-Starts :
      (policy : Policy) (a : Assigned)
      → Starts policy a (new_timer clock calendar_of object now policy a)
  unfolding new_timer is_new
  new_timer-Starts policy a = (refl, refl, refl, refl, refl, refl, refl, refl)

  module _ (policy : Policy) (matching : List String) (timers : List Timer) where
    abbrev rows : List Assigned → List Timer
    rows = new_rows clock calendar_of object now policy matching timers

    -- An assignment of a record that matches and has no live clock of the policy.
    abbrev pub IsDue : Assigned → Type 0
    IsDue a = (includes matching a.record_id ≡ true) × IsFree policy a.record_id timers

    abbrev Source : List Assigned → Timer → Type 0
    Source assigned t = (a : Assigned) × Memᴰ a assigned × IsDue a × Starts policy a t

    abbrev Covered : List Timer → Assigned → Type 0
    Covered made a = (t : Timer) × Memᴰ t made × Starts policy a t

    skips : Assigned → Bool
    skips a = not (includes matching a.record_id) || has_timer policy a.record_id timers

    due : (a : Assigned) → skips a ≡ false → IsDue a
    unfolding skips has_timer is_live
    due a h = (ground arith, has_timer-IsFree policy a.record_id timers (ground arith))

    not_skipped : (a : Assigned) → IsDue a → skips a ≡ false
    unfolding skips has_timer is_live
    not_skipped a (h, f) = rw (h, IsFree-has_timer policy a.record_id timers f) refl

    later : (a : Assigned) (rest : List Assigned) (t : Timer) → Source rest t → Source (a ∷ rest) t
    later a rest t (b, m, d, s) = (b, Memᴰ.tail m, d, s)

    sound_step :
        (a : Assigned) (rest : List Assigned) (made : List Timer) (b : Bool)
        → skips a ≡ b
        → ((t : Timer) → Memᴰ t made → Source rest t)
        → (t : Timer)
        → Memᴰ t (if b then made else new_timer clock calendar_of object now policy a ∷ made)
        → Source (a ∷ rest) t
    sound_step a rest made true e h t m = later a rest t (h t m)
    sound_step a rest made false e h t (Memᴰ.head k) =
        (a, Memᴰ.head refl, due a e, subst (Starts policy a) (sym k) (new_timer-Starts policy a))
    sound_step a rest made false e h t (Memᴰ.tail m) = later a rest t (h t m)

    new_rows-Source :
        (assigned : List Assigned) (t : Timer) → Memᴰ t (rows assigned) → Source assigned t
    unfolding new_rows skips
    new_rows-Source [] t m = elim m [ ]
    new_rows-Source (a ∷ rest) t m =
        sound_step a rest (rows rest) (skips a) refl (new_rows-Source rest) t m

    here_step :
        (a : Assigned) (made : List Timer) (b : Bool)
        → b ≡ false
        → Covered (if b then made else new_timer clock calendar_of object now policy a ∷ made) a
    here_step a made true e = absurd cc
    here_step a made false e =
        (new_timer clock calendar_of object now policy a, Memᴰ.head refl, new_timer-Starts policy a)

    later_step :
        (a c : Assigned) (made : List Timer) (b : Bool)
        → Covered made c
        → Covered (if b then made else new_timer clock calendar_of object now policy a ∷ made) c
    later_step a c made true h = h
    later_step a c made false (t, m, s) = (t, Memᴰ.tail m, s)

    new_rows-Covered :
        (assigned : List Assigned) (a : Assigned)
        → Memᴰ a assigned
        → IsDue a
        → Covered (rows assigned) a
    unfolding new_rows skips
    new_rows-Covered [] a m d = elim m [ ]
    new_rows-Covered (c ∷ rest) a (Memᴰ.head k) d =
        subst (Covered (rows (c ∷ rest))) (sym k)
          (here_step c (rows rest) (skips c) (not_skipped c (subst IsDue k d)))
    new_rows-Covered (c ∷ rest) a (Memᴰ.tail m) d =
        later_step c a (rows rest) (skips c) (new_rows-Covered rest a m d)

    -- Every row that a policy starts is a new clock of that policy for one of the assignments, of a record that
    -- matches its criteria and on which every clock that it had is cancelled; and it starts such a clock for each
    -- of these assignments.
    pub new_rows_lem :
        (assigned : List Assigned)
        → ((t : Timer)
            → Memᴰ t (new_rows clock calendar_of object now policy matching timers assigned)
            → (a : Assigned) × Memᴰ a assigned × IsDue a × Starts policy a t)
          × ((a : Assigned)
              → Memᴰ a assigned
              → IsDue a
              → (t : Timer) × Memᴰ t
                  (new_rows clock calendar_of object now policy matching timers assigned)
                × Starts policy a t)
    new_rows_lem assigned = (new_rows-Source assigned, new_rows-Covered assigned)
