-- ===== src/RateLimit/Bounds.antt =====
-- What the token bucket promises: a bound on what it lets through, and a wait that is long enough.
use native.Mathlib.Nat.{mod-lt, div-add-mod, mul_comm, le_trans, mul-le-mul_right, add-mul}
use salesmaker.Base.{
  ℕ, ◌+◌, ◌-◌, ◌*◌, ◌≤◌, ◌<◌, ◌≡◌, refl, sym, ap, subst, ◌∙◌, true, Option, none, some, List, [],
  ◌∷◌, ltb, leb, Bool-cases, inl, inr, if◌then◌else◌, arith,
}
use salesmaker.RateLimit.{
  RateLimitPolicy, Bucket, ceil_div, refilled, take_tokens, expiry, live, consume, taken,
}

ceil_div-le : (a b : ℕ) → 1 ≤ b → a ≤ b * ceil_div a b
unfolding ceil_div
ceil_div-le a b h =
    omega (arith, div-add-mod (a + b - 1) b, mod-lt (a + b - 1) {m = b} (omega arith), h)

-- The wait for `missing` thousandths brings them in.
ceil_div_comm : (a b : ℕ) → 1 ≤ b → a ≤ ceil_div a b * b
ceil_div_comm a b h = omega (arith, ceil_div-le a b h, mul_comm b (ceil_div a b))

full_by :
    (missing waited rate : ℕ) → 1 ≤ rate → ceil_div missing rate ≤ waited → missing ≤ waited * rate
full_by missing waited rate h k = le_trans (ceil_div_comm missing rate h) (mul-le-mul_right rate k)

-- Forgetting a bucket that has expired changes nothing: it would be full.
refilled-live :
    (policy : RateLimitPolicy) (now : ℕ) (state : Option Bucket)
    → 1 ≤ policy.refill_per_second
    → refilled policy now (live policy now state) ≡ refilled policy now state
unfolding refilled live expiry
refilled-live policy now none h = refl
refilled-live policy now (some b) h = elim (Bool-cases (ltb now (b.ts + expiry policy))) [
  | inl kept ↦ rw kept refl
  | inr gone ↦ rw gone (
      omega (
        arith,
        full_by (policy.capacity * 1000) (now - b.ts) policy.refill_per_second h
            (ground (arith, gone)),
      ))
]

wait_is_enough :
    (rate left later now : ℕ)
    → 1 ≤ rate
    → left < 1000
    → now + ceil_div (ceil_div (1000 - left) rate) 1000 * 1000 ≤ later
    → 1000 - left ≤ (later - now) * rate
wait_is_enough rate left later now h k l =
    full_by (1000 - left) (later - now) rate h
      (omega (arith, ceil_div_comm (ceil_div (1000 - left) rate) 1000 (omega arith), l))

token_later :
    (policy : RateLimitPolicy) (b : Bucket) (later : ℕ)
    → 1 ≤ policy.capacity
    → 1 ≤ policy.refill_per_second
    → (b.tokens < 1000 → 1000 - b.tokens ≤ (later - b.ts) * policy.refill_per_second)
    → leb 1000 (refilled policy later (live policy later (some b))) ≡ true
token_later policy b later h k l =
    rw (refilled-live policy later (some b) k) (unfold refilled in ground (arith, l))

reset_is_enough :
    (rate left later now : ℕ)
    → 1 ≤ rate
    → now + ceil_div (if ltb left 1000 then ceil_div (1000 - left) rate else 0) 1000 * 1000 ≤ later
    → left < 1000
    → 1000 - left ≤ (later - now) * rate
reset_is_enough rate left later now h k l =
    let e : ltb left 1000 ≡ true = ground (arith, l) in
    wait_is_enough rate left later now h l (
      subst (λ b. now + ceil_div (if b then ceil_div (1000 - left) rate else 0) 1000 * 1000 ≤ later)
        e k)

-- Where the capacity is at least one token and the rate at least one a second: once the seconds have
-- passed that `consume` says, whatever it was asked for and whatever it answered, a request of one
-- token on the bucket that it left is let through.
pub consume-retry :
    (policy : RateLimitPolicy) (now cost : ℕ) (state : Option Bucket) (later : ℕ)
    → 1 ≤ policy.capacity
    → 1 ≤ policy.refill_per_second
    → now + (consume policy now cost state).0.reset_seconds * 1000 ≤ later
    → (consume policy later 1 (some (consume policy now cost state).1)).0.allowed ≡ true
unfolding consume take_tokens
consume-retry policy now cost state later h k l =
    token_later policy (consume policy now cost state).1 later h k
      (reset_is_enough policy.refill_per_second _ later now k l)

-- What a sequence of requests is given in all, in thousandths: each request its time and its cost.
unfoldable pub admitted : RateLimitPolicy → Option Bucket → List (ℕ × ℕ) → ℕ
admitted policy state [] = 0
admitted policy state ((now, cost) ∷ requests) =
    let (result, bucket) = consume policy now cost state in
    let rest = admitted policy (some bucket) requests in
    if result.allowed then cost * 1000 + rest else rest

-- Times that do not go back, from `start` to at most `end`.
unfoldable pub IsBetween : ℕ → ℕ → List (ℕ × ℕ) → Type 0
IsBetween start end [] = start ≤ end
IsBetween start end ((now, cost) ∷ requests) = (start ≤ now) × IsBetween now end requests

taken_tokens :
    (cost tokens : ℕ)
    → (if leb (cost * 1000) tokens then cost * 1000 else 0)
        + taken (leb (cost * 1000) tokens) cost tokens
      ≡ tokens
taken_tokens cost tokens = ground arith

consume_tokens :
    (policy : RateLimitPolicy) (now cost : ℕ) (state : Option Bucket)
    → 1 ≤ policy.refill_per_second
    → (if (consume policy now cost state).0.allowed then cost * 1000 else 0)
        + (consume policy now cost state).1.tokens
      ≡ refilled policy now state
unfolding consume take_tokens
consume_tokens policy now cost state h =
    taken_tokens cost (refilled policy now (live policy now state))
    ∙ refilled-live policy now state h

IsBetween-le :
    (start end : ℕ) (requests : List (ℕ × ℕ)) → IsBetween start end requests → start ≤ end
unfolding IsBetween
IsBetween-le start end [] h = h
IsBetween-le start end ((now, cost) ∷ requests) (h, hs) =
    omega (arith, h, IsBetween-le now end requests hs)

income :
    (start now end rate : ℕ)
    → start ≤ now
    → now ≤ end
    → (now - start) * rate + (end - now) * rate ≡ (end - start) * rate
income start now end rate h k =
    sym (add-mul (now - start) (end - now) rate) ∙ ap (λ x. x * rate) (omega arith)

admitted_step :
    (policy : RateLimitPolicy) (state : Option Bucket) (now cost : ℕ) (requests : List (ℕ × ℕ))
    → admitted policy state ((now, cost) ∷ requests)
      ≡ (if (consume policy now cost state).0.allowed then cost * 1000 else 0)
        + admitted policy (some (consume policy now cost state).1) requests
unfolding admitted
admitted_step policy state now cost requests = ground arith

consume_ts :
    (policy : RateLimitPolicy) (now cost : ℕ) (state : Option Bucket)
    → (consume policy now cost state).1.ts ≡ now
unfolding consume take_tokens
consume_ts policy now cost state = refl

later_requests :
    (start end now cost : ℕ) (requests : List (ℕ × ℕ))
    → IsBetween start end ((now, cost) ∷ requests)
    → (start ≤ now) × IsBetween now end requests
unfolding IsBetween
later_requests start end now cost requests h = h

refilled-le :
    (policy : RateLimitPolicy) (now : ℕ) (b : Bucket)
    → refilled policy now (some b) ≤ b.tokens + (now - b.ts) * policy.refill_per_second
unfolding refilled
refilled-le policy now b = omega arith

full_at_first :
    (policy : RateLimitPolicy) (now more : ℕ)
    → refilled policy now none ≤ policy.capacity * 1000 + more
unfolding refilled
full_at_first policy now more = omega arith

admitted_sum :
    (all given rest left full held before after total : ℕ)
    → all ≡ given + rest
    → given + left ≡ full
    → full ≤ held + before
    → rest ≤ left + after
    → before + after ≡ total
    → all ≤ held + total
admitted_sum all given rest left full held before after total a b c d e = omega arith

admitted_from :
    (policy : RateLimitPolicy) (b : Bucket) (end : ℕ) (requests : List (ℕ × ℕ))
    → 1 ≤ policy.refill_per_second
    → IsBetween b.ts end requests
    → admitted policy (some b) requests ≤ b.tokens + (end - b.ts) * policy.refill_per_second
admitted_from policy b end [] h k = unfold admitted in omega arith
admitted_from policy b end ((now, cost) ∷ requests) h k =
    let (before, between) = later_requests b.ts end now cost requests k in
    let ts = consume_ts policy now cost (some b) in
    let rest =
      subst
        (λ x.
          admitted policy (some (consume policy now cost (some b)).1) requests
          ≤ (consume policy now cost (some b)).1.tokens + (end - x) * policy.refill_per_second)
        ts
        (admitted_from policy (consume policy now cost (some b)).1 end requests h
          (subst (λ x. IsBetween x end requests) (sym ts) between)) in
    admitted_sum _ _ _ _ _ _ _ _ _ (admitted_step policy (some b) now cost requests)
      (consume_tokens policy now cost (some b) h) (refilled-le policy now b) rest
      (income b.ts now end policy.refill_per_second before (IsBetween-le now end requests between))

-- Where the rate is at least one token a second: requests in the order of their times, on a bucket
-- that is not there at first, are let through for at most the capacity and what comes in at the rate
-- from the start to the end; also when the bucket expires in between.
pub admitted-le :
    (policy : RateLimitPolicy) (start end : ℕ) (requests : List (ℕ × ℕ))
    → 1 ≤ policy.refill_per_second
    → IsBetween start end requests
    → admitted policy none requests
      ≤ policy.capacity * 1000 + (end - start) * policy.refill_per_second
admitted-le policy start end [] h k = unfold admitted in omega arith
admitted-le policy start end ((now, cost) ∷ requests) h k =
    let (before, between) = later_requests start end now cost requests k in
    let ts = consume_ts policy now cost none in
    let rest =
      subst
        (λ x.
          admitted policy (some (consume policy now cost none).1) requests
          ≤ (consume policy now cost none).1.tokens + (end - x) * policy.refill_per_second)
        ts
        (admitted_from policy (consume policy now cost none).1 end requests h
          (subst (λ x. IsBetween x end requests) (sym ts) between)) in
    admitted_sum _ _ _ _ _ _ _ _ _ (admitted_step policy none now cost requests)
      (consume_tokens policy now cost none h)
      (full_at_first policy now ((now - start) * policy.refill_per_second)) rest
      (income start now end policy.refill_per_second before (IsBetween-le now end requests between))
