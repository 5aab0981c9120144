-- ===== src/RateLimit.antt =====
-- packages/server-kit/src/rate-limit.ts: the token bucket. The script holds its tokens as a floating
-- number; here they are counted in thousandths, which is exact where the rate is a whole number of
-- tokens a second: in a millisecond `refill` thousandths come in. Times are in milliseconds.
pub mod Bounds
mod Tests
use Prim.Native.String.{String}
use salesmaker.Base.{
  ℕ, suc, ◌+◌, ◌-◌, ◌*◌, ◌/◌, min, Bool, Option, none, some, List, [], ◌∷◌, ltb, leb, ◌==◌,
  if◌then◌else◌,
}

pub record RateLimitPolicy : Type 0 where
  -- Burst size, in tokens.
  pub capacity : ℕ
  -- Tokens a second.
  pub refill_per_second : ℕ

-- The hash at a key: `tokens`, in thousandths, and `ts`.
pub record Bucket : Type 0 where
  pub tokens : ℕ
  pub ts : ℕ

-- What the script returns, `wait` in milliseconds.
pub record Reply : Type 0 where
  pub allowed : Bool
  pub remaining : ℕ
  pub wait : ℕ

pub record RateLimitResult : Type 0 where
  pub allowed : Bool
  pub limit : ℕ
  pub remaining : ℕ
  pub reset_seconds : ℕ

-- `math.ceil` of a quotient.
unfoldable pub ceil_div : ℕ → ℕ → ℕ
ceil_div a b = (a + b - 1) / b

-- The bucket before the request: full when the key is not there, else with what came in since.
unfoldable pub refilled : RateLimitPolicy → ℕ → Option Bucket → ℕ
refilled policy now none = policy.capacity * 1000
refilled policy now (some b) =
    min (policy.capacity * 1000) (b.tokens + (now - b.ts) * policy.refill_per_second)

abbrev pub taken : Bool → ℕ → ℕ → ℕ
taken allowed cost tokens = if allowed then tokens - cost * 1000 else tokens

-- The script, with the bucket that it stores.
unfoldable pub take_tokens : RateLimitPolicy → ℕ → ℕ → Option Bucket → Reply × Bucket
unfolding refilled ceil_div
take_tokens policy now cost state =
    let tokens = refilled policy now state in
    let allowed = leb (cost * 1000) tokens in
    let left = taken allowed cost tokens in
    (
      record {
        allowed = allowed;
        remaining = left / 1000;
        wait = if ltb left 1000 then ceil_div (1000 - left) policy.refill_per_second else 0;
      },
      record { tokens = left; ts = now },
    )

-- The life time of the key, after which the bucket is forgotten.
unfoldable pub expiry : RateLimitPolicy → ℕ
unfolding ceil_div
expiry policy = ceil_div (policy.capacity * 1000) policy.refill_per_second + 1000

-- The bucket that is stored, if it has not expired at `now`.
unfoldable pub live : RateLimitPolicy → ℕ → Option Bucket → Option Bucket
live policy now none = none
live policy now (some b) = if ltb now (b.ts + expiry policy) then some b else none

unfoldable pub consume : RateLimitPolicy → ℕ → ℕ → Option Bucket → RateLimitResult × Bucket
unfolding take_tokens live ceil_div
consume policy now cost state =
    let (reply, bucket) = take_tokens policy now cost (live policy now state) in
    (
      record {
        allowed = reply.allowed;
        limit = policy.capacity;
        remaining = reply.remaining;
        reset_seconds = ceil_div reply.wait 1000;
      },
      bucket,
    )
