-- ===== src/RateLimit/Tests.antt =====
-- A bucket of two tokens that gets one a second.
use salesmaker.Base.{ℕ, ◌≡◌, ◌≤◌, ◌-◌, ◌*◌, ◌+◌, true, none, some, List, [], ◌∷◌, arith}
use salesmaker.RateLimit.{RateLimitPolicy, consume, take_tokens, refilled, live, ceil_div}
use salesmaker.RateLimit.Bounds.{admitted, IsBetween, admitted-le, consume-retry}

abbrev policy : RateLimitPolicy
policy = record { capacity = 2; refill_per_second = 1 }

abbrev requests : List (ℕ × ℕ)
requests = (1000, 1) ∷ (1200, 2) ∷ (4000, 1) ∷ []

in_order : IsBetween 1000 5000 requests
unfolding IsBetween
in_order = (omega arith, (omega arith, (omega arith, omega arith)))

admitted-le_example :
    admitted policy none requests
    ≤ policy.capacity * 1000 + (5000 - 1000) * policy.refill_per_second
admitted-le_example = admitted-le policy 1000 5000 requests (omega arith) in_order

waited : 7 + (consume policy 7 2 none).0.reset_seconds * 1000 ≤ 1007
unfolding consume take_tokens refilled live ceil_div
waited = omega arith

consume-retry_example : (consume policy 1007 1 (some (consume policy 7 2 none).1)).0.allowed ≡ true
consume-retry_example = consume-retry policy 7 2 none 1007 (omega arith) (omega arith) waited
