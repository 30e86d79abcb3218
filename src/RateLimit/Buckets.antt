-- ===== src/RateLimit/Buckets.antt =====
-- The sizes of the buckets that the middlewares start with.
use Prim.Native.Nat.{ℕ}
use certhub_server.Common.{arith}
use certhub_server.Common.Int.{ℤ, pos, ◌≤ℤ◌}
use certhub_server.RateLimit.{
  requests_or_one, clamped_burst, new_keyed_rate_limiter, cert_issue_burst,
}

-- Whatever numbers are configured, a limiter starts with a burst of at least one request and at
-- most the requests of its window (at most one if none are configured).
pub new_keyed_rate_limiter-burst {ℓ} :
    (L : Type ℓ) (requests : ℤ) (window : ℕ) (burst : ℤ)
    → (pos 1 ≤ℤ (new_keyed_rate_limiter {L = L} requests window burst).burst)
      × ((new_keyed_rate_limiter {L = L} requests window burst).burst ≤ℤ requests_or_one requests)
unfolding new_keyed_rate_limiter clamped_burst requests_or_one
new_keyed_rate_limiter-burst L requests window burst = ground arith

-- The limiter of certificate requests lets a user start at most three at once, whatever the limit
-- of an hour is, and at least one.
pub cert_issue_burst-at_most_three :
    (limit : ℤ) → (pos 1 ≤ℤ cert_issue_burst limit) × (cert_issue_burst limit ≤ℤ pos 3)
unfolding cert_issue_burst
cert_issue_burst-at_most_three limit = ground arith
