-- ===== src/RateLimit.antt =====
-- middleware/ratelimit.go, middleware/cert_issue_ratelimit.go, middleware/auth.go and
-- middleware/cors.go. The bucket of golang.org/x/time/rate is a parameter: what NewLimiter makes of
-- the time for one token and the burst, and what Allow answers at a time, with the bucket it leaves.
-- A call of `allow` is one step here: another goroutine's between its two sections can only take a
-- token of the same bucket first.
pub mod Buckets
pub mod Fairness
pub mod Origins
use Prim.Native.Nat.{ℕ, zero, suc, ◌*◌, ◌/◌, ◌-◌}
use certhub_server.Common.{
  String, Bool, true, false, not, ◌&&◌, ◌||◌, Option, none, some, List, [], ◌∷◌, ◌⊎◌, inl, inr,
  ◌==◌, str_eq, any, find, keep, update, is_none, if◌then◌else◌, length,
}
use certhub_server.Common.Int.{ℤ, pos, negsuc, ◌-ℤ◌, ltb_ℤ, leb_ℤ}
use certhub_server.Common.Text.{format_uint}
use certhub_server.Config.{Config, RateLimitConfig}
use certhub_server.Config.Durations.{
  minute, cert_issue_requests_per_hour, cert_issue_rate_limit_enabled,
}
use certhub_server.Models.{Time}
use certhub_server.Http.{Response, respond_error, respond_need_login, Session}

-- limiterIdleTTL
abbrev pub limiter_idle_ttl : ℤ
limiter_idle_ttl = pos (10 * minute)

-- certIssueRateWindow
abbrev pub cert_issue_rate_window : ℕ
cert_issue_rate_window = 60 * minute

pub record LimiterEntry {ℓ} (L : Type ℓ) : Type ℓ where
  pub key : String
  pub limiter : L
  pub last_seen : Time

-- The map of a keyedRateLimiter, and its constants.
pub record KeyedRateLimiter {ℓ} (L : Type ℓ) : Type ℓ where
  pub entries : List (LimiterEntry L)
  pub interval : ℕ
  pub burst : ℤ

-- At least one request.
unfoldable pub requests_or_one : ℤ → ℤ
requests_or_one requests = if leb_ℤ requests (pos 0) then pos 1 else requests

unfoldable pub clamped_burst : ℤ → ℤ → ℤ
clamped_burst requests burst =
    let b = if leb_ℤ burst (pos 0) then requests else burst in
    if ltb_ℤ requests b then requests else b

-- `window / time.Duration(requests)` for a positive divisor.
abbrev quotient : ℕ → ℤ → ℕ
quotient window (pos zero) = 0
quotient window (pos (suc n)) = window / suc n
quotient window (negsuc n) = 0

unfoldable pub new_keyed_rate_limiter {ℓ} : {L : Type ℓ} → ℤ → ℕ → ℤ → KeyedRateLimiter L
new_keyed_rate_limiter requests window burst =
    let n = requests_or_one requests in
    record { entries = []; interval = quotient window n; burst = clamped_burst n burst }

unfoldable pub new_ip_rate_limiter {ℓ} : {L : Type ℓ} → ℤ → KeyedRateLimiter L
new_ip_rate_limiter requests_per_minute =
    let n = if leb_ℤ requests_per_minute (pos 0) then pos 60 else requests_per_minute in
    new_keyed_rate_limiter n minute n

unfoldable pub cert_issue_burst : ℤ → ℤ
cert_issue_burst limit =
    if leb_ℤ limit (pos 1) then pos 1 else if ltb_ℤ limit (pos 3) then limit else pos 3

module _ {ℓ} {L : Type ℓ} where
  unfoldable pub evict_stale : Time → KeyedRateLimiter L → KeyedRateLimiter L
  evict_stale cutoff l = record l { entries = keep (λ e. not (ltb_ℤ e.last_seen cutoff)) l.entries }

  -- One tick of runCleanup.
  unfoldable pub run_cleanup : Time → KeyedRateLimiter L → KeyedRateLimiter L
  run_cleanup now l = evict_stale (now -ℤ limiter_idle_ttl) l

  abbrev pub has_key : String → LimiterEntry L → Bool
  has_key key e = str_eq e.key key

  -- l.entries[key]
  unfoldable pub entry_for : String → KeyedRateLimiter L → Option (LimiterEntry L)
  entry_for key l = find (has_key key) l.entries

  -- Puts an entry in the map, in place of one with its key.
  unfoldable pub put_entry : LimiterEntry L → KeyedRateLimiter L → KeyedRateLimiter L
  put_entry e l = record l { entries = e ∷ keep (λ x. not (has_key e.key x)) l.entries }

module _ {ℓ} {L : Type ℓ} (new_limiter : ℕ → ℤ → L) (allow_at : Time → L → Bool × L) where
  -- The entry that the section under the mutex leaves: a new bucket, or the old one seen now.
  unfoldable pub seen_entry :
      Time → String → KeyedRateLimiter L → Option (LimiterEntry L) → LimiterEntry L
  seen_entry now key l none = record {
    key = key;
    limiter = new_limiter l.interval l.burst;
    last_seen = now;
  }
  seen_entry now key l (some e) = record e { last_seen = now }

  unfoldable pub allow : Time → String → KeyedRateLimiter L → Bool × KeyedRateLimiter L
  allow now key l =
      let e = seen_entry now key l (entry_for key l) in
      let r = allow_at now e.limiter in (r.0, put_entry (record e { key = key; limiter = r.1 }) l)

  -- What a middleware does: go on, or answer.
  abbrev pub limited : Response → Bool × KeyedRateLimiter L → Option Response × KeyedRateLimiter L
  limited response (true, l) = (none, l)
  limited response (false, l) = (some response, l)

  -- The answer of this one has another shape, {"error": …}, which is not an APIResponse.
  unfoldable pub rate_limit_middleware :
      RateLimitConfig → Time → String → KeyedRateLimiter L → Option Response × KeyedRateLimiter L
  rate_limit_middleware config now ip l =
      if config.enabled
      then limited (respond_error 429 "Rate limit exceeded, please try again later")
          (allow now ip l)
      else (none, l)

  -- The limiter that CertIssueRateLimitMiddleware starts with.
  unfoldable pub cert_issue_limiter : RateLimitConfig → KeyedRateLimiter L
  cert_issue_limiter config =
      let limit = cert_issue_requests_per_hour config in
      new_keyed_rate_limiter limit cert_issue_rate_window (cert_issue_burst limit)

  for_user : Time → KeyedRateLimiter L → Session → Option Response × KeyedRateLimiter L
  for_user now l none = (none, l)
  for_user now l (some user_id) =
      limited (respond_error 429 "Certificate issue rate limit exceeded; please try again later")
        (allow now (format_uint user_id) l)

  unfoldable pub cert_issue_rate_limit_middleware :
      RateLimitConfig → Time → Session → KeyedRateLimiter L → Option Response × KeyedRateLimiter L
  unfolding for_user
  cert_issue_rate_limit_middleware config now session l =
      if cert_issue_rate_limit_enabled config then for_user now l session else (none, l)

-- AuthMiddleware, which ends the request if the session has no `user_id`, and else hands it on. It
-- only asks for nil; a value of a type that GetUserID does not read, which no handler stores, would
-- pass here, and end in `require_user_id`.
unfoldable pub auth_middleware : Session → Response ⊎ ℕ
auth_middleware none = inl respond_need_login
auth_middleware (some user_id) = inr user_id

-- What CORSMiddleware does with a request: the origin that it allows with credentials, and whether
-- it answers 204 itself.
pub record CorsAnswer : Type 0 where
  pub allow_origin : Option String
  pub ends : Bool

unfoldable pub origin_allowed : Bool → List String → String → Bool
origin_allowed dev allowed_origins origin =
    (dev && length allowed_origins == 0)
    || any (λ o. str_eq o origin || str_eq o "*") allowed_origins

unfoldable pub cors_middleware : Bool → List String → String → String → CorsAnswer
cors_middleware dev allowed_origins origin method =
    if str_eq origin "" then record { allow_origin = none; ends = false } else record {
      allow_origin = if origin_allowed dev allowed_origins origin then some origin else none;
      ends = str_eq method "OPTIONS";
    }
