-- ===== src/Config/Durations.antt =====
-- The accessors of config/config.go that turn settings into switches, limits and durations.
-- A duration is a number of nanoseconds, an `int64`. time.ParseDuration enters as the function
-- `parse_duration`, with `none` for its error.
use Prim.Native.Nat.{ℕ, zero, suc, ◌*◌}
use certhub_server.Common.{
  String, Bool, true, false, Option, none, some, str_eq, if◌then◌else◌, not,
}
use certhub_server.Common.Int.{ℤ, pos, negsuc, ltb_ℤ, leb_ℤ, ◌+ℤ◌, int64}
use certhub_server.Config.{
  AuthConfig, RenewalConfig, DeployConfig, DnsConfig, DomainConfig, RateLimitConfig,
}

abbrev pub second : ℕ
second = 1_000_000_000

abbrev pub minute : ℕ
minute = 60 * second

abbrev pub hour : ℕ
hour = 60 * minute

-- The value behind a pointer to a boolean, or what stands for nil.
bool_or : Bool → Option Bool → Bool
bool_or default none = default
bool_or default (some b) = b

unfoldable pub is_registration_enabled : AuthConfig → Bool
unfolding bool_or
is_registration_enabled a = bool_or false a.registration_enabled

unfoldable pub is_renewal_enabled : RenewalConfig → Bool
unfolding bool_or
is_renewal_enabled r = bool_or true r.enabled

unfoldable pub is_deploy_enabled : DeployConfig → Bool
unfolding bool_or
is_deploy_enabled d = bool_or false d.enabled

unfoldable pub max_concurrent_cert_jobs : RenewalConfig → ℤ
max_concurrent_cert_jobs r =
    if leb_ℤ r.max_concurrent_jobs (pos 0) then pos 5 else r.max_concurrent_jobs

per_hour : ℤ → ℤ
per_hour (negsuc n) = pos 0
per_hour (pos zero) = pos 10
per_hour (pos (suc n)) = pos (suc n)

unfoldable pub cert_issue_requests_per_hour : RateLimitConfig → ℤ
unfolding per_hour
cert_issue_requests_per_hour r = per_hour r.cert_issue_per_hour

-- `limit != -1`
is_minus_one : ℤ → Bool
is_minus_one (negsuc zero) = true
is_minus_one _ = false

unfoldable pub cert_issue_rate_limit_enabled : RateLimitConfig → Bool
unfolding is_minus_one
cert_issue_rate_limit_enabled r = not (is_minus_one r.cert_issue_per_hour)

-- One round of the loop of AutoRenewBackoffDuration for each of the `rounds` left; the doubling
-- wraps around as `int64` does.
unfoldable pub backoff_loop : ℕ → ℤ → ℤ → ℤ
backoff_loop zero max backoff = if ltb_ℤ max backoff then max else backoff
backoff_loop (suc rounds) max backoff =
    let rest = backoff_loop rounds max (int64 (backoff +ℤ backoff)) in
    if leb_ℤ max backoff then max else rest

-- How often `for i := 1; i < failures; i++` goes round.
unfoldable pub rounds_of : ℤ → ℕ
rounds_of (negsuc n) = 0
rounds_of (pos zero) = 0
rounds_of (pos (suc n)) = n

unfoldable pub parsed_or : ℤ → Option ℤ → ℤ
parsed_or fallback none = fallback
parsed_or fallback (some d) = d

module _ (parse_duration : String → Option ℤ) where
  unfoldable pub parse_duration_default : String → ℤ → ℤ
  unfolding parsed_or
  parse_duration_default value fallback =
      if str_eq value "" then fallback else parsed_or fallback (parse_duration value)

  unfoldable pub generating_timeout_duration : RenewalConfig → ℤ
  generating_timeout_duration r = parse_duration_default r.generating_timeout (pos (15 * minute))

  unfoldable pub generating_check_interval_duration : RenewalConfig → ℤ
  generating_check_interval_duration r =
      parse_duration_default r.generating_check_interval (pos (5 * minute))

  unfoldable pub auto_renew_backoff_duration : RenewalConfig → ℤ → ℤ
  unfolding backoff_loop rounds_of
  auto_renew_backoff_duration r consecutive_failures =
      let base = parse_duration_default r.renew_backoff_base (pos (6 * hour)) in
      let max = parse_duration_default r.renew_backoff_max (pos (72 * hour)) in
      backoff_loop (rounds_of consecutive_failures) max base

  unfoldable pub propagation_timeout_duration : DnsConfig → ℤ
  propagation_timeout_duration d = parse_duration_default d.propagation_timeout (pos (5 * minute))

  unfoldable pub propagation_interval_duration : DnsConfig → ℤ
  propagation_interval_duration d = parse_duration_default d.propagation_interval (pos (2 * second))

  unfoldable pub unclaimed_error_release_duration : DomainConfig → ℤ
  unclaimed_error_release_duration d =
      parse_duration_default d.unclaimed_error_release (pos (72 * hour))
