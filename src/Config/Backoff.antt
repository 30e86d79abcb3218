-- ===== src/Config/Backoff.antt =====
-- The delay between automatic renewals (AutoRenewBackoffDuration of config/config.go).
use Prim.Native.Nat.{ℕ, zero, suc, min, ◌+◌, ◌*◌, ◌^◌, ◌≤◌, ◌<◌}
use native.Mathlib.Nat.{pow-zero, two-pow-succ, one-le-pow}
use certhub_server.Common.{String, ◌≡◌, Option, arith, inl, inr, Bool-cases, if◌then◌else◌}
use certhub_server.Common.Int.{ℤ, pos, leb_ℤ, ◌+ℤ◌, int64}
use certhub_server.Config.{RenewalConfig}
use certhub_server.Config.Durations.{
  backoff_loop, auto_renew_backoff_duration, parse_duration_default, hour,
}

-- Below 2^62 the doubling does not wrap.
int64-double : (b : ℕ) → b < 2 ^ 62 → int64 (pos b +ℤ pos b) ≡ pos (2 * b)
unfolding int64 ◌+ℤ◌
int64-double b h = ground arith

backoff_loop_step :
    (m b p r : ℕ) (rest : ℤ)
    → 1 ≤ p
    → r ≡ p + p
    → (b < m → rest ≡ pos (min m (2 * b * p)))
    → (if leb_ℤ (pos m) (pos b) then pos m else rest) ≡ pos (min m (b * r))
backoff_loop_step m b p r rest one e rec = elim (Bool-cases (leb_ℤ (pos m) (pos b))) [
  | inl over ↦ rw (over, e) (let h : m ≤ b * p + b * p = grind arith in grind arith)
  | inr under ↦ rw (under, e) (let h : b < m = ground arith in rw (rec h) (ground arith))
]

-- The loop doubles until it meets the cap; below 2^62 no doubling wraps around.
backoff_loop_lem :
    (k m b : ℕ) → m ≤ 2 ^ 62 → backoff_loop k (pos m) (pos b) ≡ pos (min m (b * 2 ^ k))
unfolding backoff_loop
backoff_loop_lem zero m b h = ground (arith, pow-zero 2)
backoff_loop_lem (suc k) m b h =
    backoff_loop_step m b (2 ^ k) (2 ^ suc k) _ (one-le-pow k 2 (omega arith)) (two-pow-succ k)
      (λ under. rw (int64-double b (omega arith)) (backoff_loop_lem k m (2 * b) h))

module _ (parse_duration : String → Option ℤ) (r : RenewalConfig) (failures base max : ℕ) where
  -- With a base delay and a cap that are not negative, the cap at most 2^62 ns, the delay after
  -- `failures + 1` failures is the base doubled `failures` times, or the cap if that is less;
  -- no doubling wraps around.
  pub auto_renew_backoff_duration-doubles :
      parse_duration_default parse_duration r.renew_backoff_base (pos (6 * hour)) ≡ pos base
      → parse_duration_default parse_duration r.renew_backoff_max (pos (72 * hour)) ≡ pos max
      → max ≤ 2 ^ 62
      → auto_renew_backoff_duration parse_duration r (pos (suc failures))
        ≡ pos (min max (base * 2 ^ failures))
  unfolding auto_renew_backoff_duration
  auto_renew_backoff_duration-doubles eb em h = rw (eb, em) (backoff_loop_lem failures max base h)
