-- ===== src/Start/Scheduler/Loop.antt =====
-- How the scheduler of controllers/renewal_scheduler.go starts and stops.
use certhub_server.Common.{
  Bool, true, false, not, List, [], ◌∷◌, ◌++◌, ◌≡◌, ◌↔◌, refl, ◌&&◌, ◌||◌, arith, if◌then◌else◌,
  Bool-cases, inl, inr,
}
use certhub_server.Common.Int.{ℤ, pos, leb_ℤ}
use certhub_server.Config.Durations.{is_renewal_enabled}
use certhub_server.Store.{Result, ok, err}
use certhub_server.System.{Env, Act, World, acts, and_then, ◌>>◌}
use certhub_server.Lifecycle.{run_stuck_generating_cleanup, timeout}
use certhub_server.Lifecycle.Shutdown.{catch-pure-ok}
use certhub_server.Start.{run_renewal_scan}
use certhub_server.Start.Scheduler.{
  Wakeup, context_done, cleanup_due, renewal_due, SchedulerPanic, non_positive_interval,
  scheduler_loop, start_renewal_scheduler, check_interval, cleanup_interval, new_ticker,
}

after-Equal {ℓ} :
    {E : Type ℓ} (m k l : Act E (Unit {0}))
    → ((v : World) → k v ≡ l v)
    → (w : World) → (m >> k) w ≡ (m >> l) w
unfolding ◌>>◌
after-Equal {E} m k l same w = go (m w)
  where
    go : (r : Result E (Unit {0}) × World) → and_then r (λ _. k) ≡ and_then r (λ _. l)
    go (ok a, v) = same v
    go (err e, v) = refl

-- Once its context is done the scheduler returns: what would have come afterwards is never run.
pub scheduler_loop-stops :
    (env : Env) (renewal : Bool) (before later : List Wakeup) (w : World)
    → scheduler_loop env {E = SchedulerPanic} renewal (before ++ context_done ∷ later) w
      ≡ scheduler_loop env renewal before w
unfolding scheduler_loop
scheduler_loop-stops env renewal [] later w = refl
scheduler_loop-stops env renewal (context_done ∷ ws) later w = refl
scheduler_loop-stops env renewal (cleanup_due ∷ ws) later w =
    after-Equal (run_stuck_generating_cleanup env (timeout env)) _ _
      (scheduler_loop-stops env renewal ws later) w
scheduler_loop-stops env true (renewal_due ∷ ws) later w =
    after-Equal (run_renewal_scan env) _ _ (scheduler_loop-stops env true ws later) w
scheduler_loop-stops env false (renewal_due ∷ ws) later w =
    scheduler_loop-stops env false ws later w

-- An action that never fails.
abbrev NeverFails {ℓ} : {E : Type ℓ} → Act E (Unit {0}) → Type ℓ
NeverFails m = (w : World) → (m w).0 ≡ ok tt

-- After an action that never fails the rest decides.
then-value {ℓ} :
    {E : Type ℓ} (m k : Act E (Unit {0})) (r : Result E (Unit {0}))
    → NeverFails m
    → ((w : World) → (k w).0 ≡ r)
    → (w : World) → ((m >> k) w).0 ≡ r
unfolding ◌>>◌
then-value {E} m k r hm hk w = go (m w) (hm w)
  where
    go : (q : Result E (Unit {0}) × World) → q.0 ≡ ok tt → (and_then q (λ _. k)).0 ≡ r
    go (ok a, v) h = hk v
    go (err e, v) h = absurd (ground arith)

ticker-value :
    (env : Env) (interval : ℤ) (k : Act SchedulerPanic (Unit {0}))
    (r : Result SchedulerPanic (Unit {0}))
    → ((w : World) → (k w).0 ≡ r)
    → (w : World)
    → ((new_ticker env interval >> k) w).0
      ≡ (if leb_ℤ interval (pos 0) then err non_positive_interval else r)
unfolding acts
ticker-value env interval k r hk w = elim (Bool-cases (leb_ℤ interval (pos 0))) [
  | inl bad ↦ rw bad refl
  | inr good ↦ rw good (hk w)
]

cleanup-NeverFails :
    (env : Env) → NeverFails {E = SchedulerPanic} (run_stuck_generating_cleanup env (timeout env))
unfolding run_stuck_generating_cleanup
cleanup-NeverFails env w = catch-pure-ok SchedulerPanic _ w

scan-NeverFails : (env : Env) → NeverFails {E = SchedulerPanic} (run_renewal_scan env)
unfolding run_renewal_scan
scan-NeverFails env w = catch-pure-ok SchedulerPanic _ w

loop-NeverFails :
    (env : Env) (renewal : Bool) (ws : List Wakeup)
    → NeverFails {E = SchedulerPanic} (scheduler_loop env renewal ws)
unfolding scheduler_loop acts
loop-NeverFails env renewal [] w = refl
loop-NeverFails env renewal (context_done ∷ ws) w = refl
loop-NeverFails env renewal (cleanup_due ∷ ws) w =
    then-value (run_stuck_generating_cleanup env (timeout env)) (scheduler_loop env renewal ws)
      (ok tt) (cleanup-NeverFails env) (loop-NeverFails env renewal ws) w
loop-NeverFails env true (renewal_due ∷ ws) w =
    then-value (run_renewal_scan env) (scheduler_loop env true ws) (ok tt) (scan-NeverFails env)
      (loop-NeverFails env true ws) w
loop-NeverFails env false (renewal_due ∷ ws) w = loop-NeverFails env false ws w

-- An interval that a ticker can have.
abbrev pub is_positive : ℤ → Bool
is_positive d = not (leb_ℤ d (pos 0))

started :
    (env : Env) (ws : List Wakeup) (w : World)
    → (start_renewal_scheduler env ws w).0 ≡ (
        if leb_ℤ (cleanup_interval env) (pos 0)
        then err non_positive_interval
        else if is_renewal_enabled env.config.renewal && leb_ℤ (check_interval env) (pos 0)
        then err non_positive_interval
        else ok tt)
unfolding start_renewal_scheduler
started env ws w = elim (Bool-cases (is_renewal_enabled env.config.renewal)) [
  | inl on ↦ rw on (
      then-value _ _ _ (cleanup-NeverFails env)
        (ticker-value env (cleanup_interval env) _ _ (
          ticker-value env (check_interval env) _ _ (
            then-value (run_renewal_scan env) (scheduler_loop env true ws) (ok tt)
              (scan-NeverFails env) (loop-NeverFails env true ws))))
        w)
  | inr off ↦ rw off (
      then-value _ _ _ (cleanup-NeverFails env)
        (ticker-value env (cleanup_interval env) _ _ (loop-NeverFails env false ws)) w)
]

-- The scheduler runs without a panic, whatever happens, just when its configuration has a positive
-- interval for the cleanup and, if renewal is enabled, for the scans.
pub start_renewal_scheduler_iff :
    (env : Env) (ws : List Wakeup) (w : World)
    → ((start_renewal_scheduler env ws w).0 ≡ ok tt) ↔ (
        (is_positive (cleanup_interval env)
          && (not (is_renewal_enabled env.config.renewal) || is_positive (check_interval env)))
        ≡ true)
start_renewal_scheduler_iff env ws w = ground (arith, started env ws w)
