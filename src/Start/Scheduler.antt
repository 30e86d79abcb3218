-- ===== src/Start/Scheduler.antt =====
-- StartRenewalScheduler of controllers/renewal_scheduler.go. Which case of its select runs, and how
-- often, is a list of wakeups; that of a nil channel never does.
pub mod Loop
pub mod Timed
use certhub_server.Common.{Bool, true, false, Option, none, some, List, [], ◌∷◌, if◌then◌else◌}
use certhub_server.Common.Int.{ℤ, pos, leb_ℤ}
use certhub_server.Config.Durations.{
  generating_check_interval_duration, is_renewal_enabled, parsed_or, hour,
}
use certhub_server.System.{Env, Act, pure, fail, when, ◌>>=◌, ◌>>◌}
use certhub_server.Lifecycle.{timeout, run_stuck_generating_cleanup}
use certhub_server.Start.{run_renewal_scan}

pub data Wakeup : Type 0 where
  context_done cleanup_due renewal_due : Wakeup

-- time.NewTicker panics on an interval that is not positive.
pub data SchedulerPanic : Type 0 where
  non_positive_interval : SchedulerPanic

module _ (env : Env) where
  -- The loop, with whether renewalCh is a channel. It also ends where the list of wakeups does.
  unfoldable pub scheduler_loop {ℓ} : {E : Type ℓ} → Bool → List Wakeup → Act E (Unit {0})
  scheduler_loop renewal [] = pure tt
  scheduler_loop renewal (context_done ∷ ws) = pure tt
  scheduler_loop renewal (cleanup_due ∷ ws) = do
    run_stuck_generating_cleanup env (timeout env)
    scheduler_loop renewal ws
  scheduler_loop true (renewal_due ∷ ws) = do run_renewal_scan env; scheduler_loop true ws
  scheduler_loop false (renewal_due ∷ ws) = scheduler_loop false ws

  abbrev pub new_ticker : ℤ → Act SchedulerPanic (Unit {0})
  new_ticker interval = when (leb_ℤ interval (pos 0)) (fail non_positive_interval)

  abbrev pub check_interval : ℤ
  check_interval = parsed_or (pos hour) (env.parse_duration env.config.renewal.check_interval)

  abbrev pub cleanup_interval : ℤ
  cleanup_interval = generating_check_interval_duration env.parse_duration env.config.renewal

  unfoldable pub start_renewal_scheduler : List Wakeup → Act SchedulerPanic (Unit {0})
  start_renewal_scheduler ws = do
    run_stuck_generating_cleanup env (timeout env)
    new_ticker cleanup_interval
    if is_renewal_enabled env.config.renewal
        then (do new_ticker check_interval; run_renewal_scan env; scheduler_loop true ws)
        else scheduler_loop false ws
