-- ===== src/Start/Scheduler/Timed.antt =====
-- The scheduler of controllers/renewal_scheduler.go and the column generating_since.
use certhub_server.Common.{Bool, true, false, List, [], ◌∷◌}
use certhub_server.Config.Durations.{is_renewal_enabled}
use certhub_server.Models.{Domain, Certificate}
use certhub_server.Store.{DbError, find_certificates}
use certhub_server.System.{Env, World}
use certhub_server.System.Keeps.{
  Keeps, Stable, Keeps-bind, Keeps-then, Keeps-catch, Keeps-if, Keeps-pure, Keeps-fail, Keeps-when,
  Keeps-attempt, Keeps-now, Keeps-exec,
}
use certhub_server.Lifecycle.Timed.{
  IsTimed, cleanup-IsTimed, lock-IsTimed, for_each-IsTimed, first_domain-IsTimed,
}
use certhub_server.CertJob.Writes.{verify-IsTimed}
use certhub_server.Start.Timed.{slot-IsTimed, start-IsTimed}
use certhub_server.Start.{try_auto_renew_domain, renew_candidate, run_renewal_scan}
use certhub_server.Start.Scheduler.{
  Wakeup, context_done, cleanup_due, renewal_due, SchedulerPanic, non_positive_interval,
  scheduler_loop, start_renewal_scheduler,
}

module _ (env : Env) (stable : Stable IsTimed env) where
  try-IsTimed : (domain : Domain) → Keeps IsTimed (try_auto_renew_domain env {E = Unit {0}} domain)
  unfolding try_auto_renew_domain
  try-IsTimed domain =
      Keeps-catch IsTimed _ _
        (Keeps-then IsTimed _ _ (Keeps-when IsTimed _ _ (Keeps-fail IsTimed _ tt)) (
          Keeps-then IsTimed _ _ (Keeps-when IsTimed _ _ (Keeps-fail IsTimed _ tt)) (
            Keeps-bind IsTimed _ _ (Keeps-now IsTimed env stable (Unit {0})) λ t.
              Keeps-then IsTimed _ _ (Keeps-when IsTimed _ _ (Keeps-fail IsTimed _ tt)) (
                Keeps-then IsTimed _ _ (Keeps-when IsTimed _ _ (Keeps-fail IsTimed _ tt)) (
                  Keeps-then IsTimed _ _
                    (Keeps-catch IsTimed _ _
                      (verify-IsTimed env stable domain.domain domain.cname_target)
                      (λ text. Keeps-fail IsTimed _ tt))
                    (Keeps-bind IsTimed _ _
                      (Keeps-catch IsTimed _ _ (lock-IsTimed env stable domain true)
                        (λ e. Keeps-fail IsTimed _ tt))
                      λ user. Keeps-then IsTimed _ _ (slot-IsTimed env stable domain.id tt) (
                        Keeps-bind IsTimed _ _ (start-IsTimed env stable (Unit {0}) domain)
                          λ token. Keeps-pure IsTimed (Unit {0}) _)))))))
        (λ u. Keeps-pure IsTimed (Unit {0}) _)

  candidate-IsTimed : (cert : Certificate) → Keeps IsTimed (renew_candidate env {E = DbError} cert)
  unfolding renew_candidate
  candidate-IsTimed cert =
      Keeps-catch IsTimed _ _
        (Keeps-bind IsTimed _ _ (first_domain-IsTimed env stable _)
          λ domain. Keeps-attempt IsTimed DbError _ (try-IsTimed domain))
        (λ e. Keeps-pure IsTimed DbError tt)

  scan-IsTimed {ℓ} : (E : Type ℓ) → Keeps IsTimed (run_renewal_scan env {E = E})
  unfolding run_renewal_scan find_certificates
  scan-IsTimed E =
      Keeps-catch IsTimed _ _
        (Keeps-bind IsTimed _ _ (Keeps-now IsTimed env stable DbError) λ t.
          Keeps-bind IsTimed _ _ (Keeps-exec IsTimed env stable (find_certificates _) (λ s h. h))
            λ certs. for_each-IsTimed env stable _ certs candidate-IsTimed)
        (λ e. Keeps-pure IsTimed E tt)

  loop-IsTimed :
      (renewal : Bool) (ws : List Wakeup)
      → Keeps IsTimed (scheduler_loop env {E = SchedulerPanic} renewal ws)
  unfolding scheduler_loop
  loop-IsTimed renewal [] = Keeps-pure IsTimed SchedulerPanic tt
  loop-IsTimed renewal (context_done ∷ ws) = Keeps-pure IsTimed SchedulerPanic tt
  loop-IsTimed renewal (cleanup_due ∷ ws) =
      Keeps-then IsTimed _ _ (cleanup-IsTimed env stable SchedulerPanic _) (loop-IsTimed renewal ws)
  loop-IsTimed true (renewal_due ∷ ws) =
      Keeps-then IsTimed _ _ (scan-IsTimed SchedulerPanic) (loop-IsTimed true ws)
  loop-IsTimed false (renewal_due ∷ ws) = loop-IsTimed false ws

  -- If the other goroutines keep it so, then at any wakeup of the scheduler, over any sequence of
  -- scans and cleanups and also if it panics at its start, every row that is generating has the
  -- time since when.
  pub scheduler-IsTimed :
      (ws : List Wakeup) (w : World)
      → IsTimed w.shared
      → IsTimed (start_renewal_scheduler env ws w).1.shared
  unfolding start_renewal_scheduler
  scheduler-IsTimed ws = Keeps-then IsTimed _ _ (cleanup-IsTimed env stable SchedulerPanic _) (
      Keeps-then IsTimed _ _ (Keeps-when IsTimed _ _ (Keeps-fail IsTimed _ non_positive_interval)) (
        Keeps-if IsTimed (is_renewal_enabled env.config.renewal) _ _
          (Keeps-then IsTimed _ _
            (Keeps-when IsTimed _ _ (Keeps-fail IsTimed _ non_positive_interval))
            (Keeps-then IsTimed _ _ (scan-IsTimed SchedulerPanic) (loop-IsTimed true ws)))
          (loop-IsTimed false ws)))
