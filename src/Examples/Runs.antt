-- ===== src/Examples/Runs.antt =====
-- Tests of workers, the scheduler, the shutdown and the routes.
use certhub_server.Common.{
  count, ℕ, List, inr, true, false, not, ◌&&◌, ◌||◌, some, [], ◌∷◌, ◌++◌, ◌≡◌, ◌↔◌, refl, any, find,
  is_none, str_eq,
}
use certhub_server.Common.Int.{pos}
use certhub_server.Config.Durations.{is_renewal_enabled}
use certhub_server.Models.{generating, active, pending, Domain, is_live, is_generating}
use certhub_server.Store.{ok}
use certhub_server.Registry.{
  Entry as JobEntry, owns, entry_of, is_cert_job_active, try_acquire_cert_job_slot,
  cert_job_slots_ch, register_job, next_token,
}
use certhub_server.Registry.Workers.{
  Pool, pool, Reach, admits, registers, no_jobs, at, working, add_job, begin_domain_worker,
  cert_jobs_ended, domain_worker_ended, here, next, starts, begins,
}
use certhub_server.Registry.Workers.Holding.{
  is_counted, works_for, waits_to_start, waits_with_entry,
}
use certhub_server.Registry.Workers.Waits.{Reach-waits}
use certhub_server.Lifecycle.Timed.{IsTimed}
use certhub_server.Start.{cert_job_worker}
use certhub_server.Start.Worker.{cert_job_worker-releases}
use certhub_server.Start.Scheduler.{
  scheduler_loop, start_renewal_scheduler, context_done, cleanup_due, renewal_due, SchedulerPanic,
  cleanup_interval, check_interval,
}
use certhub_server.Start.Scheduler.Loop.{
  is_positive, scheduler_loop-stops, start_renewal_scheduler_iff,
}
use certhub_server.System.{World}
use certhub_server.Program.{Entry, adds, verifies, issues, schedules, shuts_down, run_entries}
use certhub_server.Program.Timed.{run_entries-IsTimed}
use certhub_server.Main.{shutdown}
use certhub_server.Main.Shutdown.{shutdown-settles}
use certhub_server.Routes.{Route, Request, get_profile, reached, run_chain, setup_router, passes}
use certhub_server.Routes.Guarded.{is_public, issues as asks_to_issue, reached-guarded}
use certhub_server.RateLimit.{auth_middleware}
use certhub_server.Examples.{quiet_env, test_web, quiet, row, owner, tables, world, idle}

cert_job_worker-releases_example :
    (owns 1 (
        entry_of 1
          (cert_job_worker quiet_env {E = Unit {0}}
            (row generating)
            owner
            false
            false
            1
            (world (tables generating []))).1.shared.registry)
      ≡ false)
    × ((cert_job_worker quiet_env {E = Unit {0}}
          (row generating)
          owner
          false
          false
          1
          (world (tables generating []))).1.shared.slots.taken
        ≡ 4)
cert_job_worker-releases_example =
    cert_job_worker-releases quiet_env (row generating) owner false false 1 4
      (world (tables generating [])) refl (λ k s. refl)

shutdown-settles_example :
    (is_cert_job_active
        (pos 5)
        1
        1
        (shutdown quiet_env {E = Unit {0}} (world (tables generating []))).1.shared.registry
      ≡ false)
    × (any
          (λ (d : Domain). is_live d && is_generating d.status)
          (shutdown quiet_env {E = Unit {0}} (world (tables generating []))).1.shared.db.domains
        ≡ false)
shutdown-settles_example =
    shutdown-settles quiet_env (world (tables generating [])) (pos 5) 1 1 quiet (tt, tt)

-- A job that got a slot, was registered with token 1, and whose goroutine has begun.
abbrev one_worker : Pool
one_worker =
    pool (begin_domain_worker 1 (add_job no_jobs.workers))
      (try_acquire_cert_job_slot (pos 5) no_jobs.slots).1
      (register_job (pos 0) (pos 90) 1 no_jobs.registry) (at 1 1 working ∷ [])

one_worker-Reach : Reach (pos 5) no_jobs one_worker
unfolding try_acquire_cert_job_slot cert_job_slots_ch next_token
one_worker-Reach =
    let ws = no_jobs.workers in
    let s = (try_acquire_cert_job_slot (pos 5) no_jobs.slots).1 in
    let r = register_job (pos 0) (pos 90) 1 no_jobs.registry in
    next
      (next
        (next (next here (admits 1 ws no_jobs.slots no_jobs.registry [] refl))
          (registers 1 0 (pos 0) (pos 90) ws s no_jobs.registry [] []))
        (starts 1 1 ws s r [] []))
      (begins 1 1 (add_job ws) s r [] [])

Reach-waits_example :
    ((cert_jobs_ended one_worker.workers ≡ true) ↔ (any is_counted one_worker.jobs ≡ false))
    × (cert_jobs_ended one_worker.workers ≡ true
        → (one_worker.slots.taken ≡ count waits_to_start one_worker.jobs)
          × ((k : ℕ) (e : JobEntry)
              → entry_of k one_worker.registry ≡ some e
              → any (waits_with_entry k e.token) one_worker.jobs ≡ true))
    × ((d : ℕ)
        → (domain_worker_ended d one_worker.workers.trackers ≡ true)
          ↔ (any (works_for d) one_worker.jobs ≡ false))
Reach-waits_example = Reach-waits (pos 5) one_worker one_worker-Reach

scheduler_loop-stops_example :
    scheduler_loop quiet_env {E = SchedulerPanic} true
      ((cleanup_due ∷ []) ++ context_done ∷ renewal_due ∷ [])
      (world (tables generating []))
    ≡ scheduler_loop quiet_env true (cleanup_due ∷ []) (world (tables generating []))
scheduler_loop-stops_example =
    scheduler_loop-stops quiet_env true (cleanup_due ∷ []) (renewal_due ∷ [])
      (world (tables generating []))

start_renewal_scheduler_iff_example :
    ((start_renewal_scheduler quiet_env (renewal_due ∷ []) (world (tables active []))).0 ≡ ok tt)
    ↔ ((is_positive (cleanup_interval quiet_env)
          && (not (is_renewal_enabled quiet_env.config.renewal)
              || is_positive (check_interval quiet_env)))
        ≡ true)
start_renewal_scheduler_iff_example =
    start_renewal_scheduler_iff quiet_env (renewal_due ∷ []) (world (tables active []))

abbrev entries : List Entry
entries =
    adds (some 7) (inr (record { name = "example.com"; domain = "" }))
    ∷ verifies (some 7) "9"
    ∷ issues (some 7) "9" (inr false)
    ∷ schedules (cleanup_due ∷ renewal_due ∷ [])
    ∷ shuts_down
    ∷ []

abbrev no_domains : World
no_domains = idle (record (tables pending []) { domains = [] })

run_entries-IsTimed_example : IsTimed (run_entries quiet_env test_web entries no_domains).shared
run_entries-IsTimed_example =
    run_entries-IsTimed quiet_env test_web (λ n s h. h) entries no_domains refl

abbrev at_profile : Route → certhub_server.Common.Bool
at_profile r = str_eq r.path "/api/profile"

abbrev logged_in : Request
logged_in = record {
  within_rate = true;
  preflight = false;
  session = some 7;
  within_issue_rate = false;
}

reached-guarded_example :
    ((is_public get_profile || not (is_none logged_in.session)) ≡ true)
    × ((not (asks_to_issue get_profile) || logged_in.within_issue_rate) ≡ true)
unfolding reached run_chain setup_router passes find auth_middleware
reached-guarded_example = reached-guarded at_profile logged_in get_profile refl
