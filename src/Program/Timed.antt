-- ===== src/Program/Timed.antt =====
-- The column generating_since over the whole program (controllers/*.go and main.go).
use certhub_server.Common.{true, List, [], ◌∷◌, ◌≡◌}
use certhub_server.Store.{DbError, find_domains}
use certhub_server.System.{Env, World, wait_cert_jobs}
use certhub_server.System.Keeps.{
  Keeps, Stable, Keeps-bind, Keeps-then, Keeps-catch, Keeps-pure, Keeps-exec, Keeps-locked,
}
use certhub_server.Lifecycle.{rollback_all_generating_domains}
use certhub_server.Lifecycle.Timed.{IsTimed, stuck-IsTimed, for_each-IsTimed}
use certhub_server.Http.{Web}
use certhub_server.Domains.Timed.{
  add_domain-IsTimed, update_domain-IsTimed, delete_domain-IsTimed, verify_cname-IsTimed,
}
use certhub_server.Start.Timed.{worker-IsTimed, issue-IsTimed, generate-IsTimed, renew-IsTimed}
use certhub_server.Start.Scheduler.Timed.{scheduler-IsTimed}
use certhub_server.Main.{cancel_all, shutdown}
use certhub_server.Program.{
  Entry, adds, updates, deletes, verifies, issues, generates, renews, works, schedules, shuts_down,
  run_entry, run_entries,
}

module _ (env : Env) (web : Web) (stable : Stable IsTimed env) where
  shutdown-IsTimed : Keeps IsTimed (shutdown env {E = DbError})
  unfolding shutdown cancel_all wait_cert_jobs rollback_all_generating_domains find_domains
  shutdown-IsTimed = Keeps-then IsTimed _ _ (Keeps-locked IsTimed env stable DbError _ (λ s h. h)) (
      Keeps-bind IsTimed (wait_cert_jobs env {E = DbError}) _ (λ w h. stable w.event w.shared h)
        λ ended.
          Keeps-catch IsTimed _ _
            (Keeps-bind IsTimed _ _ (Keeps-exec IsTimed env stable (find_domains _) (λ s h. h))
              λ ds. for_each-IsTimed env stable _ ds (λ d. stuck-IsTimed env stable DbError d true))
            (λ e. Keeps-pure IsTimed DbError tt))

  run_entry-IsTimed :
      (e : Entry) (w : World) → IsTimed w.shared → IsTimed (run_entry env web e w).shared
  unfolding run_entry
  run_entry-IsTimed (adds session input) = add_domain-IsTimed env stable web session input
  run_entry-IsTimed (updates session id input) =
      update_domain-IsTimed env stable web session id input
  run_entry-IsTimed (deletes session id) = delete_domain-IsTimed env stable web session id
  run_entry-IsTimed (verifies session id) = verify_cname-IsTimed env stable web session id
  run_entry-IsTimed (issues session id input) = issue-IsTimed env stable web session id input
  run_entry-IsTimed (generates session input) = generate-IsTimed env stable web session input
  run_entry-IsTimed (renews session input) = renew-IsTimed env stable web session input
  run_entry-IsTimed (works domain user renew auto token) =
      worker-IsTimed env stable DbError domain user renew auto token
  run_entry-IsTimed (schedules wakeups) = scheduler-IsTimed env stable wakeups
  run_entry-IsTimed shuts_down = shutdown-IsTimed

  -- From a table without domains on, over any sequence of the handlers that write domains, of jobs,
  -- of wakeups of the scheduler and of shutdowns, however each ends: every row that is generating
  -- has the time since when, while the other goroutines keep it so.
  pub run_entries-IsTimed :
      (entries : List Entry) (w : World)
      → w.shared.db.domains ≡ []
      → IsTimed (run_entries env web entries w).shared
  unfolding run_entries
  run_entries-IsTimed entries w empty = go entries w (rw empty tt)
    where
      go :
          (es : List Entry) (v : World)
          → IsTimed v.shared
          → IsTimed (run_entries env web es v).shared
      go [] v h = h
      go (e ∷ es) v h = go es (run_entry env web e v) (run_entry-IsTimed e v h)
