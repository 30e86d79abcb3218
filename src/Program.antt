-- ===== src/Program.antt =====
-- What runs in the program and writes rows of domains: the handlers behind routes/routes.go, the
-- goroutine of a job (controllers/certificate.go), and the scheduler and the shutdown of main.go.
pub mod Timed
use certhub_server.Common.{ℕ, String, Bool, Option, ◌⊎◌, List, [], ◌∷◌}
use certhub_server.Models.{Domain, User}
use certhub_server.Store.{DbError}
use certhub_server.System.{Env, World}
use certhub_server.Http.{Web, Session}
use certhub_server.Domains.{DomainInput, add_domain}
use certhub_server.Domains.Requests.{update_domain, delete_domain, verify_cname}
use certhub_server.Start.{cert_job_worker}
use certhub_server.Start.Api.{issue_certificate, generate_certificate, renew_certificate}
use certhub_server.Start.Scheduler.{Wakeup, start_renewal_scheduler}
use certhub_server.Main.{shutdown}

pub data Entry : Type 0 where
  adds : Session → String ⊎ DomainInput → Entry
  updates : Session → String → String ⊎ Option Bool → Entry
  deletes : Session → String → Entry
  verifies : Session → String → Entry
  issues : Session → String → String ⊎ Bool → Entry
  generates : Session → String ⊎ ℕ → Entry
  renews : Session → String ⊎ ℕ → Entry
  works : Domain → User → Bool → Bool → ℕ → Entry
  schedules : List Wakeup → Entry
  shuts_down : Entry

module _ (env : Env) (web : Web) where
  unfoldable pub run_entry : Entry → World → World
  run_entry (adds session input) w = (add_domain env web session input w).1
  run_entry (updates session id input) w = (update_domain env web session id input w).1
  run_entry (deletes session id) w = (delete_domain env web session id w).1
  run_entry (verifies session id) w = (verify_cname env web session id w).1
  run_entry (issues session id input) w = (issue_certificate env web session id input w).1
  run_entry (generates session input) w = (generate_certificate env web session input w).1
  run_entry (renews session input) w = (renew_certificate env web session input w).1
  run_entry (works domain user renew auto token) w =
      (cert_job_worker env {E = DbError} domain user renew auto token w).1
  run_entry (schedules wakeups) w = (start_renewal_scheduler env wakeups w).1
  run_entry shuts_down w = (shutdown env {E = DbError} w).1

  -- One after the other; what runs at the same time is the environment's.
  unfoldable pub run_entries : List Entry → World → World
  run_entries [] w = w
  run_entries (e ∷ es) w = run_entries es (run_entry e w)
