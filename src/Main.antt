-- ===== src/Main.antt =====
-- main.go: the order of the startup and of the shutdown. How the HTTP server runs and stops, and
-- whether the jobs end in time, is decided elsewhere: net/http and the environment.
pub mod Shutdown
use certhub_server.Common.{
  ℕ, String, Bool, true, false, Option, none, some, List, str_eq, if◌then◌else◌,
}
use certhub_server.Common.Int.{ℤ}
use certhub_server.Common.Text.{◌+++◌}
use certhub_server.Config.{Config}
use certhub_server.Models.{Bytes}
use certhub_server.Store.{Result, ok, err}
use certhub_server.Registry.{cancel_all_cert_jobs}
use certhub_server.System.{Env, Act, Shared, locked, wait_cert_jobs, registry_is, pure, ◌>>=◌, ◌>>◌}
use certhub_server.Acme.{acme_work_drain_budget}
use certhub_server.Lifecycle.{rollback_all_generating_domains}

-- The address that the server listens on.
unfoldable pub listen_addr : String → String → String
listen_addr addr port = (if str_eq addr "" then ":" else addr +++ ":") +++ port

module _ (env : Env) where
  unfoldable pub cancel_all {ℓ} : {E : Type ℓ} → Act E (Unit {0})
  cancel_all = locked env (λ s. registry_is (cancel_all_cert_jobs s.registry) s)

  -- How long the shutdown waits for the jobs.
  unfoldable pub job_timeout : ℤ
  job_timeout = acme_work_drain_budget env.parse_duration env.config

  -- What main does after srv.Shutdown has returned.
  unfoldable pub shutdown {ℓ} : {E : Type ℓ} → Act E (Unit {0})
  shutdown = do cancel_all; ended ← wait_cert_jobs env; rollback_all_generating_domains env
