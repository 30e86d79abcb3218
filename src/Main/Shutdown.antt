-- ===== src/Main/Shutdown.antt =====
-- The shutdown of main.go, with the jobs and the domains that it finds.
use Prim.Native.Nat.{ℕ, suc}
use certhub_server.Common.{Bool, true, false, ◌&&◌, List, [], ◌∷◌, ◌≡◌, refl, any}
use certhub_server.Models.{Time, Domain, is_generating, is_live}
use certhub_server.Store.{DbError}
use certhub_server.Registry.{is_cert_job_active, cancel_all_cert_jobs}
use certhub_server.Registry.Cancel.{cancel_all_cert_jobs-stops}
use certhub_server.System.{Env, World, Shared, acts}
use certhub_server.System.Quiet.{IsQuiet}
use certhub_server.System.Keeps.{
  Keeps, Stable, Keeps-bind, Keeps-then, Keeps-catch, Keeps-if, Keeps-pure, Keeps-when,
}
use certhub_server.Lifecycle.{for_each, rollback_stuck_generating, rollback_all_generating_domains}
use certhub_server.Lifecycle.Settled.{DistinctIds}
use certhub_server.Lifecycle.Shutdown.{rollback_all-settles}
use certhub_server.CertJob.Untouched.{
  IgnoresTables, sql-Untouched, has_certificate-Untouched, inflight-Untouched, rollback-Untouched,
}
use certhub_server.Main.{shutdown, cancel_all}

module _ (P : Shared → Type 0) (ignores : IgnoresTables P) (env : Env) (stable : Stable P env) where
  stuck-Untouched :
      (E : Type 0) (d : Domain) (force : Bool)
      → Keeps P (rollback_stuck_generating env {E = E} d force)
  unfolding rollback_stuck_generating
  stuck-Untouched E d force =
      Keeps-bind P _ _
        (Keeps-if P force _ _ (Keeps-pure P E false)
          (inflight-Untouched P ignores env stable E d.id))
        λ busy. Keeps-when P _ _ (
          Keeps-bind P _ _ (has_certificate-Untouched P ignores env stable E d.id)
            λ c. rollback-Untouched P ignores env stable E d.id _ true)

  each-Untouched :
      (ds : List Domain)
      → Keeps P (for_each env {E = DbError} (λ d. rollback_stuck_generating env d true) ds)
  unfolding for_each
  each-Untouched [] = Keeps-pure P DbError tt
  each-Untouched (d ∷ ds) = Keeps-then P _ _ (stuck-Untouched DbError d true) (each-Untouched ds)

  rollback_all-Untouched : (E : Type 0) → Keeps P (rollback_all_generating_domains env {E = E})
  unfolding rollback_all_generating_domains
  rollback_all-Untouched E =
      Keeps-catch P _ _ (Keeps-bind P _ _ (sql-Untouched P ignores env stable _) each-Untouched)
        (λ e. Keeps-pure P E tt)

-- After the shutdown, in a quiet environment and with the keys of the rows distinct: no job of any
-- domain is active, at whatever time, and no live domain is left generating, whether or not
-- the jobs ended before the timeout.
pub shutdown-settles :
    (env : Env) (w : World) (now : Time) (domain_id token : ℕ)
    → IsQuiet env
    → DistinctIds w.shared.db.domains
    → let s = (shutdown env {E = Unit {0}} w).1.shared in
      (is_cert_job_active now domain_id token s.registry ≡ false)
      × (any (λ (d : Domain). is_live d && is_generating d.status) s.db.domains ≡ false)
unfolding shutdown cancel_all acts
shutdown-settles env w now d t q distinct =
    let r = cancel_all_cert_jobs w.shared.registry in
    let v : World = record {
      shared = record (w.shared) { registry = r };
      event = suc (suc w.event);
    } in
    let same =
      rollback_all-Untouched (λ s. s.registry ≡ r) (λ s db h. h) env (λ k s h. rw (q.alone k s) h)
        (Unit {0}) v refl in
    simp q.alone (
      rw same (cancel_all_cert_jobs-stops now d t w.shared.registry).0,
      rollback_all-settles (Unit {0}) env v q distinct,
    )
