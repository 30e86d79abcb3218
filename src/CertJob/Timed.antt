-- ===== src/CertJob/Timed.antt =====
-- runCertJob (controllers/certificate.go) and the column generating_since.
use Prim.Native.Nat.{ℕ}
use certhub_server.Common.{String, Bool, true, Option, none, some, ◌⊎◌, inl, inr, str_eq}
use certhub_server.Models.{Domain, User, Certificate, Time, Bytes}
use certhub_server.Store.{DbError, Result, ok, err}
use certhub_server.System.{
  Env, World, CertResource, AcmeOutcome, issued, cancelled, refused, panicked,
}
use certhub_server.System.Keeps.{
  Keeps, Stable, Keeps-bind, Keeps-if, Keeps-pure, Keeps-when, Keeps-now, Keeps-outcome, Keeps-acme,
  Keeps-seal,
}
use certhub_server.Lifecycle.Timed.{IsTimed, inflight-IsTimed, rollback-IsTimed}
use certhub_server.CertJob.{
  fail_cert_job_if_active, rollback_cancelled_cert_job, report_saved, save_encrypted,
  finish_cert_job, conclude_cert_job, renew_with, request_certificate, continue_verified,
  run_cert_job,
}
use certhub_server.CertJob.Writes.{
  first_certificate-IsTimed, fail-IsTimed, active-IsTimed, context-IsTimed, verify-IsTimed,
  save-IsTimed,
}

module _ (env : Env) (domain : Domain) (user : User) (renew auto : Bool) (token : ℕ)
    (stable : Stable IsTimed env) where
  give_up-IsTimed :
      (message : String)
      → Keeps IsTimed (fail_cert_job_if_active env {E = Unit {0}} domain.id token message auto)
  unfolding fail_cert_job_if_active
  give_up-IsTimed message =
      Keeps-bind IsTimed _ _ (active-IsTimed env stable (Unit {0}) domain.id token) λ alive.
        Keeps-when IsTimed alive _ (fail-IsTimed env stable (Unit {0}) domain.id message auto)

  roll_back-IsTimed :
      Keeps IsTimed (rollback_cancelled_cert_job env {E = Unit {0}} domain.id token auto)
  unfolding rollback_cancelled_cert_job
  roll_back-IsTimed =
      Keeps-bind IsTimed _ _ (active-IsTimed env stable (Unit {0}) domain.id token) λ alive.
        Keeps-when IsTimed _ _ (
          Keeps-bind IsTimed _ _ (inflight-IsTimed env stable (Unit {0}) domain.id) λ busy.
            Keeps-when IsTimed _ _ (rollback-IsTimed env stable (Unit {0}) domain.id _ true))

  report-IsTimed :
      (r : Result DbError ℕ) → Keeps IsTimed (report_saved env domain user renew auto token r)
  unfolding report_saved
  report-IsTimed (ok n) = Keeps-pure IsTimed _ tt
  report-IsTimed (err e) = give_up-IsTimed _

  encrypted-IsTimed :
      (t : Time) (certs : CertResource) (key : Option Bytes)
      → Keeps IsTimed (save_encrypted env domain user renew auto token t certs key)
  unfolding save_encrypted
  encrypted-IsTimed t certs none = give_up-IsTimed _
  encrypted-IsTimed t certs (some key) =
      Keeps-bind IsTimed _ _
        (Keeps-outcome IsTimed (Unit {0}) _ (save-IsTimed env domain.id _ stable)) report-IsTimed

  finish-IsTimed :
      (certs : CertResource)
      → Keeps IsTimed (finish_cert_job env domain user renew auto token certs)
  unfolding finish_cert_job
  finish-IsTimed certs =
      Keeps-bind IsTimed _ _ (context-IsTimed env stable (Unit {0}) token) λ gone.
        Keeps-if IsTimed gone _ _ roll_back-IsTimed (
          Keeps-bind IsTimed _ _ (active-IsTimed env stable (Unit {0}) domain.id token) λ alive.
            Keeps-when IsTimed alive _ (
              Keeps-bind IsTimed _ _ (Keeps-now IsTimed env stable (Unit {0})) λ t.
                Keeps-bind IsTimed _ _ (Keeps-seal IsTimed env stable (Unit {0}) _)
                  (encrypted-IsTimed t certs)))

  conclude-IsTimed :
      (answer : AcmeOutcome)
      → Keeps IsTimed (conclude_cert_job env domain user renew auto token answer)
  unfolding conclude_cert_job
  conclude-IsTimed (issued certs) = finish-IsTimed certs
  conclude-IsTimed cancelled = roll_back-IsTimed
  conclude-IsTimed (refused message) =
      Keeps-bind IsTimed _ _ (context-IsTimed env stable (Unit {0}) token)
        λ gone. Keeps-if IsTimed gone _ _ roll_back-IsTimed (give_up-IsTimed message)
  conclude-IsTimed panicked = give_up-IsTimed _

  renewed-IsTimed :
      (r : String ⊎ Bytes) → Keeps IsTimed (renew_with env domain user renew auto token r)
  unfolding renew_with
  renewed-IsTimed (inl text) = give_up-IsTimed text
  renewed-IsTimed (inr key) =
      Keeps-bind IsTimed _ _ (Keeps-acme IsTimed env stable (Unit {0})) conclude-IsTimed

  requested-IsTimed :
      (r : Result DbError Certificate)
      → Keeps IsTimed (request_certificate env domain user renew auto token r)
  unfolding request_certificate
  requested-IsTimed (ok existing) = renewed-IsTimed (env.decrypt existing.key_pem)
  requested-IsTimed (err e) =
      Keeps-if IsTimed renew _ _ (give_up-IsTimed _)
        (Keeps-bind IsTimed _ _ (Keeps-acme IsTimed env stable (Unit {0})) conclude-IsTimed)

  continued-IsTimed :
      (r : Result String (Unit {0}))
      → Keeps IsTimed (continue_verified env domain user renew auto token r)
  unfolding continue_verified
  continued-IsTimed (err text) = give_up-IsTimed text
  continued-IsTimed (ok u) =
      Keeps-bind IsTimed _ _
        (Keeps-outcome IsTimed (Unit {0}) _ (first_certificate-IsTimed env stable _))
        requested-IsTimed

  -- If the other goroutines keep it so, then after a certificate job, however it ends, every row
  -- that is generating has the time since when; a transaction that fails half-way included.
  pub run_cert_job-IsTimed :
      (w : World)
      → IsTimed w.shared
      → IsTimed (run_cert_job env domain user renew auto token w).1.shared
  unfolding run_cert_job
  run_cert_job-IsTimed =
      Keeps-bind IsTimed _ _ (context-IsTimed env stable (Unit {0}) token) λ gone.
        Keeps-if IsTimed gone _ _ roll_back-IsTimed (
          Keeps-if IsTimed (str_eq domain.cname_target "") _ _ (give_up-IsTimed _) (
            Keeps-bind IsTimed _ _
              (Keeps-outcome IsTimed (Unit {0}) _
                (verify-IsTimed env stable domain.domain domain.cname_target))
              continued-IsTimed))
