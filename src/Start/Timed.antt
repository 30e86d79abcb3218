-- ===== src/Start/Timed.antt =====
-- How jobs start, and the column generating_since: beginCertOperation and StartCertJob of
-- controllers/certificate.go with the handlers of controllers/certificate_api.go that use them.
use certhub_server.Common.{ℕ, String, Bool, true, false, not, ◌⊎◌, inl, inr}
use certhub_server.Models.{Domain, User}
use certhub_server.System.{Env}
use certhub_server.System.Keeps.{
  Keeps, Stable, Keeps-bind, Keeps-then, Keeps-catch, Keeps-if, Keeps-pure, Keeps-fail, Keeps-when,
  Keeps-attempt, Keeps-now, Keeps-locked, Keeps-wait,
}
use certhub_server.Lifecycle.Timed.{
  IsTimed, rollback-IsTimed, lock-IsTimed, first_domain-IsTimed, mark_verified-IsTimed,
}
use certhub_server.CertJob.Writes.{verify-IsTimed}
use certhub_server.CertJob.Timed.{run_cert_job-IsTimed}
use certhub_server.Http.{Web, Session, Response}
use certhub_server.Http.Timed.{
  exec_or-IsTimed, user-IsTimed, load_certificate-IsTimed, owned-IsTimed,
}
use certhub_server.Start.{
  acquire_slot, release_slot, begin_cert_job, start_cert_job, cert_job_worker, slot_or_rollback,
  begin_cert_operation,
}
use certhub_server.Start.Api.{
  issue_certificate_internal, issue_certificate, generate_certificate, renew_certificate,
}

module _ (env : Env) (stable : Stable IsTimed env) where
  pub slot-IsTimed {ℓ} :
      {E : Type ℓ} (id : ℕ) (full : E) → Keeps IsTimed (slot_or_rollback env id full)
  unfolding slot_or_rollback acquire_slot
  slot-IsTimed {E} id full =
      Keeps-bind IsTimed _ _ (Keeps-locked IsTimed env stable E _ (λ s h. h)) λ got.
        Keeps-when IsTimed (not got) _ (
          Keeps-then IsTimed _ _ (rollback-IsTimed env stable E id _ true)
            (Keeps-fail IsTimed _ full))

  pub start-IsTimed {ℓ} :
      (E : Type ℓ) (domain : Domain) → Keeps IsTimed (start_cert_job env {E = E} domain)
  unfolding start_cert_job begin_cert_job
  start-IsTimed E domain =
      Keeps-bind IsTimed _ _ (Keeps-locked IsTimed env stable E _ (λ s h. h)) λ cancelled.
        Keeps-bind IsTimed _ _ (Keeps-wait IsTimed env stable E domain.id) λ ended.
          Keeps-bind IsTimed _ _ (Keeps-now IsTimed env stable E)
            λ t. Keeps-locked IsTimed env stable E _ (λ s h. h)

  pub worker-IsTimed {ℓ} :
      (E : Type ℓ) (domain : Domain) (user : User) (renew auto : Bool) (token : ℕ)
      → Keeps IsTimed (cert_job_worker env {E = E} domain user renew auto token)
  unfolding cert_job_worker release_slot
  worker-IsTimed E domain user renew auto token =
      Keeps-then IsTimed _ _
        (Keeps-attempt IsTimed E _ (run_cert_job-IsTimed env domain user renew auto token stable))
        (Keeps-then IsTimed _ _ (Keeps-locked IsTimed env stable E _ (λ s h. h))
          (Keeps-locked IsTimed env stable E _ (λ s h. h)))

  begin-IsTimed :
      (domain : Domain) (renew : Bool) → Keeps IsTimed (begin_cert_operation env domain renew)
  unfolding begin_cert_operation
  begin-IsTimed domain renew =
      Keeps-then IsTimed _ _ (Keeps-when IsTimed _ _ (Keeps-fail IsTimed _ _)) (
        Keeps-then IsTimed _ _
          (Keeps-catch IsTimed _ _ (verify-IsTimed env stable domain.domain domain.cname_target)
            (λ text. Keeps-fail IsTimed _ _))
          (Keeps-bind IsTimed _ _
            (Keeps-if IsTimed renew _ _ (Keeps-pure IsTimed Response _)
              (load_certificate-IsTimed env stable Response domain.id))
            λ cert.
              Keeps-then IsTimed _ _
                (Keeps-when IsTimed _ _ (
                  Keeps-bind IsTimed _ _
                    (exec_or-IsTimed env stable _ _ (mark_verified-IsTimed env stable domain.id))
                    λ n. Keeps-pure IsTimed Response tt))
                (Keeps-bind IsTimed _ _
                  (Keeps-catch IsTimed _ _ (lock-IsTimed env stable domain renew)
                    (λ e. Keeps-fail IsTimed _ _))
                  λ user.
                    Keeps-then IsTimed _ _ (slot-IsTimed domain.id _)
                      (Keeps-pure IsTimed Response user))))

  module _ (web : Web) where
    issue_internal-IsTimed :
        (session : Session) (id : ℕ) (force : Bool)
        → Keeps IsTimed (issue_certificate_internal env web session id force)
    unfolding issue_certificate_internal
    issue_internal-IsTimed session id force =
        Keeps-bind IsTimed _ _ (user-IsTimed env stable session) λ user_id.
          Keeps-bind IsTimed _ _
            (exec_or-IsTimed env stable _ _ (first_domain-IsTimed env stable _))
            λ domain.
              Keeps-bind IsTimed _ _
                (Keeps-if IsTimed force _ _ (Keeps-pure IsTimed Response _)
                  (load_certificate-IsTimed env stable Response domain.id))
                λ cert. Keeps-then IsTimed _ _ (Keeps-when IsTimed _ _ (Keeps-fail IsTimed _ _)) (
                  Keeps-bind IsTimed _ _ (begin-IsTimed domain force) λ user.
                    Keeps-bind IsTimed _ _ (start-IsTimed Response domain)
                      λ token. Keeps-pure IsTimed Response _)

    pub issue-IsTimed :
        (session : Session) (id : String) (input : String ⊎ Bool)
        → Keeps IsTimed (issue_certificate env web session id input)
    unfolding issue_certificate
    issue-IsTimed session id (inl text) =
        Keeps-bind IsTimed _ _ (owned-IsTimed env stable web session id)
          λ domain. Keeps-fail IsTimed _ _
    issue-IsTimed session id (inr force) =
        Keeps-bind IsTimed _ _ (owned-IsTimed env stable web session id)
          λ domain. issue_internal-IsTimed session domain.id force

    pub generate-IsTimed :
        (session : Session) (input : String ⊎ ℕ)
        → Keeps IsTimed (generate_certificate env web session input)
    unfolding generate_certificate
    generate-IsTimed session (inl text) = Keeps-fail IsTimed _ _
    generate-IsTimed session (inr id) = issue_internal-IsTimed session id false

    pub renew-IsTimed :
        (session : Session) (input : String ⊎ ℕ)
        → Keeps IsTimed (renew_certificate env web session input)
    unfolding renew_certificate
    renew-IsTimed session (inl text) = Keeps-fail IsTimed _ _
    renew-IsTimed session (inr id) = issue_internal-IsTimed session id true
