-- ===== src/CertJob/Untouched.antt =====
-- What runCertJob (controllers/certificate.go) leaves alone: it writes to the tables only.
use Prim.Native.Nat.{ℕ}
use certhub_server.Common.{String, Bool, true, false, Option, none, some, ◌⊎◌, inl, inr, str_eq}
use certhub_server.Models.{Domain, User, Certificate, Time, Bytes}
use certhub_server.Store.{
  Db, DbError, Result, ok, err, Statement, not_found, duplicated_key, failed,
}
use certhub_server.System.{
  Env, World, Shared, exec, isolated, settled, transaction, CertResource, AcmeOutcome, issued,
  cancelled, refused, panicked,
}
use certhub_server.System.Keeps.{
  Keeps, Stable, Keeps-bind, Keeps-then, Keeps-catch, Keeps-if, Keeps-pure, Keeps-fail, Keeps-when,
  Keeps-attempt, Keeps-now, Keeps-exec, Keeps-locked, Keeps-outcome, Keeps-acme, Keeps-seal,
  Keeps-resolve,
}
use certhub_server.Lifecycle.{
  update_where, domain_has_certificate, set_domain_error, schedule_auto_renew_backoff,
  rollback_generating_domain, inflight,
}
use certhub_server.Cname.{verify_challenge_cname}
use certhub_server.CertJob.Superseded.{Keeps-compared_lem}
use certhub_server.CertJob.{
  replace_certificate, is_duplicated, insert_certificate, store_certificate, save_body,
  save_certificate_record, job_active, context_err, set_domain_auto_renew_failure, fail_cert_job,
  fail_cert_job_if_active, rollback_cancelled_cert_job, report_saved, save_encrypted,
  finish_cert_job, conclude_cert_job, renew_with, request_certificate, continue_verified,
  run_cert_job,
}

-- A property that does not look at the tables.
abbrev pub IgnoresTables : (Shared → Type 0) → Type 0
IgnoresTables P = (s : Shared) (db : Db) → P s → P (record s { db = db })

module _ (P : Shared → Type 0) (ignores : IgnoresTables P) where
  module _ (env : Env) (stable : Stable P env) where
    pub sql-Untouched : {A : Type 0} (st : Statement A) → Keeps P (exec env st)
    sql-Untouched st = Keeps-exec P env stable st (λ s h. ignores s (st s.db).1 h)

    pub update-Untouched :
        (p : Domain → Bool) (f : Domain → Domain) → Keeps P (update_where env p f)
    unfolding update_where
    update-Untouched p f = Keeps-bind P _ _ (Keeps-now P env stable DbError) λ t. sql-Untouched _

    pub has_certificate-Untouched :
        (E : Type 0) (id : ℕ) → Keeps P (domain_has_certificate env {E = E} id)
    unfolding domain_has_certificate
    has_certificate-Untouched E id =
        Keeps-catch P _ _ (Keeps-bind P _ _ (sql-Untouched _) λ n. Keeps-pure P DbError _)
          (λ e. Keeps-pure P E false)

    pub inflight-Untouched : (E : Type 0) (id : ℕ) → Keeps P (inflight env {E = E} id)
    unfolding inflight
    inflight-Untouched E id = Keeps-locked P env stable E _ (λ s h. h)

    pub rollback-Untouched :
        (E : Type 0) (id : ℕ) (message : String) (restore : Bool)
        → Keeps P (rollback_generating_domain env {E = E} id message restore)
    unfolding rollback_generating_domain
    rollback-Untouched E id message restore =
        Keeps-catch P _ _
          (Keeps-bind P _ _ (sql-Untouched _) λ d. Keeps-when P _ _ (
            Keeps-bind P _ _ (has_certificate-Untouched DbError id)
              λ c. Keeps-attempt P DbError _ (update-Untouched _ _)))
          (λ e. Keeps-pure P E tt)

    replace-Untouched : (c old : Certificate) → Keeps P (replace_certificate env c old)
    unfolding replace_certificate
    replace-Untouched c old = Keeps-bind P _ _ (Keeps-now P env stable DbError) λ t. sql-Untouched _

    insert-Untouched : (c : Certificate) → Keeps P (insert_certificate env c)
    unfolding insert_certificate
    insert-Untouched c =
        Keeps-catch P _ _
          (Keeps-bind P _ _ (Keeps-now P env stable DbError)
            λ t. Keeps-bind P _ _ (sql-Untouched _) λ row. Keeps-pure P DbError tt)
          λ e.
            Keeps-if P (is_duplicated e) _ _
              (Keeps-bind P _ _ (sql-Untouched _) (replace-Untouched c)) (Keeps-fail P _ e)

    store-Untouched :
        (c : Certificate) (r : Result DbError Certificate) → Keeps P (store_certificate env c r)
    unfolding store_certificate
    store-Untouched c (ok old) = replace-Untouched c old
    store-Untouched c (err not_found) = insert-Untouched c
    store-Untouched c (err duplicated_key) = Keeps-fail P _ duplicated_key
    store-Untouched c (err failed) = Keeps-fail P _ failed

    body-Untouched : (id : ℕ) (c : Certificate) → Keeps P (save_body id c env)
    unfolding save_body
    body-Untouched id c =
        Keeps-bind P _ _ (Keeps-outcome P DbError _ (sql-Untouched _))
          λ r. Keeps-then P _ _ (store-Untouched c r) (update-Untouched _ _)

    active-Untouched : (E : Type 0) (id token : ℕ) → Keeps P (job_active env {E = E} id token)
    unfolding job_active
    active-Untouched E id token =
        Keeps-bind P _ _ (Keeps-now P env stable E) λ t. Keeps-locked P env stable E _ (λ s h. h)

    context-Untouched : (E : Type 0) (token : ℕ) → Keeps P (context_err env {E = E} token)
    unfolding context_err
    context-Untouched E token =
        Keeps-bind P _ _ (Keeps-now P env stable E) λ t. Keeps-locked P env stable E _ (λ s h. h)

    fail-Untouched :
        (id : ℕ) (message : String) (auto : Bool)
        → Keeps P (fail_cert_job env {E = Unit {0}} id message auto)
    unfolding fail_cert_job set_domain_auto_renew_failure set_domain_error
        schedule_auto_renew_backoff
    fail-Untouched id message auto =
        Keeps-bind P _ _
          (Keeps-if P auto _ _ (has_certificate-Untouched (Unit {0}) id)
            (Keeps-pure P (Unit {0}) false))
          λ keeps.
            Keeps-then P _ _
              (Keeps-if P keeps _ _ (Keeps-attempt P (Unit {0}) _ (update-Untouched _ _))
                (Keeps-attempt P (Unit {0}) _ (update-Untouched _ _)))
              (Keeps-when P auto _ (
                Keeps-attempt P (Unit {0}) _ (
                  Keeps-bind P _ _ (sql-Untouched _) λ d.
                    Keeps-bind P _ _ (Keeps-now P env stable DbError) λ t. update-Untouched _ _)))

    pub verify-Untouched : (name target : String) → Keeps P (verify_challenge_cname env name target)
    unfolding verify_challenge_cname
    verify-Untouched name target =
        Keeps-bind P _ _ (Keeps-resolve P env stable String _)
          λ found. Keeps-compared_lem env P _ _ found

  settled-Untouched :
      {A : Type 0} (before : Db) (r : Result DbError A × World)
      → P r.1.shared
      → P (settled before r).1.shared
  settled-Untouched before (ok a, w) h = h
  settled-Untouched before (err e, w) h = ignores w.shared before h

  save-Untouched :
      (env : Env) (stable : Stable P env) (id : ℕ) (c : Certificate)
      → Keeps P (save_certificate_record env id c)
  unfolding save_certificate_record transaction
  save-Untouched env stable id c w h =
      let s = env.others w.event w.shared in
      let v : World = record { shared = s; event = w.event } in
      settled-Untouched {A = ℕ} s.db (save_body id c (isolated env) v)
        (body-Untouched (isolated env) (λ n t k. k) id c v (stable w.event w.shared h))

  module _ (env : Env) (stable : Stable P env) (domain : Domain) (user : User) (renew auto : Bool)
      (token : ℕ) where
    give_up-Untouched :
        (message : String)
        → Keeps P (fail_cert_job_if_active env {E = Unit {0}} domain.id token message auto)
    unfolding fail_cert_job_if_active
    give_up-Untouched message =
        Keeps-bind P _ _ (active-Untouched env stable (Unit {0}) domain.id token)
          λ alive. Keeps-when P alive _ (fail-Untouched env stable domain.id message auto)

    roll_back-Untouched :
        Keeps P (rollback_cancelled_cert_job env {E = Unit {0}} domain.id token auto)
    unfolding rollback_cancelled_cert_job
    roll_back-Untouched =
        Keeps-bind P _ _ (active-Untouched env stable (Unit {0}) domain.id token) λ alive.
          Keeps-when P _ _ (
            Keeps-bind P _ _ (inflight-Untouched env stable (Unit {0}) domain.id)
              λ busy. Keeps-when P _ _ (rollback-Untouched env stable (Unit {0}) domain.id _ true))

    report-Untouched :
        (r : Result DbError ℕ) → Keeps P (report_saved env domain user renew auto token r)
    unfolding report_saved
    report-Untouched (ok n) = Keeps-pure P _ tt
    report-Untouched (err e) = give_up-Untouched _

    encrypted-Untouched :
        (t : Time) (certs : CertResource) (key : Option Bytes)
        → Keeps P (save_encrypted env domain user renew auto token t certs key)
    unfolding save_encrypted
    encrypted-Untouched t certs none = give_up-Untouched _
    encrypted-Untouched t certs (some key) =
        Keeps-bind P _ _ (Keeps-outcome P (Unit {0}) _ (save-Untouched env stable domain.id _))
          report-Untouched

    finish-Untouched :
        (certs : CertResource) → Keeps P (finish_cert_job env domain user renew auto token certs)
    unfolding finish_cert_job
    finish-Untouched certs =
        Keeps-bind P _ _ (context-Untouched env stable (Unit {0}) token) λ gone.
          Keeps-if P gone _ _ roll_back-Untouched (
            Keeps-bind P _ _ (active-Untouched env stable (Unit {0}) domain.id token) λ alive.
              Keeps-when P alive _ (
                Keeps-bind P _ _ (Keeps-now P env stable (Unit {0})) λ t.
                  Keeps-bind P _ _ (Keeps-seal P env stable (Unit {0}) _)
                    (encrypted-Untouched t certs)))

    conclude-Untouched :
        (answer : AcmeOutcome) → Keeps P (conclude_cert_job env domain user renew auto token answer)
    unfolding conclude_cert_job
    conclude-Untouched (issued certs) = finish-Untouched certs
    conclude-Untouched cancelled = roll_back-Untouched
    conclude-Untouched (refused message) =
        Keeps-bind P _ _ (context-Untouched env stable (Unit {0}) token)
          λ gone. Keeps-if P gone _ _ roll_back-Untouched (give_up-Untouched message)
    conclude-Untouched panicked = give_up-Untouched _

    renewed-Untouched :
        (r : String ⊎ Bytes) → Keeps P (renew_with env domain user renew auto token r)
    unfolding renew_with
    renewed-Untouched (inl text) = give_up-Untouched text
    renewed-Untouched (inr key) =
        Keeps-bind P _ _ (Keeps-acme P env stable (Unit {0})) conclude-Untouched

    requested-Untouched :
        (r : Result DbError Certificate)
        → Keeps P (request_certificate env domain user renew auto token r)
    unfolding request_certificate
    requested-Untouched (ok existing) = renewed-Untouched (env.decrypt existing.key_pem)
    requested-Untouched (err e) =
        Keeps-if P renew _ _ (give_up-Untouched _)
          (Keeps-bind P _ _ (Keeps-acme P env stable (Unit {0})) conclude-Untouched)

    continued-Untouched :
        (r : Result String (Unit {0}))
        → Keeps P (continue_verified env domain user renew auto token r)
    unfolding continue_verified
    continued-Untouched (err text) = give_up-Untouched text
    continued-Untouched (ok u) =
        Keeps-bind P _ _ (Keeps-outcome P (Unit {0}) _ (sql-Untouched env stable _))
          requested-Untouched

    pub run_cert_job-Untouched : Keeps P (run_cert_job env domain user renew auto token)
    unfolding run_cert_job
    run_cert_job-Untouched =
        Keeps-bind P _ _ (context-Untouched env stable (Unit {0}) token) λ gone.
          Keeps-if P gone _ _ roll_back-Untouched (
            Keeps-if P (str_eq domain.cname_target "") _ _ (give_up-Untouched _) (
              Keeps-bind P _ _
                (Keeps-outcome P (Unit {0}) _
                  (verify-Untouched env stable domain.domain domain.cname_target))
                continued-Untouched))
