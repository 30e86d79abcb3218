-- ===== src/CertJob/Superseded.antt =====
-- runCertJob (controllers/certificate.go) after another job has taken its place in the registry.
use Prim.Native.Nat.{ℕ}
use certhub_server.Common.{String, Bool, true, false, not, ◌≡◌, ap, ◌⊎◌, str_eq, inl, inr}
use certhub_server.Models.{Domain, User, Certificate, Time, Bytes}
use certhub_server.Common.Text.{trim_dot}
use certhub_server.Store.{Db, DbError, Result, ok, err, first_certificate}
use certhub_server.Registry.{cert_job_inflight, owns, entry_of, is_cert_job_active}
use certhub_server.System.{
  Env, World, Shared, now, ◌>>=◌, issued, cancelled, refused, panicked, CertResource, AcmeOutcome,
}
use certhub_server.System.Keeps.{
  Keeps, Stable, Yields, yields-bind, Keeps-bind, Keeps-locked, yields-locked, Keeps-pure,
  Keeps-acme, Keeps-exec, Keeps-outcome, Keeps-resolve, Keeps-fail, Keeps-if, Keeps-when,
  Keeps-when-false,
}
use certhub_server.Cname.{verify_challenge_cname, compared, challenge_host}
use certhub_server.Lifecycle.{inflight}
use certhub_server.CertJob.{
  job_active, context_err, fail_cert_job_if_active, rollback_cancelled_cert_job, run_cert_job,
  renew_with, continue_verified, request_certificate, conclude_cert_job, finish_cert_job,
}

-- Another job is registered for the domain, and the tables are `db`.
pub record IsSuperseded (domain_id token : ℕ) (db : Db) (s : Shared) : Type 0 where
  pub replaced : owns token (entry_of domain_id s.registry) ≡ false
  pub registered : cert_job_inflight domain_id s.registry ≡ true
  pub tables : s.db ≡ db

owned-inactive :
    (t : Time) (d token : ℕ) (s : Shared)
    → owns token (entry_of d s.registry) ≡ false
    → is_cert_job_active t d token s.registry ≡ false
unfolding is_cert_job_active
owned-inactive t d token s h = rw h

pub Keeps-compared_lem :
    (env : Env) (P : Shared → Type 0) (host expected : String) (found : String ⊎ String)
    → Keeps P (compared env host expected found)
unfolding compared
Keeps-compared_lem env P host expected (inl text) = Keeps-fail P _ _
Keeps-compared_lem env P host expected (inr cname) =
    Keeps-if P (str_eq (trim_dot (env.to_lower cname)) expected) _ _ (Keeps-pure P _ tt)
      (Keeps-fail P _ _)

module _ (env : Env) (d token : ℕ) (db : Db) (stable : Stable (IsSuperseded d token db) env) where
  abbrev P : Shared → Type 0
  P = IsSuperseded d token db

  inactive : (E : Type 0) → Yields P (job_active env {E = E} d token) (λ b. b ≡ false)
  unfolding job_active ◌>>=◌ now
  inactive E w =
      yields-locked P env stable E (λ b. b ≡ false)
        (λ s. (is_cert_job_active (env.clock w.event) d token s.registry, s))
        (λ s h. (h, owned-inactive (env.clock w.event) d token s h.replaced)) w

  busy : (E : Type 0) → Yields P (inflight env {E = E} d) (λ b. b ≡ true)
  unfolding inflight
  busy E = yields-locked P env stable E _ _ (λ s h. (h, h.registered))

  Keeps-context : (E : Type 0) → Keeps P (context_err env {E = E} token)
  unfolding context_err ◌>>=◌ now
  Keeps-context E w = Keeps-locked P env stable E _ (λ s h. h) w

  Keeps-give_up :
      (E : Type 0) (message : String) (auto : Bool)
      → Keeps P (fail_cert_job_if_active env {E = E} d token message auto)
  unfolding fail_cert_job_if_active
  Keeps-give_up E message auto = yields-bind P _ _ _ (inactive E) (λ b h. Keeps-when-false P b _ h)

  Keeps-roll_back :
      (E : Type 0) (auto : Bool) → Keeps P (rollback_cancelled_cert_job env {E = E} d token auto)
  unfolding rollback_cancelled_cert_job
  Keeps-roll_back E auto = yields-bind P _ _ _ (inactive E) (λ b h.
      Keeps-when P (not b) _
        (yields-bind P _ _ _ (busy E) (λ c k. Keeps-when-false P (not c) _ (ap not k))))

module _ (env : Env) (domain : Domain) (user : User) (renew auto : Bool) (token : ℕ) (db : Db)
    (stable : Stable (IsSuperseded domain.id token db) env) where
  abbrev Q : Shared → Type 0
  Q = IsSuperseded domain.id token db

  give_up-Keeps :
      (message : String)
      → Keeps Q (fail_cert_job_if_active env {E = Unit {0}} domain.id token message auto)
  give_up-Keeps message = Keeps-give_up env domain.id token db stable (Unit {0}) message auto

  roll_back-Keeps : Keeps Q (rollback_cancelled_cert_job env {E = Unit {0}} domain.id token auto)
  roll_back-Keeps = Keeps-roll_back env domain.id token db stable (Unit {0}) auto

  Keeps-finish :
      (certs : CertResource) → Keeps Q (finish_cert_job env domain user renew auto token certs)
  unfolding finish_cert_job
  Keeps-finish certs = Keeps-bind Q _ _ (Keeps-context env domain.id token db stable _) λ gone.
      Keeps-if Q gone _ _ roll_back-Keeps (
        yields-bind Q _ _ _ (inactive env domain.id token db stable _)
          (λ b h. Keeps-when-false Q b _ h))

  Keeps-conclude :
      (answer : AcmeOutcome) → Keeps Q (conclude_cert_job env domain user renew auto token answer)
  unfolding conclude_cert_job
  Keeps-conclude (issued certs) = Keeps-finish certs
  Keeps-conclude cancelled = roll_back-Keeps
  Keeps-conclude (refused message) =
      Keeps-bind Q _ _ (Keeps-context env domain.id token db stable _)
        λ gone. Keeps-if Q gone _ _ roll_back-Keeps (give_up-Keeps message)
  Keeps-conclude panicked = give_up-Keeps _

  Keeps-renew : (r : String ⊎ Bytes) → Keeps Q (renew_with env domain user renew auto token r)
  unfolding renew_with
  Keeps-renew (inl text) = give_up-Keeps text
  Keeps-renew (inr key) = Keeps-bind Q _ _ (Keeps-acme Q env stable _) Keeps-conclude

  Keeps-request :
      (r : Result DbError Certificate)
      → Keeps Q (request_certificate env domain user renew auto token r)
  unfolding request_certificate
  Keeps-request (ok existing) = Keeps-renew (env.decrypt existing.key_pem)
  Keeps-request (err e) =
      Keeps-if Q renew _ _ (give_up-Keeps _)
        (Keeps-bind Q _ _ (Keeps-acme Q env stable _) Keeps-conclude)

  Keeps-verify : (name target : String) → Keeps Q (verify_challenge_cname env name target)
  unfolding verify_challenge_cname
  Keeps-verify name target =
      Keeps-bind Q _ _ (Keeps-resolve Q env stable _ _) λ found. Keeps-compared found
    where
      Keeps-compared :
          (found : String ⊎ String)
          → Keeps Q (compared env (challenge_host name) (trim_dot (env.to_lower target)) found)
      Keeps-compared found = Keeps-compared_lem env Q _ _ found

  Keeps-continue :
      (r : Result String (Unit {0}))
      → Keeps Q (continue_verified env domain user renew auto token r)
  unfolding continue_verified first_certificate
  Keeps-continue (err text) = give_up-Keeps text
  Keeps-continue (ok u) =
      Keeps-bind Q _ _
        (Keeps-outcome Q _ _ (Keeps-exec Q env stable (first_certificate _) (λ s h. h)))
        Keeps-request

  Keeps-run : Keeps Q (run_cert_job env domain user renew auto token)
  unfolding run_cert_job
  Keeps-run = Keeps-bind Q _ _ (Keeps-context env domain.id token db stable _) λ gone.
      Keeps-if Q gone _ _ roll_back-Keeps (
        Keeps-if Q (str_eq domain.cname_target "") _ _ (give_up-Keeps _) (
          Keeps-bind Q _ _ (Keeps-outcome Q _ _ (Keeps-verify domain.domain domain.cname_target))
            Keeps-continue))

  -- Whatever the authority, the database and the clock do: while another job is registered for the
  -- domain, and the other goroutines leave that and the tables alone, a job without the entry
  -- leaves the tables alone too.
  pub run_cert_job-IsSuperseded :
      (w : World)
      → IsSuperseded domain.id token db w.shared
      → IsSuperseded domain.id token db (run_cert_job env domain user renew auto token w).1.shared
  run_cert_job-IsSuperseded w h = Keeps-run w h
