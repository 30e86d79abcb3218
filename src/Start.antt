-- ===== src/Start.antt =====
-- How certificate jobs start (controllers/certificate.go), and the scan of the scheduler
-- (controllers/renewal_scheduler.go). The goroutine of a job is `cert_job_worker`, an action of its
-- own, with the token that `start_cert_job` answers.
pub mod Slot
pub mod Skipped
pub mod Api
pub mod Worker
pub mod Timed
pub mod Scheduler
use Prim.Native.Nat.{ℕ}
use certhub_server.Common.{
  String, Bool, true, false, not, ◌&&◌, ◌||◌, Option, none, some, List, [], ◌∷◌, ◌++◌, ◌⊎◌, inl,
  inr, ◌==◌, str_eq, if◌then◌else◌, is_none,
}
use certhub_server.Common.Int.{ℤ, pos, negsuc, ltb_ℤ, leb_ℤ}
use certhub_server.Config.Durations.{max_concurrent_cert_jobs}
use certhub_server.Models.{
  Time, Bytes, Status, generating, pending, Domain, Certificate, User, is_generating,
  is_verified_status,
}
use certhub_server.Store.{
  DbError, not_found, Result, ok, err, first_domain, first_certificate, find_domains,
  find_certificates,
}
use certhub_server.Registry.{
  cancel_cert_job, register_job, next_token, end_job, try_acquire_cert_job_slot,
  release_cert_job_slot, Slots,
}
use certhub_server.System.{
  Env, Act, Shared, pure, fail, catch, when, attempt, outcome, now, exec, locked,
  wait_domain_worker, ◌>>=◌, ◌>>◌, registry_is,
}
use certhub_server.Pem.{parse_cert_meta}
use certhub_server.Cname.{verify_challenge_cname}
use certhub_server.Lifecycle.{
  LockError, in_progress, db_error, has_id, timeout, mark_domain_cname_verified,
  rollback_generating_domain, lock_domain_for_cert_job, for_each,
}
use certhub_server.CertJob.{run_cert_job}
use certhub_server.Http.{
  Web, Session, Response, respond_success, respond_error, cert_started, certificate_data,
  certificates_data, download_data, zip_file, require_user_id, or_answer, exec_or, owned_by,
  domain_not_found, get_domain_owned, load_certificate,
}
use certhub_server.Http.Dto.{
  CertificateInfoDto, to_certificate_info_dto, to_certificate_download_dto,
}

-- The new token, and the state with the new entry.
abbrev pub registered : Time → ℤ → ℕ → Shared → ℕ × Shared
registered t d domain_id s =
    (next_token s.registry, record s { registry = register_job t d domain_id s.registry })

-- A semaphore operation on the shared state.
abbrev pub slot_taken : Shared → Bool × Slots → Bool × Shared
slot_taken s (got, slots) = (got, record s { slots = slots })

module _ (env : Env) where
  abbrev pub limit : ℤ
  limit = max_concurrent_cert_jobs env.config.renewal

  unfoldable pub acquire_slot {ℓ} : {E : Type ℓ} → Act E Bool
  acquire_slot = locked env (λ s. slot_taken s (try_acquire_cert_job_slot limit s.slots))

  unfoldable pub release_slot {ℓ} : {E : Type ℓ} → Act E (Unit {0})
  release_slot = locked env (λ s. (tt, record s { slots = release_cert_job_slot limit s.slots }))

  unfoldable pub begin_cert_job {ℓ} : {E : Type ℓ} → ℕ → Act E ℕ
  begin_cert_job domain_id = do
    cancelled ← locked env (λ s. registry_is (cancel_cert_job domain_id s.registry) s)
    ended ← wait_domain_worker env domain_id
    t ← now env
    locked env (registered t (timeout env) domain_id)

  -- The body of the goroutine, whose deferred calls run last to first.
  unfoldable pub cert_job_worker {ℓ} :
      {E : Type ℓ} → Domain → User → Bool → Bool → ℕ → Act E (Unit {0})
  cert_job_worker domain user renew auto_renew token = do
    attempt (run_cert_job env domain user renew auto_renew token)
    release_slot
    locked env (λ s. registry_is (end_job domain.id token s.registry) s)

  unfoldable pub start_cert_job {ℓ} : {E : Type ℓ} → Domain → Act E ℕ
  start_cert_job domain = begin_cert_job domain.id

  -- A slot for the job, or the lock is given back.
  unfoldable pub slot_or_rollback {ℓ} : {E : Type ℓ} → ℕ → E → Act E (Unit {0})
  slot_or_rollback domain_id full = do
    got ← acquire_slot
    when (not got) (do rollback_generating_domain env domain_id "" true; fail full)

  lock_answer : LockError → Response
  lock_answer in_progress =
      respond_error 409 "Certificate operation already in progress for this domain"
  lock_answer (db_error not_found) = respond_error 404 "No certificate found for this domain"
  lock_answer (db_error _) = respond_error 500 "Failed to update domain status"

  abbrev pub too_many : Response
  too_many = respond_error 429 "Too many certificate operations in progress; try again later"

  unfoldable pub begin_cert_operation : Domain → Bool → Act Response User
  unfolding lock_answer
  begin_cert_operation domain renew = do
    when (str_eq domain.cname_target "")
        (fail (respond_error 400 "CNAME target not configured for this domain"))
    catch (verify_challenge_cname env domain.domain domain.cname_target)
        (λ text. fail (respond_error 400 text))
    cert ← (if renew then pure none else load_certificate env domain.id)
    when (not renew && is_none cert && not (is_verified_status domain.status)) (do
      n ←
          exec_or (respond_error 500 "Failed to update domain status")
            (mark_domain_cname_verified env domain.id)
      pure tt)
    user ← catch (lock_domain_for_cert_job env domain renew) (λ e. fail (lock_answer e))
    slot_or_rollback domain.id too_many
    pure user

  -- The statuses that tryAutoRenewDomain passes over.
  abbrev pub skips_renewal : Status → Bool
  skips_renewal generating = true
  skips_renewal pending = true
  skips_renewal _ = false

  abbrev pub in_backoff : Time → Option Time → Bool
  in_backoff t none = false
  in_backoff t (some until') = ltb_ℤ t until'

  -- Whether a job was started, and with which token.
  unfoldable pub try_auto_renew_domain {ℓ} : {E : Type ℓ} → Domain → Act E (Option (User × ℕ))
  try_auto_renew_domain domain =
      catch
        (do
          when (skips_renewal domain.status) (fail tt)
          when (not domain.auto_renew) (fail tt)
          t ← now env
          when (in_backoff t domain.auto_renew_backoff_until) (fail tt)
          when (str_eq domain.cname_target "") (fail tt)
          catch (verify_challenge_cname env domain.domain domain.cname_target) (λ text. fail tt)
          user ← catch (lock_domain_for_cert_job env domain true) (λ e. fail tt)
          slot_or_rollback domain.id tt
          token ← start_cert_job domain
          pure (some (user, token)))
        (λ (u : Unit {0}). pure none)

  unfoldable pub renew_candidate {ℓ} : {E : Type ℓ} → Certificate → Act E (Unit {0})
  renew_candidate cert =
      catch
        (do
          domain ← exec env (first_domain (has_id cert.domain_id))
          attempt (try_auto_renew_domain {E = Unit {0}} domain))
        (λ _. pure tt)

  unfoldable pub run_renewal_scan {ℓ} : {E : Type ℓ} → Act E (Unit {0})
  run_renewal_scan =
      catch
        (do
          t ← now env
          let days = env.config.renewal.renew_before_days
          let threshold = env.add_days t (if leb_ℤ days (pos 0) then pos 30 else days)
          certs ← exec env (find_certificates (λ c. leb_ℤ c.expires_at threshold))
          for_each env renew_candidate certs)
        (λ _. pure tt)
