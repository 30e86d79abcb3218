-- ===== src/CertJob.antt =====
-- One certificate job (controllers/certificate.go): what it does to the domain while it runs, and
-- how it starts and ends.
pub mod Superseded
pub mod Saving
pub mod Failing
pub mod Timed
pub mod Writes
pub mod Untouched
use Prim.Native.Nat.{ℕ, zero, suc, ◌+◌}
use certhub_server.Common.{
  String, Bool, true, false, not, ◌&&◌, ◌||◌, Option, none, some, ◌⊎◌, inl, inr, ◌==◌, str_eq,
  is_none, if◌then◌else◌,
}
use certhub_server.Common.Int.{ℤ, pos}
use certhub_server.Config.Durations.{max_concurrent_cert_jobs}
use certhub_server.Models.{Time, Bytes, Status, active, error, Domain, Certificate, User}
use certhub_server.Store.{
  DbError, Result, ok, err, first_certificate, create_certificate, save_certificate, not_found,
  duplicated_key, failed,
}
use certhub_server.Registry.{
  is_done, is_cert_job_active, cancel_cert_job, register_job, end_job, next_token,
  try_acquire_cert_job_slot, release_cert_job_slot,
}
use certhub_server.System.{
  Env, Act, Shared, CertResource, AcmeOutcome, issued, cancelled, refused, panicked, pure, fail,
  catch, when, attempt, outcome, now, exec, locked, wait_domain_worker, transaction, call_acme,
  seal, ◌>>=◌, ◌>>◌, registry_is,
}
use certhub_server.Pem.{parse_cert_expiry}
use certhub_server.Cname.{verify_challenge_cname}
use certhub_server.Lifecycle.{
  has_id, settled_row, active_row, update_where, timeout, domain_has_certificate, set_domain_error,
  schedule_auto_renew_backoff, rollback_generating_domain, inflight, cancel_job,
  cancelled_cert_job_message,
}

abbrev pub of_domain : ℕ → Certificate → Bool
of_domain id c = c.domain_id == id

-- `tx.Save` over the existing row: its key and its creation time are kept.
unfoldable pub replace_certificate : Env → Certificate → Certificate → Act DbError (Unit {0})
replace_certificate env cert existing = do
  t ← now env
  exec env (save_certificate t (record cert { id = existing.id; created_at = existing.created_at }))

unfoldable pub is_duplicated : DbError → Bool
is_duplicated duplicated_key = true
is_duplicated _ = false

unfoldable pub insert_certificate : Env → Certificate → Act DbError (Unit {0})
unfolding is_duplicated
insert_certificate env cert =
    catch (do t ← now env; row ← exec env (create_certificate t cert); pure tt)
      (λ e.
        if is_duplicated e
        then (do
          existing ← exec env (first_certificate (of_domain cert.domain_id))
          replace_certificate env cert existing)
        else fail e)

-- The switch on the lookup of the existing row.
unfoldable pub store_certificate :
    Env → Certificate → Result DbError Certificate → Act DbError (Unit {0})
store_certificate env cert (ok existing) = replace_certificate env cert existing
store_certificate env cert (err not_found) = insert_certificate env cert
store_certificate env cert (err duplicated_key) = fail duplicated_key
store_certificate env cert (err failed) = fail failed

-- The body of the transaction of saveCertificateRecord.
unfoldable pub save_body : ℕ → Certificate → Env → Act DbError ℕ
save_body domain_id cert env = do
  existing ← outcome (exec env (first_certificate (of_domain cert.domain_id)))
  store_certificate env cert existing
  update_where env (has_id domain_id) active_row

unfoldable pub save_certificate_record : Env → ℕ → Certificate → Act DbError ℕ
save_certificate_record env domain_id cert = transaction env (save_body domain_id cert)

module _ (env : Env) where
  unfoldable pub job_active {ℓ} : {E : Type ℓ} → ℕ → ℕ → Act E Bool
  job_active domain_id token = do
    t ← now env
    locked env (λ s. (is_cert_job_active t domain_id token s.registry, s))

  -- ctx.Err() != nil
  unfoldable pub context_err {ℓ} : {E : Type ℓ} → ℕ → Act E Bool
  context_err token = do t ← now env; locked env (λ s. (is_done t token s.registry, s))

  unfoldable pub set_domain_auto_renew_failure {ℓ} : {E : Type ℓ} → ℕ → String → Act E (Unit {0})
  set_domain_auto_renew_failure id message =
      attempt (update_where env (has_id id) (settled_row active message))

  unfoldable pub fail_cert_job {ℓ} : {E : Type ℓ} → ℕ → String → Bool → Act E (Unit {0})
  fail_cert_job id message auto_renew = do
    keeps ← (if auto_renew then domain_has_certificate env id else pure false)
    if keeps
        then set_domain_auto_renew_failure id message
        else set_domain_error env id error message
    when auto_renew (schedule_auto_renew_backoff env id)

  unfoldable pub fail_cert_job_if_active {ℓ} :
      {E : Type ℓ} → ℕ → ℕ → String → Bool → Act E (Unit {0})
  fail_cert_job_if_active id token message auto_renew = do
    alive ← job_active id token
    when alive (fail_cert_job id message auto_renew)

  unfoldable pub rollback_cancelled_cert_job {ℓ} : {E : Type ℓ} → ℕ → ℕ → Bool → Act E (Unit {0})
  rollback_cancelled_cert_job id token auto_renew = do
    alive ← job_active id token
    when (not alive) (do
      busy ← inflight env id
      when (not busy) (
          rollback_generating_domain env id (if auto_renew then cancelled_cert_job_message else "")
            true))

  module _ (domain : Domain) (user : User) (renew auto_renew : Bool) (token : ℕ) where
    abbrev pub give_up : String → Act (Unit {0}) (Unit {0})
    give_up message = fail_cert_job_if_active domain.id token message auto_renew

    abbrev pub roll_back : Act (Unit {0}) (Unit {0})
    roll_back = rollback_cancelled_cert_job domain.id token auto_renew

    -- The row that a job stores, where the expiry is in 90 days if it cannot be parsed.
    abbrev pub cert_row : Time → CertResource → Bytes → Certificate
    cert_row t certs key = record {
      id = 0;
      domain_id = domain.id;
      user_id = user.id;
      domain = domain.domain;
      cert_pem = certs.certificate;
      key_pem = key;
      issuer = certs.issuer_certificate;
      cert_url = certs.cert_url;
      cert_stable_url = certs.cert_stable_url;
      expires_at = expiry t (parse_cert_expiry env.pem certs.certificate);
      created_at = pos 0;
      updated_at = pos 0;
    }
      where
        expiry : Time → Option Time → Time
        expiry t none = env.add_days t (pos 90)
        expiry t (some e) = e

    unfoldable pub report_saved : Result DbError ℕ → Act (Unit {0}) (Unit {0})
    report_saved (ok n) = pure tt
    report_saved (err e) = give_up "failed to save certificate"

    unfoldable pub save_encrypted : Time → CertResource → Option Bytes → Act (Unit {0}) (Unit {0})
    save_encrypted t certs none = give_up "failed to encrypt private key"
    save_encrypted t certs (some key) = do
      saved ← outcome (save_certificate_record env domain.id (cert_row t certs key))
      report_saved saved

    -- What follows when the authority has issued a certificate.
    unfoldable pub finish_cert_job : CertResource → Act (Unit {0}) (Unit {0})
    finish_cert_job certs = do
      done ← context_err token
      if done then roll_back else (do
        alive ← job_active domain.id token
        when alive (do t ← now env; key ← seal env certs.private_key; save_encrypted t certs key))

    unfoldable pub conclude_cert_job : AcmeOutcome → Act (Unit {0}) (Unit {0})
    conclude_cert_job (issued certs) = finish_cert_job certs
    conclude_cert_job cancelled = roll_back
    conclude_cert_job (refused message) = do
      done ← context_err token
      if done then roll_back else give_up message
    -- What the deferred call does after recover().
    conclude_cert_job panicked = give_up "internal error during certificate operation"

    -- BuildCertResource decrypts the stored key.
    unfoldable pub renew_with : String ⊎ Bytes → Act (Unit {0}) (Unit {0})
    renew_with (inl text) = give_up text
    renew_with (inr key) = do answer ← call_acme env; conclude_cert_job answer

    unfoldable pub request_certificate : Result DbError Certificate → Act (Unit {0}) (Unit {0})
    request_certificate (ok existing) = renew_with (env.decrypt existing.key_pem)
    request_certificate (err e) =
        if renew
        then give_up "no existing certificate to renew"
        else (do answer ← call_acme env; conclude_cert_job answer)

    unfoldable pub continue_verified : Result String (Unit {0}) → Act (Unit {0}) (Unit {0})
    continue_verified (err text) = give_up text
    continue_verified (ok u) = do
      existing ← outcome (exec env (first_certificate (of_domain domain.id)))
      request_certificate existing

    unfoldable pub run_cert_job : Act (Unit {0}) (Unit {0})
    run_cert_job = do
      done ← context_err token
      if done
          then roll_back
          else if str_eq domain.cname_target ""
          then give_up "CNAME target not configured for this domain"
          else (do
            verified ← outcome (verify_challenge_cname env domain.domain domain.cname_target)
            continue_verified verified)
