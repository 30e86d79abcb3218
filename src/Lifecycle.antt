-- ===== src/Lifecycle.antt =====
-- The states of a domain: how its row is locked for a certificate job, rolled back, failed and
-- made active (controllers/renewal_scheduler.go and controllers/certificate.go).
pub mod Quiet
pub mod Lock
pub mod TakeLock
pub mod Rollback
pub mod Settled
pub mod Shutdown
pub mod Verified
pub mod Timed
use Prim.Native.Nat.{ℕ, zero, suc, ◌<◌}
use certhub_server.Common.{
  String, Bool, true, false, not, ◌&&◌, ◌||◌, Option, none, some, List, [], ◌∷◌, ◌==◌, ltb, str_eq,
  is_none, if◌then◌else◌,
}
use certhub_server.Common.Int.{ℤ, pos, ◌+ℤ◌, ◌-ℤ◌, ltb_ℤ}
use certhub_server.Config.Durations.{generating_timeout_duration, auto_renew_backoff_duration}
use certhub_server.Models.{
  Time, Status, pending, verified, generating, active, error, Domain, Certificate, User,
  is_generating,
}
use certhub_server.Store.{
  DbError, Result, first_domain, find_domains, update_domains, count_certificates,
  first_certificate, create_certificate, save_certificate, first_user, not_found, duplicated_key,
  failed,
}
use certhub_server.Registry.{cert_job_inflight, cancel_cert_job, is_cert_job_active}
use certhub_server.System.{
  Env, Act, Shared, pure, fail, catch, when, attempt, now, exec, locked, wait_domain_worker, ◌>>=◌,
  ◌>>◌, registry_is,
}

abbrev pub cancelled_cert_job_message : String
cancelled_cert_job_message = "certificate operation was cancelled"

abbrev pub stuck_generating_message : String
stuck_generating_message =
    "certificate operation timed out (server may have restarted); please retry"

abbrev pub has_id : ℕ → Domain → Bool
has_id id d = d.id == id

-- `generating_since IS NULL OR generating_since < cutoff`
abbrev pub since_before : Time → Option Time → Bool
since_before cutoff none = true
since_before cutoff (some t) = ltb_ℤ t cutoff

abbrev pub is_stale : Time → Domain → Bool
is_stale cutoff d = is_generating d.status && since_before cutoff d.generating_since

-- The rows that the UPDATE of lockDomainForCertJob changes, and what it writes.
abbrev pub lockable : Time → ℕ → Domain → Bool
lockable stale_before id d =
    has_id id d && (not (is_generating d.status) || is_stale stale_before d)

abbrev pub locked_row : Time → Domain → Domain
locked_row t d = record d { status = generating; error_message = ""; generating_since = some t }

-- setDomainError and setDomainAutoRenewFailure write this.
abbrev pub settled_row : Status → String → Domain → Domain
settled_row status message d = record d {
  status = status;
  error_message = message;
  generating_since = none;
}

abbrev pub verified_row : Time → Domain → Domain
verified_row t d = record d { status = verified; error_message = ""; cname_verified_at = some t }

abbrev pub active_row : Domain → Domain
active_row d = record d {
  status = active;
  error_message = "";
  generating_since = none;
  auto_renew_failures = pos 0;
  auto_renew_backoff_until = none;
}

-- The switch of rollbackGeneratingDomain: the domain has a certificate, or it may go back to
-- verified, or it fails.
unfoldable pub rolled_back_row : Bool → Bool → String → Domain → Domain
rolled_back_row true restore message d = settled_row active message d
rolled_back_row false true message d = settled_row verified "" d
rolled_back_row false false message d =
    settled_row error (if str_eq message "" then cancelled_cert_job_message else message) d

pub data LockError : Type 0 where
  in_progress : LockError
  db_error : DbError → LockError

module _ (env : Env) where
  -- db.Model(&Domain{}).Where(p).Updates(f)
  unfoldable pub update_where : (Domain → Bool) → (Domain → Domain) → Act DbError ℕ
  update_where p f = do t ← now env; exec env (update_domains t p f)

  unfoldable pub timeout : ℤ
  timeout = generating_timeout_duration env.parse_duration env.config.renewal

  -- A count that fails leaves 0.
  unfoldable pub domain_has_certificate {ℓ} : {E : Type ℓ} → ℕ → Act E Bool
  domain_has_certificate id =
      catch (do n ← exec env (count_certificates (λ c. c.domain_id == id)); pure (ltb 0 n))
        (λ _. pure false)

  unfoldable pub set_domain_error {ℓ} : {E : Type ℓ} → ℕ → Status → String → Act E (Unit {0})
  set_domain_error id status message =
      attempt (update_where (has_id id) (settled_row status message))

  unfoldable pub mark_domain_cname_verified : ℕ → Act DbError ℕ
  mark_domain_cname_verified id = do t ← now env; update_where (has_id id) (verified_row t)

  unfoldable pub inflight {ℓ} : {E : Type ℓ} → ℕ → Act E Bool
  inflight id = locked env (λ s. (cert_job_inflight id s.registry, s))

  unfoldable pub cancel_job {ℓ} : {E : Type ℓ} → ℕ → Act E (Unit {0})
  cancel_job id = locked env (λ s. registry_is (cancel_cert_job id s.registry) s)

  unfoldable pub rollback_generating_domain {ℓ} :
      {E : Type ℓ} → ℕ → String → Bool → Act E (Unit {0})
  rollback_generating_domain id message restore_verified =
      catch
        (do
          d ← exec env (first_domain (has_id id))
          when (is_generating d.status) (do
            has_cert ← domain_has_certificate id
            let restore = restore_verified && not (is_none d.cname_verified_at)
            attempt (update_where (has_id id) (rolled_back_row has_cert restore message))))
        (λ _. pure tt)

  unfoldable pub rollback_stuck_generating {ℓ} : {E : Type ℓ} → Domain → Bool → Act E (Unit {0})
  rollback_stuck_generating d force = do
    busy ← (if force then pure false else inflight d.id)
    when (not busy) (do
      has_cert ← domain_has_certificate d.id
      rollback_generating_domain d.id (if has_cert then "" else stuck_generating_message) true)

  -- One round of the loop of runStuckGeneratingCleanup.
  unfoldable pub clean_up_domain {ℓ} : {E : Type ℓ} → Domain → Act E (Unit {0})
  clean_up_domain d = do
    busy ← inflight d.id
    when busy (do cancel_job d.id; ended ← wait_domain_worker env d.id; pure tt)
    rollback_stuck_generating d false

  unfoldable pub for_each {ℓ κ} :
      {E : Type ℓ} {A : Type κ} → (A → Act E (Unit {0})) → List A → Act E (Unit {0})
  for_each body [] = pure tt
  for_each body (x ∷ xs) = do body x; for_each body xs

  unfoldable pub run_stuck_generating_cleanup {ℓ} : {E : Type ℓ} → ℤ → Act E (Unit {0})
  run_stuck_generating_cleanup timeout =
      catch
        (do
          t ← now env
          stuck ← exec env (find_domains (is_stale (t -ℤ timeout)))
          for_each clean_up_domain stuck)
        (λ _. pure tt)

  unfoldable pub rollback_all_generating_domains {ℓ} : {E : Type ℓ} → Act E (Unit {0})
  rollback_all_generating_domains =
      catch
        (do
          ds ← exec env (find_domains (λ d. is_generating d.status))
          for_each (λ d. rollback_stuck_generating d true) ds)
        (λ _. pure tt)

  unfoldable pub schedule_auto_renew_backoff {ℓ} : {E : Type ℓ} → ℕ → Act E (Unit {0})
  schedule_auto_renew_backoff id = attempt (do
    d ← exec env (first_domain (has_id id))
    let failures = d.auto_renew_failures +ℤ pos 1
    let backoff = auto_renew_backoff_duration env.parse_duration env.config.renewal failures
    t ← now env
    update_where (has_id id) (λ d. record d {
      auto_renew_failures = failures;
      auto_renew_backoff_until = some (t +ℤ backoff);
    }))

  -- What lockDomainForCertJob does about a job that is registered for the domain.
  unfoldable pub take_over : Bool → ℕ → Act LockError (Unit {0})
  take_over stale id = do
    busy ← inflight id
    when busy (
        if stale
        then (do
          cancel_job id
          ended ← wait_domain_worker env id
          if ended then pure tt else fail in_progress)
        else fail in_progress)

  -- The UPDATE that takes the lock, and the owner.
  unfoldable pub take_lock : Domain → Time → Act LockError User
  take_lock current t = do
    n ←
        catch (update_where (lockable (t -ℤ timeout) current.id) (locked_row t))
          (λ e. fail (db_error e))
    when (n == 0) (fail in_progress)
    catch (exec env (first_user (λ u. u.id == current.user_id)))
        (λ e. do set_domain_error current.id error "user not found"; fail (db_error e))

  unfoldable pub lock_current : Domain → Act LockError User
  lock_current current = do
    t ← now env
    take_over (is_stale (t -ℤ timeout) current) current.id
    take_lock current t

  unfoldable pub lock_domain_for_cert_job : Domain → Bool → Act LockError User
  lock_domain_for_cert_job domain require_existing_cert = do
    when require_existing_cert (
        catch (do c ← exec env (first_certificate (λ c. c.domain_id == domain.id)); pure tt)
          (λ e. fail (db_error e)))
    current ← catch (exec env (first_domain (has_id domain.id))) (λ e. fail (db_error e))
    lock_current current
