-- ===== src/Domains.antt =====
-- controllers/domain.go: adding, claiming, restoring and removing domains. A body that gin could not
-- read is the text of its error.
pub mod Claim
pub mod Owner
pub mod Deleted
pub mod Added
pub mod Requests
pub mod Timed
use Prim.Native.Nat.{ℕ}
use certhub_server.Common.{
  String, Bool, true, false, not, ◌&&◌, Option, none, some, List, [], ◌∷◌, ◌⊎◌, inl, inr, ◌==◌,
  str_eq, if◌then◌else◌, is_none,
}
use certhub_server.Common.Int.{ℤ, pos, ◌-ℤ◌, leb_ℤ}
use certhub_server.Common.Text.{◌+++◌, trim_dot, format_uint}
use certhub_server.Config.Durations.{unclaimed_error_release_duration}
use certhub_server.Models.{
  Time, Status, pending, verified, generating, active, error, other, Domain, Certificate,
  is_generating, is_claimable_status, is_live,
}
use certhub_server.Store.{
  DbError, not_found, duplicated_key, failed, Result, ok, err, first_domain, first_domain_unscoped,
  find_domains, update_domains_unscoped, create_domain, soft_delete_domain, remove_domain,
  delete_certificates, delete_targets, delete_jobs,
}
use certhub_server.System.{
  Env, Act, pure, fail, catch, when, attempt, outcome, now, exec, ◌>>=◌, ◌>>◌,
}
use certhub_server.Cname.{verify_challenge_cname}
use certhub_server.Lifecycle.{
  has_id, update_where, domain_has_certificate, mark_domain_cname_verified,
}
use certhub_server.CertJob.{of_domain}
use certhub_server.DomainName.{validate_domain_name}
use certhub_server.Http.{
  Web, Session, Response, respond_success, respond_error, no_data, domain_data, domains_data,
  cname_data, not_verified, verified_at, require_user_id, or_answer, exec_or, get_domain_owned,
  load_domain_dto, answer_domain,
}
use certhub_server.Http.Dto.{DomainDto, to_cname_config_dto}

pub record DomainInput : Type 0 where
  pub name : String
  pub domain : String

pub data ClaimError : Type 0 where
  claim_lost : ClaimError
  claim_cname : String → ClaimError
  claim_failed : ClaimError

-- What a new owner's claim writes.
abbrev pub claimed_row : ℕ → Time → Domain → Domain
claimed_row user_id now d = record d {
  user_id = user_id;
  status = verified;
  error_message = "";
  generating_since = none;
  auto_renew = true;
  cname_verified_at = some now;
  auto_renew_failures = pos 0;
  auto_renew_backoff_until = none;
}

abbrev pub restored_row : Domain → Domain
restored_row d = record d {
  deleted_at = none;
  status = pending;
  error_message = "";
  generating_since = none;
  auto_renew = true;
  cname_verified_at = none;
  auto_renew_failures = pos 0;
  auto_renew_backoff_until = none;
}

-- The row of a new domain, whose key and times the table sets.
abbrev pub new_domain : ℕ → String → Domain
new_domain user_id name = record {
  id = 0;
  user_id = user_id;
  domain = name;
  status = pending;
  generating_since = none;
  cname_target = "";
  auto_renew = true;
  cname_verified_at = none;
  auto_renew_failures = pos 0;
  auto_renew_backoff_until = none;
  error_message = "";
  created_at = pos 0;
  updated_at = pos 0;
  deleted_at = none;
}

-- What UpdateDomain writes.
abbrev pub switched_row : Bool → Domain → Domain
switched_row true d = record d {
  auto_renew = true;
  auto_renew_failures = pos 0;
  auto_renew_backoff_until = none;
  error_message = "";
}
switched_row false d = record d { auto_renew = false }

abbrev pub already_registered : Response
already_registered = respond_error 409 "Domain already registered"

create_failed : DbError → Response
create_failed duplicated_key = already_registered
create_failed _ = respond_error 500 "Failed to create domain"

claim_answer : ClaimError → Response
claim_answer claim_lost = already_registered
claim_answer (claim_cname text) = respond_error 400 (
    "To claim this domain, configure the CNAME record first: domain claim cname verify failed: "
    +++ text)
claim_answer claim_failed = respond_error 500 "Failed to claim domain"

-- The switch of isUnclaimedDomain, on a domain without a certificate.
unfoldable pub is_released : Time → ℤ → Domain → Status → Bool
is_released t release domain pending = true
is_released t release domain error =
    if is_none domain.cname_verified_at then true else leb_ℤ release (t -ℤ domain.updated_at)
is_released t release domain _ = false

module _ (env : Env) (web : Web) where
  unfoldable pub delegation_target : ℕ → String
  delegation_target domain_id =
      format_uint domain_id +++ "." +++ trim_dot env.config.domain.cname_target

  unfoldable pub domain_name_from_input : DomainInput → Result String String
  domain_name_from_input input =
      validate_domain_name web.trim_space env.to_lower web.to_ascii web.parses_ip
        (if str_eq input.name "" then input.domain else input.name)

  unfoldable pub is_unclaimed_domain {ℓ} : {E : Type ℓ} → Domain → Act E Bool
  is_unclaimed_domain domain = do
    has_cert ← domain_has_certificate env domain.id
    t ← now env
    pure (
        not has_cert
        && is_released t (unclaimed_error_release_duration env.parse_duration env.config.domain)
            domain domain.status)

  unfoldable pub assign_unclaimed_domain_to_user : ℕ → ℕ → Act ClaimError Domain
  assign_unclaimed_domain_to_user domain_id user_id = do
    has_cert ← domain_has_certificate env domain_id
    when has_cert (fail claim_lost)
    t ← now env
    n ←
        catch
          (update_where env (λ d. has_id domain_id d && is_claimable_status d.status)
            (claimed_row user_id t))
          (λ _. fail claim_failed)
    when (n == 0) (fail claim_lost)
    catch (exec env (first_domain (has_id domain_id))) (λ _. fail claim_failed)

  -- `target` is the stored one, or else the new one, which is stored.
  unfoldable pub claim_target : Domain → Act ClaimError String
  claim_target existing =
      if str_eq existing.cname_target ""
      then (do
        let target = delegation_target existing.id
        n ←
            catch (update_where env (has_id existing.id) (λ d. record d { cname_target = target }))
              (λ _. fail claim_failed)
        pure target)
      else pure existing.cname_target

  unfoldable pub claim_unclaimed_domain : Domain → ℕ → Act ClaimError Domain
  claim_unclaimed_domain existing user_id = do
    target ← claim_target existing
    catch (verify_challenge_cname env existing.domain target) (λ text. fail (
        claim_cname (
          "point _acme-challenge."
          +++ existing.domain
          +++ " CNAME to "
          +++ env.quote target
          +++ " ("
          +++ text
          +++ ")")))
    assign_unclaimed_domain_to_user existing.id user_id

  unfoldable pub create_domain_record : ℕ → String → Act DbError Domain
  create_domain_record user_id name = do
    t ← now env
    domain ← exec env (create_domain t (new_domain user_id name))
    let target = delegation_target domain.id
    catch
        (do
          n ← update_where env (has_id domain.id) (λ d. record d { cname_target = target })
          pure tt)
        (λ e. do attempt (exec env (soft_delete_domain t domain.id)); fail e)
    pure (record domain { cname_target = target })

  unfoldable pub restore_deleted_domain : ℕ → Act DbError ℕ
  restore_deleted_domain domain_id = do
    t ← now env
    exec env (update_domains_unscoped t (has_id domain_id) restored_row)

  -- What both ways of deleting a domain do to what belongs to it.
  unfoldable pub remove_dependents {ℓ} : {E : Type ℓ} → ℕ → Act E (Unit {0})
  remove_dependents domain_id = do
    attempt (exec env (delete_certificates (of_domain domain_id)))
    attempt (exec env (delete_targets (λ t. t.domain_id == domain_id)))
    attempt (exec env (delete_jobs (λ j. j.domain_id == domain_id)))

  unfoldable pub permanently_remove_domain : ℕ → Act DbError ℕ
  permanently_remove_domain domain_id = do
    remove_dependents domain_id
    exec env (remove_domain domain_id)

  unfoldable pub add_new : ℕ → String → Act Response Response
  unfolding create_failed
  add_new user_id name = do
    domain ← catch (create_domain_record user_id name) (λ e. fail (create_failed e))
    answer_domain env web domain

  -- The first case of AddDomain: the name is taken by a live domain.
  unfoldable pub add_taken : ℕ → Domain → Act Response Response
  unfolding claim_answer
  add_taken user_id existing = if existing.user_id == user_id then fail already_registered else (do
    unclaimed ← is_unclaimed_domain existing
    if unclaimed
        then (do
          domain ← catch (claim_unclaimed_domain existing user_id) (λ e. fail (claim_answer e))
          answer_domain env web domain)
        else fail already_registered)

  -- The name belongs to a deleted domain, the caller's or another user's.
  unfoldable pub add_deleted : ℕ → String → Domain → Act Response Response
  add_deleted user_id name existing =
      if existing.user_id == user_id
      then (do
        n ←
            exec_or (respond_error 500 "Failed to restore domain")
              (restore_deleted_domain existing.id)
        domain ←
            exec_or (respond_error 500 "Failed to load restored domain")
              (exec env (first_domain_unscoped (has_id existing.id)))
        answer_domain env web domain)
      else (do
        n ←
            exec_or (respond_error 500 "Failed to create domain")
              (permanently_remove_domain existing.id)
        add_new user_id name)

  unfoldable pub add_checked : ℕ → String → Result DbError Domain → Act Response Response
  add_checked user_id name (ok existing) =
      if is_live existing then add_taken user_id existing else add_deleted user_id name existing
  add_checked user_id name (err not_found) = add_new user_id name
  add_checked user_id name (err _) = fail (respond_error 500 "Failed to check domain")

  unfoldable pub add_named : ℕ → Result String String → Act Response Response
  add_named user_id (err text) = fail (respond_error 400 text)
  add_named user_id (ok name) = do
    existing ← outcome (exec env (first_domain_unscoped (λ d. str_eq d.domain name)))
    add_checked user_id name existing

  unfoldable pub add_domain : Session → String ⊎ DomainInput → Act Response Response
  add_domain session (inl text) = fail (respond_error 400 text)
  add_domain session (inr input) = do
    user_id ← require_user_id session
    add_named user_id (domain_name_from_input input)
