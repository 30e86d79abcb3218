-- ===== src/Acme/Client.antt =====
-- The calls of the certificate authority in services/lego.go: how a user is registered, and how a
-- certificate is obtained or renewed for the job of a domain. A call that the job gives up goes on
-- in its goroutine until lego returns; what it answers then is dropped.
use certhub_server.Common.{
  ℕ, String, false, ◌&&◌, Option, none, some, ◌⊎◌, inl, inr, ◌==◌, str_eq, if◌then◌else◌,
}
use certhub_server.Common.Text.{◌+++◌}
use certhub_server.Models.{Certificate}
use certhub_server.Store.{not_found, Result, ok, err, first_domain}
use certhub_server.System.{
  Env, Act, CertResource, pure, fail, catch, when, outcome, exec, after, ◌>>=◌, ◌>>◌,
}
use certhub_server.CertJob.{context_err, job_active}
use certhub_server.DomainName.{normalize_domain}
use certhub_server.Acme.{Liveness, live, context_ended, superseded, require_acme_active}
use certhub_server.Acme.Lego.{
  Lego, AcmeUser, AcmeError, inactive, statement, failure, wrapped, effective_ca_url, drawn,
  returned, or_failure,
}
use certhub_server.Acme.Account.{
  load_or_create_acme_account, load_acme_registration, save_acme_registration,
}

-- An error of a step that has no value.
unfoldable pub failed_with : Option String → Result AcmeError (Unit {0})
failed_with none = ok tt
failed_with (some text) = err (failure text)

unfoldable pub if_live : Liveness → Result AcmeError (Unit {0})
if_live live = ok tt
if_live context_ended = err (inactive context_ended)
if_live superseded = err (inactive superseded)

-- BuildCertResource
unfoldable pub build_cert_resource : Env → Certificate → String ⊎ CertResource
build_cert_resource env cert = elim (env.decrypt cert.key_pem) [
  | inl text ↦ inl text
  | inr key ↦ inr (record {
    domain = cert.domain;
    cert_url = cert.cert_url;
    cert_stable_url = cert.cert_stable_url;
    certificate = cert.cert_pem;
    private_key = key;
    issuer_certificate = cert.issuer;
  })
]

-- A call of the authority, while the other goroutines go on.
unfoldable pub ask_authority : Env → {A : Type 0} → (ℕ → String ⊎ A) → Act AcmeError A
ask_authority env f w = (or_failure (f w.event), after w (env.others w.event w.shared))

module _ (env : Env) (lib : Lego) where
  unfoldable pub delegation_target_lookup : ℕ → String → Act AcmeError String
  delegation_target_lookup user_id name = do
    let domain_name = normalize_domain lib.trim_space env.to_lower (λ s. none) (λ s. false) name
    domain ←
        catch (exec env (first_domain (λ d. str_eq d.domain domain_name && d.user_id == user_id)))
          (λ e. elim e [
            | not_found ↦
                fail (failure ("domain " +++ env.quote domain_name +++ " not found for user"))
            | other ↦ fail (statement other)
          ])
    if str_eq domain.cname_target ""
        then fail (
            failure
              ("domain " +++ env.quote domain_name +++ " has no delegation target configured"))
        else pure domain.cname_target

  -- The context is that of the job with the token, its scope asks for the job's entry.
  module _ (domain_id token : ℕ) where
    unfoldable pub require_active : Act AcmeError (Unit {0})
    require_active = do
      done ← context_err env token
      alive ← (if done then pure false else job_active env domain_id token)
      returned (if_live (require_acme_active done (some alive)))

    -- newLegoClient: what it makes is used through the calls of `Lego`.
    unfoldable pub new_lego_client : Act AcmeError (Unit {0})
    new_lego_client = do
      made ← drawn (λ n. lib.new_client n (effective_ca_url lib env.config))
      returned (failed_with made)
      provider ← drawn lib.new_cloudflare
      catch (returned (failed_with provider)) (λ e. fail (wrapped "cloudflare client: " e))
      set' ← drawn lib.set_provider
      returned (failed_with set')

    unfoldable pub run_acme_with_context : Act AcmeError CertResource → Act AcmeError CertResource
    run_acme_with_context run = do
      require_active
      result ← outcome (do require_active; run)
      done ← context_err env token
      when done (fail (inactive context_ended))
      require_active
      returned result

    unfoldable pub obtain_with_context : AcmeUser lib → String → Act AcmeError CertResource
    obtain_with_context user domain =
        let ca = effective_ca_url lib env.config in
        run_acme_with_context
          (ask_authority env (λ n. lib.obtain n ca user.key user.registration domain))

    unfoldable pub renew_with_context : AcmeUser lib → CertResource → Act AcmeError CertResource
    renew_with_context user existing =
        let ca = effective_ca_url lib env.config in
        run_acme_with_context
          (ask_authority env (λ n. lib.renew n ca user.key user.registration existing))

    module _ (user_id : ℕ) where
      abbrev pub registered_user : AcmeUser lib → lib.Registration → AcmeUser lib
      registered_user user reg = record {
        email = user.email;
        registration = some reg;
        key = user.key;
      }

      -- The fallbacks of ensureRegistered: another job of the user may have registered it.
      unfoldable pub known_or :
          AcmeUser lib
          → AcmeError
          → Result AcmeError (Option lib.Registration)
          → Act AcmeError (AcmeUser lib)
      known_or user e (ok (some reg)) = pure (registered_user user reg)
      known_or user e (ok none) = fail e
      known_or user e (err db_err) = fail e

      unfoldable pub reload_or : AcmeUser lib → AcmeError → Act AcmeError (AcmeUser lib)
      reload_or user e = do
        known ← outcome (load_acme_registration env lib user_id)
        known_or user e known

      unfoldable pub save_or_reload :
          AcmeUser lib → Result AcmeError lib.Registration → Act AcmeError (AcmeUser lib)
      save_or_reload user (err e) = reload_or user (wrapped "ACME registration: " e)
      save_or_reload user (ok reg) =
          catch (do n ← save_acme_registration env lib user_id reg; pure (registered_user user reg))
            (λ e. reload_or user (wrapped "save ACME registration: " e))

      unfoldable pub register_unless :
          AcmeUser lib → Option lib.Registration → Act AcmeError (AcmeUser lib)
      register_unless user (some reg) = pure (registered_user user reg)
      register_unless user none = do
        let ca = effective_ca_url lib env.config
        answer ← outcome (ask_authority env (λ n. lib.register n ca user.key))
        save_or_reload user answer

      -- The registration of a user that was loaded with it or without.
      unfoldable pub registered_or_load :
          AcmeUser lib → Option lib.Registration → Act AcmeError (AcmeUser lib)
      registered_or_load user (some reg) = pure user
      registered_or_load user none = do
        known ← load_acme_registration env lib user_id
        register_unless user known

      -- The user with the registration that the call has set.
      unfoldable pub ensure_registered : AcmeUser lib → Act AcmeError (AcmeUser lib)
      ensure_registered user = do require_active; registered_or_load user user.registration

      -- What ObtainCertificate and RenewExistingCertificate begin with.
      unfoldable pub prepared : String → Act AcmeError (AcmeUser lib)
      prepared email = do
        require_active
        user ← load_or_create_acme_account env lib user_id email
        new_lego_client
        ensure_registered user

      unfoldable pub obtain_certificate : String → String → Act AcmeError CertResource
      obtain_certificate domain email = do user ← prepared email; obtain_with_context user domain

      unfoldable pub renew_existing_certificate : String → CertResource → Act AcmeError CertResource
      renew_existing_certificate email existing = do
        user ← prepared email
        if str_eq existing.cert_url ""
            then obtain_certificate existing.domain email
            else catch (renew_with_context user existing) (λ e. fail (wrapped "ACME renew: " e))
