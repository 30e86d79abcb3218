-- ===== src/Domains/Requests.antt =====
-- controllers/domain.go and controllers/cname.go: the handlers that read, change and delete domains.
use certhub_server.Common.{
  String, Bool, true, false, not, ◌&&◌, Option, none, some, List, [], ◌∷◌, ◌⊎◌, inl, inr, ◌==◌,
  str_eq, if◌then◌else◌,
}
use certhub_server.Models.{Domain, is_generating}
use certhub_server.Store.{Result, ok, err, first_domain, find_domains, soft_delete_domain}
use certhub_server.System.{Env, Act, pure, fail, catch, when, outcome, now, exec, ◌>>=◌, ◌>>◌}
use certhub_server.Cname.{verify_challenge_cname}
use certhub_server.Lifecycle.{has_id, update_where, mark_domain_cname_verified}
use certhub_server.Http.{
  Web, Session, Response, respond_success, respond_error, no_data, domains_data, cname_data,
  not_verified, verified_at, require_user_id, exec_or, get_domain_owned, load_domain_dto,
  answer_domain,
}
use certhub_server.Http.Dto.{DomainDto, to_cname_config_dto}
use certhub_server.Domains.{switched_row, remove_dependents}

module _ (env : Env) (web : Web) where
  dtos : List Domain → Act Response (List DomainDto)
  dtos [] = pure []
  dtos (d ∷ ds) = do dto ← load_domain_dto env web d; rest ← dtos ds; pure (dto ∷ rest)

  -- The parameter is `ORDER BY created_at desc`.
  unfoldable pub list_domains : (List Domain → List Domain) → Session → Act Response Response
  unfolding dtos
  list_domains newest_first session = do
    user_id ← require_user_id session
    domains ←
        exec_or (respond_error 500 "Failed to fetch domains")
          (exec env (find_domains (λ d. d.user_id == user_id)))
    result ← dtos (newest_first domains)
    pure (respond_success (domains_data result))

  unfoldable pub get_domain : Session → String → Act Response Response
  get_domain session id = do
    domain ← get_domain_owned env web session id
    answer_domain env web domain

  unfoldable pub update_with : Domain → String ⊎ Option Bool → Act Response Response
  update_with domain (inl text) = fail (respond_error 400 text)
  update_with domain (inr none) = fail (respond_error 400 "autoRenew is required")
  update_with domain (inr (some auto_renew)) = do
    n ←
        exec_or (respond_error 500 "Failed to update domain")
          (update_where env (has_id domain.id) (switched_row auto_renew))
    updated ←
        exec_or (respond_error 500 "Failed to load updated domain")
          (exec env (first_domain (has_id domain.id)))
    answer_domain env web updated

  unfoldable pub update_domain : Session → String → String ⊎ Option Bool → Act Response Response
  unfolding update_with
  update_domain session id input = do
    domain ← get_domain_owned env web session id
    update_with domain input

  unfoldable pub delete_domain : Session → String → Act Response Response
  delete_domain session id = do
    domain ← get_domain_owned env web session id
    when (is_generating domain.status) (
        fail (respond_error 409 "Cannot delete domain while certificate generation is in progress"))
    remove_dependents env web domain.id
    t ← now env
    n ←
        exec_or (respond_error 500 "Failed to delete domain")
          (exec env (soft_delete_domain t domain.id))
    pure (respond_success no_data)

  live_option : Result String (Unit {0}) → Bool
  live_option (ok u) = true
  live_option (err text) = false

  -- strings.ToLower(strings.TrimSpace(c.DefaultQuery("live", "true")))
  unfoldable pub cname_live_check_enabled : String → Bool
  cname_live_check_enabled live =
      let word = env.to_lower (web.trim_space live) in
      not (str_eq word "0")
      && not (str_eq word "false")
      && not (str_eq word "no")
      && not (str_eq word "off")

  unfoldable pub get_cname : Session → String → String → Act Response Response
  unfolding live_option
  get_cname session id live = do
    domain ← get_domain_owned env web session id
    live_verified ←
        (if cname_live_check_enabled live && not (str_eq domain.cname_target "")
          then (do
            checked ← outcome (verify_challenge_cname env domain.domain domain.cname_target)
            pure (some (live_option checked)))
          else pure none)
    pure (respond_success (cname_data (to_cname_config_dto web.format_time domain live_verified)))

  unfoldable pub verify_cname : Session → String → Act Response Response
  verify_cname session id = do
    domain ← get_domain_owned env web session id
    when (str_eq domain.cname_target "")
        (fail (respond_success (not_verified "CNAME target not configured for this domain")))
    catch (verify_challenge_cname env domain.domain domain.cname_target)
        (λ text. fail (respond_success (not_verified text)))
    t ← now env
    n ←
        exec_or (respond_error 500 "Failed to update domain status")
          (mark_domain_cname_verified env domain.id)
    pure (
        respond_success (
          verified_at (web.format_time t)
            "CNAME delegation verified; you may request a certificate"))
