-- ===== src/Start/Api.antt =====
-- controllers/certificate_api.go: the handlers for certificates.
use Prim.Native.Nat.{ℕ}
use certhub_server.Common.{
  String, Bool, true, false, not, ◌&&◌, Option, none, some, List, [], ◌∷◌, ◌++◌, ◌⊎◌, inl, inr,
  ◌==◌, str_eq, if◌then◌else◌, is_none,
}
use certhub_server.Common.Text.{◌+++◌, format_uint}
use certhub_server.Models.{Time, Bytes, Domain, Certificate}
use certhub_server.Store.{first_domain, first_certificate, find_domains}
use certhub_server.System.{Env, Act, pure, fail, when, now, exec, ◌>>=◌, ◌>>◌}
use certhub_server.Pem.{parse_cert_meta}
use certhub_server.Http.{
  Web, Session, Response, respond_success, respond_error, cert_started, certificate_data,
  certificates_data, download_data, zip_file, require_user_id, or_answer, exec_or, owned_by,
  domain_not_found, get_domain_owned, load_certificate,
}
use certhub_server.Http.Dto.{
  CertificateInfoDto, to_certificate_info_dto, to_certificate_download_dto,
}
use certhub_server.Start.{begin_cert_operation, start_cert_job}

module _ (env : Env) (web : Web) where
  unfoldable pub issue_certificate_internal : Session → ℕ → Bool → Act Response Response
  issue_certificate_internal session domain_id force_renew = do
    user_id ← require_user_id session
    domain ← exec_or domain_not_found (exec env (first_domain (owned_by domain_id user_id)))
    cert ← (if force_renew then pure none else load_certificate env domain.id)
    when (not (is_none cert)) (
        fail (
          respond_error 409
            "Certificate already exists; set forceRenew to true or use the renew endpoint"))
    user ← begin_cert_operation env domain force_renew
    token ← start_cert_job env domain
    pure (
        respond_success
          (cert_started "Certificate issuance started. Refresh the domain to check status."))

  -- An empty body is no error, and leaves forceRenew false.
  unfoldable pub issue_certificate : Session → String → String ⊎ Bool → Act Response Response
  issue_certificate session id (inl text) = do
    domain ← get_domain_owned env web session id
    fail (respond_error 400 text)
  issue_certificate session id (inr force_renew) = do
    domain ← get_domain_owned env web session id
    issue_certificate_internal session domain.id force_renew

  unfoldable pub generate_certificate : Session → String ⊎ ℕ → Act Response Response
  generate_certificate session (inl text) = fail (respond_error 400 text)
  generate_certificate session (inr domain_id) = issue_certificate_internal session domain_id false

  unfoldable pub renew_certificate : Session → String ⊎ ℕ → Act Response Response
  renew_certificate session (inl text) = fail (respond_error 400 text)
  renew_certificate session (inr domain_id) = issue_certificate_internal session domain_id true

  unfoldable pub get_certificate_info : Session → String → Act Response Response
  get_certificate_info session id = do
    domain ← get_domain_owned env web session id
    cert ← load_certificate env domain.id
    t ← now env
    pure (
        respond_success (
          certificate_data
            (to_certificate_info_dto web.format_time (parse_cert_meta env.pem) t domain cert)))

  -- The archive, whose files may stand in any order. Writing it to memory does not fail.
  unfoldable pub write_certificate_zip : String → Certificate → Bytes → Response
  write_certificate_zip domain_name cert key_pem = respond_success (
      zip_file (domain_name +++ "-certificate.zip") (
        ("cert.pem", cert.cert_pem)
        ∷ ("privkey.pem", key_pem)
        ∷ ("chain.pem", cert.issuer)
        ∷ ("fullchain.pem", cert.cert_pem ++ 10 ∷ cert.issuer)
        ∷ []))

  downloaded : String → String → Certificate → String ⊎ Bytes → Act Response Response
  downloaded format name cert (inl text) = fail (respond_error 500 "Failed to decrypt private key")
  downloaded format name cert (inr key_pem) = pure (
      if str_eq format "zip"
      then write_certificate_zip name cert key_pem
      else respond_success (download_data (to_certificate_download_dto web.text_of cert key_pem)))

  unfoldable pub download_domain_certificate : Session → String → String → Act Response Response
  unfolding downloaded
  download_domain_certificate session id format = do
    domain ← get_domain_owned env web session id
    found ← load_certificate env domain.id
    cert ← or_answer (respond_error 404 "Certificate not found") found
    downloaded format domain.domain cert (env.decrypt cert.key_pem)

  infos_of : Time → Domain → Option Certificate → List CertificateInfoDto
  infos_of t d none = []
  infos_of t d (some cert) =
      to_certificate_info_dto web.format_time (parse_cert_meta env.pem) t d (some cert) ∷ []

  certificate_infos : List Domain → Act Response (List CertificateInfoDto)
  certificate_infos [] = pure []
  certificate_infos (d ∷ ds) = do
    cert ← load_certificate env d.id
    t ← now env
    rest ← certificate_infos ds
    pure (infos_of t d cert ++ rest)

  unfoldable pub list_certificates : Session → Act Response Response
  unfolding infos_of certificate_infos
  list_certificates session = do
    user_id ← require_user_id session
    domains ←
        exec_or (respond_error 500 "Failed to fetch certificates")
          (exec env (find_domains (λ d. d.user_id == user_id)))
    result ← certificate_infos domains
    pure (respond_success (certificates_data result))

  -- The key of a certificate is compared with the text of the path as a number; another text is
  -- an error of the engine. The handler goes on with the domain of the certificate.
  unfoldable pub download_certificate : Session → Option ℕ → String → Act Response Response
  download_certificate session cert_id format = do
    user_id ← require_user_id session
    id ← or_answer (respond_error 404 "Certificate not found") cert_id
    cert ←
        exec_or (respond_error 404 "Certificate not found")
          (exec env (first_certificate (λ c. c.id == id && c.user_id == user_id)))
    download_domain_certificate session (format_uint cert.domain_id) format
