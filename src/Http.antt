-- ===== src/Http.antt =====
-- What a handler is: a request, of which gin has read the parts, and an answer
-- (utils/response.go, utils/session.go, controllers/helpers.go, controllers/dto.go). An early
-- return with an answer is the error of the action.
pub mod Dto
pub mod Timed
use Prim.Native.Nat.{ℕ, zero, suc, ◌-◌, ◌^◌}
use certhub_server.Common.Int.{ℤ, pos, negsuc}
use certhub_server.Common.{
  String, Bool, true, false, ◌&&◌, Option, none, some, List, ◌⊎◌, ◌==◌, if◌then◌else◌,
}
use certhub_server.Models.{Time, Bytes, Domain, Certificate, User, DeployTarget, DeployJob}
use certhub_server.Store.{DbError, Result, ok, err, first_domain, first_certificate}
use certhub_server.System.{Env, Act, pure, fail, catch, now, exec, outcome, ◌>>=◌}
use certhub_server.CertJob.{of_domain}
use certhub_server.Http.Dto.{
  DomainDto, CnameConfigDto, CertificateInfoDto, CertificateDownloadDto, DeployTargetDto,
  DeployJobDto, to_domain_dto,
}

-- The data of a successful answer, by the handlers that send it.
pub data Payload : Type 0 where
  no_data : Payload
  domain_data : DomainDto → Payload
  domains_data : List DomainDto → Payload
  cname_data : CnameConfigDto → Payload
  not_verified : String → Payload
  verified_at : String → String → Payload
  cert_started : String → Payload
  certificate_data : CertificateInfoDto → Payload
  certificates_data : List CertificateInfoDto → Payload
  download_data : CertificateDownloadDto → Payload
  zip_file : String → List (String × Bytes) → Payload
  target_data : DeployTargetDto → Payload
  targets_data : List DeployTargetDto → Payload
  job_data : DeployJobDto → Payload
  user_data : ℕ → String → Payload
  message_data : String → Payload

-- The HTTP status, and the APIResponse. An archive is sent by itself, as an attachment with a file
-- name, and the code and the message are not sent with it.
pub record Response : Type 0 where
  pub http_status : ℕ
  pub code : ℕ
  pub message : String
  pub body : Option Payload

abbrev pub code_success : ℕ
code_success = 0

abbrev pub code_need_login : ℕ
code_need_login = 403

abbrev pub respond_need_login : Response
respond_need_login = record {
  http_status = 200;
  code = code_need_login;
  message = "Unauthorized, please login";
  body = none;
}

abbrev pub respond_success : Payload → Response
respond_success payload = record {
  http_status = 200;
  code = code_success;
  message = "";
  body = some payload;
}

abbrev pub respond_error : ℕ → String → Response
respond_error http_status message = record {
  http_status = http_status;
  code = 1;
  message = message;
  body = none;
}

-- The functions of other libraries that only handlers use: time.Time.Format for RFC3339,
-- strconv.ParseUint, and those of domain names.
pub record Web : Type 0 where
  pub format_time : Time → String
  pub parse_uint : String → Option ℕ
  pub text_of : Bytes → String
  pub trim_space : String → String
  pub to_ascii : String → Option String
  pub parses_ip : String → Bool

-- What GetUserID finds under "userID", where AuthMiddleware put it; `get_user_id` is how.
abbrev pub Session : Type 0
Session = Option ℕ

-- What a session store keeps: it may return a number in another type than it was given. `F` is
-- float64.
pub data SessionValue (F : Type 0) : Type 0 where
  as_uint : ℕ → SessionValue F
  as_int : ℤ → SessionValue F
  as_float64 : F → SessionValue F
  as_other : SessionValue F

-- uint(v), for 64 bits.
unfoldable pub uint_of_int : ℤ → ℕ
uint_of_int (pos n) = n
uint_of_int (negsuc n) = 2 ^ 64 - 1 - n

unfoldable pub get_user_id : {F : Type 0} → (F → ℕ) → Option (SessionValue F) → Session
get_user_id uint_of_float none = none
get_user_id uint_of_float (some (as_uint n)) = some n
get_user_id uint_of_float (some (as_int n)) = some (uint_of_int n)
get_user_id uint_of_float (some (as_float64 x)) = some (uint_of_float x)
get_user_id uint_of_float (some as_other) = none

unfoldable pub parse_domain_id : Web → String → Option ℕ
parse_domain_id web raw = nonzero (web.parse_uint raw)
  where
    nonzero : Option ℕ → Option ℕ
    nonzero none = none
    nonzero (some n) = if n == 0 then none else some n

-- Goes on with the value, or answers.
abbrev pub or_answer {ℓ} : {A : Type ℓ} → Response → Option A → Act Response A
or_answer response none = fail response
or_answer response (some a) = pure a

-- `if err := …; err != nil { RespondError(…); return }`
unfoldable pub exec_or {ℓ} : {E : Type ℓ} {A : Type 0} → Response → Act E A → Act Response A
exec_or response m = catch m (λ _. fail response)

unfoldable pub require_user_id : Session → Act Response ℕ
require_user_id session = or_answer respond_need_login session

-- `id = ? AND user_id = ?`
abbrev pub owned_by : ℕ → ℕ → Domain → Bool
owned_by id user_id d = d.id == id && d.user_id == user_id

abbrev pub domain_not_found : Response
domain_not_found = respond_error 404 "Domain not found"

option_of {ℓ} : {A : Type ℓ} → Result DbError A → Option A
option_of (ok a) = some a
option_of (err e) = none

module _ (env : Env) where
  unfoldable pub load_certificate {ℓ} : {E : Type ℓ} → ℕ → Act E (Option Certificate)
  unfolding option_of
  load_certificate domain_id = do
    found ← outcome (exec env (first_certificate (of_domain domain_id)))
    pure (option_of found)

module _ (env : Env) (web : Web) where
  unfoldable pub get_domain_owned : Session → String → Act Response Domain
  get_domain_owned session raw = do
    user_id ← require_user_id session
    domain_id ← or_answer (respond_error 400 "Invalid domain id") (parse_domain_id web raw)
    exec_or domain_not_found (exec env (first_domain (owned_by domain_id user_id)))

  unfoldable pub load_domain_dto {ℓ} : {E : Type ℓ} → Domain → Act E DomainDto
  load_domain_dto domain = do
    cert ← load_certificate env domain.id
    t ← now env
    pure (to_domain_dto web.format_time t domain cert)

  -- The answer that most handlers on domains end with.
  unfoldable pub answer_domain : Domain → Act Response Response
  answer_domain domain = do dto ← load_domain_dto domain; pure (respond_success (domain_data dto))
