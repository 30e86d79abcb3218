-- ===== src/Http/Dto.antt =====
-- controllers/dto.go: what the interface shows of a row. `now` is the time of the call, and times
-- are printed by the parameter `format_time`.
pub mod Validity
use Prim.Native.Nat.{ℕ}
use certhub_server.Common.{
  String, Bool, true, false, not, ◌&&◌, ◌||◌, Option, none, some, List, [], ◌∷◌, str_eq,
  if◌then◌else◌, is_none,
}
use mathlib.Core.Option
use certhub_server.Common.Text.{◌+++◌, format_uint}
use certhub_server.Common.Int.{ℤ, pos, negsuc, ltb_ℤ, leb_ℤ}
use certhub_server.Models.{
  Time, Bytes, Status, pending, verified, generating, active, error, other, Domain, Certificate,
  DeployTarget, DeployJob, zero_time, is_active_status,
}

pub record DomainDto : Type 0 where
  pub id : String
  pub name : String
  pub status : String
  pub cert_status : String
  pub cert_expires_at : Option String
  pub auto_renew : Bool
  pub renew_error : Option String
  pub created_at : String

pub record CnameRecordDto : Type 0 where
  pub type : String
  pub name : String
  pub value : String
  pub verified : Bool

pub record CnameConfigDto : Type 0 where
  pub domain_id : String
  pub records : List CnameRecordDto
  pub instructions : String
  pub note : String
  pub verified : Bool
  pub verified_at : Option String
  pub live_checked : Bool

pub record CertificateInfoDto : Type 0 where
  pub domain_id : String
  pub status : String
  pub expires_at : Option String
  pub issuer : String
  pub serial_number : String

pub record CertificateDownloadDto : Type 0 where
  pub certificate : String
  pub private_key : String
  pub chain : String
  pub fullchain : String

pub record DeployTargetDto : Type 0 where
  pub id : String
  pub name : String
  pub type : String
  pub host : String
  pub port : Option ℤ
  pub enabled : Bool
  pub last_deploy_at : Option String
  pub last_status : String

pub record DeployJobTargetDto : Type 0 where
  pub target_id : String
  pub target_name : String
  pub status : String
  pub message : String

pub record DeployJobDto : Type 0 where
  pub id : String
  pub status : String
  pub targets : List DeployJobTargetDto
  pub created_at : String
  pub finished_at : Option String

abbrev pub same_time : Time → Time → Bool
same_time a b = leb_ℤ a b && leb_ℤ b a

unfoldable pub map_domain_status : Status → String
map_domain_status active = "active"
map_domain_status error = "failed"
map_domain_status generating = "generating"
map_domain_status verified = "verified"
map_domain_status _ = "pending"

-- What is left of mapCertStatus after the switch on the status.
unfoldable pub cert_validity : Time → Status → Option Certificate → String
cert_validity now status none = "none"
cert_validity now status (some cert) =
    if ltb_ℤ cert.expires_at now
    then "expired"
    else if is_active_status status
    then "valid"
    else "pending"

unfoldable pub map_cert_status : Time → Status → Option Certificate → String
map_cert_status now error cert = "failed"
map_cert_status now generating cert = "generating"
map_cert_status now status cert = cert_validity now status cert

-- A time that is shown unless it is Go's zero time.
shown_expiry : (Time → String) → Option Certificate → Option String
shown_expiry format_time none = none
shown_expiry format_time (some cert) =
    if same_time cert.expires_at zero_time then none else some (format_time cert.expires_at)

unfoldable pub to_domain_dto : (Time → String) → Time → Domain → Option Certificate → DomainDto
unfolding shown_expiry
to_domain_dto format_time now domain cert = record {
  id = format_uint domain.id;
  name = domain.domain;
  status = map_domain_status domain.status;
  cert_status = map_cert_status now domain.status cert;
  cert_expires_at = shown_expiry format_time cert;
  auto_renew = domain.auto_renew;
  renew_error =
      if not (str_eq domain.error_message "") && is_active_status domain.status
      then some domain.error_message
      else none;
  created_at = format_time domain.created_at;
}

abbrev pub is_cname_verified_status : Status → Bool
is_cname_verified_status verified = true
is_cname_verified_status active = true
is_cname_verified_status generating = true
is_cname_verified_status _ = false

-- The answer of a live check, or else what the status says, if there is a target.
cname_verified : Domain → Option Bool → Bool
cname_verified domain (some live) = live
cname_verified domain none =
    not (str_eq domain.cname_target "") && is_cname_verified_status domain.status

unfoldable pub to_cname_config_dto : (Time → String) → Domain → Option Bool → CnameConfigDto
unfolding cname_verified
to_cname_config_dto format_time domain live_verified =
    let cname_host = "_acme-challenge." +++ domain.domain in
    record {
      domain_id = format_uint domain.id;
      records =
          record {
            type = "CNAME";
            name = cname_host;
            value = domain.cname_target;
            verified = cname_verified domain live_verified;
          }
          ∷ [];
      instructions =
          "Add a CNAME record at your DNS host: " +++ cname_host +++ " → " +++ domain.cname_target;
      note =
          "CNAME delegation: add the record above at any DNS provider. ACME challenge TXT records are published automatically on the delegation target; no DNS API credentials are required from you.";
      verified = cname_verified domain live_verified;
      verified_at = Option.map format_time domain.cname_verified_at;
      live_checked = not (is_none live_verified);
    }

-- The issuer and the serial number that parseCertMeta reads.
meta_of : (Bytes → String × String) → Option Certificate → String × String
meta_of cert_meta none = ("", "")
meta_of cert_meta (some cert) = cert_meta cert.cert_pem

unfoldable pub to_certificate_info_dto :
    (Time → String)
    → (Bytes → String × String)
    → Time
    → Domain
    → Option Certificate
    → CertificateInfoDto
unfolding shown_expiry meta_of
to_certificate_info_dto format_time cert_meta now domain cert = record {
  domain_id = format_uint domain.id;
  status = map_cert_status now domain.status cert;
  expires_at = shown_expiry format_time cert;
  issuer = (meta_of cert_meta cert).0;
  serial_number = (meta_of cert_meta cert).1;
}

unfoldable pub to_certificate_download_dto :
    (Bytes → String) → Certificate → Bytes → CertificateDownloadDto
to_certificate_download_dto text_of cert key_pem =
    let cert_str = text_of cert.cert_pem in
    let chain_str = text_of cert.issuer in
    record {
      certificate = cert_str;
      private_key = text_of key_pem;
      chain = chain_str;
      fullchain = cert_str +++ "\n" +++ chain_str;
    }

abbrev pub is_positive : ℤ → Bool
is_positive n = ltb_ℤ (pos 0) n

unfoldable pub to_deploy_target_dto : (Time → String) → DeployTarget → DeployTargetDto
to_deploy_target_dto format_time t = record {
  id = format_uint t.id;
  name = t.name;
  type = t.type;
  host = t.host;
  port = if is_positive t.port then some t.port else none;
  enabled = t.enabled;
  last_deploy_at = Option.map format_time t.last_deploy_at;
  last_status = t.last_status;
}

-- `parse_targets` is json.Unmarshal of a list of targets.
targets_of : (Bytes → Option (List DeployJobTargetDto)) → Bytes → List DeployJobTargetDto
targets_of parse_targets [] = []
targets_of parse_targets (b ∷ bs) = list_of (parse_targets (b ∷ bs))
  where
    list_of : Option (List DeployJobTargetDto) → List DeployJobTargetDto
    list_of none = []
    list_of (some ts) = ts

unfoldable pub to_deploy_job_dto :
    (Time → String) → (Bytes → Option (List DeployJobTargetDto)) → DeployJob → DeployJobDto
unfolding targets_of
to_deploy_job_dto format_time parse_targets job = record {
  id = format_uint job.id;
  status = job.status;
  targets = targets_of parse_targets job.targets_json;
  created_at = format_time job.created_at;
  finished_at = Option.map format_time job.finished_at;
}
