-- ===== src/Pem.antt =====
-- What the program reads in a PEM certificate: ParseCertExpiry of services/dns_verify.go, and
-- parseCertMeta and formatSerial of controllers/dto.go. The parameters are pem.Decode (the bytes of
-- the first block), x509.ParseCertificate and the format %X.
use certhub_server.Common.{String, Option, none, some, List, [], ◌∷◌, str_eq, if◌then◌else◌}
use certhub_server.Common.Int.{ℤ}
use certhub_server.Models.{Time, Bytes}

-- The fields of x509.Certificate that the program reads.
pub record X509 : Type 0 where
  pub common_name : String
  pub organization : List String
  pub serial_number : Option ℤ
  pub not_after : Time

pub record PemReader : Type 0 where
  pub decode : Bytes → Option Bytes
  pub parse_certificate : Bytes → Option X509
  pub format_hex : ℤ → String

parsed : PemReader → Option Bytes → Option X509
parsed lib none = none
parsed lib (some block) = lib.parse_certificate block

expiry_of : Option X509 → Option Time
expiry_of none = none
expiry_of (some cert) = some cert.not_after

-- none is either error.
unfoldable pub parse_cert_expiry : PemReader → Bytes → Option Time
unfolding parsed expiry_of
parse_cert_expiry lib pem = expiry_of (parsed lib (lib.decode pem))

unfoldable pub format_serial : PemReader → Option ℤ → String
format_serial lib none = ""
format_serial lib (some n) = lib.format_hex n

first_or : String → List String → String
first_or default [] = default
first_or default (x ∷ xs) = x

issuer_of : X509 → String
unfolding first_or
issuer_of cert =
    if str_eq cert.common_name ""
    then first_or cert.common_name cert.organization
    else cert.common_name

meta_in : PemReader → Option X509 → String × String
unfolding issuer_of format_serial
meta_in lib none = ("", "")
meta_in lib (some cert) = (issuer_of cert, format_serial lib cert.serial_number)

unfoldable pub parse_cert_meta : PemReader → Bytes → String × String
unfolding parsed meta_in
parse_cert_meta lib cert_pem = meta_in lib (parsed lib (lib.decode cert_pem))
