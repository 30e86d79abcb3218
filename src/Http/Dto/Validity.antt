-- ===== src/Http/Dto/Validity.antt =====
-- What the interface shows as the status of a certificate.
use certhub_server.Common.{
  String, Bool, true, false, Option, none, some, ◌≡◌, refl, ◌↔◌, arith, if◌then◌else◌, str_eq,
  eq_iff,
}
use certhub_server.Common.Int.{ltb_ℤ}
use certhub_server.Models.{
  Time, Status, pending, verified, generating, active, error, other, Certificate,
}
use certhub_server.Http.Dto.{map_cert_status, cert_validity}

-- The certificate is there and has not expired.
abbrev pub Current : Time → Option Certificate → Type 0
Current now none = ⊥
Current now (some cert) = ltb_ℤ cert.expires_at now ≡ false

abbrev valid : String
valid = "valid"

-- No other word is "valid".
another_word : (word : String) → str_eq word "valid" ≡ false → word ≡ valid → ⊥
another_word word differs e = ground (arith, eq_iff word "valid")

late_or_pending :
    (late : Bool) → ◌≡◌ {A = String} (if late then "expired" else "pending") "valid" → ⊥
late_or_pending true e = another_word "expired" refl e
late_or_pending false e = another_word "pending" refl e

-- The interface calls a certificate valid just when its domain is active and it is there and has
-- not expired.
pub map_cert_status_iff :
    (now : Time) (status : Status) (cert : Option Certificate)
    → (map_cert_status now status cert ≡ "valid") ↔ ((status ≡ active) × Current now cert)
unfolding map_cert_status cert_validity
map_cert_status_iff now active none = (λ e. absurd (another_word "none" refl e), λ h. absurd h.1)
map_cert_status_iff now active (some c) = active_iff (ltb_ℤ c.expires_at now)
  where
    active_iff :
        (late : Bool)
        → ((if late then "expired" else "valid") ≡ valid)
          ↔ ((◌≡◌ {A = Status} active active) × (late ≡ false))
    active_iff true = (λ e. absurd (another_word "expired" refl e), λ h. absurd (ground arith))
    active_iff false = (λ e. (refl, refl), λ h. refl)
map_cert_status_iff now verified none =
    (λ e. absurd (another_word "none" refl e), λ h. absurd (ground arith))
map_cert_status_iff now verified (some c) =
    (λ e. absurd (late_or_pending (ltb_ℤ c.expires_at now) e), λ h. absurd (ground arith))
map_cert_status_iff now pending none =
    (λ e. absurd (another_word "none" refl e), λ h. absurd (ground arith))
map_cert_status_iff now pending (some c) =
    (λ e. absurd (late_or_pending (ltb_ℤ c.expires_at now) e), λ h. absurd (ground arith))
map_cert_status_iff now (other text) none =
    (λ e. absurd (another_word "none" refl e), λ h. absurd (ground arith))
map_cert_status_iff now (other text) (some c) =
    (λ e. absurd (late_or_pending (ltb_ℤ c.expires_at now) e), λ h. absurd (ground arith))
map_cert_status_iff now generating cert =
    (λ e. absurd (another_word "generating" refl e), λ h. absurd (ground arith))
map_cert_status_iff now error cert =
    (λ e. absurd (another_word "failed" refl e), λ h. absurd (ground arith))
