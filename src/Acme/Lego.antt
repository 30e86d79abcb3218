-- ===== src/Acme/Lego.antt =====
-- What services/lego.go takes from other packages, its errors, and the encodings of keys and
-- registrations. Keys, registrations and their formats are those of crypto/ecdsa, crypto/x509,
-- encoding/pem, encoding/json and lego, which are parameters.
use certhub_server.Common.{
  ℕ, String, Bool, true, false, Option, none, some, [], ◌∷◌, ◌⊎◌, inl, inr, str_eq, if◌then◌else◌,
}
use certhub_server.Common.Text.{trim_slash}
use certhub_server.Config.{Config}
use certhub_server.Models.{Bytes}
use certhub_server.Store.{DbError, not_found, Result, ok, err}
use certhub_server.System.{Act, CertResource}
use certhub_server.Acme.{Liveness}

-- Errors of the file: a context that has ended (or a superseded job, for context.Canceled), a
-- statement, a text of another package, an error of one that the parameters give no text of, and
-- what fmt.Errorf wraps with %w.
pub data AcmeError : Type 0 where
  inactive : Liveness → AcmeError
  statement : DbError → AcmeError
  failure : String → AcmeError
  library : AcmeError
  wrapped : String → AcmeError → AcmeError

-- errors.Is(err, gorm.ErrRecordNotFound)
unfoldable pub is_not_found : AcmeError → Bool
is_not_found (statement not_found) = true
is_not_found (wrapped text e) = is_not_found e
is_not_found _ = false

-- The libraries: a private key and a registration as lego has them, by the number of the event
-- where a call may end one way or the other. `register`, `obtain` and `renew` are the calls of the
-- certificate authority, which get its directory's address.
pub record Lego : Type 1 where
  pub Key : Type 0
  pub Registration : Type 0
  pub generate_key : ℕ → Option Key
  pub marshal_key : Key → Option Bytes
  pub parse_key : Bytes → String ⊎ Key
  pub pem_encode : Bytes → Bytes
  pub pem_decode : Bytes → Option Bytes
  pub marshal : Registration → String ⊎ Bytes
  pub unmarshal : Bytes → String ⊎ Registration
  pub directory_production : String
  pub trim_space : String → String
  pub new_client : ℕ → String → Option String
  pub new_cloudflare : ℕ → Option String
  pub set_provider : ℕ → Option String
  pub register : ℕ → String → Key → String ⊎ Registration
  pub obtain : ℕ → String → Key → Option Registration → String → String ⊎ CertResource
  pub renew : ℕ → String → Key → Option Registration → CertResource → String ⊎ CertResource

module _ (lib : Lego) where
  pub record AcmeUser : Type 0 where
    pub email : String
    pub registration : Option lib.Registration
    pub key : lib.Key

  unfoldable pub normalize_ca_url : String → String
  normalize_ca_url url = trim_slash (lib.trim_space url)

  unfoldable pub effective_ca_url : Config → String
  effective_ca_url c = if str_eq c.acme.ca_url "" then lib.directory_production else c.acme.ca_url

  unfoldable pub parsed_key : Option Bytes → Result AcmeError lib.Key
  parsed_key none = err (failure "failed to decode EC private key PEM")
  parsed_key (some der) = elim (lib.parse_key der) [ inl text ↦ err (failure text) | inr k ↦ ok k ]

  unfoldable pub parse_ec_private_key : Bytes → Result AcmeError lib.Key
  unfolding parsed_key
  parse_ec_private_key pem = parsed_key (lib.pem_decode pem)

  unfoldable pub encode_ec_private_key : lib.Key → Option Bytes
  encode_ec_private_key key = elim (lib.marshal_key key) [
    | none ↦ none
    | some der ↦ some (lib.pem_encode der)
  ]

  -- A stored registration: none if there is none, an error if it cannot be read.
  unfoldable pub parsed_registration : Bytes → Result AcmeError (Option lib.Registration)
  parsed_registration [] = ok none
  parsed_registration (b ∷ bs) = elim (lib.unmarshal (b ∷ bs)) [
    | inl text ↦ err (wrapped "parse ACME registration: " (failure text))
    | inr reg ↦ ok (some reg)
  ]

-- The random bytes of a call, by its event.
unfoldable pub drawn {ℓ κ} : {E : Type ℓ} {A : Type κ} → (ℕ → A) → Act E A
drawn f w = (ok (f w.event), w)

-- An error that is known when it is returned.
unfoldable pub returned {ℓ κ} : {E : Type ℓ} {A : Type κ} → Result E A → Act E A
returned r w = (r, w)

unfoldable pub or_library {ℓ} : {A : Type ℓ} → Option A → Result AcmeError A
or_library none = err library
or_library (some a) = ok a

unfoldable pub or_failure {ℓ} : {A : Type ℓ} → String ⊎ A → Result AcmeError A
or_failure (inl text) = err (failure text)
or_failure (inr a) = ok a
