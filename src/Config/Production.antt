-- ===== src/Config/Production.antt =====
-- What a configuration that passes Validate outside the development mode satisfies.
use Prim.Native.Nat.{ℕ}
use certhub_server.Common.{
  String, false, ◌≡◌, refl, ◌≢◌, ◌⊎◌, ◌↔◌, Option, none, some, List, [], ◌∷◌, All, any, arith,
  eq_iff, str_eq,
}
use certhub_server.Config.{Config}
use certhub_server.Config.Defaults.{default_session_secret}
use certhub_server.Config.Validation.{
  validate, is_dev_mode, validate_session_and_cors, validate_rest, or_else, ConfigError,
}

pub record IsProductionReady (decode_key : String → Option ℕ) (c : Config) : Type 0 where
  pub secret_set : c.session.secret ≢ ""
  pub secret_changed : c.session.secret ≢ default_session_secret
  pub origins : c.server.allowed_origins ≢ []
  pub no_wildcard : All (λ o. o ≢ "*") c.server.allowed_origins
  pub auth_zone : c.dns.auth_zone ≢ ""
  pub credentials :
      (c.dns.cloudflare.api_token ≢ "")
      ⊎ ((c.dns.cloudflare.api_email ≢ "") × (c.dns.cloudflare.api_key ≢ ""))
  pub key : c.security.encryption_key ≢ ""
  pub key_size : decode_key c.security.encryption_key ≡ some 32

pub any-false : (os : List String) → (any (λ o. str_eq o "*") os ≡ false) ↔ All (λ o. o ≢ "*") os
any-false [] = (λ _. tt, λ _. refl)
any-false (o ∷ os) = ground (arith, any-false os, eq_iff o "*")

abbrev HasSession : Config → Type 0
HasSession c =
    (c.session.secret ≢ "")
    × (c.session.secret ≢ default_session_secret)
    × (c.server.allowed_origins ≢ [])
    × All (λ o. o ≢ "*") c.server.allowed_origins

session_iff :
    (dev_env : Option String) (c : Config)
    → is_dev_mode dev_env c.security ≡ false
    → (validate_session_and_cors dev_env c ≡ none) ↔ HasSession c
unfolding validate_session_and_cors
session_iff dev_env c prod = rw prod (
    ground (
      arith,
      eq_iff c.session.secret "",
      eq_iff c.session.secret default_session_secret,
      any-false c.server.allowed_origins,
    ))

abbrev HasServices : Option ℕ → Config → Type 0
HasServices size c =
    (c.dns.auth_zone ≢ "")
    × ((c.dns.cloudflare.api_token ≢ "")
        ⊎ ((c.dns.cloudflare.api_email ≢ "") × (c.dns.cloudflare.api_key ≢ "")))
    × (c.security.encryption_key ≢ "")
    × (size ≡ some 32)

services_iff :
    (size : Option ℕ) (c : Config) → (validate_rest false c size ≡ none) ↔ HasServices size c
unfolding validate_rest
services_iff none c = ground (
  arith,
  eq_iff c.dns.auth_zone "",
  eq_iff c.dns.cloudflare.api_token "",
  eq_iff c.dns.cloudflare.api_email "",
  eq_iff c.dns.cloudflare.api_key "",
  eq_iff c.security.encryption_key "",
)
services_iff (some n) c = ground (
  arith,
  eq_iff c.dns.auth_zone "",
  eq_iff c.dns.cloudflare.api_token "",
  eq_iff c.dns.cloudflare.api_email "",
  eq_iff c.dns.cloudflare.api_key "",
  eq_iff c.security.encryption_key "",
)

or_else_iff : (a b : Option ConfigError) → (or_else a b ≡ none) ↔ ((a ≡ none) × (b ≡ none))
unfolding or_else
or_else_iff a b = ground arith

-- Outside the development mode Validate accepts exactly the configurations with a session secret
-- of their own, a list of origins with no "*" in it, a DNS zone, Cloudflare credentials and a key
-- that decodes to 32 bytes.
pub validate_iff :
    (decode_key : String → Option ℕ) (dev_env : Option String) (c : Config)
    → is_dev_mode dev_env c.security ≡ false
    → (validate decode_key dev_env c ≡ none) ↔ IsProductionReady decode_key c
unfolding validate
validate_iff decode_key dev_env c prod =
    let size = decode_key c.security.encryption_key in
    let both = or_else_iff (validate_session_and_cors dev_env c) (validate_rest false c size) in
    let front = session_iff dev_env c prod in
    let rest = services_iff size c in
    rw prod (
      λ e.
          let (s1, s2, s3, s4) = front.0 (both.0 e).0 in
          let (r1, r2, r3, r4) = rest.0 (both.0 e).1 in
          record {
            secret_set = s1;
            secret_changed = s2;
            origins = s3;
            no_wildcard = s4;
            auth_zone = r1;
            credentials = r2;
            key = r3;
            key_size = r4;
          },
      λ r. both.1 (
        front.1 (r.secret_set, r.secret_changed, r.origins, r.no_wildcard),
        rest.1 (r.auth_zone, r.credentials, r.key, r.key_size),
      ),
    )
