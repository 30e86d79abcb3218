-- ===== src/Examples/Services.antt =====
-- Tests of the configuration, the limiters, domain names and encryption.
use Prim.Native.Nat.{ℕ, min, ◌*◌, ◌^◌, ◌-◌}
use certhub_server.Common.{
  inr, String, Bool, true, false, not, ◌&&◌, Option, none, some, List, [], ◌∷◌, ◌≡◌, refl, ◌↔◌,
  arith, find, inr, ltb, length, ◌==◌, any, str_eq, if◌then◌else◌,
}
use certhub_server.Common.Int.{ℤ, pos}
use certhub_server.Config.{Config}
use certhub_server.Config.Defaults.{set_defaults}
use certhub_server.Config.Durations.{auto_renew_backoff_duration, parse_duration_default, hour}
use certhub_server.Config.Backoff.{auto_renew_backoff_duration-doubles}
use certhub_server.Config.Production.{IsProductionReady, validate_iff}
use certhub_server.Config.Validation.{
  validate_key, validate, is_dev_mode, validate_session_and_cors, validate_rest, or_else,
}
use mathlib.Core.List.{Memᴰ}
use certhub_server.Models.{Time, Bytes, Certificate, generating}
use certhub_server.Database.{remove_duplicate_certificates}
use certhub_server.Database.Newest.{IsNewest, remove_duplicate_certificates-IsNewest}
use certhub_server.Examples.{cert, tables}
use certhub_server.RateLimit.{KeyedRateLimiter, allow, evict_stale, cors_middleware}
use certhub_server.RateLimit.Fairness.{
  answers_to, lone_answers, times_of, bucket_of, bucket_in, recent, allow-isolates,
  evict_stale-refills,
}
use certhub_server.RateLimit.Origins.{Listed, cors_middleware_iff}
use certhub_server.DomainName.{
  validate_label, validate_domain_name, validate_domain_labels, validate_labels, validate_ascii,
  normalize_domain, byte_length, contains, split_dot, check_letters, result_of, or_next,
}
use certhub_server.DomainName.Labels.{IsHostName, validate_domain_name-IsHostName}
use certhub_server.Store.{Db, ok}
use certhub_server.Crypto.Startup.{init_crypto-validate}
use certhub_server.Crypto.{
  init_crypto, decode_encryption_key, Ciphers, encrypt, decrypt, sealed_with,
}
use certhub_server.Crypto.RoundTrip.{decrypt-encrypt}

-- A bucket that counts its tokens and is never refilled.
abbrev new_count : ℕ → ℤ → ℕ
new_count interval burst = 2

abbrev take_one : Time → ℕ → Bool × ℕ
take_one now n = (ltb 0 n, n - 1)

abbrev calls : List (Time × String)
calls = (pos 0, "7") ∷ (pos 1, "8") ∷ (pos 2, "7") ∷ (pos 3, "7") ∷ []

abbrev limiter : KeyedRateLimiter ℕ
limiter = record { entries = []; interval = 5; burst = pos 2 }

allow-isolates_example :
    answers_to new_count take_one "7" calls limiter
    ≡ lone_answers new_count take_one
        (times_of new_count take_one "7" calls)
        (bucket_of new_count take_one "7" limiter)
allow-isolates_example = allow-isolates new_count take_one "7" calls limiter

-- An exhausted bucket that was last seen at 1.
abbrev used : KeyedRateLimiter ℕ
used = record {
  entries = record { key = "7"; limiter = 0; last_seen = pos 1 } ∷ [];
  interval = 5;
  burst = pos 2;
}

evict_stale-refills_example :
    (allow new_count take_one (pos 20) "7" (evict_stale (pos 10) used)).0
    ≡ (take_one (pos 20) (
        bucket_in new_count take_one used
          (find (recent new_count take_one (pos 10) "7") used.entries))).0
evict_stale-refills_example = evict_stale-refills new_count take_one (pos 20) (pos 10) "7" used

-- A configuration for production.
abbrev deployed : Config
deployed = record set_defaults {
  server = record { port = "8080"; addr = ""; allowed_origins = "https://a.example" ∷ [] };
  session = record {
    secret = "s3cret";
    max_age = pos 1;
    path = "/";
    http_only = true;
    secure = true;
    same_site = "lax";
    name = "n";
  };
  dns = record {
    provider = "cloudflare";
    auth_zone = "z";
    propagation_timeout = "5m";
    propagation_interval = "2s";
    cloudflare = record { api_email = ""; api_key = ""; api_token = "t" };
  };
  security = record { encryption_key = "k"; dev_mode = none };
}

abbrev key_of_32 : String → Option ℕ
key_of_32 s = some 32

validate_iff_example :
    (validate key_of_32 none deployed ≡ none) ↔ IsProductionReady key_of_32 deployed
unfolding is_dev_mode set_defaults
validate_iff_example = validate_iff key_of_32 none deployed refl

cors_middleware_iff_example :
    ((cors_middleware
        (is_dev_mode none deployed.security)
        deployed.server.allowed_origins
        "https://a.example"
        "GET").allow_origin
      ≡ some "https://a.example")
    ↔ Listed "https://a.example" deployed.server.allowed_origins
unfolding is_dev_mode set_defaults validate validate_session_and_cors validate_rest or_else
cors_middleware_iff_example =
    cors_middleware_iff key_of_32 none deployed "https://a.example" "GET" refl refl refl

abbrev key_bytes : Bytes
key_bytes =
    0 ∷ 0 ∷ 0 ∷ 0 ∷ 0 ∷ 0 ∷ 0 ∷ 0 ∷ 0 ∷ 0 ∷ 0 ∷ 0 ∷ 0 ∷ 0 ∷ 0 ∷ 0 ∷ 0 ∷ 0 ∷ 0 ∷ 0 ∷ 0 ∷ 0 ∷ 0 ∷ 0
    ∷ 0 ∷ 0 ∷ 0 ∷ 0 ∷ 0 ∷ 0 ∷ 0 ∷ 0 ∷ []

abbrev read_key : String → Option Bytes
read_key s = some key_bytes

init_crypto-validate_example :
    (key : Bytes) × (init_crypto (λ s. s) read_key deployed.security.encryption_key ≡ ok key)
    × (length key ≡ 32)
unfolding is_dev_mode set_defaults validate validate_session_and_cors validate_rest validate_key
    or_else decode_encryption_key
init_crypto-validate_example = init_crypto-validate (λ s. s) read_key none deployed refl refl

abbrev as_key : Bytes → String
as_key bytes = "key"

-- A source of random bytes that draws 32 of them at a time.
abbrev zero_read : ℕ → Option Bytes
zero_read n = if n == 32 then some key_bytes else none

abbrev rekeyed : Config
rekeyed = record deployed {
  security = let s = deployed.security in record s { encryption_key = "key" };
}

auto_renew_backoff_duration-doubles_example :
    auto_renew_backoff_duration (λ s. none) set_defaults.renewal (pos 3)
    ≡ pos (min (72 * hour) (6 * hour * 2 ^ 2))
unfolding parse_duration_default set_defaults
auto_renew_backoff_duration-doubles_example =
    auto_renew_backoff_duration-doubles (λ s. none) set_defaults.renewal 2 (6 * hour) (72 * hour)
      refl refl (omega arith)

validate_domain_name-IsHostName_example : IsHostName (λ s. false) "ex.com"
unfolding validate_domain_name validate_ascii validate_domain_labels validate_labels validate_label
    normalize_domain byte_length contains split_dot check_letters result_of or_next
    certhub_server.Common.Text.trim_dot
validate_domain_name-IsHostName_example =
    validate_domain_name-IsHostName (λ s. s) (λ s. s) (λ s. some s) (λ s. false) "ex.com" "ex.com"
      refl

-- A cipher that hides nothing.
abbrev plain_ciphers : Ciphers
plain_ciphers = record {
  key_ok = λ key. true;
  nonce_size = 1;
  seal = λ key nonce' plain. plain;
  open_sealed = λ key nonce' sealed. some sealed;
  encode = λ b. b;
  decode = λ b. some b;
}

decrypt-encrypt_example : decrypt plain_ciphers (5 ∷ []) (9 ∷ 1 ∷ 2 ∷ []) ≡ some (1 ∷ 2 ∷ [])
unfolding encrypt sealed_with
decrypt-encrypt_example =
    decrypt-encrypt plain_ciphers (λ b. refl) (λ key n p. refl) (5 ∷ []) (9 ∷ []) (1 ∷ 2 ∷ [])
      (9 ∷ 1 ∷ 2 ∷ []) refl refl

abbrev two_certificates : Db
two_certificates = tables generating (record cert { id = 2 } ∷ cert ∷ [])

remove_duplicate_certificates-IsNewest_example :
    let left = (remove_duplicate_certificates two_certificates).1.certificates in
    ((a b : Certificate) → Memᴰ a left → Memᴰ b left → a.domain_id ≡ b.domain_id → a.id ≡ b.id)
    × ((c : Certificate)
        → Memᴰ c two_certificates.certificates
        → (n : Certificate) × Memᴰ n left × IsNewest c.domain_id n two_certificates.certificates)
remove_duplicate_certificates-IsNewest_example =
    remove_duplicate_certificates-IsNewest two_certificates
