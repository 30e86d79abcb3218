-- ===== src/Config/Validation.antt =====
-- config.Validate and the development switch of config/config.go. The environment variable
-- CERTHUB_DEV, trimmed and lower-cased, is the argument `dev_env`; the base64 decoder of the
-- standard library is `decode_key`, which gives the length of the decoded key or `none`.
use Prim.Native.Nat.{ℕ}
use certhub_server.Common.{
  String, Bool, true, false, ◌&&◌, ◌||◌, Option, none, some, List, [], ◌∷◌, str_eq, any, ◌==◌,
  if◌then◌else◌,
}
use certhub_server.Config.{Config, SecurityConfig}
use certhub_server.Config.Defaults.{default_session_secret}

pub data ConfigError : Type 0 where
  default_secret no_origins wildcard_origin no_auth_zone no_credentials : ConfigError
  bad_key short_key no_key : ConfigError

-- The words that CERTHUB_DEV may be set to; any other text leaves the setting of the file.
dev_word : String → Option Bool
dev_word v =
    if str_eq v "1" || str_eq v "true" || str_eq v "yes" || str_eq v "on"
    then some true
    else if str_eq v "0" || str_eq v "false" || str_eq v "no" || str_eq v "off"
    then some false
    else none

is_dev_mode_from : Option Bool → Option Bool → Bool
is_dev_mode_from (some b) setting = b
is_dev_mode_from none (some b) = b
is_dev_mode_from none none = false

env_setting : Option String → Option Bool
unfolding dev_word
env_setting none = none
env_setting (some v) = dev_word v

unfoldable pub is_dev_mode : Option String → SecurityConfig → Bool
unfolding is_dev_mode_from env_setting
is_dev_mode dev_env s = is_dev_mode_from (env_setting dev_env) s.dev_mode

unfoldable pub is_default_session_secret : String → Bool
is_default_session_secret secret = str_eq secret "" || str_eq secret default_session_secret

abbrev pub is_empty_list : List String → Bool
is_empty_list [] = true
is_empty_list (o ∷ os) = false

-- `none` is success.
unfoldable pub validate_session_and_cors : Option String → Config → Option ConfigError
unfolding is_default_session_secret
validate_session_and_cors dev_env c =
    if is_dev_mode dev_env c.security
    then none
    else if is_default_session_secret c.session.secret
    then some default_secret
    else if is_empty_list c.server.allowed_origins
    then some no_origins
    else if any (λ o. str_eq o "*") c.server.allowed_origins
    then some wildcard_origin
    else none

-- The key's part of Validate.
unfoldable pub validate_key : Bool → String → Option ℕ → Option ConfigError
validate_key dev key (some size) =
    if str_eq key ""
    then (if dev then none else some no_key)
    else if size == 32
    then none
    else some short_key
validate_key dev key none =
    if str_eq key "" then (if dev then none else some no_key) else some bad_key

unfoldable pub validate_rest : Bool → Config → Option ℕ → Option ConfigError
unfolding validate_key
validate_rest dev c size =
    if str_eq c.dns.auth_zone ""
    then some no_auth_zone
    else if str_eq c.dns.cloudflare.api_token ""
        && (str_eq c.dns.cloudflare.api_email "" || str_eq c.dns.cloudflare.api_key "")
    then some no_credentials
    else validate_key dev c.security.encryption_key size

unfoldable pub or_else : Option ConfigError → Option ConfigError → Option ConfigError
or_else (some e) later = some e
or_else none later = later

unfoldable pub validate : (String → Option ℕ) → Option String → Config → Option ConfigError
validate decode_key dev_env c =
    or_else (validate_session_and_cors dev_env c)
      (validate_rest (is_dev_mode dev_env c.security) c (decode_key c.security.encryption_key))
