-- ===== src/Crypto/Startup.antt =====
-- The start of the server: Validate of config/config.go, and then InitCrypto of
-- services/crypto.go.
use Prim.Native.Nat.{ℕ}
use certhub_server.Common.{
  String, false, Option, none, some, [], ◌≡◌, ◌≢◌, refl, arith, length, str_eq, eq_iff,
  if◌then◌else◌,
}
use mathlib.Core.Option
use certhub_server.Config.{Config}
use certhub_server.Config.Validation.{validate, is_dev_mode}
use certhub_server.Config.Production.{validate_iff}
use certhub_server.Models.{Bytes}
use certhub_server.Store.{ok}
use certhub_server.Crypto.{decode_encryption_key, init_crypto, sized_key}

-- How long a decoded key is.
abbrev pub key_length : (String → String) → (String → Option Bytes) → String → Option ℕ
key_length trim_space base64 key = Option.map length (decode_encryption_key trim_space base64 key)

loaded :
    (text : String) (o : Option Bytes)
    → text ≢ ""
    → Option.map length o ≡ some 32
    → (key : Bytes) × ((if str_eq text "" then ok [] else sized_key o) ≡ ok key) × (length key ≡ 32)
unfolding sized_key
loaded text none set size = absurd (ground arith)
loaded text (some key) set size =
    let full : length key ≡ 32 = ground arith in
    let given : str_eq text "" ≡ false = ground (arith, eq_iff text "") in
    (key, rw given (rw full refl), full)

-- With a configuration that Validate accepts outside the development mode, InitCrypto loads a key
-- of 32 bytes.
pub init_crypto-validate :
    (trim_space : String → String) (base64 : String → Option Bytes) (dev_env : Option String)
    (c : Config)
    → is_dev_mode dev_env c.security ≡ false
    → validate (key_length trim_space base64) dev_env c ≡ none
    → (key : Bytes) × (init_crypto trim_space base64 c.security.encryption_key ≡ ok key)
      × (length key ≡ 32)
unfolding init_crypto
init_crypto-validate trim_space base64 dev_env c prod valid =
    let ready = (validate_iff (key_length trim_space base64) dev_env c prod).0 valid in
    loaded c.security.encryption_key
      (decode_encryption_key trim_space base64 c.security.encryption_key) ready.key ready.key_size
