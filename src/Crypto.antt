-- ===== src/Crypto.antt =====
-- services/crypto.go: how private keys are stored. AES-GCM (crypto/aes, crypto/cipher) and
-- encoding/base64 are parameters, and so are the random bytes that a call finds, if any.
pub mod RoundTrip
pub mod Startup
use Prim.Native.Nat.{ℕ, suc, zero, ◌-◌}
use certhub_server.Common.{
  String, Bool, true, false, not, Option, none, some, List, [], ◌∷◌, ◌++◌, ◌⊎◌, inl, inr, length,
  ltb, ◌==◌, str_eq, if◌then◌else◌,
}
use mathlib.Core.Option
use certhub_server.Models.{Bytes}
use certhub_server.Store.{Result, ok, err}

-- The cipher of a key that aes.NewCipher accepts: its Seal and its Open for a nonce, without
-- additional data; and the encoding.
pub record Ciphers : Type 0 where
  pub key_ok : Bytes → Bool
  pub nonce_size : ℕ
  pub seal : Bytes → Bytes → Bytes → Bytes
  pub open_sealed : Bytes → Bytes → Bytes → Option Bytes
  pub encode : Bytes → Bytes
  pub decode : Bytes → Option Bytes

unfoldable pub take : ℕ → Bytes → Bytes
take zero bs = []
take (suc n) [] = []
take (suc n) (b ∷ bs) = b ∷ take n bs

unfoldable pub drop : ℕ → Bytes → Bytes
drop zero bs = bs
drop (suc n) [] = []
drop (suc n) (b ∷ bs) = drop n bs

unfoldable pub sized_key : Option Bytes → Result String Bytes
sized_key none = err "invalid encryption key"
sized_key (some key) = if length key == 32 then ok key else err "encryption key must be 32 bytes"

-- config.DecodeEncryptionKey, by strings.TrimSpace and base64's DecodeString.
unfoldable pub decode_encryption_key :
    (String → String) → (String → Option Bytes) → String → Option Bytes
decode_encryption_key trim_space base64 encoded = base64 (trim_space encoded)

-- config.GenerateEncryptionKey, by base64's EncodeToString, and by what rand.Read fills a slice of
-- a given length with, if it does not fail. No text stands for an error.
unfoldable pub generate_encryption_key : (Bytes → String) → (ℕ → Option Bytes) → Option String
generate_encryption_key base64 rand_read = Option.map base64 (rand_read 32)

-- InitCrypto: the new value of `encryptionKey`, empty for nil.
unfoldable pub init_crypto :
    (String → String) → (String → Option Bytes) → String → Result String Bytes
init_crypto trim_space base64 key =
    if str_eq key "" then ok [] else sized_key (decode_encryption_key trim_space base64 key)

module _ (lib : Ciphers) where
  unfoldable pub sealed_with : Bytes → Option Bytes → Bytes → Option Bytes
  sealed_with key none plain = none
  sealed_with key (some nonce) plain = some (lib.encode (nonce ++ lib.seal key nonce plain))

  unfoldable pub encrypt : Bytes → Option Bytes → Bytes → Option Bytes
  unfolding sealed_with
  encrypt [] drawn plain = some plain
  encrypt (k ∷ ks) drawn plain =
      if lib.key_ok (k ∷ ks) then sealed_with (k ∷ ks) drawn plain else none

  unfoldable pub opened : Bytes → Option Bytes → Option Bytes
  opened key none = none
  opened key (some raw) =
      if not (lib.key_ok key)
      then none
      else if ltb (length raw) lib.nonce_size
      then none
      else lib.open_sealed key (take lib.nonce_size raw) (drop lib.nonce_size raw)

  unfoldable pub decrypt : Bytes → Bytes → Option Bytes
  unfolding opened
  decrypt [] data' = some data'
  decrypt (k ∷ ks) data' = opened (k ∷ ks) (lib.decode data')
