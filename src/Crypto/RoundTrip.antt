-- ===== src/Crypto/RoundTrip.antt =====
-- Encrypt and Decrypt of services/crypto.go, one after the other.
use certhub_server.Common.{
  false, some, [], ◌∷◌, ◌++◌, ◌≡◌, refl, ap, length, ltb, arith, Bool-cases, inl, inr,
}
use certhub_server.Models.{Bytes}
use certhub_server.Crypto.{sealed_with, opened, Ciphers, take, drop, encrypt, decrypt}

take-append : (xs ys : Bytes) → take (length xs) (xs ++ ys) ≡ xs
unfolding take
take-append [] ys = refl
take-append (x ∷ xs) ys = ap (λ zs. x ∷ zs) (take-append xs ys)

drop-append : (xs ys : Bytes) → drop (length xs) (xs ++ ys) ≡ ys
unfolding drop
drop-append [] ys = refl
drop-append (x ∷ xs) ys = drop-append xs ys

length-append_long : (xs ys : Bytes) → ltb (length (xs ++ ys)) (length xs) ≡ false
length-append_long [] ys = ground arith
length-append_long (x ∷ xs) ys = ground (arith, length-append_long xs ys)

module _ (lib : Ciphers) (decode-encode : (b : Bytes) → lib.decode (lib.encode b) ≡ some b)
    (open-seal : (key nonce plain : Bytes)
      → lib.open_sealed key nonce (lib.seal key nonce plain) ≡ some plain) where
  -- Decrypt gives back what Encrypt was given, under the same key and with any nonce of the
  -- cipher's size; with no key, both leave the bytes as they are.
  pub decrypt-encrypt :
      (key nonce plain stored : Bytes)
      → length nonce ≡ lib.nonce_size
      → encrypt lib key (some nonce) plain ≡ some stored
      → decrypt lib key stored ≡ some plain
  unfolding encrypt decrypt sealed_with opened
  decrypt-encrypt [] nonce plain stored size done = ground arith
  decrypt-encrypt (k ∷ ks) nonce plain stored size done = elim (Bool-cases (lib.key_ok (k ∷ ks))) [
    | inl good ↦
        let c = lib.seal (k ∷ ks) nonce plain in
        let stored_is : lib.encode (nonce ++ c) ≡ stored = ground arith in
        rw (← stored_is) (
          rw (decode-encode (nonce ++ c)) (
            rw good (
              rw (← size) (
                rw (length-append_long nonce c) (
                  rw (take-append nonce c, drop-append nonce c, open-seal (k ∷ ks) nonce plain)
                    refl)))))
    | inr bad ↦ absurd (ground arith)
  ]
