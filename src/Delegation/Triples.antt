-- ===== src/Delegation/Triples.antt =====
-- What holds after a call of services/delegation_dns.go, with its result and with its error.
use certhub_server.Common.{String}
use certhub_server.Store.{Result, ok, err}
use certhub_server.Delegation.{
  Cloudflare, State, Call, DnsError, text, inactive, continue, ◌>>=◌, ◌>>◌, DnsEnv, wrap, prefixed,
}

abbrev pub After : {S A : Type 0} → (A → S → Type 0) → (S → Type 0) → Result DnsError A × S → Type 0
After Q R (ok a, s) = Q a s
After Q R (err e, s) = R s

-- From a state with P, a result leaves Q and an error leaves R.
abbrev pub Ensures :
    {S A : Type 0}
    → (S → Type 0)
    → (S → Result DnsError A × S)
    → (A → S → Type 0)
    → (S → Type 0)
    → Type 0
Ensures {S} P m Q R = (s : S) → P s → After Q R (m s)

module _ {S A B : Type 0} (P : S → Type 0) (Q : A → S → Type 0) (T : B → S → Type 0)
    (R : S → Type 0) where
  pub ensures-bind :
      (m : S → Result DnsError A × S) (f : A → S → Result DnsError B × S)
      → Ensures P m Q R
      → ((a : A) → Ensures (Q a) (f a) T R)
      → Ensures P (m >>= f) T R
  unfolding ◌>>=◌
  ensures-bind m f hm hf s p = go (m s) (hm s p)
    where
      go : (r : Result DnsError A × S) → After Q R r → After T R (continue r f)
      go (ok a, u) q = hf a u q
      go (err e, u) q = q

module _ {S B : Type 0} (P Q R : S → Type 0) (T : B → S → Type 0) where
  pub ensures-then :
      (m : S → Result DnsError (Unit {0}) × S) (k : S → Result DnsError B × S)
      → Ensures P m (λ u. Q) R
      → Ensures Q k T R
      → Ensures P (m >> k) T R
  unfolding ◌>>◌
  ensures-then m k hm hk s p = go (m s) (hm s p)
    where
      go :
          (r : Result DnsError (Unit {0}) × S)
          → After (λ u. Q) R r
          → After T R (continue r (λ _. k))
      go (ok a, u) q = hk u q
      go (err e, u) q = q

module _ (cf : Cloudflare) (env : DnsEnv cf) {A : Type 0} (P R : State cf → Type 0)
    (Q : A → State cf → Type 0) where
  pub ensures-wrap :
      (prefix : String) (m : Call cf A) → Ensures P m Q R → Ensures P (wrap cf env prefix m) Q R
  unfolding wrap
  ensures-wrap prefix m h s p = go (m s) (h s p)
    where
      go : (r : Result DnsError A × State cf) → After Q R r → After Q R (prefixed prefix r)
      go (ok a, u) q = q
      go (err (text e), u) q = q
      go (err (inactive l), u) q = q

pub ensures-weaken :
    {S A : Type 0} (P R R' : S → Type 0) (Q Q' : A → S → Type 0) (m : S → Result DnsError A × S)
    → Ensures P m Q R
    → ((a : A) (s : S) → Q a s → Q' a s)
    → ((s : S) → R s → R' s)
    → Ensures P m Q' R'
ensures-weaken {S} {A} P R R' Q Q' m h f g s p = go (m s) (h s p)
  where
    go : (r : Result DnsError A × S) → After Q R r → After Q' R' r
    go (ok a, u) q = f a u q
    go (err e, u) q = g u q
