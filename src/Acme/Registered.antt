-- ===== src/Acme/Registered.antt =====
-- Whose registration an account of services/lego.go is used with.
use certhub_server.Common.{
  ℕ, Bool, true, Option, none, some, [], ◌∷◌, ◌≡◌, refl, sym, ◌⊎◌, inl, inr, arith, str_eq, find,
  eq_iff, Bool-cases,
}
use certhub_server.Models.{AcmeAccount, Bytes}
use certhub_server.Store.{DbError, Result, ok, found, first_account}
use certhub_server.System.{Env, World, pure, ◌>>=◌}
use certhub_server.System.Inversion.{bind_ok, catch-fail_ok, exec_ok}
use certhub_server.Acme.Lego.{
  Lego, AcmeUser, AcmeError, statement, normalize_ca_url, parsed_registration, returned,
}
use certhub_server.Acme.Account.{
  sql, of_user, update_account, invalidate_registration_if_ca_changed, acme_user_from_account,
  load_acme_account, current_ca, is_empty, no_registration, no_ca,
}

found_ok :
    {A : Type 0} (o : Option A) (a : A) → ◌≡◌ {A = Result DbError A} (found o) (ok a) → o ≡ some a
found_ok none a h = absurd (ground arith)
found_ok (some b) a h = ground arith

sql_first_ok :
    (env : Env) (p : AcmeAccount → Bool) (w : World) (a : AcmeAccount) (v : World)
    → sql env (first_account p) w ≡ (ok a, v)
    → find p (env.others w.event w.shared).db.acme_accounts ≡ some a
unfolding sql first_account
sql_first_ok env p w a v h =
    found_ok _ a (exec_ok env (first_account p) w a v (catch-fail_ok _ statement w a v h)).0

pure_ok : {A : Type 0} (a b : A) (w v : World) → pure {E = AcmeError} a w ≡ (ok b, v) → a ≡ b
unfolding pure
pure_ok a b w v h = ground arith

empty_is : (bs : Bytes) → is_empty bs ≡ true → bs ≡ []
empty_is [] h = refl
empty_is (b ∷ bs) h = cc

-- The account that a change of its row returns.
cleared_is :
    (env : Env) (id : ℕ) (f : AcmeAccount → AcmeAccount) (c b : AcmeAccount) (w v : World)
    → (update_account env id f >>= λ n. pure c) w ≡ (ok b, v)
    → c ≡ b
cleared_is env id f c b w v h = bind_ok _ _ w b v h (λ n u h1 k1. pure_ok c b u v k1)

-- A registration of another authority is dropped.
invalidated :
    (env : Env) (lib : Lego) (a b : AcmeAccount) (w v : World)
    → invalidate_registration_if_ca_changed env lib a w ≡ (ok b, v)
    → (b.registration ≡ []) ⊎ ((b ≡ a) × (normalize_ca_url lib a.ca_url ≡ current_ca env lib))
unfolding invalidate_registration_if_ca_changed
invalidated env lib a b w v h = elim (Bool-cases (str_eq (normalize_ca_url lib a.ca_url) "")) [
  | inl legacy ↦ elim (Bool-cases (is_empty a.registration)) [
    | inl none' ↦
        let same = pure_ok a b w v (rw (legacy, none') at h) in
        inl (rw (← same) (empty_is a.registration none'))
    | inr some' ↦
        let same =
          cleared_is env a.id no_registration (no_registration a) b w v (rw (legacy, some') at h) in
        inl (rw (← same) refl)
  ]
  | inr known ↦ elim (Bool-cases (str_eq (normalize_ca_url lib a.ca_url) (current_ca env lib))) [
    | inl equal ↦
        let same = pure_ok a b w v (rw (known, equal) at h) in inr (sym same, (eq_iff _ _).0 equal)
    | inr changed ↦
        let same = cleared_is env a.id no_ca (no_ca a) b w v (rw (known, changed) at h) in
        inl (rw (← same) refl)
  ]
]

returned_is :
    {A : Type 0} (r : Result AcmeError A) (w : World) (a : A) (v : World)
    → returned r w ≡ (ok a, v)
    → r ≡ ok a
unfolding returned
returned_is r w a v h = ground arith

user_registration :
    (env : Env) (lib : Lego) (a : AcmeAccount) (w : World) (user : AcmeUser lib) (v : World)
    → acme_user_from_account env lib a w ≡ (ok user, v)
    → parsed_registration lib a.registration ≡ ok user.registration
unfolding acme_user_from_account
user_registration env lib a w user v h = bind_ok _ _ w user v h λ pem w1 h1 k1.
    bind_ok _ _ w1 user v k1 λ key w2 h2 k2. bind_ok _ _ w2 user v k2 λ reg w3 h3 k3.
      let same : ◌≡◌ {A = AcmeUser lib} (record { email = a.email; registration = reg; key = key })
          user =
        pure_ok _ user w3 v k3 in
      rw (← same) (returned_is _ w2 reg w3 h3)

registration_known :
    (lib : Lego) (bs : Bytes) (reg : lib.Registration)
    → parsed_registration lib bs ≡ ok (some reg)
    → lib.unmarshal bs ≡ inr reg
unfolding parsed_registration
registration_known lib [] reg h = absurd (ground arith)
registration_known lib (b ∷ bs) reg h = ground arith

none_without :
    (lib : Lego) (o : Option lib.Registration) → parsed_registration lib [] ≡ ok o → o ≡ none
unfolding parsed_registration
none_without lib o h = ground arith

-- Whatever the database and the other goroutines do: a user is loaded with a registration only if
-- it is the one stored in the account that was found for the user's key, and that account belongs
-- to the certificate authority of the configuration, by its address.
pub load_acme_account-CurrentCa :
    (env : Env) (lib : Lego) (user_id : ℕ) (reg : lib.Registration) (user : AcmeUser lib)
    (w v : World)
    → load_acme_account env lib user_id w ≡ (ok user, v)
    → user.registration ≡ some reg
    → (a : AcmeAccount) × (find (of_user user_id) (env.others w.event w.shared).db.acme_accounts
        ≡ some a)
      × (normalize_ca_url lib a.ca_url ≡ current_ca env lib)
      × (lib.unmarshal a.registration ≡ inr reg)
unfolding load_acme_account
load_acme_account-CurrentCa env lib user_id reg user w v h has =
    bind_ok _ _ w user v h λ a w1 h1 k1. bind_ok _ _ w1 user v k1 λ b w2 h2 k2.
      let read = user_registration env lib b w2 user v k2 in
      elim (invalidated env lib a b w1 w2 h2) [
        | inl dropped ↦
            let lost = none_without lib user.registration (rw (← dropped) read) in
            absurd (ground arith)
        | inr (same, current) ↦ (
          a,
          sql_first_ok env (of_user user_id) w a w1 h1,
          current,
          registration_known lib a.registration reg (rw (← same, ← has) read),
        )
      ]
