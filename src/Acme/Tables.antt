-- ===== src/Acme/Tables.antt =====
-- What services/lego.go does to the tables, however its calls end.
use certhub_server.Common.{
  ℕ, String, Bool, false, Option, none, some, ◌≡◌, ◌⊎◌, inl, inr, refl, str_eq, ◌==◌,
}
use certhub_server.Models.{Time, Bytes, AcmeAccount}
use certhub_server.Store.{
  DbError, duplicated_key, not_found, failed, Result, ok, err, Statement, create_account,
  update_accounts, first_account,
}
use certhub_server.System.{Env, Shared, Act, CertResource, pure, ◌>>=◌}
use certhub_server.System.Keeps.{
  Keeps, Stable, Keeps-bind, Keeps-then, Keeps-catch, Keeps-if, Keeps-pure, Keeps-fail, Keeps-when,
  Keeps-now, Keeps-exec, Keeps-locked, Keeps-outcome, Keeps-seal,
}
use certhub_server.CertJob.{context_err, job_active}
use certhub_server.Acme.Lego.{
  Lego, AcmeUser, AcmeError, is_not_found, normalize_ca_url, drawn, returned,
}
use certhub_server.Acme.Account.{
  sql, update_account, invalidate_registration_if_ca_changed, decrypted_key, acme_user_from_account,
  load_acme_account, load_if_duplicated, insert_account, create_acme_account,
  load_or_create_acme_account, save_acme_registration, load_acme_registration, current_ca, is_empty,
  current_ca, no_registration, no_ca,
}
use certhub_server.Acme.Client.{
  ask_authority, obtain_with_context, renew_with_context, require_active, new_lego_client,
  run_acme_with_context, known_or, reload_or, save_or_reload, register_unless, registered_or_load,
  ensure_registered, prepared, obtain_certificate, renew_existing_certificate,
}

module _ (P : Shared → Type 0) where
  Keeps-returned {ℓ κ} : {E : Type ℓ} {A : Type κ} (r : Result E A) → Keeps P (returned r)
  unfolding returned
  Keeps-returned r w p = p

  Keeps-drawn {ℓ κ} : (E : Type ℓ) {A : Type κ} (f : ℕ → A) → Keeps P (drawn {E = E} f)
  unfolding drawn
  Keeps-drawn E f w p = p

-- A property that other goroutines keep, and new accounts, and changes of accounts that leave them
-- to their users.
module _ (P : Shared → Type 0) (env : Env) (lib : Lego) (stable : Stable P env)
    (creates : (t : Time) (a : AcmeAccount) (s : Shared)
      → P s
      → P (record s { db = (create_account t a s.db).1 }))
    (updates : (t : Time) (p : AcmeAccount → Bool) (f : AcmeAccount → AcmeAccount) (s : Shared)
      → ((a : AcmeAccount) → (f a).user_id ≡ a.user_id)
      → P s
      → P (record s { db = (update_accounts t p f s.db).1 })) where
  Keeps-sql :
      {A : Type 0} (st : Statement A)
      → ((s : Shared) → P s → P (record s { db = (st s.db).1 }))
      → Keeps P (sql env st)
  unfolding sql
  Keeps-sql st k = Keeps-catch P _ _ (Keeps-exec P env stable st k) (λ e. Keeps-fail P _ _)

  Keeps-first : (p : AcmeAccount → Bool) → Keeps P (sql env (first_account p))
  unfolding first_account
  Keeps-first p = Keeps-sql (first_account p) (λ s h. h)

  Keeps-update_account :
      (id : ℕ) (f : AcmeAccount → AcmeAccount)
      → ((a : AcmeAccount) → (f a).user_id ≡ a.user_id)
      → Keeps P (update_account env id f)
  unfolding update_account
  Keeps-update_account id f same =
      Keeps-bind P _ _ (Keeps-now P env stable AcmeError)
        λ t. Keeps-sql (update_accounts t (λ a. a.id == id) f) (λ s h. updates t _ f s same h)

  Keeps-invalidate : (a : AcmeAccount) → Keeps P (invalidate_registration_if_ca_changed env lib a)
  unfolding invalidate_registration_if_ca_changed
  Keeps-invalidate a =
      Keeps-if P (str_eq (normalize_ca_url lib a.ca_url) "") _ _
        (Keeps-if P (is_empty a.registration) _ _ (Keeps-pure P AcmeError a)
          (cleared no_registration (λ b. refl) (no_registration a)))
        (Keeps-if P (str_eq (normalize_ca_url lib a.ca_url) (current_ca env lib)) _ _
          (Keeps-pure P AcmeError a) (cleared no_ca (λ b. refl) (no_ca a)))
    where
      cleared :
          (f : AcmeAccount → AcmeAccount)
          → ((b : AcmeAccount) → (f b).user_id ≡ b.user_id)
          → (b : AcmeAccount) → Keeps P (update_account env a.id f >>= λ n. pure b)
      cleared f same b =
          Keeps-bind P _ _ (Keeps-update_account a.id f same) (λ n. Keeps-pure P AcmeError b)

  Keeps-decrypted : (r : String ⊎ Bytes) → Keeps P (decrypted_key env lib r)
  unfolding decrypted_key
  Keeps-decrypted (inl text) = Keeps-fail P _ _
  Keeps-decrypted (inr plain) = Keeps-pure P AcmeError plain

  Keeps-user : (a : AcmeAccount) → Keeps P (acme_user_from_account env lib a)
  unfolding acme_user_from_account
  Keeps-user a = Keeps-bind P _ _ (Keeps-decrypted _) λ pem.
      Keeps-bind P _ _ (Keeps-returned P _)
        λ key. Keeps-bind P _ _ (Keeps-returned P _) λ reg. Keeps-pure P AcmeError _

  Keeps-load : (user_id : ℕ) → Keeps P (load_acme_account env lib user_id)
  unfolding load_acme_account
  Keeps-load user_id =
      Keeps-bind P _ _ (Keeps-first _) λ a. Keeps-bind P _ _ (Keeps-invalidate a) Keeps-user

  Keeps-duplicated : (user_id : ℕ) (e : DbError) → Keeps P (load_if_duplicated env lib user_id e)
  unfolding load_if_duplicated
  Keeps-duplicated user_id duplicated_key = Keeps-load user_id
  Keeps-duplicated user_id not_found = Keeps-fail P _ _
  Keeps-duplicated user_id failed = Keeps-fail P _ _

  Keeps-insert :
      (user_id : ℕ) (email : String) (key : lib.Key) (encrypted : Bytes)
      → Keeps P (insert_account env lib user_id email key encrypted)
  unfolding insert_account
  Keeps-insert user_id email key encrypted =
      Keeps-catch P _ _
        (Keeps-bind P _ _ (Keeps-now P env stable DbError) λ t.
          Keeps-bind P _ _ (Keeps-exec P env stable (create_account t _) (creates t _))
            λ row. Keeps-pure P DbError _)
        (Keeps-duplicated user_id)

  Keeps-create :
      (user_id : ℕ) (email : String) → Keeps P (create_acme_account env lib user_id email)
  unfolding create_acme_account
  Keeps-create user_id email = Keeps-bind P _ _ (Keeps-drawn P AcmeError _) λ made.
      Keeps-bind P _ _ (Keeps-returned P _) λ key. Keeps-bind P _ _ (Keeps-returned P _) λ pem.
        Keeps-bind P _ _ (Keeps-seal P env stable AcmeError pem)
          λ sealed. Keeps-bind P _ _ (Keeps-returned P _) (Keeps-insert user_id email key)

  Keeps-account :
      (user_id : ℕ) (email : String) → Keeps P (load_or_create_acme_account env lib user_id email)
  unfolding load_or_create_acme_account
  Keeps-account user_id email =
      Keeps-catch P _ _ (Keeps-load user_id)
        λ e. Keeps-if P (is_not_found e) _ _ (Keeps-create user_id email) (Keeps-fail P _ e)

  Keeps-save :
      (user_id : ℕ) (reg : lib.Registration) → Keeps P (save_acme_registration env lib user_id reg)
  unfolding save_acme_registration
  Keeps-save user_id reg = Keeps-bind P _ _ (Keeps-returned P _) λ d.
      Keeps-bind P _ _ (Keeps-now P env stable AcmeError)
        λ t. Keeps-sql (update_accounts t _ _) (λ s h. updates t _ _ s (λ a. refl) h)

  Keeps-registration : (user_id : ℕ) → Keeps P (load_acme_registration env lib user_id)
  unfolding load_acme_registration
  Keeps-registration user_id =
      Keeps-bind P _ _ (Keeps-first _)
        λ a. Keeps-bind P _ _ (Keeps-invalidate a) λ b. Keeps-returned P _

  Keeps-ask : {A : Type 0} (f : ℕ → String ⊎ A) → Keeps P (ask_authority env f)
  unfolding ask_authority
  Keeps-ask f w p = stable w.event w.shared p

  module _ (d token user_id : ℕ) where
    Keeps-require : Keeps P (require_active env lib d token)
    unfolding require_active context_err job_active
    Keeps-require =
        Keeps-bind P _ _
          (Keeps-bind P _ _ (Keeps-now P env stable AcmeError)
            λ t. Keeps-locked P env stable AcmeError _ (λ s h. h))
          λ done.
            Keeps-bind P _ _
              (Keeps-if P done _ _ (Keeps-pure P AcmeError false) (
                Keeps-bind P _ _ (Keeps-now P env stable AcmeError)
                  λ t. Keeps-locked P env stable AcmeError _ (λ s h. h)))
              λ alive. Keeps-returned P _

    Keeps-client : Keeps P (new_lego_client env lib d token)
    unfolding new_lego_client
    Keeps-client = Keeps-bind P _ _ (Keeps-drawn P AcmeError _) λ made.
        Keeps-then P _ _ (Keeps-returned P _) (
          Keeps-bind P _ _ (Keeps-drawn P AcmeError _) λ provider.
            Keeps-then P _ _ (Keeps-catch P _ _ (Keeps-returned P _) (λ e. Keeps-fail P _ _))
              (Keeps-bind P _ _ (Keeps-drawn P AcmeError _) λ set'. Keeps-returned P _))

    Keeps-run :
        (run : Act AcmeError CertResource)
        → Keeps P run
        → Keeps P (run_acme_with_context env lib d token run)
    unfolding run_acme_with_context context_err
    Keeps-run run k = Keeps-then P _ _ Keeps-require (
        Keeps-bind P _ _ (Keeps-outcome P AcmeError _ (Keeps-then P _ _ Keeps-require k)) λ result.
          Keeps-bind P _ _
            (Keeps-bind P _ _ (Keeps-now P env stable AcmeError)
              λ t. Keeps-locked P env stable AcmeError _ (λ s h. h))
            λ done.
              Keeps-then P _ _ (Keeps-when P done _ (Keeps-fail P _ _))
                (Keeps-then P _ _ Keeps-require (Keeps-returned P result)))

    Keeps-known :
        (user : AcmeUser lib) (e : AcmeError) (r : Result AcmeError (Option lib.Registration))
        → Keeps P (known_or env lib d token user_id user e r)
    unfolding known_or
    Keeps-known user e (ok (some reg)) = Keeps-pure P AcmeError _
    Keeps-known user e (ok none) = Keeps-fail P _ e
    Keeps-known user e (err x) = Keeps-fail P _ e

    Keeps-reload :
        (user : AcmeUser lib) (e : AcmeError) → Keeps P (reload_or env lib d token user_id user e)
    unfolding reload_or
    Keeps-reload user e =
        Keeps-bind P _ _ (Keeps-outcome P AcmeError _ (Keeps-registration user_id))
          λ known. Keeps-known user e known

    Keeps-saved :
        (user : AcmeUser lib) (r : Result AcmeError lib.Registration)
        → Keeps P (save_or_reload env lib d token user_id user r)
    unfolding save_or_reload
    Keeps-saved user (err e) = Keeps-reload user _
    Keeps-saved user (ok reg) =
        Keeps-catch P _ _ (Keeps-bind P _ _ (Keeps-save user_id reg) λ n. Keeps-pure P AcmeError _)
          (λ e. Keeps-reload user _)

    Keeps-unless :
        (user : AcmeUser lib) (known : Option lib.Registration)
        → Keeps P (register_unless env lib d token user_id user known)
    unfolding register_unless
    Keeps-unless user (some reg) = Keeps-pure P AcmeError _
    Keeps-unless user none =
        Keeps-bind P _ _ (Keeps-outcome P AcmeError _ (Keeps-ask _)) (Keeps-saved user)

    Keeps-or_load :
        (user : AcmeUser lib) (known : Option lib.Registration)
        → Keeps P (registered_or_load env lib d token user_id user known)
    unfolding registered_or_load
    Keeps-or_load user (some reg) = Keeps-pure P AcmeError user
    Keeps-or_load user none = Keeps-bind P _ _ (Keeps-registration user_id) (Keeps-unless user)

    Keeps-prepared : (email : String) → Keeps P (prepared env lib d token user_id email)
    unfolding prepared ensure_registered
    Keeps-prepared email = Keeps-then P _ _ Keeps-require (
        Keeps-bind P _ _ (Keeps-account user_id email) λ user.
          Keeps-then P _ _ Keeps-client
            (Keeps-then P _ _ Keeps-require (Keeps-or_load user user.registration)))

    pub Keeps-obtain :
        (domain email : String) → Keeps P (obtain_certificate env lib d token user_id domain email)
    unfolding obtain_certificate obtain_with_context
    Keeps-obtain domain email =
        Keeps-bind P _ _ (Keeps-prepared email) λ user. Keeps-run _ (Keeps-ask _)

    pub Keeps-renew :
        (email : String) (existing : CertResource)
        → Keeps P (renew_existing_certificate env lib d token user_id email existing)
    unfolding renew_existing_certificate renew_with_context
    Keeps-renew email existing = Keeps-bind P _ _ (Keeps-prepared email) λ user.
        Keeps-if P _ _ _ (Keeps-obtain existing.domain email)
          (Keeps-catch P _ _ (Keeps-run _ (Keeps-ask _)) (λ e. Keeps-fail P _ _))
