-- ===== src/Acme/Account.antt =====
-- The ACME accounts of services/lego.go: how the account of a user is loaded, made, and freed of a
-- registration with another certificate authority.
use certhub_server.Common.{
  ℕ, String, Bool, true, false, Option, none, [], ◌∷◌, ◌⊎◌, inl, inr, ◌==◌, str_eq, if◌then◌else◌,
}
use certhub_server.Common.Int.{pos}
use certhub_server.Models.{Bytes, AcmeAccount}
use certhub_server.Store.{
  DbError, not_found, failed, duplicated_key, Statement, first_account, create_account,
  update_accounts,
}
use certhub_server.System.{Env, Act, pure, fail, catch, now, exec, seal, ◌>>=◌}
use certhub_server.Acme.Lego.{
  Lego, AcmeUser, AcmeError, statement, failure, wrapped, is_not_found, normalize_ca_url,
  effective_ca_url, parse_ec_private_key, encode_ec_private_key, parsed_registration, drawn,
  returned, or_library, or_failure,
}

abbrev pub of_user : ℕ → AcmeAccount → Bool
of_user user_id a = a.user_id == user_id

abbrev pub no_registration : AcmeAccount → AcmeAccount
no_registration a = record a { registration = [] }

abbrev pub no_ca : AcmeAccount → AcmeAccount
no_ca a = record a { registration = []; ca_url = "" }

abbrev pub is_empty : Bytes → Bool
is_empty [] = true
is_empty (b ∷ bs) = false

module _ (env : Env) where
  -- A statement whose error is returned as it is.
  unfoldable pub sql : {A : Type 0} → Statement A → Act AcmeError A
  sql st = catch (exec env st) (λ e. fail (statement e))

  -- db.Model(account).Updates(f)
  unfoldable pub update_account : ℕ → (AcmeAccount → AcmeAccount) → Act AcmeError ℕ
  update_account id f = do t ← now env; sql (update_accounts t (λ a. a.id == id) f)

module _ (env : Env) (lib : Lego) where
  abbrev pub current_ca : String
  current_ca = normalize_ca_url lib (effective_ca_url lib env.config)

  -- The account after the call, which clears fields of it and of its row.
  unfoldable pub invalidate_registration_if_ca_changed : AcmeAccount → Act AcmeError AcmeAccount
  invalidate_registration_if_ca_changed account =
      let stored = normalize_ca_url lib account.ca_url in
      if str_eq stored ""
      then (if is_empty account.registration then pure account else (do
        n ← update_account env account.id no_registration
        pure (no_registration account)))
      else if str_eq stored current_ca
      then pure account
      else (do n ← update_account env account.id no_ca; pure (no_ca account))

  unfoldable pub decrypted_key : String ⊎ Bytes → Act AcmeError Bytes
  decrypted_key (inl text) = fail (wrapped "decrypt ACME account key: " (failure text))
  decrypted_key (inr plain) = pure plain

  unfoldable pub acme_user_from_account : AcmeAccount → Act AcmeError (AcmeUser lib)
  acme_user_from_account account = do
    pem ← decrypted_key (env.decrypt account.private_key_pem)
    key ← returned (parse_ec_private_key lib pem)
    reg ← returned (parsed_registration lib account.registration)
    pure (record { email = account.email; registration = reg; key = key })

  unfoldable pub load_acme_account : ℕ → Act AcmeError (AcmeUser lib)
  load_acme_account user_id = do
    account ← sql env (first_account (of_user user_id))
    account' ← invalidate_registration_if_ca_changed account
    acme_user_from_account account'

  abbrev pub new_account : ℕ → String → Bytes → AcmeAccount
  new_account user_id email key = record {
    id = 0;
    user_id = user_id;
    email = email;
    private_key_pem = key;
    registration = [];
    ca_url = "";
    created_at = pos 0;
    updated_at = pos 0;
  }

  -- What follows when the row was not inserted.
  unfoldable pub load_if_duplicated : ℕ → DbError → Act AcmeError (AcmeUser lib)
  load_if_duplicated user_id duplicated_key = load_acme_account user_id
  load_if_duplicated user_id not_found = fail (statement not_found)
  load_if_duplicated user_id failed = fail (statement failed)

  unfoldable pub insert_account : ℕ → String → lib.Key → Bytes → Act AcmeError (AcmeUser lib)
  insert_account user_id email key encrypted =
      catch
        (do
          t ← now env
          row ← exec env (create_account t (new_account user_id email encrypted))
          pure (record { email = email; registration = none; key = key }))
        (load_if_duplicated user_id)

  unfoldable pub create_acme_account : ℕ → String → Act AcmeError (AcmeUser lib)
  create_acme_account user_id email = do
    drawn_key ← drawn lib.generate_key
    key ← returned (or_library drawn_key)
    pem ← returned (or_library (encode_ec_private_key lib key))
    sealed ← seal env pem
    encrypted ← returned (or_library sealed)
    insert_account user_id email key encrypted

  unfoldable pub load_or_create_acme_account : ℕ → String → Act AcmeError (AcmeUser lib)
  load_or_create_acme_account user_id email =
      catch (load_acme_account user_id)
        (λ e. if is_not_found e then create_acme_account user_id email else fail e)

  unfoldable pub save_acme_registration : ℕ → lib.Registration → Act AcmeError ℕ
  save_acme_registration user_id reg = do
    data' ← returned (or_failure (lib.marshal reg))
    t ← now env
    let ca = effective_ca_url lib env.config
    sql env
        (update_accounts t (of_user user_id) (λ a. record a { registration = data'; ca_url = ca }))

  unfoldable pub load_acme_registration : ℕ → Act AcmeError (Option lib.Registration)
  load_acme_registration user_id = do
    account ← sql env (first_account (of_user user_id))
    account' ← invalidate_registration_if_ca_changed account
    returned (parsed_registration lib account'.registration)
