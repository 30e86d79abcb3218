-- ===== src/Acme/RoundTrip.antt =====
-- What services/lego.go stores it reads again: registrations, account keys, and the certificate that
-- is renewed. Each on its own, without faults and interference.
use certhub_server.Common.{
  ℕ, suc, String, Bool, false, none, some, List, [], ◌∷◌, ◌++◌, ◌≡◌, ◌≢◌, refl, sym, inl, inr,
  ==_refl, str_eq, eq_iff, find, find-append, find-update, update, any, find-any, find_passes, ◌∙◌,
  count, Bool-cases,
}
use certhub_server.Common.Text.{trim_slash}
use certhub_server.Models.{AcmeAccount, Bytes}
use certhub_server.Store.{ok, first_account, create_account, update_accounts}
use certhub_server.System.{Env, World, acts, after}
use certhub_server.System.Quiet.{IsQuiet, exec-quiet}
use certhub_server.Acme.Lego.{
  drawn, or_library, encode_ec_private_key, parse_ec_private_key, parsed_key, Lego, AcmeUser,
  normalize_ca_url, effective_ca_url, parsed_registration, returned, or_failure,
}
use certhub_server.Acme.Account.{
  decrypted_key, acme_user_from_account, load_acme_account, create_acme_account, insert_account,
  new_account, sql, of_user, invalidate_registration_if_ca_changed, save_acme_registration,
  load_acme_registration, current_ca,
}

module _ (env : Env) (q : IsQuiet env) (lib : Lego) where
  first_account-quiet :
      (p : AcmeAccount → Bool) (a : AcmeAccount) (w : World)
      → find p w.shared.db.acme_accounts ≡ some a
      → sql env (first_account p) w ≡ (ok a, after w w.shared)
  unfolding sql acts first_account
  first_account-quiet p a w e = rw (exec-quiet env q) (rw e refl)

  -- An account of the authority in use stays as it is.
  invalidate-current :
      (a : AcmeAccount) (w : World)
      → normalize_ca_url lib a.ca_url ≡ current_ca env lib
      → current_ca env lib ≢ ""
      → invalidate_registration_if_ca_changed env lib a w ≡ (ok a, w)
  unfolding invalidate_registration_if_ca_changed acts
  invalidate-current a w same given =
      rw (differs (normalize_ca_url lib a.ca_url) (λ e. given (sym same ∙ e)))
        (rw ((eq_iff (normalize_ca_url lib a.ca_url) (current_ca env lib)).1 same) refl)
    where
      differs : (s : String) → s ≢ "" → str_eq s "" ≡ false
      differs s n = elim (Bool-cases (str_eq s "")) [
        | inl h ↦ absurd (n ((eq_iff s "").0 h))
        | inr h ↦ h
      ]

  abbrev saved_row : AcmeAccount → Bytes → World → AcmeAccount
  saved_row a bytes w = record a {
    registration = bytes;
    ca_url = effective_ca_url lib env.config;
    updated_at = env.clock w.event;
  }

  abbrev saved : ℕ → Bytes → World → World
  saved user_id bytes w = after w (record (w.shared) {
    db = record (w.shared.db) {
      acme_accounts = update (of_user user_id) (λ a. saved_row a bytes w) w.shared.db.acme_accounts;
    };
  })

  save-quiet :
      (user_id : ℕ) (reg : lib.Registration) (bytes : Bytes) (w : World)
      → lib.marshal reg ≡ inr bytes
      → save_acme_registration env lib user_id reg w
        ≡ (ok (count (of_user user_id) w.shared.db.acme_accounts), saved user_id bytes w)
  unfolding save_acme_registration sql acts update_accounts returned or_failure
  save-quiet user_id reg bytes w marshals = rw marshals (rw (exec-quiet env q) refl)

  find-saved :
      (user_id : ℕ) (bytes : Bytes) (a : AcmeAccount) (w : World)
      → find (of_user user_id) w.shared.db.acme_accounts ≡ some a
      → find (of_user user_id) (saved user_id bytes w).shared.db.acme_accounts
        ≡ some (saved_row a bytes w)
  find-saved user_id bytes a w there =
      find-update (of_user user_id) (of_user user_id) (λ b. saved_row b bytes w)
        w.shared.db.acme_accounts (λ b. refl)
      ∙ rw there (rw (find_passes (of_user user_id) w.shared.db.acme_accounts a there) refl)

  -- Without faults and interference: a registration that is saved for a user with an account is
  -- read again, if the configured authority has an address and the format reads what it wrote.
  pub load-save_acme_registration :
      (user_id : ℕ) (reg : lib.Registration) (b : ℕ) (bs : Bytes) (a : AcmeAccount) (w : World)
      → lib.marshal reg ≡ inr (b ∷ bs)
      → lib.unmarshal (b ∷ bs) ≡ inr reg
      → current_ca env lib ≢ ""
      → find (of_user user_id) w.shared.db.acme_accounts ≡ some a
      → (load_acme_registration env lib user_id (save_acme_registration env lib user_id reg w).1).0
        ≡ ok (some reg)
  unfolding load_acme_registration acts returned parsed_registration
  load-save_acme_registration user_id reg b bs a w marshals unmarshals given there =
      let w1 = saved user_id (b ∷ bs) w in
      rw (save-quiet user_id reg (b ∷ bs) w marshals) (
        rw
          (first_account-quiet (of_user user_id) (saved_row a (b ∷ bs) w) w1
            (find-saved user_id (b ∷ bs) a w there))
          (rw (invalidate-current (saved_row a (b ∷ bs) w) (after w1 w1.shared) refl given)
            (rw unmarshals refl)))

  abbrev made_user : String → lib.Key → AcmeUser lib
  made_user email key = record { email = email; registration = none; key = key }

  abbrev made_row : ℕ → String → Bytes → World → AcmeAccount
  made_row user_id email stored w = record (new_account env lib user_id email stored) {
    id = w.shared.db.next_id;
    created_at = env.clock w.event;
    updated_at = env.clock w.event;
  }

  abbrev made : ℕ → String → Bytes → World → World
  made user_id email stored w = after w (record (w.shared) {
    db = record (w.shared.db) {
      acme_accounts = w.shared.db.acme_accounts ++ made_row user_id email stored w ∷ [];
      next_id = suc w.shared.db.next_id;
    };
  })

  absent :
      (user_id : ℕ) (xs : List AcmeAccount)
      → find (of_user user_id) xs ≡ none
      → any (of_user user_id) xs ≡ false
  absent user_id xs free = find-any (of_user user_id) xs ∙ rw free refl

  insert-quiet :
      (user_id : ℕ) (email : String) (key : lib.Key) (stored : Bytes) (w : World)
      → find (of_user user_id) w.shared.db.acme_accounts ≡ none
      → insert_account env lib user_id email key stored w
        ≡ (ok (made_user email key), made user_id email stored w)
  unfolding insert_account acts create_account
  insert-quiet user_id email key stored w free =
      rw (exec-quiet env q, create_account)
        (rw (absent user_id w.shared.db.acme_accounts free) refl)

  encode-ok :
      (key : lib.Key) (der : Bytes)
      → lib.marshal_key key ≡ some der
      → encode_ec_private_key lib key ≡ some (lib.pem_encode der)
  unfolding encode_ec_private_key
  encode-ok key der m = rw (m, encode_ec_private_key) refl

  parse-ok :
      (key : lib.Key) (pem der : Bytes)
      → lib.pem_decode pem ≡ some der
      → lib.parse_key der ≡ inr key
      → parse_ec_private_key lib pem ≡ ok key
  unfolding parse_ec_private_key parsed_key
  parse-ok key pem der p k = rw p (rw (k, parsed_key) refl)

  invalidate-fresh :
      (a : AcmeAccount) (w : World)
      → a.registration ≡ []
      → a.ca_url ≡ ""
      → lib.trim_space "" ≡ ""
      → invalidate_registration_if_ca_changed env lib a w ≡ (ok a, w)
  unfolding invalidate_registration_if_ca_changed acts normalize_ca_url trim_slash
  invalidate-fresh a w none' blank trims =
      rw (blank, trims) (rw (none', invalidate_registration_if_ca_changed) refl)

  create-quiet :
      (user_id : ℕ) (email : String) (key : lib.Key) (der stored : Bytes) (w : World)
      → find (of_user user_id) w.shared.db.acme_accounts ≡ none
      → lib.generate_key w.event ≡ some key
      → lib.marshal_key key ≡ some der
      → env.encrypt w.event (lib.pem_encode der) ≡ some stored
      → create_acme_account env lib user_id email w
        ≡ (ok (made_user email key), made user_id email stored w)
  unfolding create_acme_account acts drawn returned or_library
  create-quiet user_id email key der stored w free generates marshals encrypts =
      rw (generates, or_library)
        (rw (encode-ok key der marshals, or_library)
          (rw (encrypts, or_library) (insert-quiet user_id email key stored w free)))

  -- Without faults and interference: an account that is made for a user without one is loaded
  -- again with the same key and address and no registration, if decryption, PEM and the encoding
  -- of keys give back what was put in.
  pub load-create_acme_account :
      (user_id : ℕ) (email : String) (key : lib.Key) (der stored : Bytes) (w : World)
      → find (of_user user_id) w.shared.db.acme_accounts ≡ none
      → lib.generate_key w.event ≡ some key
      → lib.marshal_key key ≡ some der
      → env.encrypt w.event (lib.pem_encode der) ≡ some stored
      → env.decrypt stored ≡ inr (lib.pem_encode der)
      → lib.pem_decode (lib.pem_encode der) ≡ some der
      → lib.parse_key der ≡ inr key
      → lib.trim_space "" ≡ ""
      → let end' = create_acme_account env lib user_id email w in
        (end'.0 ≡ ok (made_user email key))
        × ((load_acme_account env lib user_id end'.1).0 ≡ ok (made_user email key))
  unfolding load_acme_account acts acme_user_from_account decrypted_key returned parsed_registration
  load-create_acme_account user_id email key der stored w free g m e d p k blank =
      let row = made_row user_id email stored w in
      let w1 = made user_id email stored w in
      rw (create-quiet user_id email key der stored w free g m e) (
        refl,
        rw (first_account-quiet (of_user user_id) row w1 found_again) (
            rw (invalidate-fresh row (after w1 w1.shared) refl refl blank)
              (rw (d, decrypted_key) (rw (parse-ok key (lib.pem_encode der) der p k) refl))),
      )
    where
      found_again :
          find (of_user user_id) (made user_id email stored w).shared.db.acme_accounts
          ≡ some (made_row user_id email stored w)
      found_again =
          find-append (of_user user_id) w.shared.db.acme_accounts
            (made_row user_id email stored w ∷ [])
          ∙ rw free (unfold find in rw (==_refl user_id) refl)
