-- ===== src/Examples/Accounts.antt =====
-- Tests of the ACME accounts and of what is obtained with them.
use Prim.Native.Nat.{ℕ}
use certhub_server.Common.{
  String, false, none, some, [], ◌∷◌, ◌≡◌, refl, ◌⊎◌, inl, inr, arith, find, count, ◌≤◌,
}
use certhub_server.Common.Int.{pos}
use certhub_server.Config.Defaults.{set_defaults}
use certhub_server.Common.Text.{trim_slash}
use certhub_server.Models.{Bytes, AcmeAccount, Certificate, active, generating}
use certhub_server.Store.{Db, ok, first_account}
use certhub_server.Registry.{is_cert_job_active, is_done}
use certhub_server.System.{CertResource, acts}
use certhub_server.CertJob.{of_domain, save_certificate_record, cert_row, context_err, job_active}
use certhub_server.Acme.{require_acme_active}
use certhub_server.Acme.Lego.{
  Lego, AcmeUser, normalize_ca_url, effective_ca_url, parsed_key, parse_ec_private_key,
  parsed_registration, drawn, returned, or_library, or_failure,
}
use certhub_server.Acme.Account.{
  of_user, current_ca, sql, invalidate_registration_if_ca_changed, decrypted_key,
  acme_user_from_account, load_acme_account, create_acme_account, load_or_create_acme_account,
}
use certhub_server.Acme.Client.{
  failed_with, if_live, build_cert_resource, ask_authority, require_active, new_lego_client,
  run_acme_with_context, registered_or_load, ensure_registered, prepared, obtain_with_context,
  obtain_certificate, renew_existing_certificate,
}
use certhub_server.Acme.OneAccount.{OnlyAccounts, acme-OnlyAccounts}
use certhub_server.Acme.Active.{WasActive, acme-WasActive}
use certhub_server.Acme.Registered.{load_acme_account-CurrentCa}
use certhub_server.Acme.RoundTrip.{load-create_acme_account}
use certhub_server.Acme.Stored.{build_cert_resource-save}
use certhub_server.Examples.{quiet_env, quiet, row, owner, tables, world, idle}

abbrev issued : CertResource
issued = record {
  domain = "example.com";
  cert_url = "u";
  cert_stable_url = "v";
  certificate = 1 ∷ [];
  private_key = 2 ∷ [];
  issuer_certificate = 3 ∷ [];
}

abbrev first_byte : Bytes → String ⊎ ℕ
first_byte [] = inl "empty"
first_byte (b ∷ bs) = inr b

-- Keys and registrations are numbers.
abbrev toy : Lego
toy = record {
  Key = ℕ;
  Registration = ℕ;
  generate_key = λ n. some n;
  marshal_key = λ k. some (k ∷ []);
  parse_key = first_byte;
  pem_encode = λ b. b;
  pem_decode = λ b. some b;
  marshal = λ r. inr (r ∷ []);
  unmarshal = first_byte;
  directory_production = "d";
  trim_space = λ s. s;
  new_client = λ n ca. none;
  new_cloudflare = λ n. none;
  set_provider = λ n. none;
  register = λ n ca k. inr 4;
  obtain = λ n ca k r d. inr issued;
  renew = λ n ca k r c. inr issued;
}

abbrev account : AcmeAccount
account = record {
  id = 2;
  user_id = 7;
  email = "a@example.com";
  private_key_pem = 5 ∷ [];
  registration = 4 ∷ [];
  ca_url = "https://acme-v02.api.letsencrypt.org/directory";
  created_at = pos 0;
  updated_at = pos 0;
}

abbrev db : Db
db = record (tables generating []) { acme_accounts = account ∷ [] }

one_of_account : (u : ℕ) → count (of_user u) (account ∷ []) ≤ 1
unfolding count
one_of_account u = ground arith

acme-OnlyAccounts_example :
    OnlyAccounts db
      (obtain_certificate quiet_env toy 1 1 7 "example.com" "a@example.com" (world db)).1.shared
    × OnlyAccounts db
        (renew_existing_certificate quiet_env toy 1 1 7 "a@example.com" issued (world db)).1.shared
acme-OnlyAccounts_example =
    acme-OnlyAccounts quiet_env toy db (λ n s h. h) 1 1 7 "example.com" "a@example.com" issued
      (world db)
      (record {
        domains = refl;
        certificates = refl;
        users = refl;
        deploy_targets = refl;
        deploy_jobs = refl;
        one_account = one_of_account;
      })

obtained : obtain_certificate quiet_env toy 1 1 7 "example.com" "a@example.com" (world db) ≡ (
  ok issued,
  (obtain_certificate quiet_env toy 1 1 7 "example.com" "a@example.com" (world db)).1,
)
unfolding obtain_certificate obtain_with_context prepared ensure_registered registered_or_load
    run_acme_with_context new_lego_client require_active ask_authority if_live failed_with
    load_or_create_acme_account load_acme_account acme_user_from_account decrypted_key
    invalidate_registration_if_ca_changed sql or_failure or_library returned drawn
    parsed_registration parse_ec_private_key parsed_key effective_ca_url normalize_ca_url
    context_err job_active require_acme_active acts first_account find trim_slash is_cert_job_active
    is_done set_defaults
obtained = refl

acme-WasActive_example :
    WasActive quiet_env 1 1
      (obtain_certificate quiet_env toy 1 1 7 "example.com" "a@example.com" (world db)).1
acme-WasActive_example =
    acme-WasActive quiet_env toy 1 1 7 "example.com" "a@example.com" issued issued (world db)
      (obtain_certificate quiet_env toy 1 1 7 "example.com" "a@example.com" (world db)).1
      (inl obtained)

abbrev user_loaded : AcmeUser toy
user_loaded = record { email = "a@example.com"; registration = some 4; key = 5 }

loaded :
    load_acme_account quiet_env toy 7 (world db)
    ≡ (ok user_loaded, (load_acme_account quiet_env toy 7 (world db)).1)
unfolding load_acme_account acme_user_from_account decrypted_key sql returned parsed_registration
    invalidate_registration_if_ca_changed parse_ec_private_key parsed_key effective_ca_url
    normalize_ca_url acts first_account find trim_slash set_defaults
loaded = refl

load_acme_account-CurrentCa_example :
    (a : AcmeAccount) × (find (of_user 7) db.acme_accounts ≡ some a)
    × (normalize_ca_url toy a.ca_url ≡ current_ca quiet_env toy)
    × (first_byte a.registration ≡ inr 4)
load_acme_account-CurrentCa_example =
    load_acme_account-CurrentCa quiet_env toy 7 4 user_loaded (world db)
      (load_acme_account quiet_env toy 7 (world db)).1 loaded refl

load-create_acme_account_example :
    let end' = create_acme_account quiet_env toy 7 "a@example.com" (idle (tables active [])) in
    (end'.0 ≡ ok (record { email = "a@example.com"; registration = none; key = 0 }))
    × ((load_acme_account quiet_env toy 7 end'.1).0
        ≡ ok (record { email = "a@example.com"; registration = none; key = 0 }))
unfolding find
load-create_acme_account_example =
    load-create_acme_account quiet_env quiet toy 7 "a@example.com" 0 (0 ∷ []) (0 ∷ [])
      (idle (tables active [])) refl refl refl refl refl refl refl refl

build_cert_resource-save_example :
    let row' = cert_row quiet_env (row generating) owner false false 1 (pos 4) issued (2 ∷ []) in
    (c : Certificate) × (find
        (of_domain 1)
        (save_certificate_record quiet_env 1 row'
          (world (tables generating []))).1.shared.db.certificates
      ≡ some c)
    × (build_cert_resource quiet_env c ≡ inr issued)
build_cert_resource-save_example =
    build_cert_resource-save quiet_env (row generating) owner false false 1 (pos 4) issued (2 ∷ [])
      (world (tables generating [])) quiet refl
