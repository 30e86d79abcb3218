-- ===== src/Examples/Handlers.antt =====
-- Tests of the handlers.
use certhub_server.Common.{true, none, some, [], ◌∷◌, ◌≡◌, refl, find, count, inr, inl}
use certhub_server.Common.Int.{pos}
use certhub_server.Common.Text.{trim_dot}
use certhub_server.Config.Durations.{is_registration_enabled}
use certhub_server.Models.{active, pending}
use certhub_server.Store.{ok, err}
use certhub_server.System.{World, after}
use certhub_server.Lifecycle.Quiet.{live_with, certified}
use certhub_server.Http.{parse_domain_id, domain_not_found, respond_success, no_data}
use certhub_server.Domains.{assign_unclaimed_domain_to_user}
use certhub_server.Domains.Requests.{
  get_domain, update_domain, delete_domain, get_cname, verify_cname,
}
use certhub_server.Domains.Owner.{foreign_domain-refused}
use certhub_server.Domains.Claim.{taken_over, assign-claims}
use certhub_server.Domains.Deleted.{IsGone, delete_domain-IsGone}
use certhub_server.Start.Api.{issue_certificate, get_certificate_info, download_domain_certificate}
use certhub_server.Users.{Credentials, Logins, register, login}
use certhub_server.Users.Accounts.{account, logged_in, login-register}
use certhub_server.Domains.{DomainInput, domain_name_from_input, already_registered, add_domain}
use certhub_server.Domains.Added.{added, added_row, add_domain-taken, add_domain-free}
use certhub_server.DomainName.{
  validate_label, validate_domain_name, validate_domain_labels, validate_labels, validate_ascii,
  normalize_domain, byte_length, contains, split_dot, check_letters, result_of, or_next,
}
use certhub_server.Http.{respond_success, domain_data}
use certhub_server.Http.Dto.{to_domain_dto}
use certhub_server.System.{World}
use certhub_server.Examples.{quiet_env, quiet, row, cert, tables, idle, test_web, world}

abbrev w : World
w = idle (tables active [])

foreign_domain-refused_example :
    (get_domain quiet_env test_web (some 8) "1" w ≡ (err domain_not_found, after w w.shared))
    × (update_domain quiet_env test_web (some 8) "1" (inr none) w
        ≡ (err domain_not_found, after w w.shared))
    × (delete_domain quiet_env test_web (some 8) "1" w ≡ (err domain_not_found, after w w.shared))
    × (get_cname quiet_env test_web (some 8) "1" "true" w
        ≡ (err domain_not_found, after w w.shared))
    × (verify_cname quiet_env test_web (some 8) "1" w ≡ (err domain_not_found, after w w.shared))
    × (issue_certificate quiet_env test_web (some 8) "1" (inr true) w
        ≡ (err domain_not_found, after w w.shared))
    × (get_certificate_info quiet_env test_web (some 8) "1" w
        ≡ (err domain_not_found, after w w.shared))
    × (download_domain_certificate quiet_env test_web (some 8) "1" "pem" w
        ≡ (err domain_not_found, after w w.shared))
unfolding parse_domain_id find
foreign_domain-refused_example =
    foreign_domain-refused quiet_env test_web quiet 8 "1" "true" "pem" (inr none) true 1 w refl refl

assign-claims_example :
    ((assign_unclaimed_domain_to_user quiet_env test_web 1 8 (idle (tables pending []))).0
      ≡ ok (taken_over 8 (pos 1) (row pending)))
    × (find
          (live_with 1)
          (assign_unclaimed_domain_to_user quiet_env test_web 1 8
            (idle (tables pending []))).1.shared.db.domains
        ≡ some (taken_over 8 (pos 1) (row pending)))
unfolding certified count find
assign-claims_example =
    assign-claims quiet_env quiet test_web 1 8 (row pending) (idle (tables pending [])) refl refl
      refl

delete_domain-IsGone_example :
    ((delete_domain quiet_env test_web (some 7) "1" (idle (tables active (cert ∷ [])))).0
      ≡ ok (respond_success no_data))
    × IsGone 1
        (delete_domain quiet_env test_web
          (some 7)
          "1"
          (idle (tables active (cert ∷ [])))).1.shared.db
unfolding parse_domain_id find
delete_domain-IsGone_example =
    delete_domain-IsGone quiet_env quiet test_web 7 1 "1" (row active)
      (idle (tables active (cert ∷ []))) refl refl refl

abbrev logins : Logins
logins = record {
  hash_password = λ p. some p;
  check_password_hash = λ p h. true;
  saves = λ id. true;
}

abbrev newcomer : Credentials
newcomer = record { email = "b@example.com"; password = "secret" }

login-register_example :
    ((register quiet_env logins (inr newcomer) w).0
      ≡ ok (logged_in (account quiet_env newcomer "secret" w)))
    × ((login quiet_env logins (inr newcomer) (register quiet_env logins (inr newcomer) w).1).0
        ≡ ok (logged_in (account quiet_env newcomer "secret" w)))
unfolding is_registration_enabled find
login-register_example =
    login-register quiet_env quiet logins newcomer "secret" w refl refl refl refl refl

abbrev asked : DomainInput
asked = record { name = "example.com"; domain = "" }

asked_name : domain_name_from_input quiet_env test_web asked ≡ ok "example.com"
unfolding domain_name_from_input validate_domain_name validate_domain_labels validate_labels
    validate_label validate_ascii normalize_domain byte_length contains split_dot check_letters
    result_of or_next trim_dot
asked_name = refl

add_domain-taken_example :
    ((add_domain quiet_env test_web (some 7) (inr asked) (world (tables active []))).0
      ≡ err already_registered)
    × ((add_domain quiet_env test_web (some 7) (inr asked) (world (tables active []))).1.shared
        ≡ (world (tables active [])).shared)
unfolding find
add_domain-taken_example =
    add_domain-taken quiet_env quiet test_web 7 asked "example.com" (row active)
      (world (tables active [])) asked_name refl refl (inl refl)

abbrev empty_world : World
empty_world = idle (record (tables active []) { domains = [] })

add_domain-free_example :
    ((add_domain quiet_env test_web (some 7) (inr asked) empty_world).1.shared
      ≡ added quiet_env test_web 7 "example.com" empty_world)
    × ((add_domain quiet_env test_web (some 7) (inr asked) empty_world).0
        ≡ ok (
            respond_success (
              domain_data (
                to_domain_dto test_web.format_time
                  (pos 4)
                  (record (added_row quiet_env test_web 7 "example.com" empty_world) {
                    updated_at = pos 1;
                  })
                  none))))
unfolding find
add_domain-free_example =
    add_domain-free quiet_env quiet test_web 7 asked "example.com" empty_world asked_name refl refl
      refl
