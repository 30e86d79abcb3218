-- ===== src/Domains/Added.antt =====
-- AddDomain of controllers/domain.go in a quiet environment: a free name, and one that is taken.
use certhub_server.Common.{
  ℕ, suc, String, Bool, true, false, not, Option, none, some, List, [], ◌∷◌, ◌++◌, ◌≡◌, refl, ap,
  find, find-any, ◌⊎◌, any, update, ◌==◌, ==_refl, str_eq, inl, inr, Bool-cases, arith, ◌&&◌,
}
use certhub_server.Config.Durations.{unclaimed_error_release_duration}
use certhub_server.Common.Int.{pos}
use certhub_server.Common.Text.{◌+++◌, trim_dot, format_uint}
use certhub_server.Models.{Domain, Certificate, pending, is_live}
use certhub_server.Store.{
  Result, DbError, ok, err, found, first_certificate, create_domain, first_domain_unscoped, touch,
}
use certhub_server.System.{Env, World, Shared, and_then, acts, after, exec}
use certhub_server.System.Quiet.{IsQuiet, exec-quiet}
use certhub_server.CertJob.{of_domain}
use certhub_server.Http.Dto.{to_domain_dto}
use certhub_server.Lifecycle.Quiet.{
  live_with, updated, certified, with_db, update_where-quiet, domain_has_certificate-quiet,
}
use certhub_server.Http.{
  Web, Response, respond_success, domain_data, require_user_id, answer_domain, load_domain_dto,
  load_certificate,
}
use certhub_server.Domains.{
  DomainInput, add_new, is_released, delegation_target, domain_name_from_input,
  create_domain_record, already_registered, is_unclaimed_domain, add_taken, add_checked, add_named,
  add_domain,
}

abbrev pub named : String → Domain → Bool
named name d = str_eq d.domain name

module _ (env : Env) (web : Web) where
  -- Another user may take the name over: its row has no certificate, and isUnclaimedDomain lets go
  -- of it at the time that the call reads.
  abbrev pub is_free_for_others : Domain → World → Bool
  is_free_for_others d w =
      not (certified d.id w.shared.db)
      && is_released (env.clock (suc (suc w.event)))
          (unclaimed_error_release_duration env.parse_duration env.config.domain) d d.status

  -- The user's pending domain, with the next key, and its own delegation target below the
  -- configured name.
  abbrev pub added_row : ℕ → String → World → Domain
  added_row user name w =
      let db = w.shared.db in
      record {
        id = db.next_id;
        user_id = user;
        domain = name;
        status = pending;
        generating_since = none;
        cname_target = format_uint db.next_id +++ "." +++ trim_dot env.config.domain.cname_target;
        auto_renew = true;
        cname_verified_at = none;
        auto_renew_failures = pos 0;
        auto_renew_backoff_until = none;
        error_message = "";
        created_at = env.clock (suc w.event);
        updated_at = env.clock (suc (suc w.event));
        deleted_at = none;
      }

  -- The tables with the new row.
  abbrev pub added : ℕ → String → World → Shared
  added user name w =
      let db = w.shared.db in
      with_db
        (record db { domains = db.domains ++ added_row user name w ∷ []; next_id = suc db.next_id })
        w.shared

  -- The row as it is inserted, and the end of the call with the rows that it leaves.
  abbrev inserted_row : ℕ → String → World → Domain
  inserted_row user name w = record (added_row user name w) {
    cname_target = "";
    updated_at = env.clock (suc w.event);
  }

  abbrev end_with : ℕ → String → World → List Domain → Result DbError Domain × World
  end_with user name w ds =
      let db = w.shared.db in
      (
        ok (record (added_row user name w) { updated_at = env.clock (suc w.event) }),
        after (after (after w w.shared) w.shared)
            (with_db (record db { domains = ds; next_id = suc db.next_id }) w.shared),
      )

module _ (env : Env) (q : IsQuiet env) (web : Web) where
  unscoped-quiet :
      (p : Domain → Bool) (o : Option Domain) (w : World)
      → find p w.shared.db.domains ≡ o
      → exec env (first_domain_unscoped p) w ≡ (found o, after w w.shared)
  unfolding first_domain_unscoped
  unscoped-quiet p o w e = rw (exec-quiet env q, first_domain_unscoped) (rw e)

  -- What AddDomain comes to with a valid name.
  add_domain-search :
      (user : ℕ) (input : DomainInput) (name : String) (o : Option Domain) (w : World)
      → domain_name_from_input env web input ≡ ok name
      → find (named name) w.shared.db.domains ≡ o
      → add_domain env web (some user) (inr input) w
        ≡ add_checked env web user name (found o) (after w w.shared)
  unfolding add_domain require_user_id add_named acts
  add_domain-search user input name o w valid there =
      rw valid (rw (unscoped-quiet (named name) o w there) refl)

  -- Without faults and interference: AddDomain answers 409 and changes nothing for a name that is
  -- a live domain's, if it is the user's own, has a certificate, or is in a status that keeps it.
  pub add_domain-taken :
      (user : ℕ) (input : DomainInput) (name : String) (d : Domain) (w : World)
      → domain_name_from_input env web input ≡ ok name
      → find (named name) w.shared.db.domains ≡ some d
      → is_live d ≡ true
      → (d.user_id == user) ≡ true ⊎ is_free_for_others env web d w ≡ false
      → ((add_domain env web (some user) (inr input) w).0 ≡ err already_registered)
        × ((add_domain env web (some user) (inr input) w).1.shared ≡ w.shared)
  unfolding add_checked add_taken is_unclaimed_domain acts
  add_domain-taken user input name d w valid there live in_use =
      rw (add_domain-search user input name (some d) w valid there) (
        rw live (elim (Bool-cases (d.user_id == user)) [
          | inl own ↦ rw own (refl, refl)
          | inr other ↦
              let kept : is_free_for_others env web d w ≡ false = ground arith in
              rw other (
                rw (domain_has_certificate-quiet env q Response d.id (after w w.shared))
                  (rw kept (refl, refl)))
        ]))

  any-not_found : (p : Domain → Bool) (xs : List Domain) → find p xs ≡ none → any p xs ≡ false
  any-not_found p xs h = ground (arith, find-any p xs)

  update-append :
      (p : Domain → Bool) (f : Domain → Domain) (xs : List Domain) (x : Domain)
      → any p xs ≡ false
      → p x ≡ true
      → update p f (xs ++ x ∷ []) ≡ xs ++ f x ∷ []
  unfolding update
  update-append p f [] x none' hit = rw hit refl
  update-append p f (y ∷ ys) x none' hit =
      let miss : p y ≡ false = ground arith in
      rw miss (ap (λ zs. y ∷ zs) (update-append p f ys x (ground arith) hit))

  -- From the world that follows the search.
  create_record-quiet :
      (user : ℕ) (name : String) (w : World)
      → any (named name) w.shared.db.domains ≡ false
      → any (live_with w.shared.db.next_id) w.shared.db.domains ≡ false
      → create_domain_record env web user name (after w w.shared)
        ≡ end_with env web user name w (w.shared.db.domains ++ added_row env web user name w ∷ [])
  unfolding create_domain_record create_domain acts updated delegation_target
  create_record-quiet user name w free fresh =
      let db = w.shared.db in
      let target =
        λ (d : Domain). record d { cname_target = delegation_target env web db.next_id } in
      rw (exec-quiet env q) (
        rw free (
          rw (update_where-quiet env q) (
            ap (end_with env web user name w) (
              update-append (live_with db.next_id) (touch (env.clock (suc (suc w.event))) target)
                db.domains (inserted_row env web user name w) fresh (==_refl db.next_id)))))

  answer-quiet :
      (d : Domain) (o : Option Certificate) (w : World)
      → find (of_domain d.id) w.shared.db.certificates ≡ o
      → answer_domain env web d w ≡ (
        ok (
            respond_success
              (domain_data (to_domain_dto web.format_time (env.clock (suc w.event)) d o))),
        after w w.shared,
      )
  unfolding answer_domain load_domain_dto load_certificate first_certificate acts
  answer-quiet d o w e = rw (q.works, q.alone) (rw e (go o))
    where
      go :
          (p : Option Certificate)
          → and_then {E = Response}
              (and_then
                (ok (elim (found p) [ ok a ↦ some a | err x ↦ none ]), after w w.shared)
                (λ c v. (ok (to_domain_dto web.format_time (env.clock v.event) d c), v)))
              (λ dto v. (ok (respond_success (domain_data dto)), v))
            ≡ (
              ok (
                  respond_success
                    (domain_data (to_domain_dto web.format_time (env.clock (suc w.event)) d p))),
              after w w.shared,
            )
      go none = refl
      go (some c) = refl

  -- Without faults and interference, and where the next key is that of no live row and no
  -- certificate: AddDomain adds a valid name that no row has, deleted ones included, as the user's
  -- pending domain with its own delegation target, changes nothing else, and answers with it.
  pub add_domain-free :
      (user : ℕ) (input : DomainInput) (name : String) (w : World)
      → domain_name_from_input env web input ≡ ok name
      → find (named name) w.shared.db.domains ≡ none
      → any (live_with w.shared.db.next_id) w.shared.db.domains ≡ false
      → find (of_domain w.shared.db.next_id) w.shared.db.certificates ≡ none
      → let row = added_row env web user name w in
        let end' = add_domain env web (some user) (inr input) w in
        (end'.1.shared ≡ added env web user name w)
        × (end'.0
            ≡ ok (
                respond_success (
                  domain_data (
                    to_domain_dto web.format_time
                      (env.clock (suc (suc (suc (suc w.event)))))
                      (record row { updated_at = env.clock (suc w.event) })
                      none))))
  unfolding add_checked add_new acts
  add_domain-free user input name w valid free fresh bare =
      rw (add_domain-search user input name none w valid free) (
        rw
          (create_record-quiet user name w (any-not_found (named name) w.shared.db.domains free)
            fresh)
          (rw
            (answer-quiet
              (record (added_row env web user name w) { updated_at = env.clock (suc w.event) }) none
              (after (after (after w w.shared) w.shared) (added env web user name w)) bare)
            (refl, refl)))
