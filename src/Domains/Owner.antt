-- ===== src/Domains/Owner.antt =====
-- Who may use a domain: getDomainOwned, and the handlers that start with it.
use Prim.Native.Nat.{ℕ}
use certhub_server.Common.{
  String, Bool, true, ◌&&◌, Option, none, some, ◌≡◌, refl, sym, ap, ◌∙◌, ◌⊎◌, inl, inr, arith, find,
  find_passes, ==_iff, Option-cases,
}
use certhub_server.Models.{Domain, is_live}
use certhub_server.Store.{Result, ok, err, first_domain, found}
use certhub_server.System.{Env, World, Act, acts, after, exec}
use certhub_server.System.Quiet.{IsQuiet}
use certhub_server.System.Inversion.{catch-fail_ok, exec_ok}
use certhub_server.Http.{
  Web, Session, Response, get_domain_owned, require_user_id, exec_or, owned_by, parse_domain_id,
  domain_not_found, respond_error,
}
use certhub_server.Domains.Requests.{
  get_domain, update_domain, delete_domain, get_cname, verify_cname,
}
use certhub_server.Start.Api.{issue_certificate, get_certificate_info, download_domain_certificate}
use certhub_server.Lifecycle.Quiet.{first_domain-quiet}

-- The domain is live, has the key that the path names, and belongs to the user of the session.
pub record IsOwned (web : Web) (session : Session) (raw : String) (d : Domain) : Type 0 where
  pub user : session ≡ some d.user_id
  pub key : parse_domain_id web raw ≡ some d.id
  pub live : is_live d ≡ true

owned_row :
    (id user_id : ℕ) (d : Domain)
    → is_live d && owned_by id user_id d ≡ true
    → (is_live d ≡ true) × (d.id ≡ id) × (d.user_id ≡ user_id)
owned_row id user_id d h = ground (arith, ==_iff d.id id, ==_iff d.user_id user_id)

found_row : (id user_id : ℕ) (d : Domain) (o : Option Domain) → found o ≡ ok d → o ≡ some d
found_row id user_id d none e = absurd (ground arith)
found_row id user_id d (some x) e = ground arith

module _ (env : Env) (web : Web) where
  -- Whatever the database and the other goroutines do: the domain that a handler goes on with is a
  -- live one of the user of its session, with the key in its path.
  pub get_domain_owned-IsOwned :
      (session : Session) (raw : String) (d : Domain) (w v : World)
      → get_domain_owned env web session raw w ≡ (ok d, v)
      → IsOwned web session raw d
  unfolding get_domain_owned require_user_id exec_or first_domain acts
  get_domain_owned-IsOwned none raw d w v h = absurd (ground arith)
  get_domain_owned-IsOwned (some user) raw d w v h = elim (Option-cases (parse_domain_id web raw)) [
    | inl bad ↦ absurd (refuse (rw bad at h))
    | inr (id, e) ↦ owned id e (rw e at h)
  ]
    where
      refuse :
          ◌≡◌ {A = Result Response Domain × World}
            (err (respond_error 400 "Invalid domain id"), w)
            (ok d, v)
          → ⊥
      refuse k = ground arith

      owned :
          (id : ℕ)
          → parse_domain_id web raw ≡ some id
          → exec_or domain_not_found (exec env (first_domain (owned_by id user))) w ≡ (ok d, v)
          → IsOwned web (some user) raw d
      owned id e k =
          let ran =
            catch-fail_ok (exec env (first_domain (owned_by id user))) (λ _. domain_not_found) w d v
              k in
          let s = env.others w.event w.shared in
          let p = λ (x : Domain). is_live x && owned_by id user x in
          let row =
            found_row id user d (find p s.db.domains)
              (exec_ok env (first_domain (owned_by id user)) w d v ran).0 in
          let (alive, same_id, same_user) =
            owned_row id user d (find_passes p s.db.domains d row) in
          record { user = ap some (sym same_user); key = e ∙ ap some (sym same_id); live = alive }

  module _ (q : IsQuiet env) where
    -- A request for a domain that is not the user's own (or is deleted, or does not exist) is
    -- answered 404, and changes nothing, by each of these handlers.
    pub foreign_domain-refused :
        (user : ℕ) (raw live format : String) (input : String ⊎ Option Bool) (force : Bool) (id : ℕ)
        (w : World)
        → parse_domain_id web raw ≡ some id
        → find (λ d. is_live d && owned_by id user d) w.shared.db.domains ≡ none
        → let refused =
            λ (a : Act Response Response). a w ≡ (err domain_not_found, after w w.shared) in
          refused (get_domain env web (some user) raw)
          × refused (update_domain env web (some user) raw input)
          × refused (delete_domain env web (some user) raw)
          × refused (get_cname env web (some user) raw live)
          × refused (verify_cname env web (some user) raw)
          × refused (issue_certificate env web (some user) raw (inr force))
          × refused (get_certificate_info env web (some user) raw)
          × refused (download_domain_certificate env web (some user) raw format)
    unfolding get_domain update_domain delete_domain get_cname verify_cname issue_certificate
        get_certificate_info download_domain_certificate get_domain_owned require_user_id exec_or
        acts
    foreign_domain-refused user raw live format input force id w parsed foreign = rw parsed (
        rw (first_domain-quiet env q (owned_by id user) none w foreign)
          (refl, refl, refl, refl, refl, refl, refl, refl))
