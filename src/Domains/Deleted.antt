-- ===== src/Domains/Deleted.antt =====
-- Deleting a domain, in a quiet environment.
use Prim.Native.Nat.{ℕ, suc}
use certhub_server.Common.{
  String, Bool, true, false, not, ◌&&◌, some, List, [], ◌∷◌, ◌≡◌, refl, ◌==◌, arith, find, keep,
  update, count,
}
use certhub_server.Models.{Time, Domain, is_generating, is_live}
use certhub_server.Store.{
  ok, err, Db, soft_delete_domain, delete_certificates, delete_targets, delete_jobs,
}
use certhub_server.System.{Env, World, acts, after, attempt, ◌>>◌}
use certhub_server.System.Quiet.{IsQuiet, exec-quiet}
use certhub_server.CertJob.{of_domain}
use certhub_server.Lifecycle.Quiet.{live_with, first_domain-quiet, with_db}
use certhub_server.Http.{
  Web, Response, respond_error, respond_success, no_data, get_domain_owned, require_user_id,
  exec_or, owned_by, parse_domain_id,
}
use certhub_server.Domains.{remove_dependents}
use certhub_server.Domains.Requests.{delete_domain}

-- No row of a table passes the test.
abbrev pub NoneLeft {ℓ} : {A : Type ℓ} → (A → Bool) → List A → Type 0
NoneLeft p xs = count p xs ≡ 0

keep-NoneLeft {ℓ} :
    {A : Type ℓ} (p : A → Bool) (xs : List A) → NoneLeft p (keep (λ x. not (p x)) xs)
unfolding keep count
keep-NoneLeft p [] = refl
keep-NoneLeft p (x ∷ xs) = ground (arith, keep-NoneLeft p xs)

marked-gone :
    (t : Time) (id : ℕ) (ds : List Domain)
    → NoneLeft (live_with id) (update (live_with id) (λ d. record d { deleted_at = some t }) ds)
unfolding update count
marked-gone t id [] = refl
marked-gone t id (d ∷ ds) = ground (arith, marked-gone t id ds)

-- What belongs to a domain is gone from the tables, and so is the domain from its live rows.
pub record IsGone (id : ℕ) (db : Db) : Type 0 where
  pub domain : NoneLeft (live_with id) db.domains
  pub certificates : NoneLeft (of_domain id) db.certificates
  pub targets : NoneLeft (λ t. t.domain_id == id) db.deploy_targets
  pub jobs : NoneLeft (λ j. j.domain_id == id) db.deploy_jobs

-- The tables without what belongs to a domain.
abbrev emptied : ℕ → Db → Db
emptied id db = record db {
  certificates = keep (λ c. not (of_domain id c)) db.certificates;
  deploy_targets = keep (λ t. not (t.domain_id == id)) db.deploy_targets;
  deploy_jobs = keep (λ j. not (j.domain_id == id)) db.deploy_jobs;
}

module _ (env : Env) (q : IsQuiet env) (web : Web) where
  remove_dependents-quiet {ℓ} :
      (E : Type ℓ) (id : ℕ) (w : World)
      → remove_dependents env web {E = E} id w ≡ (
        ok tt,
        record {
          shared = with_db (emptied id w.shared.db) w.shared;
          event = suc (suc (suc w.event));
        },
      )
  unfolding remove_dependents attempt ◌>>◌ delete_certificates delete_targets delete_jobs
  remove_dependents-quiet E id w = rw (exec-quiet env q (delete_certificates (of_domain id))) (
      rw (exec-quiet env q (delete_targets (λ t. t.domain_id == id)))
        (rw (exec-quiet env q (delete_jobs (λ j. j.domain_id == id))) refl))

  -- The owner's request to delete a domain: while a certificate is being made it is answered 409,
  -- and nothing changes.
  pub delete_domain-generating :
      (user id : ℕ) (raw : String) (d : Domain) (w : World)
      → parse_domain_id web raw ≡ some id
      → find (λ x. is_live x && owned_by id user x) w.shared.db.domains ≡ some d
      → is_generating d.status ≡ true
      → delete_domain env web (some user) raw w ≡ (
        err (respond_error 409 "Cannot delete domain while certificate generation is in progress"),
        after w w.shared,
      )
  unfolding delete_domain get_domain_owned require_user_id exec_or acts
  delete_domain-generating user id raw d w parsed there busy =
      rw parsed (rw (first_domain-quiet env q (owned_by id user) (some d) w there) (rw busy refl))

  -- Without faults and interference: the owner's request to delete a domain that is not generating
  -- succeeds, and the domain is gone with its certificates, targets and jobs.
  pub delete_domain-IsGone :
      (user id : ℕ) (raw : String) (d : Domain) (w : World)
      → parse_domain_id web raw ≡ some id
      → find (λ x. is_live x && owned_by id user x) w.shared.db.domains ≡ some d
      → is_generating d.status ≡ false
      → let end' = delete_domain env web (some user) raw w in
        (end'.0 ≡ ok (respond_success no_data)) × IsGone d.id end'.1.shared.db
  unfolding delete_domain get_domain_owned require_user_id exec_or acts soft_delete_domain
  delete_domain-IsGone user id raw d w parsed there free = rw parsed (
      rw (first_domain-quiet env q (owned_by id user) (some d) w there) (
        rw free (
          rw (remove_dependents-quiet Response d.id (after w w.shared)) (
            rw (exec-quiet env q) (
              refl,
              record {
                domain = marked-gone _ d.id w.shared.db.domains;
                certificates = keep-NoneLeft (of_domain d.id) w.shared.db.certificates;
                targets = keep-NoneLeft (λ t. t.domain_id == d.id) w.shared.db.deploy_targets;
                jobs = keep-NoneLeft (λ j. j.domain_id == d.id) w.shared.db.deploy_jobs;
              },
            )))))
