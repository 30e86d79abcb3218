-- ===== src/Acme/OneAccount.antt =====
-- ObtainCertificate and RenewExistingCertificate (services/lego.go) and the tables: what they never
-- touch, and that a user has one account at most.
use Prim.Native.Nat.{ℕ, ◌+◌, ◌≤◌}
use certhub_server.Common.{
  String, Bool, false, List, [], ◌∷◌, ◌++◌, ◌≡◌, refl, ◌==◌, any, count, update, if◌then◌else◌,
  Bool-cases, inl, inr, arith,
}
use certhub_server.Models.{Time, AcmeAccount}
use certhub_server.Store.{Db, create_account, update_accounts}
use certhub_server.System.{Env, World, Shared, CertResource}
use certhub_server.System.Keeps.{Stable}
use certhub_server.Acme.Lego.{Lego}
use certhub_server.Acme.Account.{of_user}
use certhub_server.Acme.Client.{obtain_certificate, renew_existing_certificate}
use certhub_server.Acme.Tables.{Keeps-obtain, Keeps-renew}

-- The other tables are those of `db`, and no user has two accounts.
pub record OnlyAccounts (db : Db) (s : Shared) : Type 0 where
  pub domains : s.db.domains ≡ db.domains
  pub certificates : s.db.certificates ≡ db.certificates
  pub users : s.db.users ≡ db.users
  pub deploy_targets : s.db.deploy_targets ≡ db.deploy_targets
  pub deploy_jobs : s.db.deploy_jobs ≡ db.deploy_jobs
  pub one_account : (u : ℕ) → count (of_user u) s.db.acme_accounts ≤ 1

count-append_new :
    (u : ℕ) (a : AcmeAccount) (xs : List AcmeAccount)
    → count (of_user u) (xs ++ a ∷ []) ≡ count (of_user u) xs + (if a.user_id == u then 1 else 0)
unfolding count
count-append_new u a [] = ground arith
count-append_new u a (x ∷ xs) = ground (arith, count-append_new u a xs)

count-absent :
    (u : ℕ) (xs : List AcmeAccount) → any (of_user u) xs ≡ false → count (of_user u) xs ≡ 0
unfolding count
count-absent u [] h = refl
count-absent u (x ∷ xs) h = ground (arith, count-absent u xs)

count-update :
    (u : ℕ) (p : AcmeAccount → Bool) (f : AcmeAccount → AcmeAccount) (xs : List AcmeAccount)
    → ((a : AcmeAccount) → (f a).user_id ≡ a.user_id)
    → count (of_user u) (update p f xs) ≡ count (of_user u) xs
unfolding count update
count-update u p f [] same = refl
count-update u p f (x ∷ xs) same = ground (arith, same x, count-update u p f xs same)

create-OnlyAccounts :
    (db : Db) (t : Time) (a : AcmeAccount) (s : Shared)
    → OnlyAccounts db s
    → OnlyAccounts db (record s { db = (create_account t a s.db).1 })
unfolding create_account
create-OnlyAccounts db t a s h = elim (Bool-cases (any (of_user a.user_id) s.db.acme_accounts)) [
  | inl there ↦ rw there h
  | inr free ↦ rw free (record {
    domains = h.domains;
    certificates = h.certificates;
    users = h.users;
    deploy_targets = h.deploy_targets;
    deploy_jobs = h.deploy_jobs;
    one_account = λ u. ground (
      arith,
      h.one_account u,
      count-append_new u (record a { id = s.db.next_id; created_at = t; updated_at = t })
          s.db.acme_accounts,
      count-absent a.user_id s.db.acme_accounts free,
    );
  })
]

update-OnlyAccounts :
    (db : Db) (t : Time) (p : AcmeAccount → Bool) (f : AcmeAccount → AcmeAccount) (s : Shared)
    → ((a : AcmeAccount) → (f a).user_id ≡ a.user_id)
    → OnlyAccounts db s
    → OnlyAccounts db (record s { db = (update_accounts t p f s.db).1 })
unfolding update_accounts
update-OnlyAccounts db t p f s same h = record {
  domains = h.domains;
  certificates = h.certificates;
  users = h.users;
  deploy_targets = h.deploy_targets;
  deploy_jobs = h.deploy_jobs;
  one_account = λ u.
      rw
        (count-update u p (λ a. let a' = f a in record a' { updated_at = t }) s.db.acme_accounts
          same)
        (h.one_account u);
}

module _ (env : Env) (lib : Lego) (db : Db) (stable : Stable (OnlyAccounts db) env) where
  -- Whatever the authority and the clock do and however the calls end: while the other goroutines
  -- leave the other tables alone and make no second account of a user, ObtainCertificate and
  -- RenewExistingCertificate change no table but that of the accounts, and no user gets two.
  pub acme-OnlyAccounts :
      (domain_id token user_id : ℕ) (domain email : String) (existing : CertResource) (w : World)
      → OnlyAccounts db w.shared
      → OnlyAccounts db (obtain_certificate env lib domain_id token user_id domain email w).1.shared
        × OnlyAccounts db
            (renew_existing_certificate env lib domain_id token user_id email existing w).1.shared
  acme-OnlyAccounts domain_id token user_id domain email existing w h = (
    Keeps-obtain (OnlyAccounts db) env lib stable (create-OnlyAccounts db) (update-OnlyAccounts db)
        domain_id token user_id domain email w h,
    Keeps-renew (OnlyAccounts db) env lib stable (create-OnlyAccounts db) (update-OnlyAccounts db)
        domain_id token user_id email existing w h,
  )
