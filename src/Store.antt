-- ===== src/Store.antt =====
-- The tables behind config.DB, and the statements that the program sends to them. A query is a
-- Boolean test on rows, an update a function on rows: the SQL that the Go text writes out. Rows
-- stand in the order of their keys, so `First` is the first row that passes. What the engine adds
-- (keys, time stamps, unique indexes, soft deletion, failures) is documented behaviour of gorm and
-- PostgreSQL for the tags of models/*.go. A unique index refuses a row with an error of the driver:
-- `duplicated_key` is gorm.ErrDuplicatedKey, which gorm makes of it only under TranslateError, and
-- config/database.go opens it without.
use certhub_server.Common.{
  ℕ, suc, Bool, true, ◌&&◌, not, Option, none, some, List, [], ◌∷◌, ◌++◌, ◌==◌, str_eq, any, find,
  keep, update, count, if◌then◌else◌,
}
use certhub_server.Models.{
  Time, Domain, Certificate, User, DeployTarget, DeployJob, AcmeAccount, is_live,
}

pub data DbError : Type 0 where
  not_found duplicated_key failed : DbError

pub data Result {ℓ κ} (E : Type ℓ) (A : Type κ) : Type (ℓ ⊔ κ) where
  ok : A → Result E A
  err : E → Result E A

pub record Db : Type 0 where
  pub domains : List Domain
  pub certificates : List Certificate
  pub users : List User
  pub deploy_targets : List DeployTarget
  pub deploy_jobs : List DeployJob
  pub acme_accounts : List AcmeAccount
  pub next_id : ℕ

-- What a statement answers, and the tables after it.
abbrev pub Statement : Type 0 → Type 0
Statement A = Db → Result DbError A × Db

abbrev pub found {ℓ} : {A : Type ℓ} → Option A → Result DbError A
found none = err not_found
found (some a) = ok a

-- Every update of a domain row sets `updated_at`.
abbrev pub touch : Time → (Domain → Domain) → Domain → Domain
touch now f d = let d' = f d in record d' { updated_at = now }

-- db.Where(p).First(&domain)
unfoldable pub first_domain : (Domain → Bool) → Statement Domain
first_domain p db = (found (find (λ d. is_live d && p d) db.domains), db)

-- db.Unscoped().Where(p).First(&domain)
unfoldable pub first_domain_unscoped : (Domain → Bool) → Statement Domain
first_domain_unscoped p db = (found (find p db.domains), db)

-- db.Where(p).Find(&domains)
unfoldable pub find_domains : (Domain → Bool) → Statement (List Domain)
find_domains p db = (ok (keep (λ d. is_live d && p d) db.domains), db)

-- db.Model(&Domain{}).Where(p).Updates(f), with the number of rows that it changed.
unfoldable pub update_domains : Time → (Domain → Bool) → (Domain → Domain) → Statement ℕ
update_domains now p f db =
    let q = λ (d : Domain). is_live d && p d in
    (ok (count q db.domains), record db { domains = update q (touch now f) db.domains })

unfoldable pub update_domains_unscoped : Time → (Domain → Bool) → (Domain → Domain) → Statement ℕ
update_domains_unscoped now p f db =
    (ok (count p db.domains), record db { domains = update p (touch now f) db.domains })

-- db.Create(&domain): the index on the name covers the soft-deleted rows too.
unfoldable pub create_domain : Time → Domain → Statement Domain
create_domain now d db =
    let row = record d { id = db.next_id; created_at = now; updated_at = now } in
    if any (λ e. str_eq e.domain d.domain) db.domains
    then (err failed, db)
    else (ok row, record db { domains = db.domains ++ row ∷ []; next_id = suc db.next_id })

-- db.Delete(&domain) marks the row; with Unscoped() it removes it.
unfoldable pub soft_delete_domain : Time → ℕ → Statement ℕ
soft_delete_domain now id db =
    let q = λ (d : Domain). is_live d && d.id == id in
    (
      ok (count q db.domains),
      record db { domains = update q (λ d. record d { deleted_at = some now }) db.domains },
    )

unfoldable pub remove_domain : ℕ → Statement ℕ
remove_domain id db =
    let q = λ (d : Domain). d.id == id in
    (ok (count q db.domains), record db { domains = keep (λ d. not (q d)) db.domains })

unfoldable pub first_certificate : (Certificate → Bool) → Statement Certificate
first_certificate p db = (found (find p db.certificates), db)

unfoldable pub find_certificates : (Certificate → Bool) → Statement (List Certificate)
find_certificates p db = (ok (keep p db.certificates), db)

unfoldable pub count_certificates : (Certificate → Bool) → Statement ℕ
count_certificates p db = (ok (count p db.certificates), db)

-- tx.Create(&cert): one certificate for each domain.
unfoldable pub create_certificate : Time → Certificate → Statement Certificate
create_certificate now c db =
    let row = record c { id = db.next_id; created_at = now; updated_at = now } in
    if any (λ e. e.domain_id == c.domain_id) db.certificates then (err failed, db) else (
      ok row,
      record db { certificates = db.certificates ++ row ∷ []; next_id = suc db.next_id },
    )

-- tx.Save(&cert): the row with the key of `c`, whole.
unfoldable pub save_certificate : Time → Certificate → Statement (Unit {0})
save_certificate now c db =
    let row = record c { updated_at = now } in
    (ok tt, record db { certificates = update (λ e. e.id == c.id) (λ _. row) db.certificates })

unfoldable pub delete_certificates : (Certificate → Bool) → Statement ℕ
delete_certificates p db = (
  ok (count p db.certificates),
  record db { certificates = keep (λ c. not (p c)) db.certificates },
)

unfoldable pub first_user : (User → Bool) → Statement User
first_user p db = (found (find p db.users), db)

unfoldable pub create_user : Time → User → Statement User
create_user now u db =
    let row = record u { id = db.next_id; created_at = now; updated_at = now } in
    if any (λ e. str_eq e.email u.email) db.users
    then (err failed, db)
    else (ok row, record db { users = db.users ++ row ∷ []; next_id = suc db.next_id })

unfoldable pub first_target : (DeployTarget → Bool) → Statement DeployTarget
first_target p db = (found (find p db.deploy_targets), db)

unfoldable pub find_targets : (DeployTarget → Bool) → Statement (List DeployTarget)
find_targets p db = (ok (keep p db.deploy_targets), db)

-- db.Create(&target): the tag `default:true` of Enabled replaces a false.
unfoldable pub create_target : Time → DeployTarget → Statement DeployTarget
create_target now t db =
    let row = record t { id = db.next_id; enabled = true; created_at = now; updated_at = now } in
    (ok row, record db { deploy_targets = db.deploy_targets ++ row ∷ []; next_id = suc db.next_id })

unfoldable pub update_targets :
    Time → (DeployTarget → Bool) → (DeployTarget → DeployTarget) → Statement ℕ
update_targets now p f db =
    let g = λ (t : DeployTarget). let t' = f t in record t' { updated_at = now } in
    (ok (count p db.deploy_targets), record db { deploy_targets = update p g db.deploy_targets })

unfoldable pub delete_targets : (DeployTarget → Bool) → Statement ℕ
delete_targets p db = (
  ok (count p db.deploy_targets),
  record db { deploy_targets = keep (λ t. not (p t)) db.deploy_targets },
)

unfoldable pub first_job : (DeployJob → Bool) → Statement DeployJob
first_job p db = (found (find p db.deploy_jobs), db)

unfoldable pub delete_jobs : (DeployJob → Bool) → Statement ℕ
delete_jobs p db =
    (ok (count p db.deploy_jobs), record db { deploy_jobs = keep (λ j. not (p j)) db.deploy_jobs })

unfoldable pub first_account : (AcmeAccount → Bool) → Statement AcmeAccount
first_account p db = (found (find p db.acme_accounts), db)

-- db.Create(&account): one account for each user.
unfoldable pub create_account : Time → AcmeAccount → Statement AcmeAccount
create_account now a db =
    let row = record a { id = db.next_id; created_at = now; updated_at = now } in
    if any (λ e. e.user_id == a.user_id) db.acme_accounts then (err failed, db) else (
      ok row,
      record db { acme_accounts = db.acme_accounts ++ row ∷ []; next_id = suc db.next_id },
    )

unfoldable pub update_accounts :
    Time → (AcmeAccount → Bool) → (AcmeAccount → AcmeAccount) → Statement ℕ
update_accounts now p f db =
    let g = λ (a : AcmeAccount). let a' = f a in record a' { updated_at = now } in
    (ok (count p db.acme_accounts), record db { acme_accounts = update p g db.acme_accounts })
