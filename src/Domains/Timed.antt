-- ===== src/Domains/Timed.antt =====
-- The handlers that add, change and delete domains (controllers/domain.go, controllers/cname.go),
-- and the column generating_since.
use certhub_server.Common.{
  refl, ℕ, String, Bool, true, false, Option, none, some, ◌⊎◌, inl, inr, Bool-cases, any, str_eq,
  ◌==◌, All-update, All-append, All-keep,
}
use certhub_server.Models.{Time, Domain, is_live}
use certhub_server.Store.{
  DbError, not_found, duplicated_key, failed, Result, ok, err, create_domain, soft_delete_domain,
  remove_domain, update_domains_unscoped, first_domain_unscoped, delete_certificates,
  delete_targets, delete_jobs, touch,
}
use certhub_server.System.{Env, exec}
use certhub_server.System.Keeps.{
  Keeps, Stable, Keeps-bind, Keeps-then, Keeps-catch, Keeps-if, Keeps-pure, Keeps-fail, Keeps-when,
  Keeps-attempt, Keeps-now, Keeps-exec, Keeps-outcome,
}
use certhub_server.Lifecycle.Timed.{
  Timed, IsTimed, update_where-IsTimed, has_certificate-IsTimed, first_domain-IsTimed,
  mark_verified-IsTimed,
}
use certhub_server.CertJob.Writes.{verify-IsTimed}
use certhub_server.Http.{Web, Session, Response}
use certhub_server.Http.Timed.{exec_or-IsTimed, user-IsTimed, owned-IsTimed, answer_domain-IsTimed}
use certhub_server.Domains.{
  DomainInput, ClaimError, claim_failed, claim_lost, claimed_row, restored_row, new_domain,
  switched_row, is_unclaimed_domain, assign_unclaimed_domain_to_user, claim_target,
  claim_unclaimed_domain, create_domain_record, restore_deleted_domain, remove_dependents,
  permanently_remove_domain, add_new, add_taken, add_deleted, add_checked, add_named, add_domain,
  domain_name_from_input,
}
use certhub_server.Domains.Requests.{update_with, update_domain, delete_domain, verify_cname}

module _ (env : Env) (stable : Stable IsTimed env) where
  create-IsTimed :
      (t : Time) (user_id : ℕ) (name : String)
      → Keeps IsTimed (exec env (create_domain t (new_domain user_id name)))
  unfolding create_domain
  create-IsTimed t user_id name =
      Keeps-exec IsTimed env stable (create_domain t (new_domain user_id name)) λ s h.
        elim (Bool-cases (any (λ (e : Domain). str_eq e.domain name) s.db.domains)) [
          | inl taken ↦ rw taken h
          | inr free ↦ rw free (All-append Timed s.db.domains _ h (refl, tt))
        ]

  unscoped-IsTimed : (p : Domain → Bool) → Keeps IsTimed (exec env (first_domain_unscoped p))
  unfolding first_domain_unscoped
  unscoped-IsTimed p = Keeps-exec IsTimed env stable (first_domain_unscoped p) (λ s h. h)

  soft_delete-IsTimed : (t : Time) (id : ℕ) → Keeps IsTimed (exec env (soft_delete_domain t id))
  unfolding soft_delete_domain
  soft_delete-IsTimed t id =
      Keeps-exec IsTimed env stable (soft_delete_domain t id)
        (λ s h. All-update Timed _ _ s.db.domains (λ d k. k) h)

  module _ (web : Web) where
    unclaimed-IsTimed {ℓ} :
        (E : Type ℓ) (domain : Domain) → Keeps IsTimed (is_unclaimed_domain env web {E = E} domain)
    unfolding is_unclaimed_domain
    unclaimed-IsTimed E domain =
        Keeps-bind IsTimed _ _ (has_certificate-IsTimed env stable E domain.id) λ has_cert.
          Keeps-bind IsTimed _ _ (Keeps-now IsTimed env stable E) λ t. Keeps-pure IsTimed E _

    assign-IsTimed :
        (id user_id : ℕ) → Keeps IsTimed (assign_unclaimed_domain_to_user env web id user_id)
    unfolding assign_unclaimed_domain_to_user
    assign-IsTimed id user_id =
        Keeps-bind IsTimed _ _ (has_certificate-IsTimed env stable ClaimError id) λ has_cert.
          Keeps-then IsTimed _ _ (Keeps-when IsTimed has_cert _ (Keeps-fail IsTimed _ claim_lost)) (
            Keeps-bind IsTimed _ _ (Keeps-now IsTimed env stable ClaimError) λ t.
              Keeps-bind IsTimed _ _
                (Keeps-catch IsTimed _ _
                  (update_where-IsTimed env stable _ (claimed_row user_id t) (λ d h. refl))
                  (λ e. Keeps-fail IsTimed _ claim_failed))
                λ n.
                  Keeps-then IsTimed _ _ (Keeps-when IsTimed _ _ (Keeps-fail IsTimed _ claim_lost))
                    (Keeps-catch IsTimed _ _ (first_domain-IsTimed env stable _)
                      (λ e. Keeps-fail IsTimed _ claim_failed)))

    target-IsTimed : (existing : Domain) → Keeps IsTimed (claim_target env web existing)
    unfolding claim_target
    target-IsTimed existing =
        Keeps-if IsTimed (str_eq existing.cname_target "") _ _
          (Keeps-bind IsTimed _ _
            (Keeps-catch IsTimed _ _ (update_where-IsTimed env stable _ _ (λ d h. h))
              (λ e. Keeps-fail IsTimed _ claim_failed))
            λ n. Keeps-pure IsTimed ClaimError _)
          (Keeps-pure IsTimed ClaimError _)

    claim-IsTimed :
        (existing : Domain) (user_id : ℕ)
        → Keeps IsTimed (claim_unclaimed_domain env web existing user_id)
    unfolding claim_unclaimed_domain
    claim-IsTimed existing user_id = Keeps-bind IsTimed _ _ (target-IsTimed existing) λ target.
        Keeps-then IsTimed _ _
          (Keeps-catch IsTimed _ _ (verify-IsTimed env stable existing.domain target)
            (λ text. Keeps-fail IsTimed _ _))
          (assign-IsTimed existing.id user_id)

    create_record-IsTimed :
        (user_id : ℕ) (name : String) → Keeps IsTimed (create_domain_record env web user_id name)
    unfolding create_domain_record
    create_record-IsTimed user_id name =
        Keeps-bind IsTimed _ _ (Keeps-now IsTimed env stable DbError) λ t.
          Keeps-bind IsTimed _ _ (create-IsTimed t user_id name) λ domain.
            Keeps-then IsTimed _ _
              (Keeps-catch IsTimed _ _
                (Keeps-bind IsTimed _ _ (update_where-IsTimed env stable _ _ (λ d h. h))
                  λ n. Keeps-pure IsTimed DbError tt)
                λ e.
                  Keeps-then IsTimed _ _
                    (Keeps-attempt IsTimed DbError _ (soft_delete-IsTimed t domain.id))
                    (Keeps-fail IsTimed _ e))
              (Keeps-pure IsTimed DbError _)

    restore-IsTimed : (id : ℕ) → Keeps IsTimed (restore_deleted_domain env web id)
    unfolding restore_deleted_domain update_domains_unscoped
    restore-IsTimed id = Keeps-bind IsTimed _ _ (Keeps-now IsTimed env stable DbError) λ t.
        Keeps-exec IsTimed env stable (update_domains_unscoped t _ restored_row)
          (λ s h. All-update Timed _ (touch t restored_row) s.db.domains (λ d k. refl) h)

    dependents-IsTimed {ℓ} :
        (E : Type ℓ) (id : ℕ) → Keeps IsTimed (remove_dependents env web {E = E} id)
    unfolding remove_dependents delete_certificates delete_targets delete_jobs
    dependents-IsTimed E id =
        Keeps-then IsTimed _ _
          (Keeps-attempt IsTimed E _
            (Keeps-exec IsTimed env stable (delete_certificates _) (λ s h. h)))
          (Keeps-then IsTimed _ _
            (Keeps-attempt IsTimed E _
              (Keeps-exec IsTimed env stable (delete_targets _) (λ s h. h)))
            (Keeps-attempt IsTimed E _ (Keeps-exec IsTimed env stable (delete_jobs _) (λ s h. h))))

    remove-IsTimed : (id : ℕ) → Keeps IsTimed (permanently_remove_domain env web id)
    unfolding permanently_remove_domain remove_domain
    remove-IsTimed id =
        Keeps-then IsTimed _ _ (dependents-IsTimed DbError id) (
          Keeps-exec IsTimed env stable (remove_domain id) (λ s h. All-keep Timed _ s.db.domains h))

    add_new-IsTimed : (user_id : ℕ) (name : String) → Keeps IsTimed (add_new env web user_id name)
    unfolding add_new
    add_new-IsTimed user_id name =
        Keeps-bind IsTimed _ _
          (Keeps-catch IsTimed _ _ (create_record-IsTimed user_id name)
            (λ e. Keeps-fail IsTimed _ _))
          (answer_domain-IsTimed env stable web)

    add_taken-IsTimed :
        (user_id : ℕ) (existing : Domain) → Keeps IsTimed (add_taken env web user_id existing)
    unfolding add_taken
    add_taken-IsTimed user_id existing =
        Keeps-if IsTimed (existing.user_id == user_id) _ _ (Keeps-fail IsTimed _ _) (
          Keeps-bind IsTimed _ _ (unclaimed-IsTimed Response existing) λ unclaimed.
            Keeps-if IsTimed unclaimed _ _
              (Keeps-bind IsTimed _ _
                (Keeps-catch IsTimed _ _ (claim-IsTimed existing user_id)
                  (λ e. Keeps-fail IsTimed _ _))
                (answer_domain-IsTimed env stable web))
              (Keeps-fail IsTimed _ _))

    add_deleted-IsTimed :
        (user_id : ℕ) (name : String) (existing : Domain)
        → Keeps IsTimed (add_deleted env web user_id name existing)
    unfolding add_deleted
    add_deleted-IsTimed user_id name existing =
        Keeps-if IsTimed (existing.user_id == user_id) _ _
          (Keeps-bind IsTimed _ _ (exec_or-IsTimed env stable _ _ (restore-IsTimed existing.id))
            λ n.
              Keeps-bind IsTimed _ _ (exec_or-IsTimed env stable _ _ (unscoped-IsTimed _))
                (answer_domain-IsTimed env stable web))
          (Keeps-bind IsTimed _ _ (exec_or-IsTimed env stable _ _ (remove-IsTimed existing.id))
            λ n. add_new-IsTimed user_id name)

    add_checked-IsTimed :
        (user_id : ℕ) (name : String) (found : Result DbError Domain)
        → Keeps IsTimed (add_checked env web user_id name found)
    unfolding add_checked
    add_checked-IsTimed user_id name (ok existing) =
        Keeps-if IsTimed (is_live existing) _ _ (add_taken-IsTimed user_id existing)
          (add_deleted-IsTimed user_id name existing)
    add_checked-IsTimed user_id name (err not_found) = add_new-IsTimed user_id name
    add_checked-IsTimed user_id name (err duplicated_key) = Keeps-fail IsTimed _ _
    add_checked-IsTimed user_id name (err failed) = Keeps-fail IsTimed _ _

    add_named-IsTimed :
        (user_id : ℕ) (name : Result String String) → Keeps IsTimed (add_named env web user_id name)
    unfolding add_named
    add_named-IsTimed user_id (err text) = Keeps-fail IsTimed _ _
    add_named-IsTimed user_id (ok name) =
        Keeps-bind IsTimed _ _ (Keeps-outcome IsTimed Response _ (unscoped-IsTimed _))
          (add_checked-IsTimed user_id name)

    pub add_domain-IsTimed :
        (session : Session) (input : String ⊎ DomainInput)
        → Keeps IsTimed (add_domain env web session input)
    unfolding add_domain
    add_domain-IsTimed session (inl text) = Keeps-fail IsTimed _ _
    add_domain-IsTimed session (inr input) =
        Keeps-bind IsTimed _ _ (user-IsTimed env stable session)
          λ user_id. add_named-IsTimed user_id (domain_name_from_input env web input)

    switched-Timed : (auto_renew : Bool) (d : Domain) → Timed d → Timed (switched_row auto_renew d)
    switched-Timed true d h = h
    switched-Timed false d h = h

    update_with-IsTimed :
        (domain : Domain) (input : String ⊎ Option Bool)
        → Keeps IsTimed (update_with env web domain input)
    unfolding update_with
    update_with-IsTimed domain (inl text) = Keeps-fail IsTimed _ _
    update_with-IsTimed domain (inr none) = Keeps-fail IsTimed _ _
    update_with-IsTimed domain (inr (some auto_renew)) =
        Keeps-bind IsTimed _ _
          (exec_or-IsTimed env stable _ _
            (update_where-IsTimed env stable _ _ (switched-Timed auto_renew)))
          λ n.
            Keeps-bind IsTimed _ _
              (exec_or-IsTimed env stable _ _ (first_domain-IsTimed env stable _))
              (answer_domain-IsTimed env stable web)

    pub update_domain-IsTimed :
        (session : Session) (id : String) (input : String ⊎ Option Bool)
        → Keeps IsTimed (update_domain env web session id input)
    unfolding update_domain
    update_domain-IsTimed session id input =
        Keeps-bind IsTimed _ _ (owned-IsTimed env stable web session id)
          λ domain. update_with-IsTimed domain input

    pub delete_domain-IsTimed :
        (session : Session) (id : String) → Keeps IsTimed (delete_domain env web session id)
    unfolding delete_domain
    delete_domain-IsTimed session id =
        Keeps-bind IsTimed _ _ (owned-IsTimed env stable web session id) λ domain.
          Keeps-then IsTimed _ _ (Keeps-when IsTimed _ _ (Keeps-fail IsTimed _ _)) (
            Keeps-then IsTimed _ _ (dependents-IsTimed Response domain.id) (
              Keeps-bind IsTimed _ _ (Keeps-now IsTimed env stable Response) λ t.
                Keeps-bind IsTimed _ _
                  (exec_or-IsTimed env stable _ _ (soft_delete-IsTimed t domain.id))
                  λ n. Keeps-pure IsTimed Response _))

    pub verify_cname-IsTimed :
        (session : Session) (id : String) → Keeps IsTimed (verify_cname env web session id)
    unfolding verify_cname
    verify_cname-IsTimed session id =
        Keeps-bind IsTimed _ _ (owned-IsTimed env stable web session id) λ domain.
          Keeps-then IsTimed _ _ (Keeps-when IsTimed _ _ (Keeps-fail IsTimed _ _)) (
            Keeps-then IsTimed _ _
              (Keeps-catch IsTimed _ _ (verify-IsTimed env stable domain.domain domain.cname_target)
                (λ text. Keeps-fail IsTimed _ _))
              (Keeps-bind IsTimed _ _ (Keeps-now IsTimed env stable Response) λ t.
                Keeps-bind IsTimed _ _
                  (exec_or-IsTimed env stable _ _ (mark_verified-IsTimed env stable domain.id))
                  λ n. Keeps-pure IsTimed Response _))
