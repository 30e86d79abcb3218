-- ===== src/Lifecycle/Timed.antt =====
-- The column generating_since (controllers/renewal_scheduler.go): without it the cleanup takes the
-- lock of a running job for a stale one.
use Prim.Native.Nat.{ℕ}
use certhub_server.Common.{
  String, Bool, true, false, ◌&&◌, List, [], ◌∷◌, ◌≡◌, refl, is_none, All, All-update,
}
use certhub_server.Common.Int.{ℤ}
use certhub_server.Models.{Time, Status, error, Domain, is_generating}
use certhub_server.Store.{
  DbError, first_domain, find_domains, update_domains, count_certificates, first_certificate,
  first_user, touch,
}
use certhub_server.System.{Env, World, Shared, Act, exec}
use certhub_server.System.Keeps.{
  Keeps, Stable, Keeps-bind, Keeps-then, Keeps-catch, Keeps-if, Keeps-pure, Keeps-fail, Keeps-when,
  Keeps-attempt, Keeps-now, Keeps-exec, Keeps-locked, Keeps-wait,
}
use certhub_server.Lifecycle.{
  verified_row, rolled_back_row, LockError, in_progress, db_error, update_where,
  domain_has_certificate, set_domain_error, mark_domain_cname_verified, inflight, cancel_job,
  rollback_generating_domain, rollback_stuck_generating, clean_up_domain, for_each,
  run_stuck_generating_cleanup, take_over, take_lock, lock_current, lock_domain_for_cert_job,
}

abbrev pub Timed : Domain → Type 0
Timed d = (is_generating d.status && is_none d.generating_since) ≡ false

-- Every row that is generating has the time since when.
abbrev pub IsTimed : Shared → Type 0
IsTimed s = All Timed s.db.domains

rolled_back-Timed :
    (c r : Bool) (message : String) (d : Domain) → Timed (rolled_back_row c r message d)
unfolding rolled_back_row
rolled_back-Timed true r message d = refl
rolled_back-Timed false true message d = refl
rolled_back-Timed false false message d = refl

module _ (env : Env) (stable : Stable IsTimed env) where
  pub update_where-IsTimed :
      (p : Domain → Bool) (f : Domain → Domain)
      → ((d : Domain) → Timed d → Timed (f d))
      → Keeps IsTimed (update_where env p f)
  unfolding update_where update_domains
  update_where-IsTimed p f h = Keeps-bind IsTimed _ _ (Keeps-now IsTimed env stable DbError) λ t.
      Keeps-exec IsTimed env stable (update_domains t p f)
        (λ s k. All-update Timed _ (touch t f) s.db.domains h k)

  pub has_certificate-IsTimed {ℓ} :
      (E : Type ℓ) (id : ℕ) → Keeps IsTimed (domain_has_certificate env {E = E} id)
  unfolding domain_has_certificate count_certificates
  has_certificate-IsTimed E id =
      Keeps-catch IsTimed _ _
        (Keeps-bind IsTimed _ _ (Keeps-exec IsTimed env stable (count_certificates _) (λ s h. h))
          (λ n. Keeps-pure IsTimed DbError _))
        (λ e. Keeps-pure IsTimed E false)

  pub first_domain-IsTimed : (p : Domain → Bool) → Keeps IsTimed (exec env (first_domain p))
  unfolding first_domain
  first_domain-IsTimed p = Keeps-exec IsTimed env stable (first_domain p) (λ s h. h)

  pub inflight-IsTimed {ℓ} : (E : Type ℓ) (id : ℕ) → Keeps IsTimed (inflight env {E = E} id)
  unfolding inflight
  inflight-IsTimed E id = Keeps-locked IsTimed env stable E _ (λ s h. h)

  pub cancel_job-IsTimed {ℓ} : (E : Type ℓ) (id : ℕ) → Keeps IsTimed (cancel_job env {E = E} id)
  unfolding cancel_job
  cancel_job-IsTimed E id = Keeps-locked IsTimed env stable E _ (λ s h. h)

  pub set_domain_error-IsTimed {ℓ} :
      (E : Type ℓ) (id : ℕ) (status : Status) (message : String)
      → is_generating status ≡ false
      → Keeps IsTimed (set_domain_error env {E = E} id status message)
  unfolding set_domain_error
  set_domain_error-IsTimed E id status message h =
      Keeps-attempt IsTimed E _ (update_where-IsTimed _ _ (λ d k. rw h refl))

  pub rollback-IsTimed {ℓ} :
      (E : Type ℓ) (id : ℕ) (message : String) (restore : Bool)
      → Keeps IsTimed (rollback_generating_domain env {E = E} id message restore)
  unfolding rollback_generating_domain
  rollback-IsTimed E id message restore =
      Keeps-catch IsTimed _ _
        (Keeps-bind IsTimed _ _ (first_domain-IsTimed _) λ d. Keeps-when IsTimed _ _ (
          Keeps-bind IsTimed _ _ (has_certificate-IsTimed DbError id) λ c.
            Keeps-attempt IsTimed DbError _
              (update_where-IsTimed _ _ (λ x k. rolled_back-Timed c _ message x))))
        (λ e. Keeps-pure IsTimed E tt)

  pub stuck-IsTimed {ℓ} :
      (E : Type ℓ) (d : Domain) (force : Bool)
      → Keeps IsTimed (rollback_stuck_generating env {E = E} d force)
  unfolding rollback_stuck_generating
  stuck-IsTimed E d force =
      Keeps-bind IsTimed _ _
        (Keeps-if IsTimed force _ _ (Keeps-pure IsTimed E false) (inflight-IsTimed E d.id))
        λ busy. Keeps-when IsTimed _ _ (
          Keeps-bind IsTimed _ _ (has_certificate-IsTimed E d.id)
            λ c. rollback-IsTimed E d.id _ true)

  pub for_each-IsTimed {ℓ κ} :
      {E : Type ℓ} {A : Type κ} (body : A → Act E (Unit {0})) (xs : List A)
      → ((x : A) → Keeps IsTimed (body x))
      → Keeps IsTimed (for_each env body xs)
  unfolding for_each
  for_each-IsTimed {E} body [] h = Keeps-pure IsTimed E tt
  for_each-IsTimed body (x ∷ xs) h = Keeps-then IsTimed _ _ (h x) (for_each-IsTimed body xs h)

  clean_up-IsTimed {ℓ} : (E : Type ℓ) (d : Domain) → Keeps IsTimed (clean_up_domain env {E = E} d)
  unfolding clean_up_domain
  clean_up-IsTimed E d = Keeps-bind IsTimed _ _ (inflight-IsTimed E d.id) λ busy.
      Keeps-then IsTimed _ _
        (Keeps-when IsTimed busy _ (
          Keeps-then IsTimed _ _ (cancel_job-IsTimed E d.id) (
            Keeps-bind IsTimed _ _ (Keeps-wait IsTimed env stable E d.id)
              λ ended. Keeps-pure IsTimed E tt)))
        (stuck-IsTimed E d false)

  pub cleanup-IsTimed {ℓ} :
      (E : Type ℓ) (limit : ℤ) → Keeps IsTimed (run_stuck_generating_cleanup env {E = E} limit)
  unfolding run_stuck_generating_cleanup find_domains
  cleanup-IsTimed E limit =
      Keeps-catch IsTimed _ _
        (Keeps-bind IsTimed _ _ (Keeps-now IsTimed env stable DbError) λ t.
          Keeps-bind IsTimed _ _ (Keeps-exec IsTimed env stable (find_domains _) (λ s h. h))
            λ stuck. for_each-IsTimed _ stuck (clean_up-IsTimed DbError))
        (λ e. Keeps-pure IsTimed E tt)

  take_over-IsTimed : (stale : Bool) (id : ℕ) → Keeps IsTimed (take_over env stale id)
  unfolding take_over
  take_over-IsTimed stale id = Keeps-bind IsTimed _ _ (inflight-IsTimed LockError id) λ busy.
      Keeps-when IsTimed busy _ (
        Keeps-if IsTimed stale _ _
          (Keeps-then IsTimed _ _ (cancel_job-IsTimed LockError id) (
            Keeps-bind IsTimed _ _ (Keeps-wait IsTimed env stable LockError id) λ ended.
              Keeps-if IsTimed ended _ _ (Keeps-pure IsTimed LockError tt)
                (Keeps-fail IsTimed _ in_progress)))
          (Keeps-fail IsTimed _ in_progress))

  take_lock-IsTimed : (current : Domain) (t : Time) → Keeps IsTimed (take_lock env current t)
  unfolding take_lock first_user
  take_lock-IsTimed current t =
      Keeps-bind IsTimed _ _
        (Keeps-catch IsTimed _ _ (update_where-IsTimed _ _ (λ d h. refl))
          (λ e. Keeps-fail IsTimed _ (db_error e)))
        λ n. Keeps-then IsTimed _ _ (Keeps-when IsTimed _ _ (Keeps-fail IsTimed _ in_progress)) (
          Keeps-catch IsTimed _ _ (Keeps-exec IsTimed env stable (first_user _) (λ s h. h)) λ e.
            Keeps-then IsTimed _ _ (set_domain_error-IsTimed LockError current.id error _ refl)
              (Keeps-fail IsTimed _ (db_error e)))

  pub lock-IsTimed :
      (domain : Domain) (require : Bool)
      → Keeps IsTimed (lock_domain_for_cert_job env domain require)
  unfolding lock_domain_for_cert_job lock_current first_certificate
  lock-IsTimed domain require =
      Keeps-then IsTimed _ _
        (Keeps-when IsTimed require _ (
          Keeps-catch IsTimed _ _
            (Keeps-bind IsTimed _ _ (Keeps-exec IsTimed env stable (first_certificate _) (λ s h. h))
              λ c. Keeps-pure IsTimed DbError tt)
            (λ e. Keeps-fail IsTimed _ (db_error e))))
        (Keeps-bind IsTimed _ _
          (Keeps-catch IsTimed _ _ (first_domain-IsTimed _)
            (λ e. Keeps-fail IsTimed _ (db_error e)))
          λ current. Keeps-bind IsTimed _ _ (Keeps-now IsTimed env stable LockError) λ t.
            Keeps-then IsTimed _ _ (take_over-IsTimed _ current.id) (take_lock-IsTimed current t))

  pub mark_verified-IsTimed : (id : ℕ) → Keeps IsTimed (mark_domain_cname_verified env id)
  unfolding mark_domain_cname_verified
  mark_verified-IsTimed id =
      Keeps-bind IsTimed _ _ (Keeps-now IsTimed env stable DbError)
        (λ t. update_where-IsTimed _ (verified_row t) (λ d k. refl))

  -- If the other goroutines keep it so, then after the lock of a domain, after a cleanup, after
  -- a rollback and after a CNAME check, however they end, every row that is generating has the
  -- time since when.
  pub lifecycle-IsTimed :
      (domain : Domain) (require restore : Bool) (message : String) (limit : ℤ) (w : World)
      → IsTimed w.shared
      → IsTimed (lock_domain_for_cert_job env domain require w).1.shared
        × IsTimed (run_stuck_generating_cleanup env {E = DbError} limit w).1.shared
        × IsTimed
            (rollback_generating_domain env {E = DbError} domain.id message restore w).1.shared
        × IsTimed (mark_domain_cname_verified env domain.id w).1.shared
  lifecycle-IsTimed domain require restore message limit w h = (
    lock-IsTimed domain require w h,
    cleanup-IsTimed DbError limit w h,
    rollback-IsTimed DbError domain.id message restore w h,
    mark_verified-IsTimed domain.id w h,
  )
