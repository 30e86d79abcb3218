-- ===== src/CertJob/Writes.antt =====
-- What a job writes to the tables (controllers/certificate.go), and the column generating_since.
use Prim.Native.Nat.{ℕ}
use certhub_server.Common.{String, Bool, false, refl, All, inl, inr, any, ◌==◌, Bool-cases}
use certhub_server.Models.{Certificate, Time, active, error}
use certhub_server.Store.{
  Db, DbError, not_found, duplicated_key, failed, Result, ok, err, first_certificate,
  create_certificate, save_certificate,
}
use certhub_server.System.{Env, World, Shared, exec, transaction, isolated, settled}
use certhub_server.System.Keeps.{
  Keeps, Stable, Keeps-bind, Keeps-then, Keeps-catch, Keeps-if, Keeps-pure, Keeps-fail, Keeps-when,
  Keeps-attempt, Keeps-now, Keeps-exec, Keeps-locked, Keeps-outcome, Keeps-resolve,
}
use certhub_server.Cname.{verify_challenge_cname}
use certhub_server.Lifecycle.{has_id, settled_row, active_row, schedule_auto_renew_backoff}
use certhub_server.Lifecycle.Timed.{
  Timed, IsTimed, update_where-IsTimed, has_certificate-IsTimed, first_domain-IsTimed,
  set_domain_error-IsTimed,
}
use certhub_server.CertJob.{
  is_duplicated, replace_certificate, insert_certificate, store_certificate, save_body,
  save_certificate_record, job_active, context_err, set_domain_auto_renew_failure, fail_cert_job,
}
use certhub_server.CertJob.Superseded.{Keeps-compared_lem}

settled-IsTimed {ℓ} :
    {A : Type ℓ} (before : Db) (r : Result DbError A × World)
    → All Timed before.domains
    → IsTimed r.1.shared
    → IsTimed (settled before r).1.shared
settled-IsTimed before (ok a, w) h k = k
settled-IsTimed before (err e, w) h k = h

module _ (env : Env) (stable : Stable IsTimed env) where
  -- The statements on certificates do not touch the rows of domains.
  replace-IsTimed : (c old : Certificate) → Keeps IsTimed (replace_certificate env c old)
  unfolding replace_certificate save_certificate
  replace-IsTimed c old = Keeps-bind IsTimed _ _ (Keeps-now IsTimed env stable DbError) λ t.
      Keeps-exec IsTimed env stable
        (save_certificate t (record c { id = old.id; created_at = old.created_at })) (λ s h. h)

  pub first_certificate-IsTimed :
      (p : Certificate → Bool) → Keeps IsTimed (exec env (first_certificate p))
  unfolding first_certificate
  first_certificate-IsTimed p = Keeps-exec IsTimed env stable (first_certificate p) (λ s h. h)

  created-IsTimed :
      (t : Time) (c : Certificate) (s : Shared)
      → IsTimed s
      → IsTimed (record s { db = (create_certificate t c s.db).1 })
  unfolding create_certificate
  created-IsTimed t c s h =
      elim (Bool-cases (any (λ e. e.domain_id == c.domain_id) s.db.certificates)) [
        | inl taken ↦ rw taken h
        | inr free ↦ rw free h
      ]

  insert-IsTimed : (c : Certificate) → Keeps IsTimed (insert_certificate env c)
  unfolding insert_certificate
  insert-IsTimed c =
      Keeps-catch IsTimed _ _
        (Keeps-bind IsTimed _ _ (Keeps-now IsTimed env stable DbError) λ t.
          Keeps-bind IsTimed _ _
            (Keeps-exec IsTimed env stable (create_certificate t c) (created-IsTimed t c))
            λ row. Keeps-pure IsTimed DbError tt)
        λ e.
          Keeps-if IsTimed (is_duplicated e) _ _
            (Keeps-bind IsTimed _ _ (first_certificate-IsTimed _) (replace-IsTimed c))
            (Keeps-fail IsTimed _ e)

  store-IsTimed :
      (c : Certificate) (r : Result DbError Certificate) → Keeps IsTimed (store_certificate env c r)
  unfolding store_certificate
  store-IsTimed c (ok old) = replace-IsTimed c old
  store-IsTimed c (err not_found) = insert-IsTimed c
  store-IsTimed c (err duplicated_key) = Keeps-fail IsTimed _ duplicated_key
  store-IsTimed c (err failed) = Keeps-fail IsTimed _ failed

  body-IsTimed : (id : ℕ) (c : Certificate) → Keeps IsTimed (save_body id c env)
  unfolding save_body
  body-IsTimed id c =
      Keeps-bind IsTimed _ _ (Keeps-outcome IsTimed DbError _ (first_certificate-IsTimed _)) λ r.
        Keeps-then IsTimed _ _ (store-IsTimed c r)
          (update_where-IsTimed env stable (has_id id) active_row (λ d h. refl))

  schedule-IsTimed {ℓ} :
      (E : Type ℓ) (id : ℕ) → Keeps IsTimed (schedule_auto_renew_backoff env {E = E} id)
  unfolding schedule_auto_renew_backoff
  schedule-IsTimed E id = Keeps-attempt IsTimed E _ (
      Keeps-bind IsTimed _ _ (first_domain-IsTimed env stable (has_id id)) λ d.
        Keeps-bind IsTimed _ _ (Keeps-now IsTimed env stable DbError)
          λ t. update_where-IsTimed env stable (has_id id) _ (λ x h. h))

  pub fail-IsTimed {ℓ} :
      (E : Type ℓ) (id : ℕ) (message : String) (auto : Bool)
      → Keeps IsTimed (fail_cert_job env {E = E} id message auto)
  unfolding fail_cert_job set_domain_auto_renew_failure
  fail-IsTimed E id message auto =
      Keeps-bind IsTimed _ _
        (Keeps-if IsTimed auto _ _ (has_certificate-IsTimed env stable E id)
          (Keeps-pure IsTimed E false))
        λ keeps.
          Keeps-then IsTimed _ _
            (Keeps-if IsTimed keeps _ _
              (Keeps-attempt IsTimed E _ (
                update_where-IsTimed env stable (has_id id) (settled_row active message)
                  (λ d h. refl)))
              (set_domain_error-IsTimed env stable E id error message refl))
            (Keeps-when IsTimed auto _ (schedule-IsTimed E id))

  pub active-IsTimed {ℓ} :
      (E : Type ℓ) (id token : ℕ) → Keeps IsTimed (job_active env {E = E} id token)
  unfolding job_active
  active-IsTimed E id token =
      Keeps-bind IsTimed _ _ (Keeps-now IsTimed env stable E)
        λ t. Keeps-locked IsTimed env stable E _ (λ s h. h)

  pub context-IsTimed {ℓ} : (E : Type ℓ) (token : ℕ) → Keeps IsTimed (context_err env {E = E} token)
  unfolding context_err
  context-IsTimed E token =
      Keeps-bind IsTimed _ _ (Keeps-now IsTimed env stable E)
        λ t. Keeps-locked IsTimed env stable E _ (λ s h. h)

  pub verify-IsTimed :
      (name target : String) → Keeps IsTimed (verify_challenge_cname env name target)
  unfolding verify_challenge_cname
  verify-IsTimed name target =
      Keeps-bind IsTimed _ _ (Keeps-resolve IsTimed env stable String _)
        λ found. Keeps-compared_lem env IsTimed _ _ found

-- A transaction that fails leaves the rows as they were when it began.
pub save-IsTimed :
    (env : Env) (id : ℕ) (c : Certificate)
    → Stable IsTimed env
    → Keeps IsTimed (save_certificate_record env id c)
unfolding save_certificate_record transaction
save-IsTimed env id c stable w h =
    let before = stable w.event w.shared h in
    settled-IsTimed _ _ before (
      body-IsTimed (isolated env) (λ n s k. k) id c
        (record { shared = env.others w.event w.shared; event = w.event }) before)
