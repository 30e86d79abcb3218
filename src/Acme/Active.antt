-- ===== src/Acme/Active.antt =====
-- When a call of the certificate authority counts: runACMEWithContext and requireACMEActive of
-- services, for the job of a domain.
use certhub_server.Common.{ℕ, suc, String, true, ◌≡◌, arith, str_eq, ◌⊎◌, inl, inr, Bool-cases}
use certhub_server.Store.{Result, ok}
use certhub_server.Registry.{is_cert_job_active, is_done}
use certhub_server.System.{Env, World, Act, CertResource, acts}
use certhub_server.System.Inversion.{bind_ok, then_ok, catch-fail_ok}
use certhub_server.CertJob.{context_err, job_active}
use certhub_server.Acme.{require_acme_active}
use certhub_server.Acme.Lego.{Lego, AcmeError, wrapped, returned}
use certhub_server.Acme.Client.{
  if_live, require_active, run_acme_with_context, obtain_with_context, renew_with_context,
  obtain_certificate, renew_existing_certificate,
}

-- At the last event before `v` the job was active in the state of `v`.
abbrev pub WasActive : Env → ℕ → ℕ → World → Type 0
WasActive env d token v =
    (n : ℕ) × (v.event ≡ suc n)
    × (is_cert_job_active (env.clock n) d token v.shared.registry ≡ true)

module _ (env : Env) (lib : Lego) (d token : ℕ) where
  require_active_ok :
      (w v : World) → require_active env lib d token w ≡ (ok tt, v) → WasActive env d token v
  unfolding require_active context_err job_active acts returned if_live require_acme_active
  require_active_ok w v h =
      let s1 = env.others w.event w.shared in
      let s2 = env.others (suc w.event) s1 in
      elim (Bool-cases (is_done (env.clock w.event) token s1.registry)) [
        | inl gone ↦ absurd (ground arith)
        | inr going ↦
            elim (Bool-cases (is_cert_job_active (env.clock (suc w.event)) d token s2.registry)) [
              | inl alive ↦ (suc w.event, ground arith, ground arith)
              | inr replaced ↦ absurd (ground arith)
            ]
      ]

  returned_ok :
      {A : Type 0} (r : Result AcmeError A) (w : World) (a : A) (v : World)
      → returned r w ≡ (ok a, v)
      → w ≡ v
  unfolding returned
  returned_ok r w a v h = ground arith

  run_acme-WasActive :
      (run : Act AcmeError CertResource) (w : World) (c : CertResource) (v : World)
      → run_acme_with_context env lib d token run w ≡ (ok c, v)
      → WasActive env d token v
  unfolding run_acme_with_context
  run_acme-WasActive run w c v h = then_ok _ _ w c v h λ w1 h1 k1.
      bind_ok _ _ w1 c v k1 λ result w2 h2 k2. bind_ok _ _ w2 c v k2 λ done w3 h3 k3.
        then_ok _ _ w3 c v k3 λ w4 h4 k4. then_ok _ _ w4 c v k4 λ w5 h5 k5.
          let same : w5 ≡ v = returned_ok result w5 c v k5 in
          require_active_ok w4 v (rw (← same) h5)

  obtain-WasActive :
      (user_id : ℕ) (domain email : String) (w : World) (c : CertResource) (v : World)
      → obtain_certificate env lib d token user_id domain email w ≡ (ok c, v)
      → WasActive env d token v
  unfolding obtain_certificate obtain_with_context
  obtain-WasActive user_id domain email w c v h =
      bind_ok _ _ w c v h λ user w1 h1 k1. run_acme-WasActive _ w1 c v k1

  renew-WasActive :
      (user_id : ℕ) (email : String) (existing : CertResource) (w : World) (c : CertResource)
      (v : World)
      → renew_existing_certificate env lib d token user_id email existing w ≡ (ok c, v)
      → WasActive env d token v
  unfolding renew_existing_certificate renew_with_context
  renew-WasActive user_id email existing w c v h = bind_ok _ _ w c v h λ user w1 h1 k1.
      elim (Bool-cases (str_eq existing.cert_url "")) [
        | inl old ↦ obtain-WasActive user_id existing.domain email w1 c v (rw old at k1)
        | inr new ↦
            run_acme-WasActive _ w1 c v
              (catch-fail_ok _ (λ e. wrapped "ACME renew: " e) w1 c v (rw new at k1))
      ]

  -- Whatever the authority, the database and the other goroutines do: ObtainCertificate and
  -- RenewExistingCertificate return a certificate only if the job had its entry in the registry
  -- and its context had not ended when they last looked, which is the last thing they do.
  pub acme-WasActive :
      (user_id : ℕ) (domain email : String) (existing c : CertResource) (w v : World)
      → (obtain_certificate env lib d token user_id domain email w ≡ (ok c, v))
        ⊎ (renew_existing_certificate env lib d token user_id email existing w ≡ (ok c, v))
      → WasActive env d token v
  acme-WasActive user_id domain email existing c w v (inl h) =
      obtain-WasActive user_id domain email w c v h
  acme-WasActive user_id domain email existing c w v (inr h) =
      renew-WasActive user_id email existing w c v h
