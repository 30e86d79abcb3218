-- ===== src/Start/Worker.antt =====
-- How the goroutine of a job ends (StartCertJob of controllers/certificate.go).
use Prim.Native.Nat.{ℕ, ◌+◌}
use certhub_server.Common.{Bool, false, ◌≡◌, refl, ◌∙◌, ap, arith, ==_refl}
use certhub_server.Models.{Domain, User}
use certhub_server.Common.Int.{ℤ}
use certhub_server.Registry.{Registry, Slots, owns, entry_of, end_job, release_cert_job_slot}
use certhub_server.Registry.Ownership.{entry_of-end_job}
use certhub_server.System.{Env, World, Shared, acts}
use certhub_server.CertJob.Untouched.{run_cert_job-Untouched}
use certhub_server.Start.{cert_job_worker, release_slot, limit}

end_job-owns : (d token : ℕ) (r : Registry) → owns token (entry_of d (end_job d token r)) ≡ false
unfolding owns
end_job-owns d token r = rw (entry_of-end_job d d token r) (ground (arith, ==_refl d))

release-taken :
    (limit : ℤ) (n : ℕ) (s : Slots) → s.taken ≡ n + 1 → (release_cert_job_slot limit s).taken ≡ n
unfolding release_cert_job_slot
release-taken limit n s h = omega arith

-- Whatever the authority, the database and the clock do, if the other goroutines leave the semaphore
-- alone meanwhile: in the state that the worker of a job leaves, its job is not registered for the
-- domain, and of the `n + 1` slots that were taken before, its own among them, `n` are taken.
pub cert_job_worker-releases :
    (env : Env) (domain : Domain) (user : User) (renew auto : Bool) (token n : ℕ) (w : World)
    → w.shared.slots.taken ≡ n + 1
    → ((k : ℕ) (s : Shared) → (env.others k s).slots ≡ s.slots)
    → let end' = cert_job_worker env {E = Unit {0}} domain user renew auto token w in
      (owns token (entry_of domain.id end'.1.shared.registry) ≡ false)
      × (end'.1.shared.slots.taken ≡ n)
unfolding cert_job_worker release_slot acts
cert_job_worker-releases env domain user renew auto token n w held alone =
    let same =
      run_cert_job-Untouched (λ s. s.slots ≡ w.shared.slots) (λ s db h. h) env
        (λ k s h. alone k s ∙ h) domain user renew auto token w refl in
    (
      end_job-owns domain.id token _,
      ap (λ s. s.taken) (alone _ _)
          ∙ release-taken (limit env) n _ (ap (λ s. s.taken) (alone _ _ ∙ same) ∙ held),
    )
