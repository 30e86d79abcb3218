-- ===== src/Examples/Jobs.antt =====
-- Tests of the registry, the semaphore and the jobs.
use certhub_server.Common.{
  true, false, not, ◌&&◌, none, some, [], ◌∷◌, ◌≡◌, refl, ◌==◌, arith, find, if◌then◌else◌,
}
use certhub_server.Common.Int.{pos, leb_ℤ, ◌+ℤ◌}
use certhub_server.Models.{generating}
use certhub_server.Store.{DbError}
use certhub_server.Registry.{
  Registry, entry_of, end_job, register_job, next_token, owns, is_cert_job_active,
  cert_job_inflight, try_acquire_cert_job_slot, cert_job_slots_ch, release_cert_job_slot,
}
use certhub_server.Registry.Ownership.{IsSound, entry_of-end_job, register_job-supersedes}
use certhub_server.Registry.Reachable.{
  Reach, here, next, registers, empty_registry, IsGivenOnce, Reach-IsSound,
}
use certhub_server.Registry.Semaphore.{start, granted, released, Run-Counted, Counted, no_slots}
use certhub_server.CertJob.{run_cert_job, save_certificate_record, fail_cert_job}
use certhub_server.CertJob.Superseded.{IsSuperseded, run_cert_job-IsSuperseded}
use certhub_server.CertJob.Saving.{activated, save_certificate_record-quiet, stored}
use certhub_server.CertJob.Failing.{fail_cert_job-row, failed_row}
use certhub_server.CertJob.{of_domain}
use certhub_server.Lifecycle.{has_id}
use certhub_server.Lifecycle.Quiet.{live_with, updated, certified, with_db}
use certhub_server.Examples.{quiet_env, quiet, row, cert, owner, tables, two_jobs, world}

-- The registry after two registrations.
abbrev reached : Registry
reached = register_job (pos 0) (pos 90) 2 (register_job (pos 0) (pos 90) 1 empty_registry)

reached_path : Reach empty_registry reached
unfolding register_job next_token
reached_path =
    next (next here (registers (pos 0) (pos 90) 1 (omega arith)))
      (registers (pos 0) (pos 90) 2 (omega arith))

Reach-IsSound_example : IsSound reached × IsGivenOnce reached
Reach-IsSound_example = Reach-IsSound {r = reached} reached_path

entry_of-end_job_example :
    entry_of 1 (end_job 1 2 two_jobs)
    ≡ (if 1 == 1 && owns 2 (entry_of 1 two_jobs) then none else entry_of 1 two_jobs)
entry_of-end_job_example = entry_of-end_job 1 1 2 two_jobs

register_job-supersedes_example :
    is_cert_job_active (pos 5) 1 1 (register_job (pos 1) (pos 90) 1 empty_registry) ≡ (
      if 1 == 1
      then 1 == next_token empty_registry && not (leb_ℤ (pos 1 +ℤ pos 90) (pos 5))
      else is_cert_job_active (pos 5) 1 1 empty_registry)
register_job-supersedes_example =
    register_job-supersedes (pos 1) (pos 5) (pos 90) 1 1 1 empty_registry
      (Reach-IsSound {r = empty_registry} here).0 (omega arith)

Run-Counted_example :
    Counted (pos 5) (release_cert_job_slot (pos 5) (try_acquire_cert_job_slot (pos 5) no_slots).1) 0
unfolding try_acquire_cert_job_slot cert_job_slots_ch
Run-Counted_example = Run-Counted (pos 5) _ 0 (released (granted start refl))

run_cert_job-IsSuperseded_example :
    IsSuperseded 1 5
      (tables generating [])
      (run_cert_job quiet_env
        (row generating)
        owner
        false
        false
        5
        (world (tables generating []))).1.shared
unfolding owns entry_of cert_job_inflight find
run_cert_job-IsSuperseded_example =
    run_cert_job-IsSuperseded quiet_env (row generating) owner false false 5 (tables generating [])
      (λ n s h. h) (world (tables generating []))
      (record { replaced = refl; registered = refl; tables = refl })

save_certificate_record-quiet_example :
    (save_certificate_record quiet_env 1 cert (world (tables generating []))).1.shared
    ≡ with_db
        (updated (pos 2) (has_id 1) activated (
          stored
            (pos 1)
            cert
            (find (of_domain 1) (tables generating []).certificates)
            (tables generating [])))
        (world (tables generating [])).shared
save_certificate_record-quiet_example =
    save_certificate_record-quiet quiet_env 1 cert (world (tables generating [])) quiet

fail_cert_job-row_example :
    find
      (live_with 1)
      (fail_cert_job quiet_env {E = DbError} 1 "boom" true
        (world (tables generating (cert ∷ [])))).1.shared.db.domains
    ≡ some (
        failed_row quiet_env 0 true
          (certified 1 (tables generating (cert ∷ [])))
          "boom"
          (row generating))
unfolding find
fail_cert_job-row_example =
    fail_cert_job-row quiet_env quiet DbError 1 "boom" true (row generating)
      (world (tables generating (cert ∷ []))) refl
