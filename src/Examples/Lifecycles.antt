-- ===== src/Examples/Lifecycles.antt =====
-- Tests of the states of a domain.
use certhub_server.Common.{true, false, some, [], ◌≡◌, refl, arith, find, count, update}
use certhub_server.Common.Int.{pos}
use certhub_server.Models.{generating, active}
use certhub_server.Store.{DbError, ok, err, update_domains, first_domain, first_user}
use certhub_server.Registry.{try_acquire_cert_job_slot, cert_job_slots_ch, cert_job_inflight}
use certhub_server.System.{World, acts}
use certhub_server.Lifecycle.{
  lockable, locked_row, lock_domain_for_cert_job, lock_current, take_over, take_lock, inflight,
  update_where, mark_domain_cname_verified,
}
use certhub_server.Lifecycle.Quiet.{live_with, certified}
use certhub_server.Lifecycle.Lock.{lock-excludes}
use certhub_server.Lifecycle.TakeLock.{TakesLock, lock_domain_for_cert_job-TakesLock}
use certhub_server.Lifecycle.Verified.{verified_at, mark_verified-hides_certificate}
use certhub_server.Http.Dto.{map_cert_status}
use certhub_server.Start.{slot_or_rollback}
use certhub_server.Start.Slot.{given_back, slot_or_rollback-full}
use certhub_server.Config.Durations.{max_concurrent_cert_jobs}
use certhub_server.Config.Defaults.{set_defaults}
use certhub_server.Examples.{quiet_env, quiet, row, cert, owner, tables, world, idle}

lock-excludes_example :
    (update_domains
      (pos 6)
      (lockable (pos 0) 1)
      (locked_row (pos 6))
      (update_domains (pos 5) (lockable (pos 0) 1) (locked_row (pos 5)) (tables active [])).1).0
    ≡ ok 0
unfolding count
lock-excludes_example =
    lock-excludes (pos 5) (pos 6) (pos 0) (pos 0) 1 (tables active []) (omega arith) (omega arith)
      (omega arith)

-- The world after the lock of an active domain.
abbrev after_lock : World
after_lock = (lock_domain_for_cert_job quiet_env (row active) false (idle (tables active []))).1

lock_domain_for_cert_job-TakesLock_example :
    TakesLock quiet_env 1 (pos 1) (tables active []).domains after_lock
unfolding lock_domain_for_cert_job lock_current take_over take_lock inflight cert_job_inflight
    update_where update_domains first_domain first_user acts find count update
lock_domain_for_cert_job-TakesLock_example =
    lock_domain_for_cert_job-TakesLock quiet_env (row active) false (idle (tables active [])) owner
      after_lock (λ n s. refl) refl

mark_verified-hides_certificate_example :
    (find
        (live_with 1)
        (mark_domain_cname_verified quiet_env 1 (world (tables generating []))).1.shared.db.domains
      ≡ some (verified_at (pos 0) (row generating)))
    × (map_cert_status (pos 50) (verified_at (pos 0) (row generating)).status (some cert)
        ≡ "pending")
unfolding find
mark_verified-hides_certificate_example =
    mark_verified-hides_certificate quiet_env quiet 1 (row generating) cert (pos 50)
      (world (tables generating [])) refl refl

slot_or_rollback-full_example :
    ((slot_or_rollback quiet_env 1 DbError.failed (world (tables generating []))).0
      ≡ err DbError.failed)
    × (find
          (live_with 1)
          (slot_or_rollback quiet_env 1 DbError.failed
            (world (tables generating []))).1.shared.db.domains
        ≡ some (given_back (pos 3) (certified 1 (tables generating [])) true (row generating)))
unfolding find try_acquire_cert_job_slot max_concurrent_cert_jobs cert_job_slots_ch set_defaults
slot_or_rollback-full_example =
    slot_or_rollback-full quiet_env quiet DbError DbError.failed 1 (row generating)
      (world (tables generating [])) refl refl refl
