-- ===== src/Start/Slot.antt =====
-- What happens to a locked domain when no slot is free, in a quiet environment.
use Prim.Native.Nat.{ℕ, suc}
use certhub_server.Common.{
  String, Bool, true, false, not, none, some, ◌≡◌, ◌∙◌, ap, refl, find, is_none,
}
use certhub_server.Models.{Time, Domain, active, verified, error, is_generating}
use certhub_server.Store.{DbError, ok, err, touch}
use certhub_server.Registry.{try_acquire_cert_job_slot}
use certhub_server.System.{Env, World, Shared, acts, after}
use certhub_server.System.Quiet.{IsQuiet, locked-quiet}
use certhub_server.Lifecycle.{has_id, rolled_back_row, rollback_generating_domain}
use certhub_server.Lifecycle.Quiet.{
  live_with, certified, updated, with_db, first_domain-quiet, domain_has_certificate-quiet,
  update_where-quiet,
}
use certhub_server.CertJob.Failing.{find-updated}
use certhub_server.Start.{slot_or_rollback, acquire_slot, limit, slot_taken}

rolled_status-live :
    (id : ℕ) (has_cert restore : Bool) (message : String) (x : Domain)
    → live_with id (rolled_back_row has_cert restore message x) ≡ live_with id x
unfolding rolled_back_row
rolled_status-live id true restore message x = refl
rolled_status-live id false true message x = refl
rolled_status-live id false false message x = refl

-- The row that is given back at the time `t`, of a domain with a certificate or not, and verified
-- before or not: there is no lock on it.
abbrev pub given_back : Time → Bool → Bool → Domain → Domain
given_back t true was_verified d = record d {
  status = active;
  error_message = "";
  generating_since = none;
  updated_at = t;
}
given_back t false true d = record d {
  status = verified;
  error_message = "";
  generating_since = none;
  updated_at = t;
}
given_back t false false d = record d {
  status = error;
  error_message = "certificate operation was cancelled";
  generating_since = none;
  updated_at = t;
}

rolled_back-given_back :
    (t : Time) (c v : Bool) (d : Domain) → touch t (rolled_back_row c v "") d ≡ given_back t c v d
unfolding rolled_back_row
rolled_back-given_back t true v d = refl
rolled_back-given_back t false true d = refl
rolled_back-given_back t false false d = refl

-- The state after the semaphore was asked.
abbrev asked : Env → Shared → Shared
asked env s = record s { slots = (try_acquire_cert_job_slot (limit env) s.slots).1 }

module _ (env : Env) (q : IsQuiet env) where
  acquire_slot-quiet {ℓ} :
      (E : Type ℓ) (w : World)
      → acquire_slot env {E = E} w ≡ (
        ok (try_acquire_cert_job_slot (limit env) w.shared.slots).0,
        after w (asked env w.shared),
      )
  unfolding acquire_slot
  acquire_slot-quiet E w =
      locked-quiet env q E (λ s. slot_taken s (try_acquire_cert_job_slot (limit env) s.slots)) w

  rollback_locked {ℓ} :
      (E : Type ℓ) (id : ℕ) (d : Domain) (w : World)
      → find (live_with id) w.shared.db.domains ≡ some d
      → is_generating d.status ≡ true
      → rollback_generating_domain env {E = E} id "" true w ≡ (
        ok tt,
        after (after (after w w.shared) w.shared) (
            with_db
              (updated
                (env.clock (suc (suc w.event)))
                (has_id id)
                (rolled_back_row (certified id w.shared.db) (not (is_none d.cname_verified_at)) "")
                w.shared.db)
              w.shared),
      )
  unfolding rollback_generating_domain acts
  rollback_locked E id d w there locked' =
      simp (first_domain-quiet env q (has_id id) (some d) w there)
        (rw locked' (simp (domain_has_certificate-quiet env q DbError, update_where-quiet env q)))

  -- Without faults and interference: if no slot is free, the start of a job fails with the given
  -- error, and the live domain that was locked for it is given back without its lock: active if it
  -- has a certificate, else verified if it was before, else in error as cancelled.
  pub slot_or_rollback-full {ℓ} :
      (E : Type ℓ) (full : E) (id : ℕ) (d : Domain) (w : World)
      → (try_acquire_cert_job_slot (limit env) w.shared.slots).0 ≡ false
      → find (live_with id) w.shared.db.domains ≡ some d
      → is_generating d.status ≡ true
      → let end' = slot_or_rollback env id full w in
        (end'.0 ≡ err full)
        × (find (live_with id) end'.1.shared.db.domains
            ≡ some (
                given_back
                  (env.clock (suc (suc (suc w.event))))
                  (certified id w.shared.db)
                  (not (is_none d.cname_verified_at))
                  d))
  unfolding slot_or_rollback acts
  slot_or_rollback-full E full id d w none_free there locked' =
      let w1 = after w (asked env w.shared) in
      rw (acquire_slot-quiet E w) (
        rw none_free (
          rw (rollback_locked E id d w1 there locked') (
            refl,
            find-updated id (env.clock (suc (suc (suc w.event))))
                  (rolled_back_row (certified id w.shared.db) (not (is_none d.cname_verified_at))
                    "")
                  d w.shared.db
                  (rolled_status-live id (certified id w.shared.db)
                    (not (is_none d.cname_verified_at)) "")
                  there
                ∙ ap some (
                    rolled_back-given_back (env.clock (suc (suc (suc w.event))))
                      (certified id w.shared.db) (not (is_none d.cname_verified_at)) d),
          )))
