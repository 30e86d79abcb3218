-- ===== src/CertJob/Failing.antt =====
-- failCertJob in a quiet environment: what the owner and the scheduler see of a failed job.
use Prim.Native.Nat.{ℕ, suc}
use certhub_server.Common.{
  String, Bool, true, false, none, some, ◌≡◌, refl, ◌∙◌, find, find-update, find_passes, inl, inr,
  if◌then◌else◌, Bool-cases,
}
use certhub_server.Common.Int.{pos, ◌+ℤ◌}
use certhub_server.Config.Durations.{auto_renew_backoff_duration}
use certhub_server.Models.{Time, Domain, Status, active, error}
use certhub_server.Store.{Db, touch}
use certhub_server.System.{Env, World, acts, after, ignored}
use certhub_server.System.Quiet.{IsQuiet}
use certhub_server.Lifecycle.{
  has_id, settled_row, update_where, set_domain_error, schedule_auto_renew_backoff,
}
use certhub_server.Lifecycle.Quiet.{
  live_with, updated, certified, with_db, update_where-quiet, first_domain-quiet,
  domain_has_certificate-quiet,
}
use certhub_server.CertJob.{fail_cert_job, set_domain_auto_renew_failure}

-- An update that keeps the key and the mark of deletion changes the row that a search finds.
pub find-updated :
    (id : ℕ) (t : Time) (f : Domain → Domain) (d : Domain) (db : Db)
    → ((x : Domain) → live_with id (f x) ≡ live_with id x)
    → find (live_with id) db.domains ≡ some d
    → find (live_with id) (updated t (has_id id) f db).domains ≡ some (touch t f d)
unfolding updated
find-updated id t f d db same there =
    find-update (live_with id) (live_with id) (touch t f) db.domains same
    ∙ rw there (rw (find_passes (live_with id) db.domains d there))

-- One more failure than `d` has, and the time until which it is put off.
abbrev pub put_off : Env → Time → Domain → Domain → Domain
put_off env t d x =
    let failures = d.auto_renew_failures +ℤ pos 1 in
    record x {
      auto_renew_failures = failures;
      auto_renew_backoff_until =
          some (t +ℤ auto_renew_backoff_duration env.parse_duration env.config.renewal failures);
    }

-- The row with a status and a message, and without a lock, written at the time `t`.
abbrev pub unlocked : Time → Status → String → Domain → Domain
unlocked t s message d = record d {
  status = s;
  error_message = message;
  generating_since = none;
  updated_at = t;
}

-- The row after a failed job, of an automatic renewal or not, where the first event is number `n`.
abbrev pub failed_row : Env → ℕ → Bool → Bool → String → Domain → Domain
failed_row env n false has_cert message d = unlocked (env.clock n) error message d
failed_row env n true has_cert message d =
    let row = unlocked (env.clock (suc n)) (if has_cert then active else error) message d in
    let t = env.clock (suc (suc (suc n))) in record (put_off env t row row) { updated_at = t }

module _ (env : Env) (q : IsQuiet env) where
  schedule-quiet {ℓ} :
      (E : Type ℓ) (id : ℕ) (d : Domain) (w : World)
      → find (live_with id) w.shared.db.domains ≡ some d
      → (schedule_auto_renew_backoff env {E = E} id w).1.shared.db
        ≡ updated
            (env.clock (suc w.event))
            (has_id id)
            (put_off env (env.clock (suc w.event)) d)
            w.shared.db
  unfolding schedule_auto_renew_backoff acts
  schedule-quiet E id d w there =
      simp (first_domain-quiet env q (has_id id) (some d) w there) (simp (update_where-quiet env q))

  -- A failure that is recorded with a status, and then the backoff.
  settled_then_put_off {ℓ} :
      (E : Type ℓ) (id : ℕ) (status : Status) (message : String) (d : Domain) (w : World)
      → find (live_with id) w.shared.db.domains ≡ some d
      → (let row = touch (env.clock w.event) (settled_row status message) d in
          let t = env.clock (suc (suc w.event)) in
          find
            (live_with id)
            (schedule_auto_renew_backoff env {E = E} id (
              ignored
                (update_where env (has_id id) (settled_row status message) w))).1.shared.db.domains
          ≡ some (touch t (put_off env t row) row))
  settled_then_put_off E id status message d w there =
      let row = touch (env.clock w.event) (settled_row status message) d in
      let t = env.clock (suc (suc w.event)) in
      let there' =
        find-updated id (env.clock w.event) (settled_row status message) d w.shared.db (λ x. refl)
          there in
      let w' = after w (
        with_db (updated (env.clock w.event) (has_id id) (settled_row status message) w.shared.db)
          w.shared) in
      rw (update_where-quiet env q (has_id id) (settled_row status message) w) (
        rw (schedule-quiet E id row w' there')
          (find-updated id t (put_off env t row) row w'.shared.db (λ x. refl) there'))

  -- Without faults and interference: a failed job leaves the domain in error with the message, and
  -- unlocked; or
  -- active with it, if the job was an automatic renewal and there is still a certificate. An
  -- automatic renewal also counts one more failure and is put off by the delay for that count.
  pub fail_cert_job-row {ℓ} :
      (E : Type ℓ) (id : ℕ) (message : String) (auto : Bool) (d : Domain) (w : World)
      → find (live_with id) w.shared.db.domains ≡ some d
      → find (live_with id) (fail_cert_job env {E = E} id message auto w).1.shared.db.domains
        ≡ some (failed_row env w.event auto (certified id w.shared.db) message d)
  unfolding fail_cert_job set_domain_error set_domain_auto_renew_failure acts
  fail_cert_job-row E id message false d w there =
      rw (update_where-quiet env q (has_id id) (settled_row error message) w)
        (find-updated id _ (settled_row error message) d w.shared.db (λ x. refl) there)
  fail_cert_job-row E id message true d w there =
      rw (domain_has_certificate-quiet env q E id w) (elim (Bool-cases (certified id w.shared.db)) [
        | inl e ↦ rw e (settled_then_put_off E id active message d (after w w.shared) there)
        | inr e ↦ rw e (settled_then_put_off E id error message d (after w w.shared) there)
      ])
