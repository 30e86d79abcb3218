-- ===== src/Lifecycle/Verified.antt =====
-- markDomainCnameVerified in a quiet environment, and what the interface shows after it.
use Prim.Native.Nat.{ℕ}
use certhub_server.Common.{false, some, ◌≡◌, refl, find}
use certhub_server.Models.{Time, Domain, Certificate, verified}
use certhub_server.System.{Env, World, acts}
use certhub_server.System.Quiet.{IsQuiet}
use certhub_server.Lifecycle.{has_id, verified_row, mark_domain_cname_verified}
use certhub_server.Lifecycle.Quiet.{live_with, update_where-quiet}
use certhub_server.CertJob.Failing.{find-updated}
use certhub_server.Http.Dto.{map_cert_status, cert_validity}
use certhub_server.Common.Int.{ltb_ℤ}

-- The row that was verified at the time `t`: what is not written here is as it was.
abbrev pub verified_at : Time → Domain → Domain
verified_at t d = record d {
  status = verified;
  error_message = "";
  cname_verified_at = some t;
  updated_at = t;
}

module _ (env : Env) (q : IsQuiet env) where
  -- Without faults and interference: whatever status a live domain has, also generating and active,
  -- markDomainCnameVerified makes it verified at that time, without a message, and leaves the rest
  -- of the row, the time of its lock included, as it was. A certificate that has not expired is then
  -- shown as pending.
  pub mark_verified-hides_certificate :
      (id : ℕ) (d : Domain) (cert : Certificate) (later : Time) (w : World)
      → find (live_with id) w.shared.db.domains ≡ some d
      → ltb_ℤ cert.expires_at later ≡ false
      → let t = env.clock w.event in
        (find (live_with id) (mark_domain_cname_verified env id w).1.shared.db.domains
          ≡ some (verified_at t d))
        × (map_cert_status later (verified_at t d).status (some cert) ≡ "pending")
  unfolding mark_domain_cname_verified acts map_cert_status cert_validity
  mark_verified-hides_certificate id d cert later w there fresh =
      let t = env.clock w.event in
      rw (update_where-quiet env q (has_id id) (verified_row t) w)
        (find-updated id t (verified_row t) d w.shared.db (λ x. refl) there, rw fresh refl)
