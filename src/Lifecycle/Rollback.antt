-- ===== src/Lifecycle/Rollback.antt =====
-- Rolling a domain back from `generating`.
use Prim.Native.Nat.{ℕ, suc}
use certhub_server.Common.{
  String, Bool, not, ◌&&◌, Option, none, some, ◌≡◌, is_none, if◌then◌else◌, find, Bool-cases,
  Option-cases, inl, inr,
}
use certhub_server.Models.{Time, Domain, is_generating}
use certhub_server.Store.{DbError, Db}
use certhub_server.System.{Env, World, acts}
use certhub_server.System.Quiet.{IsQuiet}
use certhub_server.Lifecycle.Quiet.{
  live_with, updated, certified, with_db, domain_has_certificate-quiet, update_where-quiet,
  first_domain-quiet,
}
use certhub_server.Lifecycle.{has_id, rolled_back_row, rollback_generating_domain}

-- What a rollback makes of the tables, given the row that it found: a domain in another state is
-- left alone; one with a certificate is active again, one that was verified and may go back is
-- verified, any other is in error.
unfoldable pub rolled_back : Time → ℕ → String → Bool → Option Domain → Db → Db
rolled_back t id message restore none db = db
rolled_back t id message restore (some d) db =
    if is_generating d.status
    then updated t (has_id id)
        (rolled_back_row (certified id db) (restore && not (is_none d.cname_verified_at)) message)
        db
    else db

module _ (env : Env) (q : IsQuiet env) where
  -- Without faults and interference, rollbackGeneratingDomain changes the tables as `rolled_back`
  -- does, by the row that it finds, and nothing else.
  pub rollback_lem {ℓ} :
      (E : Type ℓ) (id : ℕ) (message : String) (restore : Bool) (w : World)
      → (rollback_generating_domain env {E = E} id message restore w).1.shared
        ≡ with_db
            (rolled_back
              (env.clock (suc (suc w.event)))
              id
              message
              restore
              (find (live_with id) w.shared.db.domains)
              w.shared.db)
            w.shared
  unfolding rollback_generating_domain acts rolled_back
  rollback_lem E id message restore w =
      elim (Option-cases (find (live_with id) w.shared.db.domains)) [
        | inl missing ↦ simp (first_domain-quiet env q (has_id id) none w missing, missing)
        | inr (d, there) ↦
            simp (first_domain-quiet env q (has_id id) (some d) w there, there)
              (elim (Bool-cases (is_generating d.status)) [
                | inl locked' ↦
                    rw locked'
                      (simp (domain_has_certificate-quiet env q DbError, update_where-quiet env q))
                | inr free ↦ rw free
              ])
      ]
