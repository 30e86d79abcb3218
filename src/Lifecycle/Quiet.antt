-- ===== src/Lifecycle/Quiet.antt =====
-- The statements of the lifecycle in a quiet environment.
use Prim.Native.Nat.{ℕ}
use certhub_server.Common.{Bool, ◌&&◌, Option, ◌≡◌, ◌==◌, ltb, find, update, count}
use certhub_server.Models.{Time, Domain, is_live}
use certhub_server.Store.{ok, Db, first_domain, update_domains, count_certificates, found, touch}
use certhub_server.Registry.{cert_job_inflight}
use certhub_server.System.{Env, World, Shared, acts, after, exec}
use certhub_server.System.Quiet.{IsQuiet, exec-quiet, locked-quiet}
use certhub_server.Lifecycle.{has_id, update_where, domain_has_certificate, inflight}

abbrev pub live_with : ℕ → Domain → Bool
live_with id d = is_live d && has_id id d

-- The tables after an update of the live rows that pass a test.
unfoldable pub updated : Time → (Domain → Bool) → (Domain → Domain) → Db → Db
updated t p f db = record db { domains = update (λ d. is_live d && p d) (touch t f) db.domains }

unfoldable pub certified : ℕ → Db → Bool
certified id db = ltb 0 (count (λ c. c.domain_id == id) db.certificates)

abbrev pub with_db : Db → Shared → Shared
with_db db s = record s { db = db }

module _ (env : Env) (q : IsQuiet env) where
  pub domain_has_certificate-quiet {ℓ} :
      (E : Type ℓ) (id : ℕ) (w : World)
      → domain_has_certificate env {E = E} id w ≡ (ok (certified id w.shared.db), after w w.shared)
  unfolding domain_has_certificate acts count_certificates certified
  domain_has_certificate-quiet E id w = simp (exec-quiet env q)

  pub update_where-quiet :
      (p : Domain → Bool) (f : Domain → Domain) (w : World)
      → update_where env p f w ≡ (
        ok (count (λ d. is_live d && p d) w.shared.db.domains),
        after w (with_db (updated (env.clock w.event) p f w.shared.db) w.shared),
      )
  unfolding update_where acts update_domains updated
  update_where-quiet p f w = simp (exec-quiet env q)

  pub first_domain-quiet :
      (p : Domain → Bool) (o : Option Domain) (w : World)
      → find (λ d. is_live d && p d) w.shared.db.domains ≡ o
      → exec env (first_domain p) w ≡ (found o, after w w.shared)
  unfolding first_domain
  first_domain-quiet p o w e = rw (exec-quiet env q, first_domain) (rw e)

  pub inflight-quiet {ℓ} :
      (E : Type ℓ) (id : ℕ) (w : World)
      → inflight env {E = E} id w ≡ (ok (cert_job_inflight id w.shared.registry), after w w.shared)
  unfolding inflight
  inflight-quiet E id w = locked-quiet env q E _ w
