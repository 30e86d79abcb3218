-- ===== src/System/Quiet.antt =====
-- An environment in which nothing fails and no other goroutine interferes: what an action does by
-- itself.
use certhub_server.Common.{ℕ, false, ◌≡◌}
use certhub_server.Store.{ok, Statement}
use certhub_server.System.{
  Env, World, Shared, exec, locked, wait_domain_worker, after, answered, concluded,
}

pub record IsQuiet (env : Env) : Type 0 where
  pub works : (n : ℕ) → env.fault n ≡ false
  pub alone : (n : ℕ) (s : Shared) → env.others n s ≡ s

module _ (env : Env) (q : IsQuiet env) where
  pub exec-quiet :
      {A : Type 0} (st : Statement A) (w : World)
      → exec env st w ≡ answered w w.shared (st w.shared.db)
  unfolding exec
  exec-quiet st w = rw (q.works, q.alone)

  pub locked-quiet {ℓ κ} :
      (E : Type ℓ) {A : Type κ} (f : Shared → A × Shared) (w : World)
      → locked env {E = E} f w ≡ concluded w (f w.shared)
  unfolding locked
  locked-quiet E f w = rw q.alone

  pub wait-quiet {ℓ} :
      (E : Type ℓ) (d : ℕ) (w : World)
      → wait_domain_worker env {E = E} d w ≡ (ok (env.worker_ended w.event d), after w w.shared)
  unfolding wait_domain_worker
  wait-quiet E d w = rw q.alone
