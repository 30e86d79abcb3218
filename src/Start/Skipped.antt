-- ===== src/Start/Skipped.antt =====
-- Which domains the renewal scan passes over.
use certhub_server.Common.{
  Bool, true, not, ◌||◌, none, ◌≡◌, refl, str_eq, Bool-cases, inl, inr, arith,
}
use certhub_server.Models.{Domain}
use certhub_server.Store.{ok}
use certhub_server.System.{Env, World, acts}
use certhub_server.Start.{try_auto_renew_domain, skips_renewal, in_backoff}

module _ (env : Env) where
  -- A domain is not to be renewed now: it is generating or pending, its owner has switched renewal
  -- off, it is put off after a failure, or it has no delegation target.
  abbrev pub not_due : Domain → World → Bool
  not_due d w =
      skips_renewal env d.status
      || (not d.auto_renew
          || (in_backoff env (env.clock w.event) d.auto_renew_backoff_until
              || str_eq d.cname_target ""))

  -- The scan starts no job for such a domain: no statement is sent, no lookup made and no lock or
  -- slot taken.
  pub try_auto_renew_domain-skips {ℓ} :
      (E : Type ℓ) (d : Domain) (w : World)
      → not_due d w ≡ true
      → try_auto_renew_domain env {E = E} d w ≡ (ok none, w)
  unfolding try_auto_renew_domain acts
  try_auto_renew_domain-skips E d w h = elim (Bool-cases (skips_renewal env d.status)) [
    | inl s ↦ rw s refl
    | inr s ↦ rw s (elim (Bool-cases d.auto_renew) [
      | inr off ↦ rw off refl
      | inl on' ↦
          rw on'
            (elim (Bool-cases (in_backoff env (env.clock w.event) d.auto_renew_backoff_until)) [
              | inl b ↦ rw b refl
              | inr b ↦
                  let empty : str_eq d.cname_target "" ≡ true = ground arith in rw b (rw empty refl)
            ])
    ])
  ]
