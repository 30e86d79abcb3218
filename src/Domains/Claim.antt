-- ===== src/Domains/Claim.antt =====
-- Claiming another user's domain (assignUnclaimedDomainToUser) in a quiet environment.
use Prim.Native.Nat.{ℕ, suc}
use certhub_server.Common.{
  Bool, true, false, ◌&&◌, none, some, List, [], ◌∷◌, ◌≡◌, refl, ◌∙◌, ap, inl, inr, ◌==◌, arith,
  find, update, count, find-update, find_passes, Bool-cases,
}
use certhub_server.Common.Int.{pos}
use certhub_server.Models.{Time, Domain, verified, is_claimable_status, is_live}
use certhub_server.Store.{ok, err, touch}
use certhub_server.System.{Env, World, acts, after}
use certhub_server.System.Quiet.{IsQuiet}
use certhub_server.Lifecycle.{has_id}
use certhub_server.Lifecycle.Quiet.{
  live_with, updated, certified, with_db, domain_has_certificate-quiet, update_where-quiet,
  first_domain-quiet,
}
use certhub_server.Http.{Web}
use certhub_server.Domains.{ClaimError, claim_lost, claimed_row, assign_unclaimed_domain_to_user}

-- An update changes nothing if no row passes.
update-idle {ℓ} :
    {A : Type ℓ} (p : A → Bool) (f : A → A) (xs : List A) → count p xs ≡ 0 → update p f xs ≡ xs
unfolding count update
update-idle p f [] h = refl
update-idle p f (x ∷ xs) h = elim (Bool-cases (p x)) [
  | inl hit ↦ absurd (ground arith)
  | inr miss ↦ rw miss (ap (λ ys. x ∷ ys) (update-idle p f xs (ground arith)))
]

-- A row that a search finds is counted by any test that it passes.
count-found {ℓ} :
    {A : Type ℓ} (p q : A → Bool) (xs : List A) (x : A)
    → find q xs ≡ some x
    → p x ≡ true
    → (count p xs == 0) ≡ false
unfolding count find
count-found p q [] x h k = absurd (ground arith)
count-found p q (y ∷ ys) x h k = elim (Bool-cases (q y)) [
  | inl hit ↦ let same : y ≡ x = ground arith in rw same (rw k (ground arith))
  | inr miss ↦ let rest = count-found p q ys x (ground arith) k in ground arith
]

-- The row of a domain that the user has taken over at the time `t`.
abbrev pub taken_over : ℕ → Time → Domain → Domain
taken_over user t d = record d {
  user_id = user;
  status = verified;
  error_message = "";
  generating_since = none;
  auto_renew = true;
  cname_verified_at = some t;
  auto_renew_failures = pos 0;
  auto_renew_backoff_until = none;
  updated_at = t;
}

-- Rows of a live domain that may be claimed.
abbrev pub claimable : ℕ → Domain → Bool
claimable id d = has_id id d && is_claimable_status d.status

module _ (env : Env) (q : IsQuiet env) (web : Web) where
  -- A domain with a certificate is never handed over, and nothing changes.
  pub assign-certified :
      (id user : ℕ) (w : World)
      → certified id w.shared.db ≡ true
      → assign_unclaimed_domain_to_user env web id user w ≡ (err claim_lost, after w w.shared)
  unfolding assign_unclaimed_domain_to_user acts
  assign-certified id user w cert =
      rw (domain_has_certificate-quiet env q ClaimError id w) (rw cert refl)

  -- Nor is one whose status is not pending or error: the tables stay as they were.
  pub assign-not_claimable :
      (id user : ℕ) (w : World)
      → certified id w.shared.db ≡ false
      → count (λ d. is_live d && claimable id d) w.shared.db.domains ≡ 0
      → assign_unclaimed_domain_to_user env web id user w
        ≡ (err claim_lost, after (after w w.shared) w.shared)
  unfolding assign_unclaimed_domain_to_user acts updated
  assign-not_claimable id user w free none_left =
      rw (domain_has_certificate-quiet env q ClaimError id w) (
        rw free (
          rw (update_where-quiet env q)
            (rw none_left (rw (update-idle _ _ w.shared.db.domains none_left) refl))))

  -- Without faults and interference: a live domain without a certificate, and pending or in error, becomes the new owner's: verified
  -- at that time, renewed automatically, with no failures; this is the row that is returned and
  -- stored.
  pub assign-claims :
      (id user : ℕ) (d : Domain) (w : World)
      → certified id w.shared.db ≡ false
      → find (live_with id) w.shared.db.domains ≡ some d
      → is_claimable_status d.status ≡ true
      → let t = env.clock (suc w.event) in
        let end' = assign_unclaimed_domain_to_user env web id user w in
        (end'.0 ≡ ok (taken_over user t d))
        × (find (live_with id) end'.1.shared.db.domains ≡ some (taken_over user t d))
  unfolding assign_unclaimed_domain_to_user acts updated
  assign-claims id user d w free there can =
      let t = env.clock (suc w.event) in
      let row = touch t (claimed_row user t) d in
      let p = λ (x : Domain). is_live x && claimable id x in
      let passes = find_passes (live_with id) w.shared.db.domains d there in
      let eligible : p d ≡ true = ground arith in
      let counted = count-found p (live_with id) w.shared.db.domains d there eligible in
      let w2 =
        after (after w w.shared)
          (with_db (updated t (claimable id) (claimed_row user t) w.shared.db) w.shared) in
      let stored : find (live_with id) w2.shared.db.domains ≡ some row =
        find-update (live_with id) p (touch t (claimed_row user t)) w.shared.db.domains (λ x. refl)
        ∙ rw there (rw eligible refl) in
      rw (domain_has_certificate-quiet env q ClaimError id w) (
        rw free (
          rw (update_where-quiet env q (claimable id) (claimed_row user t) (after w w.shared)) (
            rw counted
              (rw (first_domain-quiet env q (has_id id) (some row) w2 stored) (refl, stored)))))
