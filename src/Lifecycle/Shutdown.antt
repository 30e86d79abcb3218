-- ===== src/Lifecycle/Shutdown.antt =====
-- RollbackAllGeneratingDomains, which main runs last.
use Prim.Native.Nat.{ℕ}
use certhub_server.Common.{
  String, Bool, true, false, ◌&&◌, List, [], ◌∷◌, ◌≡◌, refl, sym, any, if◌then◌else◌, arith, keep,
  All, Bool-cases, inl, inr,
}
use mathlib.Core.Path.{subst}
use certhub_server.Models.{Domain, is_generating, is_live}
use certhub_server.Store.{DbError, Result, ok, err, find_domains}
use certhub_server.System.{
  Env, World, Shared, Act, acts, catch, pure, after, and_then, or_handle, ◌>>◌,
}
use certhub_server.System.Quiet.{IsQuiet, exec-quiet}
use certhub_server.Lifecycle.{
  for_each, rollback_generating_domain, rollback_stuck_generating, rollback_all_generating_domains,
  stuck_generating_message,
}
use certhub_server.Lifecycle.Quiet.{certified, domain_has_certificate-quiet}
use certhub_server.Lifecycle.Rollback.{rollback_lem}
use certhub_server.Lifecycle.Settled.{DistinctIds, Awaits, rolled_back-Awaits}

Unit-eta : (u : Unit {0}) → u ≡ tt
Unit-eta u = refl

pub catch-pure-ok {ℓ κ} :
    {E : Type ℓ} (F : Type κ) (m : Act E (Unit {0})) (w : World)
    → (catch m (λ _. pure {E = F} (tt {0})) w).0 ≡ ok tt
unfolding catch pure
catch-pure-ok {E} F m w = go (m w)
  where
    go : (r : Result E (Unit {0}) × World) → (or_handle r (λ _. pure {E = F} (tt {0}))).0 ≡ ok tt
    go (ok a, v) = refl
    go (err e, v) = refl

-- Rolling back never fails.
rollback-ok {ℓ} :
    (E : Type ℓ) (env : Env) (id : ℕ) (message : String) (restore : Bool) (w : World)
    → (rollback_generating_domain env {E = E} id message restore w).0 ≡ ok tt
unfolding rollback_generating_domain
rollback-ok E env id message restore w = catch-pure-ok E _ w

rollback_stuck_forced {ℓ} :
    (E : Type ℓ) (env : Env) (d : Domain) (w : World)
    → IsQuiet env
    → rollback_stuck_generating env {E = E} d true w
      ≡ rollback_generating_domain env d.id
          (if certified d.id w.shared.db then "" else stuck_generating_message)
          true
          (after w w.shared)
unfolding rollback_stuck_generating acts
rollback_stuck_forced E env d w q = simp (domain_has_certificate-quiet env q E)

then-ok {ℓ ρ} :
    {E : Type ℓ} (Q P : Shared → Type ρ) (k : Act E (Unit {0})) (r : Result E (Unit {0}) × World)
    → r.0 ≡ ok tt
    → Q r.1.shared
    → ((v : World) → Q v.shared → P (k v).1.shared)
    → P (and_then r (λ _. k)).1.shared
then-ok Q P k (ok a, v) e i h = h v i
then-ok Q P k (err e', v) e i h = absurd (ground arith)

-- The rule of loops whose rounds do not fail.
for_each-inv {ℓ κ ρ} :
    {E : Type ℓ} {A : Type κ} (I : List A → Shared → Type ρ) (env : Env)
    (body : A → Act E (Unit {0}))
    → ((x : A) (xs : List A) (w : World)
        → I (x ∷ xs) w.shared
        → ((body x w).0 ≡ ok tt) × I xs (body x w).1.shared)
    → (xs : List A) (w : World) → I xs w.shared
    → I [] (for_each env body xs w).1.shared
unfolding for_each ◌>>◌ pure
for_each-inv I env body step [] w h = h
for_each-inv I env body step (x ∷ xs) w h =
    then-ok (I xs) (I []) (for_each env body xs) (body x w) (step x xs w h).0 (step x xs w h).1
      (for_each-inv I env body step xs)

Awaits-cons :
    (x : Domain) (rest rows : List Domain) → All (Awaits rest) rows → All (Awaits (x ∷ rest)) rows
Awaits-cons x rest [] a = tt
Awaits-cons x rest (e ∷ es) (a, as') =
    (λ live gen. ground (arith, a live gen), Awaits-cons x rest es as')

abbrev generating_rows : List Domain → List Domain
generating_rows = keep (λ d. is_live d && is_generating d.status)

-- Every generating row is in the list that the query returns.
keep-Awaits : (rows : List Domain) → All (Awaits (generating_rows rows)) rows
unfolding keep
keep-Awaits [] = tt
keep-Awaits (e ∷ es) = elim (Bool-cases (is_live e && is_generating e.status)) [
  | inl hit ↦
      let rest : generating_rows (e ∷ es) ≡ e ∷ generating_rows es = rw hit in
      subst (λ (k : List Domain). All (Awaits k) (e ∷ es)) (sym rest)
        (λ live gen. ground arith, Awaits-cons e _ es (keep-Awaits es))
  | inr miss ↦
      let rest : generating_rows (e ∷ es) ≡ generating_rows es = rw miss in
      subst (λ (k : List Domain). All (Awaits k) (e ∷ es)) (sym rest)
        (λ live gen. absurd (ground (arith, miss)), keep-Awaits es)
]

handled-world {ℓ κ} :
    {E : Type ℓ} (F : Type κ) (r : Result E (Unit {0}) × World)
    → (or_handle r (λ _. pure {E = F} (tt {0}))).1 ≡ r.1
unfolding pure
handled-world F (ok a, v) = refl
handled-world F (err e, v) = refl

abbrev Covered : List Domain → Shared → Type 0
Covered rest s = DistinctIds s.db.domains × All (Awaits rest) s.db.domains

round-Covered {ℓ} :
    (E : Type ℓ) (env : Env) (d : Domain) (rest : List Domain) (w : World)
    → IsQuiet env
    → Covered (d ∷ rest) w.shared
    → ((rollback_stuck_generating env {E = E} d true w).0 ≡ ok tt)
      × Covered rest (rollback_stuck_generating env {E = E} d true w).1.shared
round-Covered E env d rest w q (u, a) = rw (rollback_stuck_forced E env d w q) (
  rollback-ok E env d.id _ true (after w w.shared),
  subst (Covered rest) (sym (rollback_lem env q E d.id _ true (after w w.shared)))
      (rolled_back-Awaits _ d rest _ true _ w.shared.db refl u a),
)

Awaits-none :
    (rows : List Domain)
    → All (Awaits []) rows
    → All (λ (d : Domain). is_live d ≡ true → is_generating d.status ≡ false) rows
Awaits-none [] a = tt
Awaits-none (e ∷ es) (a, as') = (λ live. ground (arith, a live), Awaits-none es as')

none_generating :
    (rows : List Domain)
    → All (λ (d : Domain). is_live d ≡ true → is_generating d.status ≡ false) rows
    → any (λ (d : Domain). is_live d && is_generating d.status) rows ≡ false
none_generating [] a = refl
none_generating (e ∷ es) (a, as') = ground (arith, a, none_generating es as')

-- In a quiet environment, with the keys of the rows distinct, no live domain is generating after
-- the rollback at shutdown.
pub rollback_all-settles {ℓ} :
    (E : Type ℓ) (env : Env) (w : World)
    → IsQuiet env
    → DistinctIds w.shared.db.domains
    → any
        (λ (d : Domain). is_live d && is_generating d.status)
        (rollback_all_generating_domains env {E = E} w).1.shared.db.domains
      ≡ false
unfolding rollback_all_generating_domains acts find_domains
rollback_all-settles E env w q u = simp (exec-quiet env q) (
    rw (handled-world E _) (
      none_generating _ (
        Awaits-none _
          (for_each-inv Covered env (λ d. rollback_stuck_generating env d true)
            (λ d rest v h. round-Covered DbError env d rest v q h) _ _
            (u, keep-Awaits w.shared.db.domains)).1)))
