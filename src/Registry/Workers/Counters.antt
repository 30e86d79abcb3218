-- ===== src/Registry/Workers/Counters.antt =====
-- The counters of the goroutines of each domain, as controllers/cert_job_registry.go changes them.
use Prim.Native.Nat.{◌+◌}
use certhub_server.Common.{
  map-some, ℕ, zero, suc, true, some, List, [], ◌∷◌, ◌≡◌, ◌==◌, ◌↔◌, refl, if◌then◌else◌, arith,
  inl, inr, Bool-cases,
}
use certhub_server.Registry.Workers.{
  domain_worker_tracker_for, add_worker, done, remove_worker, domain_worker_ended,
}

unfoldable pub workers_of : ℕ → List (ℕ × ℕ) → ℕ
workers_of id [] = 0
workers_of id ((d, n) ∷ ts) = if d == id then n else workers_of id ts

pub added :
    (i d : ℕ) (ts : List (ℕ × ℕ))
    → workers_of i (add_worker d (domain_worker_tracker_for d ts))
      ≡ (if d == i then 1 else 0) + workers_of i ts
unfolding workers_of add_worker domain_worker_tracker_for
added i d [] = ground arith
added i d ((e, n) ∷ ts) = ground (arith, added i d ts)

pub done-some : (n m : ℕ) → done n ≡ some m → n ≡ suc m
unfolding done
done-some zero m h = absurd (cc)
done-some (suc n) m h = ground arith

pub removed :
    (i d : ℕ) (ts us : List (ℕ × ℕ))
    → remove_worker d ts ≡ some us
    → workers_of i ts ≡ (if d == i then 1 else 0) + workers_of i us
unfolding workers_of remove_worker
removed i d [] us h = absurd (cc)
removed i d ((e, n) ∷ ts) us h = elim (Bool-cases (e == d)) [
  | inl same ↦
      let (m, fewer, left) = map-some _ _ us (rw same at h) in
      let one : n ≡ suc m = done-some n m fewer in rw (← left) (ground arith)
  | inr other ↦
      let (vs, fewer, left) = map-some _ _ us (rw other at h) in
      let rest = removed i d ts vs fewer in rw (← left) (ground arith)
]

pub removable :
    (d m : ℕ) (ts : List (ℕ × ℕ))
    → workers_of d ts ≡ suc m
    → (us : List (ℕ × ℕ)) × (remove_worker d ts ≡ some us)
unfolding workers_of remove_worker done
removable d m [] h = absurd (ground arith)
removable d m ((e, n) ∷ ts) h = elim (Bool-cases (e == d)) [
  | inl same ↦ let one : n ≡ suc m = ground arith in ((e, m) ∷ ts, rw (same, one) refl)
  | inr other ↦
      let (us, rest) = removable d m ts (ground arith) in ((e, n) ∷ us, rw (other, rest) refl)
]

pub ended_iff :
    (d : ℕ) (ts : List (ℕ × ℕ)) → (domain_worker_ended d ts ≡ true) ↔ (workers_of d ts ≡ 0)
unfolding workers_of domain_worker_ended
ended_iff d [] = (λ h. refl, λ h. refl)
ended_iff d ((e, n) ∷ ts) = ground (arith, ended_iff d ts)
