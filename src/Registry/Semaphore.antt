-- ===== src/Registry/Semaphore.antt =====
-- The semaphore of certificate jobs (controllers/cert_job_semaphore.go) over any sequence of calls.
use Prim.Native.Nat.{ℕ, suc, ◌≤◌}
use certhub_server.Common.{true, false, Option, none, some, ◌≡◌, refl, arith}
use certhub_server.Common.Int.{ℤ}
use certhub_server.Registry.{
  Slots, size_of, cert_job_slots_ch, try_acquire_cert_job_slot, release_cert_job_slot,
}

abbrev pub no_slots : Slots
no_slots = record { capacity = none; taken = 0 }

-- The calls that lead from the start to a state in which `holders` jobs have a slot: anyone may
-- try, and a job that has a slot releases it once.
pub data Run (limit : ℤ) : Slots → ℕ → Type 0 where
  start : Run limit no_slots 0
  granted :
      {s : Slots} {h : ℕ}
      → Run limit s h
      → (try_acquire_cert_job_slot limit s).0 ≡ true
      → Run limit (try_acquire_cert_job_slot limit s).1 (suc h)
  denied :
      {s : Slots} {h : ℕ}
      → Run limit s h
      → (try_acquire_cert_job_slot limit s).0 ≡ false
      → Run limit (try_acquire_cert_job_slot limit s).1 h
  released : {s : Slots} {h : ℕ} → Run limit s (suc h) → Run limit (release_cert_job_slot limit s) h

abbrev pub Sized : ℤ → Option ℕ → Type 0
Sized limit none = Unit
Sized limit (some n) = n ≡ size_of limit

-- The channel holds one token for each holder, and no more than its size.
abbrev pub Counted : ℤ → Slots → ℕ → Type 0
Counted limit s h = (s.taken ≡ h) × (h ≤ size_of limit) × Sized limit s.capacity

granted_lem :
    (limit : ℤ) (h taken : ℕ) (capacity : Option ℕ)
    → Counted limit (record { capacity = capacity; taken = taken }) h
    → (try_acquire_cert_job_slot limit (record { capacity = capacity; taken = taken })).0 ≡ true
    → Counted limit
        (try_acquire_cert_job_slot limit (record { capacity = capacity; taken = taken })).1
        (suc h)
unfolding try_acquire_cert_job_slot cert_job_slots_ch
granted_lem limit h taken none c g = ground arith
granted_lem limit h taken (some n) c g = ground arith

denied_lem :
    (limit : ℤ) (h taken : ℕ) (capacity : Option ℕ)
    → Counted limit (record { capacity = capacity; taken = taken }) h
    → (try_acquire_cert_job_slot limit (record { capacity = capacity; taken = taken })).0 ≡ false
    → Counted limit
        (try_acquire_cert_job_slot limit (record { capacity = capacity; taken = taken })).1
        h
unfolding try_acquire_cert_job_slot cert_job_slots_ch
denied_lem limit h taken none c g = ground arith
denied_lem limit h taken (some n) c g = ground arith

released_lem :
    (limit : ℤ) (h taken : ℕ) (capacity : Option ℕ)
    → Counted limit (record { capacity = capacity; taken = taken }) (suc h)
    → Counted limit (release_cert_job_slot limit (record { capacity = capacity; taken = taken })) h
unfolding release_cert_job_slot cert_job_slots_ch
released_lem limit h taken none c = ground arith
released_lem limit h taken (some n) c = ground arith

-- Over any sequence of calls: the tokens in the channel are as many as the jobs with a slot, and
-- these are never more than the configured limit.
pub Run-Counted : (limit : ℤ) (s : Slots) (h : ℕ) → Run limit s h → Counted limit s h
Run-Counted limit _ _ start = (refl, omega arith, tt)
Run-Counted limit _ _ (granted {s} {h} r g) =
    granted_lem limit h s.taken s.capacity (Run-Counted limit s h r) g
Run-Counted limit _ _ (denied {s} {h} r g) =
    denied_lem limit h s.taken s.capacity (Run-Counted limit s h r) g
Run-Counted limit _ _ (released {s} {h} r) =
    released_lem limit h s.taken s.capacity (Run-Counted limit s (suc h) r)
