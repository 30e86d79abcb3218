-- ===== src/Registry/Workers.antt =====
-- Who waits for the goroutines of jobs: domainWorkerByID of controllers/cert_job_registry.go and
-- certJobWG of controllers/certificate.go. A WaitGroup is its counter; Done on a counter of zero
-- panics, and Wait returns when the counter is zero.
pub mod Counters
pub mod Holding
pub mod Counted
pub mod Waits
use certhub_server.Common.{
  ℕ, zero, suc, Bool, true, false, Option, none, some, List, [], ◌∷◌, ◌++◌, ◌≡◌, ◌==◌,
  if◌then◌else◌,
}
use mathlib.Core.Option
use certhub_server.Common.Int.{ℤ}
use certhub_server.Models.{Time}
use certhub_server.Registry.{
  Registry, Slots, register_job, next_token, end_job, cancel_cert_job, cancel_all_cert_jobs,
  try_acquire_cert_job_slot, release_cert_job_slot,
}

-- The trackers by their domains, and the counter of certJobWG.
pub record Workers : Type 0 where
  pub trackers : List (ℕ × ℕ)
  pub wait_group : ℕ

unfoldable pub domain_worker_tracker_for : ℕ → List (ℕ × ℕ) → List (ℕ × ℕ)
domain_worker_tracker_for id [] = (id, 0) ∷ []
domain_worker_tracker_for id ((d, n) ∷ ts) =
    if d == id then (d, n) ∷ ts else (d, n) ∷ domain_worker_tracker_for id ts

-- tracker.wg.Add(1)
unfoldable pub add_worker : ℕ → List (ℕ × ℕ) → List (ℕ × ℕ)
add_worker id [] = []
add_worker id ((d, n) ∷ ts) = if d == id then (d, suc n) ∷ ts else (d, n) ∷ add_worker id ts

unfoldable pub begin_domain_worker : ℕ → Workers → Workers
begin_domain_worker id ws = record ws {
  trackers = add_worker id (domain_worker_tracker_for id ws.trackers);
}

-- wg.Done()
unfoldable pub done : ℕ → Option ℕ
done zero = none
done (suc n) = some n

-- tracker.wg.Done(), on the tracker that was found at the beginning.
unfoldable pub remove_worker : ℕ → List (ℕ × ℕ) → Option (List (ℕ × ℕ))
remove_worker id [] = none
remove_worker id ((d, n) ∷ ts) =
    let rest = remove_worker id ts in
    if d == id then Option.map (λ m. (d, m) ∷ ts) (done n) else Option.map (λ us. (d, n) ∷ us) rest

unfoldable pub worker_done : ℕ → Workers → Option Workers
worker_done id ws = Option.map (λ ts. record ws { trackers = ts }) (remove_worker id ws.trackers)

-- Whether waitDomainWorker returns true at once.
unfoldable pub domain_worker_ended : ℕ → List (ℕ × ℕ) → Bool
domain_worker_ended id [] = true
domain_worker_ended id ((d, n) ∷ ts) = if d == id then n == 0 else domain_worker_ended id ts

-- certJobWG.Add(1) in StartCertJob
unfoldable pub add_job : Workers → Workers
add_job ws = record ws { wait_group = suc ws.wait_group }

unfoldable pub job_done : Workers → Option Workers
job_done ws = Option.map (λ n. record ws { wait_group = n }) (done ws.wait_group)

-- Whether WaitCertJobs returns true at once.
unfoldable pub cert_jobs_ended : Workers → Bool
cert_jobs_ended ws = ws.wait_group == 0

-- How far a job has come: `admitted` with a slot, `registered` by beginCertJob, `counted` by
-- certJobWG, `working` after beginDomainWorker, and then after each of the deferred calls of its
-- goroutine but the last.
pub data Phase : Type 0 where
  admitted registered counted working slot_released entry_released job_counted_down : Phase

-- The token is that of beginCertJob, from `registered` on.
pub record Job : Type 0 where
  pub domain_id : ℕ
  pub token : ℕ
  pub phase : Phase

-- What the jobs share, and the jobs whose goroutines have not returned.
pub record Pool : Type 0 where
  pub workers : Workers
  pub slots : Slots
  pub registry : Registry
  pub jobs : List Job

abbrev pub no_jobs : Pool
no_jobs = record {
  workers = record { trackers = []; wait_group = 0 };
  slots = record { capacity = none; taken = 0 };
  registry = record { jobs = []; contexts = []; token_seq = 0 };
  jobs = [];
}

abbrev pub at : ℕ → ℕ → Phase → Job
at d t phase = record { domain_id = d; token = t; phase = phase }

abbrev pub pool : Workers → Slots → Registry → List Job → Pool
pool ws s r js = record { workers = ws; slots = s; registry = r; jobs = js }

-- A step of the caller of StartCertJob, of StartCertJob, or of one of its goroutines; or of another
-- call that cancels jobs or asks for a slot in vain. The wait in beginCertJob only delays a step, and
-- any order of the steps is possible here.
pub data Step (limit : ℤ) : Pool → Pool → Type 0 where
  refuses :
      (ws : Workers) (s : Slots) (r : Registry) (js : List Job)
      → (try_acquire_cert_job_slot limit s).0 ≡ false
      → Step limit (pool ws s r js) (pool ws (try_acquire_cert_job_slot limit s).1 r js)
  admits :
      (d : ℕ) (ws : Workers) (s : Slots) (r : Registry) (js : List Job)
      → (try_acquire_cert_job_slot limit s).0 ≡ true
      → Step limit
          (pool ws s r js)
          (pool ws (try_acquire_cert_job_slot limit s).1 r (at d 0 admitted ∷ js))
  cancels :
      (d : ℕ) (ws : Workers) (s : Slots) (r : Registry) (js : List Job)
      → Step limit (pool ws s r js) (pool ws s (cancel_cert_job d r) js)
  cancels_all :
      (ws : Workers) (s : Slots) (r : Registry) (js : List Job)
      → Step limit (pool ws s r js) (pool ws s (cancel_all_cert_jobs r) js)
  registers :
      (d t : ℕ) (now : Time) (timeout : ℤ) (ws : Workers) (s : Slots) (r : Registry)
      (before after : List Job)
      → Step limit (pool ws s r (before ++ at d t admitted ∷ after)) (
          pool ws s
            (register_job now timeout d r)
            (before ++ at d (next_token r) registered ∷ after))
  starts :
      (d t : ℕ) (ws : Workers) (s : Slots) (r : Registry) (before after : List Job)
      → Step limit
          (pool ws s r (before ++ at d t registered ∷ after))
          (pool (add_job ws) s r (before ++ at d t counted ∷ after))
  begins :
      (d t : ℕ) (ws : Workers) (s : Slots) (r : Registry) (before after : List Job)
      → Step limit
          (pool ws s r (before ++ at d t counted ∷ after))
          (pool (begin_domain_worker d ws) s r (before ++ at d t working ∷ after))
  releases_slot :
      (d t : ℕ) (ws : Workers) (s : Slots) (r : Registry) (before after : List Job)
      → Step limit
          (pool ws s r (before ++ at d t working ∷ after))
          (pool ws (release_cert_job_slot limit s) r (before ++ at d t slot_released ∷ after))
  releases_entry :
      (d t : ℕ) (ws : Workers) (s : Slots) (r : Registry) (before after : List Job)
      → Step limit
          (pool ws s r (before ++ at d t slot_released ∷ after))
          (pool ws s (end_job d t r) (before ++ at d t entry_released ∷ after))
  counts_down :
      (d t : ℕ) (ws vs : Workers) (s : Slots) (r : Registry) (before after : List Job)
      → job_done ws ≡ some vs
      → Step limit
          (pool ws s r (before ++ at d t entry_released ∷ after))
          (pool vs s r (before ++ at d t job_counted_down ∷ after))
  returns :
      (d t : ℕ) (ws vs : Workers) (s : Slots) (r : Registry) (before after : List Job)
      → worker_done d ws ≡ some vs
      → Step limit
          (pool ws s r (before ++ at d t job_counted_down ∷ after))
          (pool vs s r (before ++ after))

pub data Reach (limit : ℤ) (s : Pool) : Pool → Type 0 where
  here : Reach limit s s
  next : {t u : Pool} → Reach limit s t → Step limit t u → Reach limit s u
