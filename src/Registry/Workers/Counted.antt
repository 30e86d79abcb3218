-- ===== src/Registry/Workers/Counted.antt =====
-- The counters of controllers/certificate.go and controllers/cert_job_registry.go, and the jobs that
-- they stand for.
use Prim.Native.Nat.{◌+◌}
use certhub_server.Common.{
  ℕ, Bool, true, Option, none, some, List, ◌∷◌, ◌++◌, ◌≡◌, refl, any, count, if◌then◌else◌, arith,
}
use certhub_server.Common.Int.{ℤ}
use certhub_server.Registry.{
  Registry, Slots, Entry, entry_of, register_job, next_token, end_job, owns, cancel_token,
  cancel_entry, cert_job_slots_ch, try_acquire_cert_job_slot, release_cert_job_slot,
}
use certhub_server.Registry.Ownership.{entry_of-end_job, entry_of-register_job}
use certhub_server.Registry.Workers.Counters.{workers_of}
use certhub_server.Registry.Workers.Holding.{
  is_counted, works_for, holds_slot, holds_entry, count-middle, any-middle,
}
use certhub_server.Registry.Workers.{
  Phase, admitted, registered, slot_released, entry_released, Job, Pool, at,
}

-- Every counter is the number of the jobs that it stands for, and every entry is that of a job.
pub record IsCounted (s : Pool) : Type 0 where
  pub jobs_counted : s.workers.wait_group ≡ count is_counted s.jobs
  pub workers_counted : (d : ℕ) → workers_of d s.workers.trackers ≡ count (works_for d) s.jobs
  pub slots_counted : s.slots.taken ≡ count holds_slot s.jobs
  pub entries_held :
      (k : ℕ) (e : Entry)
      → entry_of k s.registry ≡ some e
      → any (holds_entry k e.token) s.jobs ≡ true

-- A phase that a job enters while the counters and the registry stay.
pub moved :
    (p q : Phase) (d t u : ℕ) (before after : List Job) (f : Job → Bool)
    → f (at d t p) ≡ f (at d u q)
    → count f (before ++ at d t p ∷ after) ≡ count f (before ++ at d u q ∷ after)
moved p q d t u before after f same =
    rw (count-middle f before after (at d t p), count-middle f before after (at d u q))
      (rw same refl)

pub held :
    (p q : Phase) (d t u k v : ℕ) (before after : List Job)
    → (holds_entry k v (at d t p) ≡ true → holds_entry k v (at d u q) ≡ true)
    → any (holds_entry k v) (before ++ at d t p ∷ after) ≡ true
    → any (holds_entry k v) (before ++ at d u q ∷ after) ≡ true
held p q d t u k v before after keeps h = ground (
  arith,
  any-middle (holds_entry k v) before after (at d t p),
  any-middle (holds_entry k v) before after (at d u q),
  keeps,
)

pub acquired-taken :
    (limit : ℤ) (s : Slots)
    → (try_acquire_cert_job_slot limit s).1.taken
      ≡ (if (try_acquire_cert_job_slot limit s).0 then 1 else 0) + s.taken
unfolding try_acquire_cert_job_slot cert_job_slots_ch
acquired-taken limit s = ground arith

pub released-taken :
    (limit : ℤ) (n : ℕ) (s : Slots) → s.taken ≡ 1 + n → (release_cert_job_slot limit s).taken ≡ n
unfolding release_cert_job_slot cert_job_slots_ch
released-taken limit n s h = omega arith

pub entry_of-cancel :
    (k : ℕ) (o : Option Entry) (r : Registry) → entry_of k (cancel_entry o r) ≡ entry_of k r
unfolding entry_of cancel_entry cancel_token
entry_of-cancel k none r = refl
entry_of-cancel k (some e) r = refl

pub registers_lem :
    (d t k : ℕ) (now : ℤ) (timeout : ℤ) (r : Registry) (before after : List Job) (e : Entry)
    → ((e : Entry)
        → entry_of k r ≡ some e
        → any (holds_entry k e.token) (before ++ at d t admitted ∷ after) ≡ true)
    → entry_of k (register_job now timeout d r) ≡ some e
    → any (holds_entry k e.token) (before ++ at d (next_token r) registered ∷ after) ≡ true
registers_lem d t k now timeout r before after e old h = ground (
  arith,
  entry_of-register_job k d now timeout r,
  any-middle (holds_entry k e.token) before after (at d t admitted),
  any-middle (holds_entry k e.token) before after (at d (next_token r) registered),
  old e,
)

pub releases_lem :
    (d t k : ℕ) (r : Registry) (before after : List Job) (e : Entry)
    → ((e : Entry)
        → entry_of k r ≡ some e
        → any (holds_entry k e.token) (before ++ at d t slot_released ∷ after) ≡ true)
    → entry_of k (end_job d t r) ≡ some e
    → any (holds_entry k e.token) (before ++ at d t entry_released ∷ after) ≡ true
unfolding owns
releases_lem d t k r before after e old h = ground (
  arith,
  entry_of-end_job k d t r,
  any-middle (holds_entry k e.token) before after (at d t slot_released),
  any-middle (holds_entry k e.token) before after (at d t entry_released),
  old e,
)
