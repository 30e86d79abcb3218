-- ===== src/Registry.antt =====
-- The table of running certificate jobs (controllers/cert_job_registry.go) and the global semaphore
-- (controllers/cert_job_semaphore.go). Each function is one section under the mutex or one channel
-- operation; what lies between them is interleaving. A context is an object of its own, named by the token of its job,
-- since the job keeps it when its entry is replaced.
pub mod Ownership
pub mod Cancel
pub mod Reachable
pub mod Semaphore
pub mod Workers
use Prim.Native.Nat.{ℕ, suc, ◌+◌, ◌-◌, ◌%◌, ◌^◌}
use certhub_server.Common.{
  Bool, true, false, ◌&&◌, ◌||◌, not, Option, none, some, List, [], ◌∷◌, ◌==◌, ltb, any, find, keep,
  update, if◌then◌else◌, zero,
}
use certhub_server.Common.Int.{ℤ, pos, negsuc, ◌+ℤ◌, leb_ℤ}
use certhub_server.Models.{Time}

pub record Entry : Type 0 where
  pub domain_id : ℕ
  pub token : ℕ

pub record Context : Type 0 where
  pub token : ℕ
  pub deadline : Time
  pub cancelled : Bool

pub record Registry : Type 0 where
  pub jobs : List Entry
  pub contexts : List Context
  pub token_seq : ℕ

unfoldable pub entry_of : ℕ → Registry → Option Entry
entry_of domain_id r = find (λ e. e.domain_id == domain_id) r.jobs

-- entry.cancel()
unfoldable pub cancel_token : ℕ → Registry → Registry
cancel_token token r = record r {
  contexts = update (λ c. c.token == token) (λ c. record c { cancelled = true }) r.contexts;
}

unfoldable pub cancel_entry : Option Entry → Registry → Registry
unfolding cancel_token
cancel_entry none r = r
cancel_entry (some e) r = cancel_token e.token r

-- cancelCertJob, and the first section of beginCertJob.
unfoldable pub cancel_cert_job : ℕ → Registry → Registry
unfolding cancel_entry entry_of
cancel_cert_job domain_id r = cancel_entry (entry_of domain_id r) r

-- atomic.AddUint64(&certJobTokenSeq, 1)
unfoldable pub next_token : Registry → ℕ
next_token r = (r.token_seq + 1) % 2 ^ 64

-- The second section of beginCertJob: the new entry takes the place of any other of its domain.
unfoldable pub register_job : Time → ℤ → ℕ → Registry → Registry
unfolding next_token
register_job now timeout domain_id r =
    let token = next_token r in
    record {
      jobs =
          record { domain_id = domain_id; token = token }
          ∷ keep (λ e. not (e.domain_id == domain_id)) r.jobs;
      contexts =
          record { token = token; deadline = now +ℤ timeout; cancelled = false } ∷ r.contexts;
      token_seq = token;
    }

unfoldable pub owns : ℕ → Option Entry → Bool
owns token none = false
owns token (some e) = e.token == token

unfoldable pub end_job : ℕ → ℕ → Registry → Registry
unfolding owns entry_of
end_job domain_id token r =
    if owns token (entry_of domain_id r)
    then record r { jobs = keep (λ e. not (e.domain_id == domain_id)) r.jobs }
    else r

unfoldable pub context_done : Time → Option Context → Bool
context_done now none = true
context_done now (some c) = c.cancelled || leb_ℤ c.deadline now

-- ctx.Err() != nil, for the context of the job with this token.
unfoldable pub is_done : Time → ℕ → Registry → Bool
unfolding context_done
is_done now token r = context_done now (find (λ c. c.token == token) r.contexts)

unfoldable pub is_cert_job_active : Time → ℕ → ℕ → Registry → Bool
unfolding owns entry_of
is_cert_job_active now domain_id token r =
    owns token (entry_of domain_id r) && not (is_done now token r)

unfoldable pub cert_job_inflight : ℕ → Registry → Bool
unfolding entry_of
cert_job_inflight domain_id r = any (λ e. e.domain_id == domain_id) r.jobs

unfoldable pub cancel_all_cert_jobs : Registry → Registry
cancel_all_cert_jobs r = record r {
  contexts =
      update (λ c. any (λ e. e.token == c.token) r.jobs) (λ c. record c { cancelled = true })
        r.contexts;
}

-- The channel of the semaphore; its size is fixed when it is first used.
pub record Slots : Type 0 where
  pub capacity : Option ℕ
  pub taken : ℕ

-- `make(chan struct{}, n)` for n = MaxConcurrentCertJobs(), which is positive.
abbrev pub size_of : ℤ → ℕ
size_of (pos n) = n
size_of (negsuc n) = 0

abbrev capacity_or : ℤ → Option ℕ → ℕ
capacity_or limit none = size_of limit
capacity_or limit (some n) = n

unfoldable pub cert_job_slots_ch : ℤ → Slots → Slots
cert_job_slots_ch limit s = record s { capacity = some (capacity_or limit s.capacity) }

unfoldable pub try_acquire_cert_job_slot : ℤ → Slots → Bool × Slots
unfolding cert_job_slots_ch
try_acquire_cert_job_slot limit s =
    let ch = cert_job_slots_ch limit s in
    if ltb s.taken (capacity_or limit s.capacity)
    then (true, record ch { taken = s.taken + 1 })
    else (false, ch)

unfoldable pub release_cert_job_slot : ℤ → Slots → Slots
unfolding cert_job_slots_ch
release_cert_job_slot limit s =
    let ch = cert_job_slots_ch limit s in record ch { taken = s.taken - 1 }
