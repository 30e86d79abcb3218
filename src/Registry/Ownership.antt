-- ===== src/Registry/Ownership.antt =====
-- Who owns a registered job: laws of the sections of controllers/cert_job_registry.go.
use Prim.Native.Nat.{ℕ, ◌+◌, ◌^◌, ◌≤◌, ◌<◌}
use certhub_server.Common.{
  true, ◌&&◌, not, none, some, List, ◌≡◌, inl, inr, ◌==◌, find, keep, if◌then◌else◌, arith, All,
  Bool-cases, Option-cases,
}
use certhub_server.Common.{find-keep_all, find-keep-none, All-find}
use certhub_server.Common.Int.{ℤ, ◌+ℤ◌, leb_ℤ}
use certhub_server.Models.{Time}
use certhub_server.Registry.{
  Registry, Entry, Context, entry_of, next_token, register_job, owns, end_job, is_done,
  is_cert_job_active,
}

find-erase :
    (k d : ℕ) (jobs : List Entry)
    → find (λ e. e.domain_id == k) (keep (λ e. not (e.domain_id == d)) jobs)
      ≡ (if k == d then none else find (λ e. e.domain_id == k) jobs)
find-erase k d jobs = elim (Bool-cases (k == d)) [
  | inl same ↦ rw same (find-keep-none (λ e. e.domain_id == k) _ jobs (λ e h. ground arith))
  | inr differ ↦ rw differ (find-keep_all (λ e. e.domain_id == k) _ jobs (λ e h. ground arith))
]

-- A release removes the entry of its own job and no other: the entry of a job that has taken its
-- place stays, and so do those of other domains.
pub entry_of-end_job :
    (k domain_id token : ℕ) (r : Registry)
    → entry_of k (end_job domain_id token r)
      ≡ (if k == domain_id && owns token (entry_of domain_id r) then none else entry_of k r)
unfolding entry_of end_job
entry_of-end_job k d t r = ground (arith, find-erase k d r.jobs)

-- Registration puts the new job in the place of any other of its domain.
pub entry_of-register_job :
    (k domain_id : ℕ) (now : Time) (timeout : ℤ) (r : Registry)
    → entry_of k (register_job now timeout domain_id r) ≡ (
        if k == domain_id
        then some (record { domain_id = domain_id; token = next_token r })
        else entry_of k r)
unfolding entry_of register_job find
entry_of-register_job k d now timeout r = ground (arith, find-erase k d r.jobs)

-- Tokens count up: those of entries and contexts are at most the last one that was given out.
pub record IsSound (r : Registry) : Type 0 where
  pub issued : All (λ (e : Entry). e.token ≤ r.token_seq) r.jobs
  pub made : All (λ (c : Context). c.token ≤ r.token_seq) r.contexts
  pub distinct :
      (e f : Entry) (i j : ℕ)
      → entry_of i r ≡ some e
      → entry_of j r ≡ some f
      → e.token ≡ f.token
      → i ≡ j

pub entry_of-token :
    (k : ℕ) (e : Entry) (r : Registry) → IsSound r → entry_of k r ≡ some e → e.token ≤ r.token_seq
unfolding entry_of
entry_of-token k e r s h =
    All-find (λ (e : Entry). e.token ≤ r.token_seq) (λ e. e.domain_id == k) r.jobs e s.issued h

pub next_token-eq : (r : Registry) → r.token_seq + 1 < 2 ^ 64 → next_token r ≡ r.token_seq + 1
unfolding next_token
next_token-eq r h = omega arith

is_done-register_job :
    (later now : Time) (timeout : ℤ) (d t : ℕ) (r : Registry)
    → is_done later t (register_job now timeout d r)
      ≡ (if t == next_token r then leb_ℤ (now +ℤ timeout) later else is_done later t r)
unfolding is_done register_job find
is_done-register_job later now timeout d t r = elim (Bool-cases (t == next_token r)) [
  | inl same ↦ ground arith
  | inr differ ↦ ground arith
]

owns-le : (k t : ℕ) (r : Registry) → IsSound r → owns t (entry_of k r) ≡ true → t ≤ r.token_seq
unfolding owns
owns-le k t r s h = elim (Option-cases (entry_of k r)) [
  | inl missing ↦ absurd (ground arith)
  | inr (e, there) ↦ ground (arith, entry_of-token k e r s there)
]

-- Of all jobs of the domain, with whatever token, only the new one is active after registration,
-- as long as its timeout is positive; jobs of other domains are as active as before.
pub register_job-supersedes :
    (now later : Time) (timeout : ℤ) (k domain_id token : ℕ) (r : Registry)
    → IsSound r
    → r.token_seq + 1 < 2 ^ 64
    → is_cert_job_active later k token (register_job now timeout domain_id r) ≡ (
        if k == domain_id
        then token == next_token r && not (leb_ℤ (now +ℤ timeout) later)
        else is_cert_job_active later k token r)
unfolding is_cert_job_active
register_job-supersedes now later timeout k d t r s h =
    rw (entry_of-register_job, is_done-register_job)
      (elim (Bool-cases (k == d)) [
        | inl same ↦ rw same (ground arith)
        | inr differ ↦ rw differ (ground (arith, owns-le k t r s, next_token-eq r h))
      ])
