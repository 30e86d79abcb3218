-- ===== src/Registry/Cancel.antt =====
-- Cancelling jobs: cancelCertJob and CancelAllCertJobs of controllers/cert_job_registry.go.
use Prim.Native.Nat.{ℕ}
use certhub_server.Common.{
  Bool, true, false, not, some, List, [], ◌∷◌, ◌≡◌, refl, ap, ◌∙◌, ◌≢◌, inl, inr, ◌==◌, any, find,
  update, if◌then◌else◌, arith, Bool-cases, Option-cases, ==_iff,
}
use certhub_server.Common.{find-update, find_passes}
use mathlib.Core.Option
use certhub_server.Models.{Time}
use certhub_server.Registry.{
  Registry, Entry, Context, entry_of, cancel_token, cancel_entry, cancel_cert_job, owns, is_done,
  is_cert_job_active, cert_job_inflight, cancel_all_cert_jobs,
}
use certhub_server.Registry.Ownership.{IsSound}

is_done-update :
    (now : Time) (t : ℕ) (p : Context → Bool) (r : Registry)
    → ((c : Context) → c.token ≡ t → p c ≡ true)
    → is_done now t
        (record r { contexts = update p (λ c. record c { cancelled = true }) r.contexts })
      ≡ true
unfolding is_done
is_done-update now t p r hits = elim (Option-cases (find (λ c. c.token == t) r.contexts)) [
  | inl missing ↦ rw (found, missing)
  | inr (c, there) ↦
      rw (found, there) (rw (hits c ((==_iff _ _).0 (find_passes _ r.contexts c there))))
]
  where
    found :
        find (λ c. c.token == t) (update p (λ c. record c { cancelled = true }) r.contexts)
        ≡ Option.map
            (λ c. if p c then record c { cancelled = true } else c)
            (find (λ c. c.token == t) r.contexts)
    found =
        find-update (λ c. c.token == t) p (λ c. record c { cancelled = true }) r.contexts
          (λ c. refl)

any-token :
    (d : ℕ) (e : Entry) (jobs : List Entry)
    → find (λ e. e.domain_id == d) jobs ≡ some e
    → any (λ x. x.token == e.token) jobs ≡ true
unfolding find
any-token d e [] h = absurd (ground arith)
any-token d e (x ∷ xs) h = ground (arith, any-token d e xs)

is_done-cancel_all :
    (now : Time) (d t : ℕ) (r : Registry)
    → owns t (entry_of d r) ≡ true
    → is_done now t (cancel_all_cert_jobs r) ≡ true
unfolding cancel_all_cert_jobs owns
is_done-cancel_all now d t r own = elim (Option-cases (entry_of d r)) [
  | inl missing ↦ absurd (ground arith)
  | inr (e, there) ↦
      is_done-update now t (λ c. any (λ e. e.token == c.token) r.jobs) r
        λ c h.
          rw (h, ← ((==_iff e.token t).0 (ground arith)))
            (any-token d e r.jobs (unfold entry_of in there))
]

is_done-cancel_token :
    (now : Time) (t u : ℕ) (r : Registry)
    → t ≢ u
    → is_done now t (cancel_token u r) ≡ is_done now t r
unfolding is_done cancel_token
is_done-cancel_token now t u r h = elim (Option-cases (find (λ c. c.token == t) r.contexts)) [
  | inl missing ↦ rw (found, missing)
  | inr (c, there) ↦
      rw (found, there)
        (let e : c.token ≡ t = (==_iff _ _).0 (find_passes _ r.contexts c there) in ground arith)
]
  where
    found :
        find
          (λ c. c.token == t)
          (update (λ c. c.token == u) (λ c. record c { cancelled = true }) r.contexts)
        ≡ Option.map
            (λ c. if c.token == u then record c { cancelled = true } else c)
            (find (λ c. c.token == t) r.contexts)
    found =
        find-update (λ c. c.token == t) (λ c. c.token == u) (λ c. record c { cancelled = true })
          r.contexts (λ c. refl)

is_done-cancel_self : (now : Time) (u : ℕ) (r : Registry) → is_done now u (cancel_token u r) ≡ true
unfolding cancel_token
is_done-cancel_self now u r =
    is_done-update now u (λ c. c.token == u) r (λ c h. (==_iff c.token u).1 h)

owned_token :
    (k t : ℕ) (r : Registry)
    → owns t (entry_of k r) ≡ true
    → (e : Entry) × (entry_of k r ≡ some e) × (e.token ≡ t)
unfolding owns
owned_token k t r own = elim (Option-cases (entry_of k r)) [
  | inl missing ↦ absurd (ground arith)
  | inr (e, there) ↦ (e, there, ground arith)
]

done_on_cancel :
    (now : Time) (k d t : ℕ) (e : Entry) (r : Registry)
    → IsSound r
    → entry_of d r ≡ some e
    → owns t (entry_of k r) ≡ true
    → not (is_done now t (cancel_token e.token r))
      ≡ (if k == d then false else not (is_done now t r))
done_on_cancel now k d t e r s there own = elim (Bool-cases (k == d)) [
  | inl same ↦ rw same (
      let (f, here, token) = owned_token k t r own in
      let at_d : entry_of d r ≡ some f = rw (← ((==_iff k d).0 same)) here in
      let u : e.token ≡ t = ground arith in rw (← u, is_done-cancel_self))
  | inr differ ↦ rw differ (
      let (f, here, token) = owned_token k t r own in
      ap not (
        is_done-cancel_token now t e.token r (λ u.
          let kd : k ≡ d = s.distinct f e k d here there (token ∙ u) in absurd (ground arith))))
]

entry_of-cancel_token : (k u : ℕ) (r : Registry) → entry_of k (cancel_token u r) ≡ entry_of k r
unfolding entry_of cancel_token
entry_of-cancel_token k u r = refl

cert_job_inflight-cancel_token :
    (k u : ℕ) (r : Registry) → cert_job_inflight k (cancel_token u r) ≡ cert_job_inflight k r
unfolding cert_job_inflight cancel_token
cert_job_inflight-cancel_token k u r = refl

cancel_token-stops :
    (now : Time) (k d t : ℕ) (e : Entry) (r : Registry)
    → IsSound r
    → entry_of d r ≡ some e
    → (is_cert_job_active now k t (cancel_token e.token r)
        ≡ (if k == d then false else is_cert_job_active now k t r))
      × (cert_job_inflight k (cancel_token e.token r) ≡ cert_job_inflight k r)
unfolding is_cert_job_active
cancel_token-stops now k d t e r s there = elim (Bool-cases (owns t (entry_of k r))) [
  | inl own ↦ (
    rw (entry_of-cancel_token, done_on_cancel now k d t e r s there own, own) (ground arith),
    cert_job_inflight-cancel_token k e.token r,
  )
  | inr other ↦
      (rw (entry_of-cancel_token, other) (ground arith), cert_job_inflight-cancel_token k e.token r)
]

-- After CancelAllCertJobs no job is active, and all are still registered.
pub cancel_all_cert_jobs-stops :
    (now : Time) (domain_id token : ℕ) (r : Registry)
    → (is_cert_job_active now domain_id token (cancel_all_cert_jobs r) ≡ false)
      × (cert_job_inflight domain_id (cancel_all_cert_jobs r) ≡ cert_job_inflight domain_id r)
unfolding is_cert_job_active cancel_all_cert_jobs cert_job_inflight
cancel_all_cert_jobs-stops now d t r = elim (Bool-cases (owns t (entry_of d r))) [
  | inl own ↦ (rw (own, is_done-cancel_all now d t r own), refl)
  | inr other ↦ (rw other, refl)
]

-- cancelCertJob leaves the domain no active job, keeps its entry until the worker releases it, and
-- does not touch the jobs of other domains.
pub cancel_cert_job-stops :
    (now : Time) (k domain_id token : ℕ) (r : Registry)
    → IsSound r
    → (is_cert_job_active now k token (cancel_cert_job domain_id r)
        ≡ (if k == domain_id then false else is_cert_job_active now k token r))
      × (cert_job_inflight k (cancel_cert_job domain_id r) ≡ cert_job_inflight k r)
unfolding is_cert_job_active cancel_cert_job cert_job_inflight
cancel_cert_job-stops now k d t r s = elim (Option-cases (entry_of d r)) [
  | inl missing ↦ rw (missing, cancel_entry) (ground (arith, missing))
  | inr (e, there) ↦ rw (there, cancel_entry) (cancel_token-stops now k d t e r s there)
]
