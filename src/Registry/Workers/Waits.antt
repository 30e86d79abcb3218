-- ===== src/Registry/Workers/Waits.antt =====
-- What a wait for the goroutines of jobs tells: waitDomainWorker of
-- controllers/cert_job_registry.go and WaitCertJobs of controllers/certificate.go.
use certhub_server.Common.{
  map-some, ℕ, suc, true, false, some, List, ◌∷◌, ◌++◌, ◌≡◌, ◌==◌, ◌↔◌, refl, ◌∙◌, any, count, find,
  arith,
}
use certhub_server.Common.Int.{ℤ}
use certhub_server.Registry.{
  Registry, Slots, Entry, entry_of, next_token, cancel_cert_job, cancel_all_cert_jobs,
}
use certhub_server.Registry.Workers.Counters.{
  workers_of, added, done-some, removed, removable, ended_iff,
}
use certhub_server.Registry.Workers.Holding.{
  is_counted, works_for, holds_slot, holds_entry, waits_to_start, waits_with_entry, count-middle,
  any-middle, count-any, holds_slot-waits, holds_entry-waits,
}
use certhub_server.Registry.Workers.{
  Workers, begin_domain_worker, done, remove_worker, worker_done, domain_worker_ended, add_job,
  job_done, cert_jobs_ended, admitted, registered, counted, working, slot_released, entry_released,
  job_counted_down, Job, Pool, pool, no_jobs, at, Step, refuses, admits, cancels, cancels_all,
  registers, starts, begins, releases_slot, releases_entry, counts_down, returns, Reach, here, next,
}
use certhub_server.Registry.Workers.Counted.{
  IsCounted, moved, held, acquired-taken, released-taken, entry_of-cancel, registers_lem,
  releases_lem,
}

module _ (limit : ℤ) where
  Step-IsCounted : {s t : Pool} → Step limit s t → IsCounted s → IsCounted t
  unfolding add_job begin_domain_worker count job_done worker_done cancel_cert_job
      cancel_all_cert_jobs entry_of
  Step-IsCounted (refuses ws s r js denied) h = record {
    jobs_counted = h.jobs_counted;
    workers_counted = h.workers_counted;
    slots_counted = ground (arith, h.slots_counted, acquired-taken limit s);
    entries_held = h.entries_held;
  }
  Step-IsCounted (admits d ws s r js granted) h = record {
    jobs_counted = ground (arith, h.jobs_counted);
    workers_counted = λ i. ground (arith, h.workers_counted i);
    slots_counted = ground (arith, h.slots_counted, acquired-taken limit s);
    entries_held = h.entries_held;
  }
  Step-IsCounted (cancels d ws s r js) h = record {
    jobs_counted = h.jobs_counted;
    workers_counted = h.workers_counted;
    slots_counted = h.slots_counted;
    entries_held =
        λ k e there. h.entries_held k e (ground (arith, there, entry_of-cancel k (entry_of d r) r));
  }
  Step-IsCounted (cancels_all ws s r js) h = record {
    jobs_counted = h.jobs_counted;
    workers_counted = h.workers_counted;
    slots_counted = h.slots_counted;
    entries_held = h.entries_held;
  }
  Step-IsCounted (registers d t now timeout ws s r before after) h =
      let u = next_token r in
      record {
        jobs_counted =
            h.jobs_counted ∙ moved admitted registered d t u before after is_counted refl;
        workers_counted = λ i.
            h.workers_counted i ∙ moved admitted registered d t u before after (works_for i) refl;
        slots_counted =
            h.slots_counted ∙ moved admitted registered d t u before after holds_slot refl;
        entries_held = λ k e. registers_lem d t k now timeout r before after e (h.entries_held k);
      }
  Step-IsCounted (starts d t ws s r before after) h = record {
    jobs_counted = ground (
      arith,
      h.jobs_counted,
      count-middle is_counted before after (at d t registered),
      count-middle is_counted before after (at d t counted),
    );
    workers_counted =
        λ i. h.workers_counted i ∙ moved registered counted d t t before after (works_for i) refl;
    slots_counted = h.slots_counted ∙ moved registered counted d t t before after holds_slot refl;
    entries_held = λ k e there.
        held registered counted d t t k e.token before after (λ o. o) (h.entries_held k e there);
  }
  Step-IsCounted (begins d t ws s r before after) h = record {
    jobs_counted = h.jobs_counted ∙ moved counted working d t t before after is_counted refl;
    workers_counted = λ i. ground (
      arith,
      added i d ws.trackers,
      h.workers_counted i,
      count-middle (works_for i) before after (at d t counted),
      count-middle (works_for i) before after (at d t working),
    );
    slots_counted = h.slots_counted ∙ moved counted working d t t before after holds_slot refl;
    entries_held = λ k e there.
        held counted working d t t k e.token before after (λ o. o) (h.entries_held k e there);
  }
  Step-IsCounted (releases_slot d t ws s r before after) h = record {
    jobs_counted = h.jobs_counted ∙ moved working slot_released d t t before after is_counted refl;
    workers_counted = λ i.
        h.workers_counted i ∙ moved working slot_released d t t before after (works_for i) refl;
    slots_counted = ground (
      arith,
      h.slots_counted,
      count-middle holds_slot before after (at d t working),
      count-middle holds_slot before after (at d t slot_released),
      released-taken limit (count holds_slot (before ++ after)) s,
    );
    entries_held = λ k e there.
        held working slot_released d t t k e.token before after (λ o. o) (h.entries_held k e there);
  }
  Step-IsCounted (releases_entry d t ws s r before after) h = record {
    jobs_counted =
        h.jobs_counted ∙ moved slot_released entry_released d t t before after is_counted refl;
    workers_counted = λ i.
        h.workers_counted i
        ∙ moved slot_released entry_released d t t before after (works_for i) refl;
    slots_counted =
        h.slots_counted ∙ moved slot_released entry_released d t t before after holds_slot refl;
    entries_held = λ k e. releases_lem d t k r before after e (h.entries_held k);
  }
  Step-IsCounted (counts_down d t ws vs s r before after fewer) h =
      let (n, one, left) = map-some _ (done ws.wait_group) vs fewer in
      let size : ws.wait_group ≡ suc n = done-some ws.wait_group n one in
      rw (← left) (record {
        jobs_counted = ground (
          arith,
          h.jobs_counted,
          count-middle is_counted before after (at d t entry_released),
          count-middle is_counted before after (at d t job_counted_down),
        );
        workers_counted = λ i.
            h.workers_counted i
            ∙ moved entry_released job_counted_down d t t before after (works_for i) refl;
        slots_counted =
            h.slots_counted
            ∙ moved entry_released job_counted_down d t t before after holds_slot refl;
        entries_held = λ k e there.
            held entry_released job_counted_down d t t k e.token before after (λ o. o)
              (h.entries_held k e there);
      })
  Step-IsCounted (returns d t ws vs s r before after fewer) h =
      let (ts, one, left) = map-some _ (remove_worker d ws.trackers) vs fewer in
      rw (← left) (record {
        jobs_counted =
            ground (
              arith,
              h.jobs_counted,
              count-middle is_counted before after (at d t job_counted_down),
            );
        workers_counted = λ i. ground (
          arith,
          h.workers_counted i,
          removed i d ws.trackers ts one,
          count-middle (works_for i) before after (at d t job_counted_down),
        );
        slots_counted = ground (
          arith,
          h.slots_counted,
          count-middle holds_slot before after (at d t job_counted_down),
        );
        entries_held = λ k e there. ground (
          arith,
          h.entries_held k e there,
          any-middle (holds_entry k e.token) before after (at d t job_counted_down),
        );
      })

  Reach-IsCounted : {s : Pool} → Reach limit no_jobs s → IsCounted s
  unfolding count workers_of entry_of find
  Reach-IsCounted here = record {
    jobs_counted = refl;
    workers_counted = λ d. refl;
    slots_counted = refl;
    entries_held = λ k e there. absurd (ground arith);
  }
  Reach-IsCounted (next before step) = Step-IsCounted step (Reach-IsCounted before)

  -- However the jobs interleave, with each other and with calls that cancel them: WaitCertJobs
  -- returns true at once just when StartCertJob has counted no job that has not called Done; and
  -- then the slots that are taken are as many as the jobs that have got one and are not counted
  -- yet, and every entry is that of a job that is registered and not counted yet. waitDomainWorker
  -- returns true at once just when no goroutine that has begun for the domain is still to return.
  pub Reach-waits :
      (s : Pool)
      → Reach limit no_jobs s
      → ((cert_jobs_ended s.workers ≡ true) ↔ (any is_counted s.jobs ≡ false))
        × (cert_jobs_ended s.workers ≡ true
            → (s.slots.taken ≡ count waits_to_start s.jobs)
              × ((k : ℕ) (e : Entry)
                  → entry_of k s.registry ≡ some e
                  → any (waits_with_entry k e.token) s.jobs ≡ true))
        × ((d : ℕ)
            → (domain_worker_ended d s.workers.trackers ≡ true)
              ↔ (any (works_for d) s.jobs ≡ false))
  unfolding cert_jobs_ended
  Reach-waits s reach =
      let h = Reach-IsCounted reach in
      let waited : (s.workers.wait_group == 0) ≡ true ↔ (any is_counted s.jobs ≡ false) =
        ground (arith, h.jobs_counted, count-any is_counted s.jobs) in
      (
        waited,
        λ over. (
          h.slots_counted ∙ holds_slot-waits s.jobs (waited.0 over),
          λ k e there.
              rw (← holds_entry-waits k e.token s.jobs (waited.0 over)) (h.entries_held k e there),
        ),
        λ d. ground (
          arith,
          ended_iff d s.workers.trackers,
          h.workers_counted d,
          count-any (works_for d) s.jobs,
        ),
      )

  -- No goroutine's Done panics: there is always a next step for it.
  pub Reach-no_panic :
      (d t : ℕ) (ws : Workers) (s : Slots) (r : Registry) (before after : List Job)
      → (Reach limit no_jobs (pool ws s r (before ++ at d t entry_released ∷ after))
          → (vs : Workers) × (job_done ws ≡ some vs))
        × (Reach limit no_jobs (pool ws s r (before ++ at d t job_counted_down ∷ after))
            → (vs : Workers) × (worker_done d ws ≡ some vs))
  unfolding job_done worker_done done
  Reach-no_panic d t ws s r before after = (
    λ reach.
        let h = Reach-IsCounted reach in
        let n = count is_counted (before ++ after) in
        let size : ws.wait_group ≡ suc n =
          ground
            (arith, h.jobs_counted, count-middle is_counted before after (at d t entry_released)) in
        (record ws { wait_group = n }, rw (size, done) refl),
    λ reach.
        let h = Reach-IsCounted reach in
        let m = count (works_for d) (before ++ after) in
        let (ts, one) = removable d m ws.trackers (
          ground (
            arith,
            h.workers_counted d,
            count-middle (works_for d) before after (at d t job_counted_down),
          )) in
        (record ws { trackers = ts }, rw one refl),
  )
