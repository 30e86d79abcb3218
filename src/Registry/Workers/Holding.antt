-- ===== src/Registry/Workers/Holding.antt =====
-- What a job holds in each phase of its life in controllers/certificate.go.
use Prim.Native.Nat.{◌+◌}
use certhub_server.Common.{
  ℕ, Bool, true, false, ◌&&◌, ◌||◌, List, [], ◌∷◌, ◌++◌, ◌≡◌, ◌==◌, ◌↔◌, refl, any, count,
  if◌then◌else◌, arith,
}
use certhub_server.Registry.Workers.{
  Phase, admitted, registered, counted, working, slot_released, entry_released, job_counted_down,
  Job,
}

-- certJobWG counts the job: it is between Add(1) and Done.
abbrev pub counts_job : Phase → Bool
counts_job admitted = false
counts_job registered = false
counts_job counted = true
counts_job working = true
counts_job slot_released = true
counts_job entry_released = true
counts_job job_counted_down = false

abbrev pub is_counted : Job → Bool
is_counted j = counts_job j.phase

-- The goroutine of the job has begun, and has not returned.
abbrev pub runs : Phase → Bool
runs admitted = false
runs registered = false
runs counted = false
runs working = true
runs slot_released = true
runs entry_released = true
runs job_counted_down = true

abbrev pub works_for : ℕ → Job → Bool
works_for d j = runs j.phase && (j.domain_id == d)

abbrev pub keeps_slot : Phase → Bool
keeps_slot admitted = true
keeps_slot registered = true
keeps_slot counted = true
keeps_slot working = true
keeps_slot slot_released = false
keeps_slot entry_released = false
keeps_slot job_counted_down = false

abbrev pub holds_slot : Job → Bool
holds_slot j = keeps_slot j.phase

abbrev pub keeps_entry : Phase → Bool
keeps_entry admitted = false
keeps_entry registered = true
keeps_entry counted = true
keeps_entry working = true
keeps_entry slot_released = true
keeps_entry entry_released = false
keeps_entry job_counted_down = false

-- The job may own the entry of the domain with the token.
abbrev pub holds_entry : ℕ → ℕ → Job → Bool
holds_entry d t j = keeps_entry j.phase && (j.domain_id == d && j.token == t)

-- StartCertJob has not counted the job yet.
abbrev pub is_waiting : Phase → Bool
is_waiting admitted = true
is_waiting registered = true
is_waiting counted = false
is_waiting working = false
is_waiting slot_released = false
is_waiting entry_released = false
is_waiting job_counted_down = false

abbrev pub waits_to_start : Job → Bool
waits_to_start j = is_waiting j.phase

-- beginCertJob has registered the job, and StartCertJob has not counted it yet.
abbrev pub is_registered : Phase → Bool
is_registered admitted = false
is_registered registered = true
is_registered counted = false
is_registered working = false
is_registered slot_released = false
is_registered entry_released = false
is_registered job_counted_down = false

abbrev pub waits_with_entry : ℕ → ℕ → Job → Bool
waits_with_entry d t j = is_registered j.phase && (j.domain_id == d && j.token == t)

pub count-middle :
    (p : Job → Bool) (before after : List Job) (j : Job)
    → count p (before ++ j ∷ after) ≡ (if p j then 1 else 0) + count p (before ++ after)
unfolding count
count-middle p [] after j = refl
count-middle p (b ∷ bs) after j = ground (arith, count-middle p bs after j)

pub any-middle :
    (p : Job → Bool) (before after : List Job) (j : Job)
    → any p (before ++ j ∷ after) ≡ (p j || any p (before ++ after))
any-middle p [] after j = refl
any-middle p (b ∷ bs) after j = ground (arith, any-middle p bs after j)

pub count-any : (p : Job → Bool) (js : List Job) → (count p js ≡ 0) ↔ (any p js ≡ false)
unfolding count
count-any p [] = (λ h. refl, λ h. refl)
count-any p (j ∷ js) = ground (arith, count-any p js)

keeps_slot-waits : (p : Phase) → counts_job p ≡ false → keeps_slot p ≡ is_waiting p
keeps_slot-waits admitted h = refl
keeps_slot-waits registered h = refl
keeps_slot-waits counted h = absurd (ground arith)
keeps_slot-waits working h = absurd (ground arith)
keeps_slot-waits slot_released h = refl
keeps_slot-waits entry_released h = refl
keeps_slot-waits job_counted_down h = refl

keeps_entry-registered : (p : Phase) → counts_job p ≡ false → keeps_entry p ≡ is_registered p
keeps_entry-registered admitted h = refl
keeps_entry-registered registered h = refl
keeps_entry-registered counted h = absurd (ground arith)
keeps_entry-registered working h = absurd (ground arith)
keeps_entry-registered slot_released h = absurd (ground arith)
keeps_entry-registered entry_released h = refl
keeps_entry-registered job_counted_down h = refl

-- If certJobWG counts no job, those that hold something have not been started.
pub holds_slot-waits :
    (js : List Job) → any is_counted js ≡ false → count holds_slot js ≡ count waits_to_start js
unfolding count
holds_slot-waits [] h = refl
holds_slot-waits (j ∷ js) h =
    let here' : counts_job j.phase ≡ false = ground arith in
    let rest = holds_slot-waits js (ground arith) in
    rw (keeps_slot-waits j.phase here') (rw rest refl)

pub holds_entry-waits :
    (d t : ℕ) (js : List Job)
    → any is_counted js ≡ false
    → any (holds_entry d t) js ≡ any (waits_with_entry d t) js
holds_entry-waits d t [] h = refl
holds_entry-waits d t (j ∷ js) h =
    let here' : counts_job j.phase ≡ false = ground arith in
    let rest = holds_entry-waits d t js (ground arith) in
    rw (keeps_entry-registered j.phase here') (rw rest refl)
