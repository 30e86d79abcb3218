-- ===== src/Registry/Reachable.antt =====
-- The registry over time: every order of its sections, by any number of goroutines.
use Prim.Native.Nat.{ℕ, ◌+◌, ◌^◌, ◌≤◌, ◌<◌}
use certhub_server.Common.{
  true, any, Bool, refl, count, update, ◌==◌, Option, none, some, List, [], ◌∷◌, ◌≡◌, inl, inr,
  find, arith, All, All-keep, All-update, Bool-cases,
}
use certhub_server.Common.Int.{ℤ}
use certhub_server.Models.{Time}
use certhub_server.Registry.{
  Registry, Entry, Context, entry_of, cancel_token, cancel_entry, cancel_cert_job, next_token,
  register_job, owns, end_job, cancel_all_cert_jobs,
}
use certhub_server.Registry.Ownership.{
  IsSound, entry_of-end_job, entry_of-register_job, entry_of-token, next_token-eq,
}

abbrev pub empty_registry : Registry
empty_registry = record { jobs = []; contexts = []; token_seq = 0 }

-- One section under the mutex. A token is given out only while the counter does not wrap around.
pub data Step (r : Registry) : Registry → Type 0 where
  registers :
      (now : Time) (timeout : ℤ) (d : ℕ)
      → r.token_seq + 1 < 2 ^ 64
      → Step r (register_job now timeout d r)
  ends : (d token : ℕ) → Step r (end_job d token r)
  cancels : (d : ℕ) → Step r (cancel_cert_job d r)
  cancels_all : Step r (cancel_all_cert_jobs r)

pub data Reach (r : Registry) : Registry → Type 0 where
  here : Reach r r
  next : {s t : Registry} → Reach r s → Step s t → Reach r t

All-le-suc :
    {A : Type 0} (f : A → ℕ) (m n : ℕ) (xs : List A)
    → m ≤ n
    → All (λ x. f x ≤ m) xs
    → All (λ x. f x ≤ n) xs
All-le-suc f m n [] h a = tt
All-le-suc f m n (x ∷ xs) h (a, as') = (omega arith, All-le-suc f m n xs h as')

distinct-register :
    (now : Time) (timeout : ℤ) (d : ℕ) (r : Registry)
    → IsSound r
    → next_token r ≡ r.token_seq + 1
    → (e f : Entry) (i j : ℕ) → entry_of i (register_job now timeout d r) ≡ some e
    → entry_of j (register_job now timeout d r) ≡ some f
    → e.token ≡ f.token
    → i ≡ j
distinct-register now timeout d r s n e f i j hi hj h = ground (
  arith,
  entry_of-register_job i d now timeout r,
  entry_of-register_job j d now timeout r,
  entry_of-token i e r s,
  entry_of-token j f r s,
  s.distinct e f i j,
)

register_job-IsSound :
    (now : Time) (timeout : ℤ) (d : ℕ) (r : Registry)
    → r.token_seq + 1 < 2 ^ 64
    → IsSound r
    → IsSound (register_job now timeout d r)
unfolding register_job
register_job-IsSound now timeout d r h s =
    let n = next_token-eq r h in
    record {
      issued = (
        omega arith,
        All-le-suc (λ (e : Entry). e.token) r.token_seq (next_token r) _ (omega arith)
            (All-keep (λ (e : Entry). e.token ≤ r.token_seq) _ r.jobs s.issued),
      );
      made = (
        omega arith,
        All-le-suc (λ (c : Context). c.token) r.token_seq (next_token r) r.contexts (omega arith)
            s.made,
      );
      distinct = distinct-register now timeout d r s n;
    }

end_job-parts :
    (d token : ℕ) (r : Registry)
    → IsSound r
    → All (λ (e : Entry). e.token ≤ (end_job d token r).token_seq) (end_job d token r).jobs
      × All (λ (c : Context). c.token ≤ (end_job d token r).token_seq) (end_job d token r).contexts
unfolding end_job
end_job-parts d token r s = elim (Bool-cases (owns token (entry_of d r))) [
  | inl own ↦ rw own (All-keep (λ (e : Entry). e.token ≤ r.token_seq) _ r.jobs s.issued, s.made)
  | inr other ↦ rw other (s.issued, s.made)
]

end_job-IsSound : (d token : ℕ) (r : Registry) → IsSound r → IsSound (end_job d token r)
end_job-IsSound d token r s =
    let parts = end_job-parts d token r s in
    record {
      issued = parts.0;
      made = parts.1;
      distinct = λ e f i j hi hj h.
          ground
            (arith, entry_of-end_job i d token r, entry_of-end_job j d token r, s.distinct e f i j);
    }

cancel_token-IsSound : (u : ℕ) (r : Registry) → IsSound r → IsSound (cancel_token u r)
unfolding cancel_token entry_of
cancel_token-IsSound u r s = record {
  issued = s.issued;
  made = All-update (λ (c : Context). c.token ≤ r.token_seq) _ _ r.contexts (λ c h. h) s.made;
  distinct = s.distinct;
}

cancel_all-IsSound : (r : Registry) → IsSound r → IsSound (cancel_all_cert_jobs r)
unfolding cancel_all_cert_jobs entry_of
cancel_all-IsSound r s = record {
  issued = s.issued;
  made = All-update (λ (c : Context). c.token ≤ r.token_seq) _ _ r.contexts (λ c h. h) s.made;
  distinct = s.distinct;
}

cancel_entry-IsSound : (o : Option Entry) (r : Registry) → IsSound r → IsSound (cancel_entry o r)
unfolding cancel_entry
cancel_entry-IsSound none r s = s
cancel_entry-IsSound (some e) r s = cancel_token-IsSound e.token r s

Step-IsSound : {r s : Registry} → Step r s → IsSound r → IsSound s
unfolding cancel_cert_job
Step-IsSound {r} (registers now timeout d h) s = register_job-IsSound now timeout d r h s
Step-IsSound {r} (ends d token) s = end_job-IsSound d token r s
Step-IsSound {r} (cancels d) s = cancel_entry-IsSound (entry_of d r) r s
Step-IsSound {r} cancels_all s = cancel_all-IsSound r s

empty-IsSound : IsSound empty_registry
unfolding entry_of find
empty-IsSound = record {
  issued = tt;
  made = tt;
  distinct = λ e f i j hi hj h. absurd (ground arith);
}

Reach-IsSound' : {r s : Registry} → Reach r s → IsSound r → IsSound s
Reach-IsSound' here s = s
Reach-IsSound' (next r st) s = Step-IsSound st (Reach-IsSound' r s)

-- Each registration makes a context with its token, and none is forgotten.
abbrev pub IsGivenOnce : Registry → Type 0
IsGivenOnce r = (t : ℕ) → count (λ (c : Context). c.token == t) r.contexts ≤ 1

count-above :
    (t m : ℕ) (cs : List Context)
    → All (λ (c : Context). c.token ≤ m) cs
    → m < t
    → count (λ (c : Context). c.token == t) cs ≡ 0
unfolding count
count-above t m [] h above = refl
count-above t m (c ∷ cs) (h, hs) above = ground (arith, count-above t m cs hs above)

count-update_same :
    (t : ℕ) (p : Context → Bool) (f : Context → Context) (cs : List Context)
    → ((c : Context) → (f c).token ≡ c.token)
    → count (λ (c : Context). c.token == t) (update p f cs)
      ≡ count (λ (c : Context). c.token == t) cs
unfolding count update
count-update_same t p f [] same = refl
count-update_same t p f (c ∷ cs) same = ground (arith, count-update_same t p f cs same, same c)

Step-IsGivenOnce : {r s : Registry} → Step r s → IsSound r → IsGivenOnce r → IsGivenOnce s
unfolding register_job count end_job cancel_cert_job cancel_all_cert_jobs cancel_entry cancel_token
Step-IsGivenOnce {r} (registers now timeout d h) s once t =
    ground (arith, once t, next_token-eq r h, count-above t r.token_seq r.contexts s.made)
Step-IsGivenOnce {r} (ends d token) s once t = elim (Bool-cases (owns token (entry_of d r))) [
  | inl own ↦ rw own (once t)
  | inr other ↦ rw other (once t)
]
Step-IsGivenOnce {r} (cancels d) s once t = go (entry_of d r)
  where
    go : (o : Option Entry) → count (λ (c : Context). c.token == t) (cancel_entry o r).contexts ≤ 1
    go none = once t
    go (some e) =
        rw
          (count-update_same t (λ c. c.token == e.token) (λ c. record c { cancelled = true })
            r.contexts (λ c. refl))
          (once t)
Step-IsGivenOnce {r} cancels_all s once t =
    rw
      (count-update_same t (λ c. any (λ e. e.token == c.token) r.jobs)
        (λ c. record c { cancelled = true }) r.contexts (λ c. refl))
      (once t)

Reach-IsGivenOnce :
    {r : Registry}
    → Reach empty_registry r
    → (t : ℕ) → count (λ (c : Context). c.token == t) r.contexts ≤ 1
unfolding count
Reach-IsGivenOnce here t = omega arith
Reach-IsGivenOnce (next before step) t =
    Step-IsGivenOnce step (Reach-IsSound' before empty-IsSound) (Reach-IsGivenOnce before) t

-- However the sections interleave, from the empty registry on, as long as the counter of the tokens
-- does not wrap around: no token was given out twice, that is, no two registrations have made
-- contexts with the same one; the entries of two domains have different tokens; and no entry or
-- context has a token that is yet to be given out.
pub Reach-IsSound : {r : Registry} → Reach empty_registry r → IsSound r × IsGivenOnce r
Reach-IsSound h = (Reach-IsSound' h empty-IsSound, Reach-IsGivenOnce h)
