-- ===== src/RateLimit/Fairness.antt =====
-- keyedRateLimiter (middleware/ratelimit.go) and the buckets of its keys.
use Prim.Native.Nat.{ℕ}
use certhub_server.Common.{
  String, Bool, false, not, ◌&&◌, Option, none, some, List, [], ◌∷◌, ◌≡◌, ◌≢◌, refl, ap, ◌∙◌,
  str_eq, eq_iff, arith, find, keep, find-keep_all, inl, inr, eq_refl, if◌then◌else◌, Bool-cases,
}
use certhub_server.Common.Int.{ℤ, ltb_ℤ}
use certhub_server.Models.{Time}
use certhub_server.RateLimit.{
  LimiterEntry, KeyedRateLimiter, has_key, entry_for, seen_entry, put_entry, allow, evict_stale,
}

module _ {ℓ} {L : Type ℓ} (new_limiter : ℕ → ℤ → L) (allow_at : Time → L → Bool × L) where
  -- The bucket of a key: the one in the map, or the one it would get.
  abbrev pub bucket_in : KeyedRateLimiter L → Option (LimiterEntry L) → L
  bucket_in l none = new_limiter l.interval l.burst
  bucket_in l (some e) = e.limiter

  abbrev pub bucket_of : String → KeyedRateLimiter L → L
  bucket_of key l = bucket_in l (entry_for key l)

  seen-bucket :
      (now : Time) (key : String) (l : KeyedRateLimiter L) (o : Option (LimiterEntry L))
      → (seen_entry new_limiter allow_at now key l o).limiter ≡ bucket_in l o
  unfolding seen_entry
  seen-bucket now key l none = refl
  seen-bucket now key l (some e) = refl

  -- A call for a key asks its bucket, and leaves what the bucket becomes.
  allow-own :
      (now : Time) (key : String) (l : KeyedRateLimiter L)
      → (bucket_of key (allow new_limiter allow_at now key l).1
          ≡ (allow_at now (bucket_of key l)).1)
        × ((allow new_limiter allow_at now key l).0 ≡ (allow_at now (bucket_of key l)).0)
  unfolding allow put_entry entry_for find
  allow-own now key l = rw (seen-bucket now key l (entry_for key l)) (rw (eq_refl key) (refl, refl))

  -- It leaves the buckets of the other keys alone.
  allow-other :
      (now : Time) (key other : String) (l : KeyedRateLimiter L)
      → other ≢ key
      → bucket_of other (allow new_limiter allow_at now key l).1 ≡ bucket_of other l
  unfolding allow put_entry entry_for find
  allow-other now key other l h =
      let apart : str_eq key other ≡ false = ground (arith, eq_iff key other) in
      rw apart (
        rw
          (find-keep_all (has_key other) (λ x. not (has_key key x)) l.entries
            (λ x p. ground (arith, eq_iff x.key other, eq_iff x.key key)))
          refl)

  -- What calls, each at a time and for a key, answer to one key.
  pub answers_to : String → List (Time × String) → KeyedRateLimiter L → List Bool
  answers_to key [] l = []
  answers_to key ((t, k) ∷ calls) l =
      let r = allow new_limiter allow_at t k l in
      let rest = answers_to key calls r.1 in if str_eq k key then r.0 ∷ rest else rest

  -- What a bucket of its own answers at these times.
  pub lone_answers : List Time → L → List Bool
  lone_answers [] b = []
  lone_answers (t ∷ ts) b = (allow_at t b).0 ∷ lone_answers ts (allow_at t b).1

  pub times_of : String → List (Time × String) → List Time
  times_of key [] = []
  times_of key ((t, k) ∷ calls) =
      let rest = times_of key calls in if str_eq k key then t ∷ rest else rest

  -- Whatever calls come for whatever keys, those of one key are answered as its bucket alone would
  -- answer them: a client cannot use up or refill the bucket of another.
  pub allow-isolates :
      (key : String) (calls : List (Time × String)) (l : KeyedRateLimiter L)
      → answers_to key calls l ≡ lone_answers (times_of key calls) (bucket_of key l)
  unfolding answers_to lone_answers times_of
  allow-isolates key [] l = refl
  allow-isolates key ((t, k) ∷ calls) l =
      let rest = allow-isolates key calls (allow new_limiter allow_at t k l).1 in
      elim (Bool-cases (str_eq k key)) [
        | inl same ↦
            let key_is : k ≡ key = ground (arith, eq_iff k key) in
            rw same (
              rw key_is (
                rw (allow-isolates key calls (allow new_limiter allow_at t key l).1)
                  (rw (allow-own t key l).0 (rw (allow-own t key l).1 refl))))
        | inr apart ↦ rw apart (
            rest
            ∙ ap (lone_answers (times_of key calls))
                (allow-other t k key l (ground (arith, eq_iff k key, apart))))
      ]

  -- The entries of a key that a cleanup does not remove.
  abbrev pub recent : Time → String → LimiterEntry L → Bool
  recent cutoff key e = has_key key e && not (ltb_ℤ e.last_seen cutoff)

  entry-evict_stale :
      (cutoff : Time) (key : String) (es : List (LimiterEntry L))
      → find (has_key key) (keep (λ e. not (ltb_ℤ e.last_seen cutoff)) es)
        ≡ find (recent cutoff key) es
  unfolding find keep
  entry-evict_stale cutoff key [] = refl
  entry-evict_stale cutoff key (e ∷ es) = ground (arith, entry-evict_stale cutoff key es)

  -- The first call for a key after a cleanup asks the bucket of the key's entry if that was seen
  -- since the cutoff; otherwise it asks a new, full bucket, however empty the old one was.
  pub evict_stale-refills :
      (now cutoff : Time) (key : String) (l : KeyedRateLimiter L)
      → (allow new_limiter allow_at now key (evict_stale cutoff l)).0
        ≡ (allow_at now (bucket_in l (find (recent cutoff key) l.entries))).0
  unfolding evict_stale entry_for
  evict_stale-refills now cutoff key l =
      (allow-own now key (evict_stale cutoff l)).1
      ∙ rw (entry-evict_stale cutoff key l.entries) refl
