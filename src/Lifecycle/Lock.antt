-- ===== src/Lifecycle/Lock.antt =====
-- lockDomainForCertJob: who gets the lock of a domain.
use Prim.Native.Nat.{ℕ, ◌≤◌, ◌<◌}
use certhub_server.Common.{
  Bool, true, false, ◌&&◌, List, [], ◌∷◌, ◌≡◌, refl, ap, inl, inr, arith, find, update, count,
  Bool-cases, Option-cases, find_passes,
}
use certhub_server.Common.Int.{◌≤ℤ◌}
use certhub_server.Models.{Time, Domain, User, is_live}
use certhub_server.Store.{Db, first_domain, first_user, update_domains, touch, ok}
use certhub_server.Lifecycle.{has_id, lockable, locked_row}

module _ {A : Type 0} (p q : A → Bool) (sub : (x : A) → p x ≡ true → q x ≡ true) where
  count-zero : (xs : List A) → count q xs ≡ 0 → count p xs ≡ 0
  unfolding count
  count-zero [] e = refl
  count-zero (x ∷ xs) e = ground (arith, sub x, count-zero xs)

update-none :
    {A : Type 0} (p : A → Bool) (f : A → A) (xs : List A) → count p xs ≡ 0 → update p f xs ≡ xs
unfolding count update
update-none p f [] e = refl
update-none p f (x ∷ xs) e = ground (arith, update-none p f xs)

-- If at most one element passes `q`, and an update changed one that passes `p`, then none passes
-- `p'` any more, where both tests imply `q` and the new element fails `p'`.
count-take_all :
    {A : Type 0} (p p' q : A → Bool) (f : A → A)
    → ((x : A) → p x ≡ true → q x ≡ true)
    → ((x : A) → p' x ≡ true → q x ≡ true)
    → ((x : A) → p x ≡ true → p' (f x) ≡ false)
    → (xs : List A) → count q xs ≤ 1
    → 0 < count p xs
    → count p' (update p f xs) ≡ 0
unfolding count update
count-take_all p p' q f pq p'q fp [] one some' = absurd (omega arith)
count-take_all p p' q f pq p'q fp (x ∷ xs) one some' = elim (Bool-cases (p x)) [
  | inl hit ↦
      let zero' : count q xs ≡ 0 = ground (arith, pq x) in
      let same : update p f xs ≡ xs = update-none p f xs (count-zero p q pq xs zero') in
      rw (hit, same) (ground (arith, fp x, count-zero p' q p'q xs zero'))
  | inr miss ↦ elim (Bool-cases (q x)) [
    | inl inside ↦
        let zero' : count q xs ≡ 0 = ground arith in
        absurd (ground (arith, count-zero p q pq xs zero'))
    | inr outside ↦
        rw miss (
          ground (arith, p'q x, count-take_all p p' q f pq p'q fp xs (ground arith) (ground arith)))
  ]
]

-- The lock is exclusive: where the key `id` is that of one live row at most, once an UPDATE of
-- lockDomainForCertJob at the time `t` has changed a row, no other such UPDATE changes one, until
-- something else is written, unless its limit for stale locks is later than `t`.
pub lock-excludes :
    (t t' stale stale' : Time) (id : ℕ) (db : Db)
    → count (λ d. is_live d && has_id id d) db.domains ≤ 1
    → 0 < count (λ d. is_live d && lockable stale id d) db.domains
    → stale' ≤ℤ t
    → (update_domains t'
        (lockable stale' id)
        (locked_row t')
        (update_domains t (lockable stale id) (locked_row t) db).1).0
      ≡ ok 0
unfolding update_domains
lock-excludes t t' stale stale' id db one taken early = ap ok (
    count-take_all (λ d. is_live d && lockable stale id d) (λ d. is_live d && lockable stale' id d)
      (λ d. is_live d && has_id id d) (touch t (locked_row t)) (λ d h. ground arith)
      (λ d h. ground arith) (λ d h. ground arith) db.domains one taken)

first_user-db : (p : User → Bool) (db : Db) → (first_user p db).1 ≡ db
unfolding first_user
first_user-db p db = refl

first_domain-id :
    (id : ℕ) (d : Domain) (db : Db) → (first_domain (has_id id) db).0 ≡ ok d → d.id ≡ id
unfolding first_domain
first_domain-id id d db h = elim (Option-cases (find (λ d. is_live d && has_id id d) db.domains)) [
  | inl missing ↦ absurd (ground arith)
  | inr (x, there) ↦ ground (arith, find_passes (λ d. is_live d && has_id id d) db.domains x there)
]
