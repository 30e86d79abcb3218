-- ===== src/Database/Newest.antt =====
-- Which certificates removeDuplicateCertificates of config/database.go leaves.
use Prim.Native.Nat.{◌≤◌}
use mathlib.Core.List.{Memᴰ}
use mathlib.Core.List.Memᴰ
use mathlib.Core.List.Memᴰ.{head, tail}
use mathlib.Core.Path.{ap}
use certhub_server.Common.{
  ℕ, Bool, true, false, not, List, [], ◌∷◌, ◌≡◌, refl, ◌==◌, ==_refl, ltb, any, keep, ◌⊎◌, inl, inr,
  arith, Bool-cases,
}
use certhub_server.Models.{Certificate}
use certhub_server.Store.{Db}
use certhub_server.Database.{is_older_than, remove_duplicate_certificates}

any-Memᴰ :
    (p : Certificate → Bool) (x : Certificate) (xs : List Certificate)
    → Memᴰ x xs
    → p x ≡ true
    → any p xs ≡ true
any-Memᴰ p x [] m h = absurd (Memᴰ.not-nil m)
any-Memᴰ p x (y ∷ xs) (head e) h = let there : p y ≡ true = rw (← e) h in rw there refl
any-Memᴰ p x (y ∷ xs) (tail m) h = ground (arith, any-Memᴰ p x xs m h)

any-none :
    (p : Certificate → Bool) (xs : List Certificate)
    → ((x : Certificate) → Memᴰ x xs → p x ≡ false)
    → any p xs ≡ false
any-none p [] h = refl
any-none p (x ∷ xs) h = ground (arith, h x (head refl), any-none p xs (λ y m. h y (tail m)))

keep-Memᴰ :
    (p : Certificate → Bool) (x : Certificate) (xs : List Certificate)
    → Memᴰ x (keep p xs)
    → Memᴰ x xs × (p x ≡ true)
unfolding keep
keep-Memᴰ p x [] m = absurd (Memᴰ.not-nil m)
keep-Memᴰ p x (y ∷ xs) m = elim (Bool-cases (p y)) [
  | inl stays ↦ elim (Memᴰ.cases_cons (rw stays at m)) [
    | inl e ↦ (head e, rw e stays)
    | inr later ↦ let (there, passes) = keep-Memᴰ p x xs later in (tail there, passes)
  ]
  | inr goes ↦ let (there, passes) = keep-Memᴰ p x xs (rw goes at m) in (tail there, passes)
]

Memᴰ-keep :
    (p : Certificate → Bool) (x : Certificate) (xs : List Certificate)
    → Memᴰ x xs
    → p x ≡ true
    → Memᴰ x (keep p xs)
unfolding keep
Memᴰ-keep p x [] m h = absurd (Memᴰ.not-nil m)
Memᴰ-keep p x (y ∷ xs) (head e) h = let stays : p y ≡ true = rw (← e) h in rw stays (head e)
Memᴰ-keep p x (y ∷ xs) (tail m) h = elim (Bool-cases (p y)) [
  | inl stays ↦ rw stays (tail (Memᴰ-keep p x xs m h))
  | inr goes ↦ rw goes (Memᴰ-keep p x xs m h)
]

-- The row has the largest key of its domain's.
pub record IsNewest (d : ℕ) (n : Certificate) (xs : List Certificate) : Type 0 where
  pub there : Memᴰ n xs
  pub of_domain : n.domain_id ≡ d
  pub largest : (c : Certificate) → Memᴰ c xs → c.domain_id ≡ d → c.id ≤ n.id

newest :
    (d : ℕ) (xs : List Certificate)
    → ((c : Certificate) → Memᴰ c xs → (c.domain_id == d) ≡ false)
      ⊎ ((n : Certificate) × IsNewest d n xs)
newest d [] = inl (λ c m. absurd (Memᴰ.not-nil m))
newest d (x ∷ xs) = go (newest d xs) (Bool-cases (x.domain_id == d))
  where
    id_of : (c : Certificate) → c ≡ x → c.id ≡ x.id
    id_of c e = ap (λ (r : Certificate). r.id) e

    go :
        ((c : Certificate) → Memᴰ c xs → (c.domain_id == d) ≡ false)
          ⊎ ((n : Certificate) × IsNewest d n xs)
        → ((x.domain_id == d) ≡ true) ⊎ ((x.domain_id == d) ≡ false)
        → ((c : Certificate) → Memᴰ c (x ∷ xs) → (c.domain_id == d) ≡ false)
          ⊎ ((n : Certificate) × IsNewest d n (x ∷ xs))
    go (inl none') (inr other) =
        inl (λ c m. elim (Memᴰ.cases_cons m) [ inl e ↦ rw e other | inr later ↦ none' c later ])
    go (inl none') (inl mine) = inr (
      x,
      record {
        there = head refl;
        of_domain = ground arith;
        largest = λ c m same. elim (Memᴰ.cases_cons m) [
          | inl e ↦ ground (arith, id_of c e)
          | inr later ↦ ground (arith, none' c later)
        ];
      },
    )
    go (inr (n, h)) (inr other) = inr (
      n,
      record {
        there = tail h.there;
        of_domain = h.of_domain;
        largest = λ c m same. elim (Memᴰ.cases_cons m) [
          | inl e ↦ ground (arith, ap (λ (r : Certificate). r.domain_id) e)
          | inr later ↦ h.largest c later same
        ];
      },
    )
    go (inr (n, h)) (inl mine) = elim (Bool-cases (ltb n.id x.id)) [
      | inl newer ↦ inr (
        x,
        record {
          there = head refl;
          of_domain = ground arith;
          largest = λ c m same. elim (Memᴰ.cases_cons m) [
            | inl e ↦ ground (arith, id_of c e)
            | inr later ↦ ground (arith, h.largest c later same)
          ];
        },
      )
      | inr older ↦ inr (
        n,
        record {
          there = tail h.there;
          of_domain = h.of_domain;
          largest = λ c m same. elim (Memᴰ.cases_cons m) [
            | inl e ↦ ground (arith, id_of c e)
            | inr later ↦ h.largest c later same
          ];
        },
      )
    ]

-- After removeDuplicateCertificates two rows of one domain have one key, and every certificate that
-- there was has its domain's newest one, which was in the table, still in it: the row with the
-- largest key.
pub remove_duplicate_certificates-IsNewest :
    (db : Db)
    → let left = (remove_duplicate_certificates db).1.certificates in
      ((a b : Certificate) → Memᴰ a left → Memᴰ b left → a.domain_id ≡ b.domain_id → a.id ≡ b.id)
      × ((c : Certificate)
          → Memᴰ c db.certificates
          → (n : Certificate) × Memᴰ n left × IsNewest c.domain_id n db.certificates)
unfolding remove_duplicate_certificates
remove_duplicate_certificates-IsNewest db = (unique, kept)
  where
    duplicate : Certificate → Bool
    duplicate a = any (is_older_than a) db.certificates

    not_older :
        (a b : Certificate)
        → Memᴰ a (keep (λ c. not (duplicate c)) db.certificates)
        → Memᴰ b db.certificates
        → is_older_than a b ≡ false
    not_older a b m there =
        let (was, passes) = keep-Memᴰ (λ c. not (duplicate c)) a db.certificates m in
        elim (Bool-cases (is_older_than a b)) [
          | inl older ↦
              absurd (ground (arith, any-Memᴰ (is_older_than a) b db.certificates there older))
          | inr fine ↦ fine
        ]

    unique :
        (a b : Certificate)
        → Memᴰ a (keep (λ c. not (duplicate c)) db.certificates)
        → Memᴰ b (keep (λ c. not (duplicate c)) db.certificates)
        → a.domain_id ≡ b.domain_id
        → a.id ≡ b.id
    unique a b ma mb same =
        let wa = (keep-Memᴰ (λ c. not (duplicate c)) a db.certificates ma).0 in
        let wb = (keep-Memᴰ (λ c. not (duplicate c)) b db.certificates mb).0 in
        ground (arith, not_older a b ma wb, not_older b a mb wa)

    kept :
        (c : Certificate)
        → Memᴰ c db.certificates
        → (n : Certificate) × Memᴰ n (keep (λ a. not (duplicate a)) db.certificates)
          × IsNewest c.domain_id n db.certificates
    kept c there = elim (newest c.domain_id db.certificates) [
      | inl none' ↦ absurd (ground (arith, none' c there, ==_refl c.domain_id))
      | inr (n, h) ↦ (
        n,
        Memᴰ-keep (λ a. not (duplicate a)) n db.certificates h.there
            (ground (
              arith,
              any-none (is_older_than n) db.certificates
                  (λ b m. ground (arith, h.of_domain, h.largest b m)),
            )),
        h,
      )
    ]
