-- ===== src/Lifecycle/Settled.antt =====
-- What a rollback leaves of the generating rows.
use Prim.Native.Nat.{ℕ}
use certhub_server.Common.{
  String, Bool, true, false, Option, none, some, List, [], ◌∷◌, ◌≡◌, refl, sym, ap, ◌∙◌, ◌≢◌, ◌==◌,
  any, if◌then◌else◌, arith, find, update, All, All-update, Bool-cases, inl, inr,
}
use mathlib.Core.Path.{subst}
use certhub_server.Models.{Time, Domain, is_generating, is_live}
use certhub_server.Store.{Db, touch}
use certhub_server.Lifecycle.{rolled_back_row}
use certhub_server.Lifecycle.Quiet.{live_with, updated}
use certhub_server.Lifecycle.Rollback.{rolled_back}

-- No two rows have the same key.
abbrev pub DistinctIds : List Domain → Type 0
DistinctIds [] = Unit
DistinctIds (d ∷ ds) = All (λ (e : Domain). e.id ≢ d.id) ds × DistinctIds ds

update-DistinctIds :
    (p : Domain → Bool) (f : Domain → Domain) (ds : List Domain)
    → ((d : Domain) → (f d).id ≡ d.id)
    → DistinctIds ds
    → DistinctIds (update p f ds)
unfolding update
update-DistinctIds p f [] h u = tt
update-DistinctIds p f (d ∷ ds) h (a, u) =
    let same : (if p d then f d else d).id ≡ d.id = elim (Bool-cases (p d)) [
      | inl hit ↦ rw hit (h d)
      | inr miss ↦ rw miss
    ] in
    (
      subst (λ (k : ℕ). All (λ (e : Domain). e.id ≢ k) (update p f ds)) (sym same)
          (All-update (λ (e : Domain). e.id ≢ d.id) p f ds (λ e n. λ m. n (sym (h e) ∙ m)) a),
      update-DistinctIds p f ds h u,
    )

-- A live generating row is one of those that are still to be rolled back.
abbrev pub Awaits : List Domain → Domain → Type 0
Awaits rest e =
    is_live e ≡ true → is_generating e.status ≡ true → any (λ d. d.id == e.id) rest ≡ true

rolled_back_row-settled :
    (c r : Bool) (message : String) (t : Time) (d : Domain)
    → (is_generating (touch t (rolled_back_row c r message) d).status ≡ false)
      × ((touch t (rolled_back_row c r message) d).id ≡ d.id)
unfolding rolled_back_row
rolled_back_row-settled true r message t d = (refl, refl)
rolled_back_row-settled false true message t d = (refl, refl)
rolled_back_row-settled false false message t d = (refl, refl)

-- Rows with the key `id` agree with the row that a search finds.
abbrev Agree : ℕ → Domain → Domain → Type 0
Agree id d e = live_with id e ≡ true → is_generating e.status ≡ is_generating d.status

no_other :
    (id : ℕ) (d : Domain) (ds : List Domain)
    → All (λ (e : Domain). e.id ≢ id) ds
    → All (Agree id d) ds
no_other id d [] h = tt
no_other id d (e ∷ ds) (h, hs) = (ground arith, no_other id d ds hs)

find-Agree :
    (id : ℕ) (d : Domain) (ds : List Domain)
    → DistinctIds ds
    → find (live_with id) ds ≡ some d
    → All (Agree id d) ds
unfolding find
find-Agree id d [] u e = tt
find-Agree id d (x ∷ xs) (a, u) e = elim (Bool-cases (live_with id x)) [
  | inl hit ↦
      let same : x ≡ d = ground arith in
      let key : x.id ≡ id = ground arith in
      (
        λ _. ap (λ (e : Domain). is_generating e.status) same,
        no_other id d xs (subst (λ (k : ℕ). All (λ (e : Domain). e.id ≢ k) xs) key a),
      )
  | inr miss ↦ (λ h. cc, find-Agree id d xs u (rw (← e) (ground arith)))
]

find-none-miss :
    (id : ℕ) (ds : List Domain)
    → find (live_with id) ds ≡ none
    → All (λ (e : Domain). live_with id e ≡ false) ds
unfolding find
find-none-miss id [] e = tt
find-none-miss id (x ∷ xs) e = ground (arith, find-none-miss id xs)

-- If rows with the key are left as they are, no live one of them being generating, then the rest
-- of the list still covers the generating rows.
skip-Awaits :
    (d : Domain) (rest rows : List Domain)
    → All (λ (e : Domain). live_with d.id e ≡ true → is_generating e.status ≡ false) rows
    → All (Awaits (d ∷ rest)) rows
    → All (Awaits rest) rows
skip-Awaits d rest [] f a = tt
skip-Awaits d rest (e ∷ es) (f, fs) (a, as') =
    (λ live gen. ground (arith, a live gen), skip-Awaits d rest es fs as')

-- Rows with the key that are rolled back are generating no more.
hit-Awaits :
    (d : Domain) (rest rows : List Domain) (c r : Bool) (message : String) (t : Time)
    → All (Awaits (d ∷ rest)) rows
    → All (Awaits rest) (update (live_with d.id) (touch t (rolled_back_row c r message)) rows)
unfolding update
hit-Awaits d rest [] c r message t a = tt
hit-Awaits d rest (e ∷ es) c r message t (a, as') = (
  elim (Bool-cases (live_with d.id e)) [
    | inl hit ↦
        rw hit (λ live gen. absurd (ground (arith, rolled_back_row-settled c r message t e)))
    | inr miss ↦ rw miss (λ live gen. ground (arith, a live gen))
  ],
  hit-Awaits d rest es c r message t as',
)

Agree-free :
    (id : ℕ) (d : Domain) (rows : List Domain)
    → is_generating d.status ≡ false
    → All (Agree id d) rows
    → All (λ (e : Domain). live_with id e ≡ true → is_generating e.status ≡ false) rows
Agree-free id d [] free a = tt
Agree-free id d (e ∷ es) free (a, as') = (λ h. a h ∙ free, Agree-free id d es free as')

miss-free :
    (id : ℕ) (rows : List Domain)
    → All (λ (e : Domain). live_with id e ≡ false) rows
    → All (λ (e : Domain). live_with id e ≡ true → is_generating e.status ≡ false) rows
miss-free id [] a = tt
miss-free id (e ∷ es) (a, as') = (λ h. cc, miss-free id es as')

-- One rollback takes its row off the list of those that are awaited.
pub rolled_back-Awaits :
    (t : Time) (d : Domain) (rest : List Domain) (message : String) (restore : Bool)
    (o : Option Domain) (db : Db)
    → find (live_with d.id) db.domains ≡ o
    → DistinctIds db.domains
    → All (Awaits (d ∷ rest)) db.domains
    → DistinctIds (rolled_back t d.id message restore o db).domains
      × All (Awaits rest) (rolled_back t d.id message restore o db).domains
unfolding rolled_back updated
rolled_back-Awaits t d rest message restore none db e u a =
    (u, skip-Awaits d rest db.domains (miss-free d.id _ (find-none-miss d.id _ e)) a)
rolled_back-Awaits t d rest message restore (some x) db e u a =
    elim (Bool-cases (is_generating x.status)) [
      | inl gen ↦ rw gen (
        update-DistinctIds (live_with d.id) _ db.domains
            (λ y. (rolled_back_row-settled _ _ message t y).1) u,
        hit-Awaits d rest db.domains _ _ message t a,
      )
      | inr free ↦
          rw free (
            u,
            skip-Awaits d rest db.domains (Agree-free d.id x _ free (find-Agree d.id x _ u e)) a,
          )
    ]
