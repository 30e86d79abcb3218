-- ===== src/System/Keeps.antt =====
-- Invariants of the shared state, kept whatever the other goroutines do within the invariant.
use certhub_server.Common.{
  ℕ, String, Bool, true, false, ◌≡◌, arith, if◌then◌else◌, Bool-cases, inl, inr,
}
use certhub_server.Models.{Bytes}
use certhub_server.Store.{Result, ok, err, Statement}
use certhub_server.System.{
  Env, World, Shared, Act, pure, fail, and_then, or_handle, catch, when, attempt, now, exec, locked,
  wait_domain_worker, resolve_cname, call_acme, seal, outcome, ◌>>=◌, ◌>>◌,
}

module _ {ρ} (P : Shared → Type ρ) where
  -- The action ends in a state with the property, if it starts in one.
  abbrev pub Keeps {ℓ κ} : {E : Type ℓ} {A : Type κ} → Act E A → Type ρ
  Keeps m = (w : World) → P w.shared → P (m w).1.shared

  pub Keeps-bind {ℓ κ μ} :
      {E : Type ℓ} {A : Type κ} {B : Type μ} (m : Act E A) (f : A → Act E B)
      → Keeps m
      → ((a : A) → Keeps (f a))
      → Keeps (m >>= f)
  unfolding ◌>>=◌
  Keeps-bind {E} {A} {B} m f km kf w p = go (m w) (km w p)
    where
      go : (r : Result E A × World) → P r.1.shared → P (and_then r f).1.shared
      go (ok a, v) q = kf a v q
      go (err e, v) q = q

  -- The same, and what a successful end returns has a property too.
  abbrev pub Holds {ℓ κ σ} : {E : Type ℓ} {A : Type κ} → (A → Type σ) → Result E A → Type σ
  Holds Q (ok a) = Q a
  Holds Q (err e) = Unit

  abbrev pub Yields {ℓ κ σ} : {E : Type ℓ} {A : Type κ} → Act E A → (A → Type σ) → Type (ρ ⊔ σ)
  Yields m Q = (w : World) → P w.shared → P (m w).1.shared × Holds Q (m w).0

  pub yields-bind {ℓ κ μ σ} :
      {E : Type ℓ} {A : Type κ} {B : Type μ} (Q : A → Type σ) (m : Act E A) (f : A → Act E B)
      → Yields m Q
      → ((a : A) → Q a → Keeps (f a))
      → Keeps (m >>= f)
  unfolding ◌>>=◌
  yields-bind {E} {A} {B} Q m f ym kf w p = go (m w) (ym w p)
    where
      go : (r : Result E A × World) → P r.1.shared × Holds Q r.0 → P (and_then r f).1.shared
      go (ok a, v) (q, h) = kf a h v q
      go (err e, v) (q, h) = q

  pub Keeps-then {ℓ κ} :
      {E : Type ℓ} {B : Type κ} (m : Act E (Unit {0})) (k : Act E B)
      → Keeps m
      → Keeps k
      → Keeps (m >> k)
  unfolding ◌>>◌
  Keeps-then {E} {B} m k km kk w p = go (m w) (km w p)
    where
      go : (r : Result E (Unit {0}) × World) → P r.1.shared → P (and_then r (λ _. k)).1.shared
      go (ok a, v) q = kk v q
      go (err e, v) q = q

  pub Keeps-catch {ℓ κ μ} :
      {E : Type ℓ} {F : Type μ} {A : Type κ} (m : Act E A) (h : E → Act F A)
      → Keeps m
      → ((e : E) → Keeps (h e))
      → Keeps (catch m h)
  unfolding catch
  Keeps-catch {E} {F} {A} m h km kh w p = go (m w) (km w p)
    where
      go : (r : Result E A × World) → P r.1.shared → P (or_handle r h).1.shared
      go (ok a, v) q = q
      go (err e, v) q = kh e v q

  pub Keeps-if {ℓ κ} :
      {E : Type ℓ} {A : Type κ} (b : Bool) (m n : Act E A)
      → Keeps m
      → Keeps n
      → Keeps (if b then m else n)
  Keeps-if true m n km kn = km
  Keeps-if false m n km kn = kn

  pub Keeps-pure {ℓ κ} : (E : Type ℓ) {A : Type κ} (a : A) → Keeps (pure {E = E} a)
  unfolding pure
  Keeps-pure E a w p = p

  pub Keeps-fail {ℓ κ} : {E : Type ℓ} (A : Type κ) (e : E) → Keeps (fail {A = A} e)
  unfolding fail
  Keeps-fail A e w p = p

  pub Keeps-when {ℓ} : {E : Type ℓ} (b : Bool) (m : Act E (Unit {0})) → Keeps m → Keeps (when b m)
  unfolding when
  Keeps-when true m km w p = km w p
  Keeps-when false m km w p = p

  pub Keeps-when-false {ℓ} :
      {E : Type ℓ} (b : Bool) (m : Act E (Unit {0})) → b ≡ false → Keeps (when b m)
  unfolding when pure
  Keeps-when-false true m e w p = absurd (ground arith)
  Keeps-when-false false m e w p = p

  pub Keeps-attempt {ℓ κ μ} :
      {E : Type ℓ} (F : Type μ) {A : Type κ} (m : Act E A) → Keeps m → Keeps (attempt {F = F} m)
  unfolding attempt
  Keeps-attempt F m km w p = km w p

  -- The other goroutines keep the property too.
  abbrev pub Stable : Env → Type ρ
  Stable env = (n : ℕ) (s : Shared) → P s → P (env.others n s)

  module _ (env : Env) (stable : Stable env) where
    pub Keeps-now {ℓ} : (E : Type ℓ) → Keeps (now env {E = E})
    unfolding now
    Keeps-now E w p = p

    pub Keeps-exec :
        {A : Type 0} (st : Statement A)
        → ((s : Shared) → P s → P (record s { db = (st s.db).1 }))
        → Keeps (exec env st)
    unfolding exec
    Keeps-exec st k w p = elim (Bool-cases (env.fault w.event)) [
      | inl fails ↦ rw fails (stable w.event w.shared p)
      | inr runs ↦ rw runs (k _ (stable w.event w.shared p))
    ]

    pub Keeps-locked {ℓ κ} :
        (E : Type ℓ) {A : Type κ} (f : Shared → A × Shared)
        → ((s : Shared) → P s → P (f s).1)
        → Keeps (locked env {E = E} f)
    unfolding locked
    Keeps-locked E f k w p = k _ (stable w.event w.shared p)

    pub Keeps-wait {ℓ} : (E : Type ℓ) (d : ℕ) → Keeps (wait_domain_worker env {E = E} d)
    unfolding wait_domain_worker
    Keeps-wait E d w p = stable w.event w.shared p

    pub Keeps-resolve {ℓ} : (E : Type ℓ) (host : String) → Keeps (resolve_cname env {E = E} host)
    unfolding resolve_cname
    Keeps-resolve E host w p = stable w.event w.shared p

    pub yields-locked {ℓ κ σ} :
        (E : Type ℓ) {A : Type κ} (Q : A → Type σ) (f : Shared → A × Shared)
        → ((s : Shared) → P s → P (f s).1 × Q (f s).0)
        → Yields (locked env {E = E} f) Q
    unfolding locked
    yields-locked E Q f k w p = k _ (stable w.event w.shared p)

    pub Keeps-acme {ℓ} : (E : Type ℓ) → Keeps (call_acme env {E = E})
    unfolding call_acme
    Keeps-acme E w p = stable w.event w.shared p

    pub Keeps-seal {ℓ} : (E : Type ℓ) (b : Bytes) → Keeps (seal env {E = E} b)
    unfolding seal
    Keeps-seal E b w p = p

  pub Keeps-outcome {ℓ κ μ} :
      {E : Type ℓ} (F : Type μ) {A : Type κ} (m : Act E A) → Keeps m → Keeps (outcome {F = F} m)
  unfolding outcome
  Keeps-outcome F m km w p = km w p
