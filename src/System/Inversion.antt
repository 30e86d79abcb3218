-- ===== src/System/Inversion.antt =====
-- What a successful end of a compound action says of its parts.
use certhub_server.Common.{Bool, true, false, ◌≡◌, refl, ◌∙◌, ◌⊎◌, inl, inr, arith, Bool-cases}
use certhub_server.Store.{Result, ok, err, Db, DbError, Statement}
use certhub_server.System.{
  Env, World, Act, exec, after, answered, pure, fail, and_then, or_handle, catch, when, ◌>>=◌, ◌>>◌,
}

module _ {ρ} {P : Type ρ} where
  pub bind_ok {ℓ κ μ} :
      {E : Type ℓ} {A : Type κ} {B : Type μ} (m : Act E A) (f : A → Act E B) (w : World) (b : B)
      (v : World)
      → (m >>= f) w ≡ (ok b, v)
      → ((a : A) (u : World) → m w ≡ (ok a, u) → f a u ≡ (ok b, v) → P)
      → P
  unfolding ◌>>=◌
  bind_ok {E} {A} m f w b v h k = go (m w) refl h
    where
      go : (r : Result E A × World) → m w ≡ r → and_then r f ≡ (ok b, v) → P
      go (ok a, u) e h = k a u e h
      go (err x, u) e h = absurd (ground arith)

  pub then_ok {ℓ κ} :
      {E : Type ℓ} {B : Type κ} (m : Act E (Unit {0})) (n : Act E B) (w : World) (b : B) (v : World)
      → (m >> n) w ≡ (ok b, v)
      → ((u : World) → m w ≡ (ok tt, u) → n u ≡ (ok b, v) → P)
      → P
  unfolding ◌>>◌
  then_ok {E} m n w b v h k = go (m w) refl h
    where
      go : (r : Result E (Unit {0}) × World) → m w ≡ r → and_then r (λ _. n) ≡ (ok b, v) → P
      go (ok a, u) e h = k u e h
      go (err x, u) e h = absurd (ground arith)

  pub catch_ok {ℓ κ μ} :
      {E : Type ℓ} {F : Type μ} {A : Type κ} (m : Act E A) (h : E → Act F A) (w : World) (a : A)
      (v : World)
      → catch m h w ≡ (ok a, v)
      → (m w ≡ (ok a, v) → P)
      → ((e : E) (u : World) → m w ≡ (err e, u) → h e u ≡ (ok a, v) → P)
      → P
  unfolding catch
  catch_ok {E} {F} {A} m h w a v k good bad = go (m w) refl k
    where
      go : (r : Result E A × World) → m w ≡ r → or_handle r h ≡ (ok a, v) → P
      go (ok b, u) e l =
          let same : ◌≡◌ {A = Result E A × World} (ok b, u) (ok a, v) = ground arith in
          good (e ∙ same)
      go (err x, u) e l = bad x u e l

pub catch-fail_ok {ℓ κ μ} :
    {E : Type ℓ} {F : Type μ} {A : Type κ} (m : Act E A) (g : E → F) (w : World) (a : A) (v : World)
    → catch m (λ e. fail (g e)) w ≡ (ok a, v)
    → m w ≡ (ok a, v)
unfolding fail
catch-fail_ok m g w a v h =
    catch_ok m (λ e. fail (g e)) w a v h (λ e. e) (λ x u e k. absurd (ground arith))

pub when_ok {ℓ} :
    {E : Type ℓ} (b : Bool) (m : Act E (Unit {0})) (w v : World)
    → when b m w ≡ (ok tt, v)
    → ((b ≡ false) × (w ≡ v)) ⊎ ((b ≡ true) × (m w ≡ (ok tt, v)))
unfolding when pure
when_ok true m w v h = inr (refl, h)
when_ok false m w v h = inl (refl, ground arith)

pub fail_ok {ℓ κ} :
    {E : Type ℓ} {A : Type κ} (e : E) (w : World) (a : A) (v : World)
    → fail {A = A} e w ≡ (ok a, v)
    → ⊥
unfolding fail
fail_ok e w a v h = ground arith

-- A statement that succeeds has run on the state that the others left, and then the event is over.
pub exec_ok :
    (env : Env) {A : Type 0} (st : Statement A) (w : World) (a : A) (v : World)
    → exec env st w ≡ (ok a, v)
    → let s = env.others w.event w.shared in
      ((st s.db).0 ≡ ok a) × (v ≡ after w (record s { db = (st s.db).1 }))
unfolding exec
exec_ok env {A} st w a v h = elim (Bool-cases (env.fault w.event)) [
  | inl fails ↦ absurd (ground arith)
  | inr works ↦ go (st (env.others w.event w.shared).db) (rw works at h)
]
  where
    go :
        (r : Result DbError A × Db)
        → answered w (env.others w.event w.shared) r ≡ (ok a, v)
        → (r.0 ≡ ok a) × (v ≡ after w (record (env.others w.event w.shared) { db = r.1 }))
    go (x, db) k = (ground arith, ground arith)
