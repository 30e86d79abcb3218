-- ===== src/Lifecycle/TakeLock.antt =====
-- lockDomainForCertJob of controllers/renewal_scheduler.go: what its success says of the row.
use Prim.Native.Nat.{ℕ, ◌+◌, ◌<◌}
use certhub_server.Common.{
  Bool, true, ◌&&◌, Option, none, some, List, [], ◌∷◌, ◌≡◌, refl, sym, ap, ◌∙◌, ◌==◌, inl, inr,
  arith, find, update, count, if◌then◌else◌, Option-cases, find_passes,
}
use certhub_server.Common.Int.{◌-ℤ◌, ltb_ℤ}
use certhub_server.Models.{
  Time, Domain, Certificate, User, generating, error, is_live, is_generating,
}
use certhub_server.Store.{
  Db, first_domain, first_certificate, first_user, update_domains, touch, ok,
}
use certhub_server.System.{Env, World, Shared, now, catch, exec, fail, pure, when, ◌>>◌, ◌>>=◌}
use certhub_server.System.Keeps.{
  Keeps, Keeps-bind, Keeps-then, Keeps-when, Keeps-if, Keeps-pure, Keeps-fail, Keeps-locked,
  Keeps-wait, Stable,
}
use certhub_server.System.Inversion.{
  bind_ok, then_ok, catch_ok, catch-fail_ok, when_ok, fail_ok, exec_ok,
}
use certhub_server.Lifecycle.{
  LockError, db_error, in_progress, set_domain_error, take_over, take_lock, lock_current, timeout,
  update_where, lock_domain_for_cert_job, has_id, lockable, locked_row, inflight, cancel_job,
}

-- The domain with this id may be locked: it is not generating, or its time is missing or before
-- the limit.
abbrev pub is_old : Time → Option Time → Bool
is_old limit none = true
is_old limit (some since) = ltb_ℤ since limit

abbrev pub is_free : Time → ℕ → Domain → Bool
is_free limit id d =
    is_live d
    && ((d.id == id) && (if is_generating d.status then is_old limit d.generating_since else true))

-- The row that is locked since the time `since`, and was written at the time `t`.
abbrev pub locked_since : Time → Time → Domain → Domain
locked_since since t d = record d {
  status = generating;
  error_message = "";
  generating_since = some since;
  updated_at = t;
}

-- The lock was taken in the rows `ds`, with the time `since` that was read, in event number
-- `event`.
pub record TakesLock (env : Env) (id : ℕ) (since : Time) (ds : List Domain) (v : World)
    : Type 0 where
  pub event : ℕ
  pub free : 0 < count (is_free (since -ℤ timeout env) id) ds
  pub locked :
      v.shared.db.domains
      ≡ update (is_free (since -ℤ timeout env) id) (locked_since since (env.clock event)) ds

is_free-lockable :
    (limit : Time) (id : ℕ) (d : Domain) → (is_live d && lockable limit id d) ≡ is_free limit id d
is_free-lockable limit id d = elim (Option-cases d.generating_since) [
  | inl missing ↦ rw missing (ground arith)
  | inr (t, since) ↦ rw since (ground arith)
]

count-same :
    (p q : Domain → Bool) (ds : List Domain) → ((d : Domain) → p d ≡ q d) → count p ds ≡ count q ds
unfolding count
count-same p q [] same = refl
count-same p q (d ∷ ds) same = ground (arith, same d, count-same p q ds same)

update-same :
    (p q : Domain → Bool) (f : Domain → Domain) (ds : List Domain)
    → ((d : Domain) → p d ≡ q d)
    → update p f ds ≡ update q f ds
unfolding update
update-same p q f [] same = refl
update-same p q f (d ∷ ds) same = rw (same d, update-same p q f ds same) refl

first_domain-id :
    (id : ℕ) (d : Domain) (db : Db) → (first_domain (has_id id) db).0 ≡ ok d → d.id ≡ id
unfolding first_domain
first_domain-id id d db h = elim (Option-cases (find (λ d. is_live d && has_id id d) db.domains)) [
  | inl missing ↦ absurd (ground arith)
  | inr (x, there) ↦ ground (arith, find_passes (λ d. is_live d && has_id id d) db.domains x there)
]

module _ (env : Env) (ds : List Domain)
    (alone : (n : ℕ) (s : Shared) → (env.others n s).db.domains ≡ s.db.domains) where
  -- The table of domains is still the given one.
  abbrev Same : Shared → Type 0
  Same s = s.db.domains ≡ ds

  stable : Stable Same env
  stable n s h = alone n s ∙ h

  take_over-Same : (stale : Bool) (id : ℕ) → Keeps Same (take_over env stale id)
  unfolding take_over inflight cancel_job
  take_over-Same stale id =
      Keeps-bind Same _ _ (Keeps-locked Same env stable LockError _ (λ s h. h)) λ busy.
        Keeps-when Same busy _ (
          Keeps-if Same stale _ _
            (Keeps-then Same _ _ (Keeps-locked Same env stable LockError _ (λ s h. h)) (
              Keeps-bind Same _ _ (Keeps-wait Same env stable LockError id) λ ended.
                Keeps-if Same ended _ _ (Keeps-pure Same LockError tt)
                  (Keeps-fail Same _ in_progress)))
            (Keeps-fail Same _ in_progress))

  module _ (u : User) (v : World) where
    -- The owner is read after the lock is taken.
    owner_ok :
        (current : Domain) (w : World)
        → catch
            (exec env (first_user (λ u. u.id == current.user_id)))
            (λ e. set_domain_error env current.id error "user not found" >> fail (db_error e))
            w
          ≡ (ok u, v)
        → v.shared.db.domains ≡ w.shared.db.domains
    unfolding first_user
    owner_ok current w h =
        catch_ok _ _ w u v h
          (λ k.
            ap (λ (x : World). x.shared.db.domains) (exec_ok env (first_user _) w u v k).1
            ∙ alone w.event w.shared)
          (λ e x k l. then_ok _ _ x u v l (λ y a b. absurd (fail_ok (db_error e) y u v b)))

    update_where_ok :
        (p : Domain → Bool) (f : Domain → Domain) (w : World) (n : ℕ) (x : World)
        → update_where env p f w ≡ (ok n, x)
        → Same w.shared
        → (count (λ d. is_live d && p d) ds ≡ n)
          × (x.shared.db.domains ≡ update (λ d. is_live d && p d) (touch (env.clock w.event) f) ds)
    unfolding update_where now ◌>>=◌ update_domains
    update_where_ok p f w n x h same =
        let (a, b) = exec_ok env (update_domains (env.clock w.event) p f) w n x h in
        let there = stable w.event w.shared same in
        (rw (← there) (ground arith), ap (λ (x : World). x.shared.db.domains) b ∙ rw there refl)

    take_lock-TakesLock :
        (id : ℕ) (current : Domain) (t : Time) (w : World)
        → current.id ≡ id
        → Same w.shared
        → take_lock env current t w ≡ (ok u, v)
        → TakesLock env id t ds v
    unfolding take_lock
    take_lock-TakesLock id current t w same there h = bind_ok _ _ w u v h (λ n x k l.
        then_ok _ _ x u v l (λ y m o.
          taken n x y m o (update_where_ok _ _ w n x (catch-fail_ok _ db_error w n x k) there)))
      where
        limit : Time
        limit = t -ℤ timeout env

        row : Domain → Bool
        row d = is_live d && lockable limit current.id d

        taken :
            (n : ℕ) (x y : World)
            → when (n == 0) (fail in_progress) x ≡ (ok tt, y)
            → catch
                (exec env (first_user (λ u. u.id == current.user_id)))
                (λ e. set_domain_error env current.id error "user not found" >> fail (db_error e))
                y
              ≡ (ok u, v)
            → (count row ds ≡ n)
              × (x.shared.db.domains ≡ update row (touch (env.clock w.event) (locked_row t)) ds)
            → TakesLock env id t ds v
        taken n x y m o (c, e) = elim (when_ok _ _ x y m) [
          | inl (some', same') ↦ record {
            event = w.event;
            free =
                let found : 0 < count row ds = ground (arith, c) in
                rw (← same) (
                  rw
                    (← count-same row (is_free limit current.id) ds
                      (is_free-lockable limit current.id))
                    found);
            locked =
                owner_ok current y o
                ∙ ap (λ (z : World). z.shared.db.domains) (sym same')
                ∙ e
                ∙ rw (← same) (
                    update-same row (is_free limit current.id)
                      (touch (env.clock w.event) (locked_row t)) ds
                      (is_free-lockable limit current.id));
          }
          | inr (none', k) ↦ absurd (fail_ok in_progress x tt y k)
        ]

    lock_current-TakesLock :
        (id : ℕ) (current : Domain) (w : World)
        → current.id ≡ id
        → Same w.shared
        → lock_current env current w ≡ (ok u, v)
        → TakesLock env id (env.clock w.event) ds v
    unfolding lock_current now ◌>>=◌
    lock_current-TakesLock id current w same there h =
        then_ok (take_over env _ current.id) _ w u v h (λ y m o.
          take_lock-TakesLock id current (env.clock w.event) y same
            (ap (λ r. r.1.shared.db.domains) (sym m) ∙ take_over-Same _ current.id w there) o)

  -- After the look for a certificate, if there is one to be.
  abbrev Checked : Bool → World → World → Type 0
  Checked require w x = (x.event ≡ w.event + (if require then 1 else 0)) × Same x.shared

  checked :
      (require : Bool) (p : Certificate → Bool) (w x : World)
      → when require
          (catch (exec env (first_certificate p) >>= (λ c. pure tt)) (λ e. fail (db_error e)))
          w
        ≡ (ok tt, x)
      → Same w.shared
      → Checked require w x
  unfolding first_certificate pure
  checked require p w x h same = elim (when_ok require _ w x h) [
    | inl (none_asked, e) ↦ rw (← e, none_asked) (omega arith, same)
    | inr (asked, k) ↦ bind_ok _ _ w tt x (catch-fail_ok _ db_error w tt x k) (λ c y m o.
        let (a, b) = exec_ok env (first_certificate p) w c y m in
        let last : y ≡ x = ground arith in
        rw (← last, asked) (rw b (omega arith, stable w.event w.shared same)))
  ]

-- Whatever the database does and whatever the other goroutines do to the rest of the state, if they
-- leave the table of domains alone meanwhile: lockDomainForCertJob succeeds only if a live row of
-- the domain was not generating, or without the time since when, or generating for longer than the
-- timeout at the time that was read before any wait; and then it has made just those rows
-- generating since that time, without a message, and changed no other row.
pub lock_domain_for_cert_job-TakesLock :
    (env : Env) (domain : Domain) (require_existing_cert : Bool) (w : World) (u : User) (v : World)
    → ((n : ℕ) (s : Shared) → (env.others n s).db.domains ≡ s.db.domains)
    → lock_domain_for_cert_job env domain require_existing_cert w ≡ (ok u, v)
    → TakesLock env domain.id
        (env.clock (w.event + (if require_existing_cert then 2 else 1)))
        w.shared.db.domains
        v
unfolding lock_domain_for_cert_job first_domain
lock_domain_for_cert_job-TakesLock env domain require w u v alone h =
    let ds = w.shared.db.domains in
    then_ok _ _ w u v h (λ x k l. bind_ok _ _ x u v l (λ current y m o.
      let (events, same) = checked env ds alone require _ w x k refl in
      let (found, ends) =
        exec_ok env (first_domain (has_id domain.id)) x current y
          (catch-fail_ok _ db_error x current y m) in
      let count' : y.event ≡ w.event + (if require then 2 else 1) = ground (arith, events) in
      rw (← count') (
        lock_current-TakesLock env ds alone u v domain.id current y
          (first_domain-id domain.id current (env.others x.event x.shared).db found)
          (rw ends (stable env ds alone x.event x.shared same)) o)))
