-- ===== src/System.antt =====
-- The world that the controllers run in: the tables, the job registry and the semaphore, shared
-- by every goroutine, and an environment that decides all else. An action is what one goroutine
-- does; it meets the others only at its events (a statement, a section under a mutex, a lookup, a
-- wait), and before each event the environment lets them change the shared state as they like.
pub mod Keeps
pub mod Quiet
pub mod Inversion
use certhub_server.Common.{ℕ, suc, String, Bool, true, false, Option, ◌⊎◌, if◌then◌else◌}
use certhub_server.Common.Int.{ℤ}
use certhub_server.Config.{Config}
use certhub_server.Models.{Time, Bytes}
use certhub_server.Store.{
  Db, DbError, not_found, duplicated_key, failed, Result, ok, err, Statement,
}
use certhub_server.Pem.{PemReader}
use certhub_server.Registry.{Registry, Slots}

pub record Shared : Type 0 where
  pub db : Db
  pub registry : Registry
  pub slots : Slots

pub record World : Type 0 where
  pub shared : Shared
  pub event : ℕ

-- What lego returns: certificate.Resource.
pub record CertResource : Type 0 where
  pub domain : String
  pub cert_url : String
  pub cert_stable_url : String
  pub certificate : Bytes
  pub private_key : Bytes
  pub issuer_certificate : Bytes

-- How ObtainCertificate or RenewExistingCertificate ends; `cancelled` is an error that is
-- context.Canceled or context.DeadlineExceeded, `panicked` a panic in the goroutine of the job.
pub data AcmeOutcome : Type 0 where
  issued : CertResource → AcmeOutcome
  cancelled : AcmeOutcome
  refused : String → AcmeOutcome
  panicked : AcmeOutcome

-- What the program does not decide, by the number of the event: the configuration, the clock,
-- which statements fail, what other goroutines have done since the last event, how a lookup ends,
-- whether a wait for a worker or for all jobs ends before its timeout, what the certificate
-- authority answers, whether encryption finds random bytes; and functions of the standard library.
pub record Env : Type 0 where
  pub config : Config
  pub parse_duration : String → Option ℤ
  pub clock : ℕ → Time
  pub fault : ℕ → Bool
  pub others : ℕ → Shared → Shared
  pub lookup_cname : ℕ → String → String ⊎ String
  pub worker_ended : ℕ → ℕ → Bool
  pub jobs_ended : ℕ → Bool
  pub acme : ℕ → AcmeOutcome
  pub encrypt : ℕ → Bytes → Option Bytes
  pub decrypt : Bytes → String ⊎ Bytes
  pub pem : PemReader
  pub add_days : Time → ℤ → Time
  pub to_lower : String → String
  pub quote : String → String

abbrev pub Act {ℓ κ} : Type ℓ → Type κ → Type (ℓ ⊔ κ)
Act E A = World → Result E A × World

unfoldable pub pure {ℓ κ} : {E : Type ℓ} {A : Type κ} → A → Act E A
pure a w = (ok a, w)

-- An early return, or an error handed up.
unfoldable pub fail {ℓ κ} : {E : Type ℓ} {A : Type κ} → E → Act E A
fail e w = (err e, w)

abbrev pub and_then {ℓ κ μ} :
    {E : Type ℓ} {A : Type κ} {B : Type μ} → Result E A × World → (A → Act E B) → Result E B × World
and_then (ok a, w) f = f a w
and_then (err e, w) f = (err e, w)

infixl 5 ◌>>=◌ ◌>>◌
unfoldable pub ◌>>=◌ {ℓ κ μ} :
    {E : Type ℓ} {A : Type κ} {B : Type μ} → Act E A → (A → Act E B) → Act E B
◌>>=◌ m f w = and_then (m w) f

unfoldable pub ◌>>◌ {ℓ κ} : {E : Type ℓ} {B : Type κ} → Act E (Unit {0}) → Act E B → Act E B
◌>>◌ m k w = and_then (m w) (λ _. k)

abbrev pub or_handle {ℓ κ μ} :
    {E : Type ℓ} {F : Type μ} {A : Type κ} → Result E A × World → (E → Act F A) → Result F A × World
or_handle (ok a, w) h = (ok a, w)
or_handle (err e, w) h = h e w

-- `if err != nil { … }`
unfoldable pub catch {ℓ κ μ} :
    {E : Type ℓ} {F : Type μ} {A : Type κ} → Act E A → (E → Act F A) → Act F A
catch m h w = or_handle (m w) h

unfoldable pub when {ℓ} : {E : Type ℓ} → Bool → Act E (Unit {0}) → Act E (Unit {0})
unfolding pure
when true m = m
when false m = pure tt

-- A call whose result and error are dropped.
abbrev pub ignored {ℓ κ} : {E : Type ℓ} {A : Type κ} → Result E A × World → World
ignored (r, w) = w

unfoldable pub attempt {ℓ κ μ} : {E : Type ℓ} {F : Type μ} {A : Type κ} → Act E A → Act F (Unit {0})
attempt m w = (ok tt, ignored (m w))

abbrev pub after : World → Shared → World
after w s = record { shared = s; event = suc w.event }

abbrev pub answered {ℓ} :
    {A : Type ℓ} → World → Shared → Result DbError A × Db → Result DbError A × World
answered w s (r, db) = (r, after w (record s { db = db }))

abbrev pub concluded {ℓ κ} : {E : Type ℓ} {A : Type κ} → World → A × Shared → Result E A × World
concluded w (a, s) = (ok a, after w s)

-- A new state of the registry.
abbrev pub registry_is : Registry → Shared → Unit {0} × Shared
registry_is r s = (tt, record s { registry = r })

module _ (env : Env) where
  -- time.Now()
  unfoldable pub now {ℓ} : {E : Type ℓ} → Act E Time
  now w = (ok (env.clock w.event), w)

  -- A statement. One that fails changes nothing.
  unfoldable pub exec : {A : Type 0} → Statement A → Act DbError A
  exec st w =
      let s = env.others w.event w.shared in
      if env.fault w.event then (err failed, after w s) else answered w s (st s.db)

  -- A section under a mutex, or an operation of a channel.
  unfoldable pub locked {ℓ κ} : {E : Type ℓ} {A : Type κ} → (Shared → A × Shared) → Act E A
  locked f w = concluded w (f (env.others w.event w.shared))

  -- waitDomainWorker: how it ends is the environment's choice.
  unfoldable pub wait_domain_worker {ℓ} : {E : Type ℓ} → ℕ → Act E Bool
  wait_domain_worker domain_id w =
      (ok (env.worker_ended w.event domain_id), after w (env.others w.event w.shared))

  -- WaitCertJobs: likewise.
  unfoldable pub wait_cert_jobs {ℓ} : {E : Type ℓ} → Act E Bool
  wait_cert_jobs w = (ok (env.jobs_ended w.event), after w (env.others w.event w.shared))

  -- resolver.LookupCNAME
  unfoldable pub resolve_cname {ℓ} : {E : Type ℓ} → String → Act E (String ⊎ String)
  resolve_cname host w = (ok (env.lookup_cname w.event host), after w (env.others w.event w.shared))

-- A transaction: its statements see no other goroutine's changes, and if it fails, none of its
-- own are kept.
abbrev pub isolated : Env → Env
isolated env = record env { others = λ n s. s }

abbrev pub settled {ℓ} : {A : Type ℓ} → Db → Result DbError A × World → Result DbError A × World
settled before (ok a, w) = (ok a, w)
settled before (err e, w) =
    (err e, record w { shared = let s = w.shared in record s { db = before } })

module _ (env : Env) where
  unfoldable pub transaction {ℓ} : {A : Type ℓ} → (Env → Act DbError A) → Act DbError A
  transaction body w =
      let s = env.others w.event w.shared in
      settled s.db (body (isolated env) (record { shared = s; event = w.event }))

  -- services.Encrypt, which draws a nonce.
  unfoldable pub seal {ℓ} : {E : Type ℓ} → Bytes → Act E (Option Bytes)
  seal plain w = (ok (env.encrypt w.event plain), w)

  -- A call of the certificate authority.
  unfoldable pub call_acme {ℓ} : {E : Type ℓ} → Act E AcmeOutcome
  call_acme w = (ok (env.acme w.event), after w (env.others w.event w.shared))

abbrev pub kept_result {ℓ κ μ} :
    {E : Type ℓ} {F : Type μ} {A : Type κ} → Result E A × World → Result F (Result E A) × World
kept_result (r, w) = (ok r, w)

-- The result of a call as a value, for a switch on its error.
unfoldable pub outcome {ℓ κ μ} :
    {E : Type ℓ} {F : Type μ} {A : Type κ} → Act E A → Act F (Result E A)
outcome m w = kept_result (m w)

-- Opens the combinators and the events at once.
unfoldable pub acts : Unit {0}
unfolding pure fail ◌>>=◌ ◌>>◌ catch when attempt now exec locked wait_domain_worker wait_cert_jobs
    resolve_cname outcome transaction call_acme seal
acts = tt
