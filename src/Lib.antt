-- ===== src/Lib.antt =====
-- Certhub server: a service that issues and renews TLS certificates for the domains of its users
-- by DNS delegation. Users register domains and point a CNAME record at the service; handlers and a
-- scheduler start certificate jobs, which run in goroutines of their own and write the outcome to
-- the tables.
--
-- Parts and files:
--   Common        names, tests, lists, integers and texts that the rest shares
--   Config        config/config.go: Durations the accessors, Defaults setDefaults, applyDefaults
--                 and Load, Validation Validate; Backoff, Filled and Production their properties
--   Models        models/*.go
--   Store         the tables behind config.DB, and the statements that the program sends
--   Registry      controllers/cert_job_registry.go and controllers/cert_job_semaphore.go, one
--                 function for each section under the mutex or channel operation;
--                 Registry.Workers their WaitGroups and that of StartCertJob, with the steps of a
--                 job from its slot to the return of its goroutine
--   System        what a goroutine is: an action on the shared state and an environment
--   Pem           ParseCertExpiry of services/dns_verify.go, parseCertMeta of controllers/dto.go
--   Cname         the rest of services/dns_verify.go
--   Lifecycle     the states of a domain: rollback, cleanup, backoff and lockDomainForCertJob of
--                 controllers/renewal_scheduler.go, setDomainError of controllers/certificate.go,
--                 markDomainCnameVerified of controllers/cname.go
--   CertJob       runCertJob of controllers/certificate.go and what it calls
--   Start         StartCertJob and beginCertOperation of controllers/certificate.go,
--                 runRenewalScan and tryAutoRenewDomain; Start.Api controllers/certificate_api.go,
--                 Start.Scheduler StartRenewalScheduler
--   Http          utils/response.go, utils/session.go, controllers/helpers.go; Http.Dto
--                 controllers/dto.go
--   Domains       AddDomain of controllers/domain.go and what it calls; Domains.Requests its other
--                 handlers and controllers/cname.go
--   DomainName    utils/domain.go
--   Users         controllers/user.go
--   Deploy        controllers/deploy.go and controllers/deploy_gate.go
--   RateLimit     middleware/*.go
--   Crypto        services/crypto.go, and the encryption key of config/config.go
--   Acme          services/acme_scope.go and services/acme_http.go; for services/lego.go, Acme.Lego
--                 has what it takes from other packages, Acme.Account the accounts, Acme.Client the
--                 calls that register, obtain and renew
--   Delegation    services/delegation_dns.go
--   Routes        routes/routes.go
--   Database      config/database.go
--   Main          main.go
--   Program       the entry points that write domains, one after the other
--   Examples      test data, tests, and each result at a concrete input
--
-- State. `System.Shared` is what the goroutines share: the tables (`Store.Db`), the job registry
-- (`Registry.Registry`, the map of certJobRegistry with the contexts by their tokens) and the
-- semaphore (`Registry.Slots`). An action (`System.Act`) is a function of a world, which is the
-- shared state and the number of the next event, to a result and a world. At each event (a
-- statement, a section under a mutex, a lookup, a wait, a call of the certificate authority) the
-- environment (`System.Env`) first lets the other goroutines change the shared state as they like,
-- and may let a statement fail. A theorem about any environment thus holds for every interleaving;
-- one about a quiet environment (`System.Quiet.IsQuiet`) says what the action does by itself. An
-- early return of a handler with an answer is the error of its action.
--
-- Bounds. Times and durations are integers of nanoseconds (`Common.Int.ℤ` over the native
-- numbers); the doubling of the backoff wraps around as int64 does, token numbers as uint64 do.
-- Keys are numbers without a bound. Every loop recurs on a list, a text or its count of rounds, so
-- no fuel is used. A text is a list of code points; lengths in bytes are those of its UTF-8.
--
-- Parameters are the code of other modules: gorm and PostgreSQL (by the statements of Store), gin
-- and the session store, lego, the resolver, AES-GCM and base64, PEM and X.509, bcrypt, the token
-- bucket of x/time/rate, IDNA and the Unicode tables, time.ParseDuration and the format of times.
--
-- A job of CertJob takes how ObtainCertificate or RenewExistingCertificate ends from the
-- environment's `acme`, so that what is shown of a job holds for every outcome; those calls are
-- modelled on their own, by Acme.Client, as are the DNS records that lego has them make, by
-- Delegation, with a state of its own: the zone and the table of the targets' records.
--
-- Not modelled: the connection and the migration of config/database.go and utils/logger.go, which
-- are wiring, and the HTTP server, signals and exits of main.go; log lines, except that Delegation
-- records whether there was a warning; errors of a write to memory. In an action the environment
-- says how a wait for goroutines ends; Registry.Workers shows what the counters that are waited
-- for tell. A call of the certificate authority may end with any error at any time, as it does
-- when its HTTP client's context ends.
pub mod Common
pub mod Config
pub mod Models
pub mod Pem
pub mod Store
pub mod Registry
pub mod System
pub mod Cname
pub mod Lifecycle
pub mod CertJob
pub mod DomainName
pub mod Http
pub mod Domains
pub mod Start
pub mod RateLimit
pub mod Users
pub mod Deploy
pub mod Database
pub mod Main
pub mod Program
pub mod Routes
pub mod Crypto
pub mod Acme
pub mod Delegation
pub mod Examples
