-- ===== src/Acme.antt =====
-- services/acme_scope.go and services/acme_http.go: when the work for a certificate stops, and how
-- long shutdown waits for it.
pub mod Lego
pub mod Account
pub mod Client
pub mod Tables
pub mod OneAccount
pub mod Active
pub mod Registered
pub mod RoundTrip
pub mod Stored
use certhub_server.Common.{
  ℕ, ◌⊎◌, inl, inr, ◌*◌, String, Bool, true, false, Option, none, some, if◌then◌else◌,
}
use certhub_server.Common.Int.{ℤ, pos, ◌+ℤ◌, ltb_ℤ}
use certhub_server.Config.{Config}
use certhub_server.Config.Durations.{
  second, generating_timeout_duration, propagation_timeout_duration,
}

-- How requireACMEActive ends; the error is ctx.Err() or context.Canceled.
pub data Liveness : Type 0 where
  live : Liveness
  context_ended : Liveness
  superseded : Liveness

-- The arguments are whether the context has ended, and the answer of the scope's isActive, if a
-- scope is attached.
unfoldable pub require_acme_active : Bool → Option Bool → Liveness
require_acme_active true scope = context_ended
require_acme_active false none = live
require_acme_active false (some true) = live
require_acme_active false (some false) = superseded

-- WithCertJobScope: the scope of the context that it returns, by that of the given one.
unfoldable pub with_cert_job_scope {ℓ} : {F : Type ℓ} → Option F → Option F → Option F
with_cert_job_scope scope none = scope
with_cert_job_scope scope (some is_active) = some is_active

-- The part of net/http that the client of the certificate authority is made of: what a request
-- that is sent at an event comes to, an error or a response. `rest` is CheckRedirect and Jar.
module _ (Request Failure Reply Rest : Type 0) where
  abbrev pub Transport : Type 0
  Transport = ℕ → Request → Failure ⊎ Reply

  pub record HttpClient : Type 0 where
    pub timeout : ℤ
    pub transport : Option Transport
    pub rest : Rest

  -- contextRoundTripper, with ctx.Err() at each event.
  unfoldable pub round_trip : (ℕ → Option Failure) → Transport → Transport
  round_trip ctx_err base n request = elim (ctx_err n) [ some e ↦ inl e | none ↦ base n request ]

  abbrev pub or_default {ℓ} : {A : Type ℓ} → A → Option A → A
  or_default d none = d
  or_default d (some a) = a

  -- acmeHTTPClient; the first two arguments are lego's client and http.DefaultTransport.
  unfoldable pub acme_http_client :
      HttpClient → Transport → (ℕ → Option Failure) → Option HttpClient → HttpClient
  acme_http_client lego_client default_transport ctx_err base =
      let client = or_default lego_client base in
      record {
        timeout = client.timeout;
        transport = some (round_trip ctx_err (or_default default_transport client.transport));
        rest = client.rest;
      }

-- acmeLegoHTTPRoundBudget
abbrev pub acme_lego_http_round_budget : ℤ
acme_lego_http_round_budget = pos (120 * second)

unfoldable pub acme_work_drain_budget : (String → Option ℤ) → Config → ℤ
acme_work_drain_budget parse_duration c =
    let budget =
      propagation_timeout_duration parse_duration c.dns
      +ℤ acme_lego_http_round_budget
      +ℤ pos (30 * second) in
    let max = generating_timeout_duration parse_duration c.renewal in
    if ltb_ℤ max budget then max else budget
