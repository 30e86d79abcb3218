-- ===== src/Delegation.antt =====
-- services/delegation_dns.go: the TXT records of ACME challenges at the delegation targets. The
-- state that all jobs share is Cloudflare's zone and the table delegationTargetRecords; each job
-- has a provider of its own. The mutex of a target is held over a whole call of
-- replaceDelegationTXT or releaseDelegationTXT, while calls for other targets go on: before each
-- event of a call (a check of the context, a call of the API) the environment lets them change the
-- shared state. The API of cloudflare-go and dns01 of lego are parameters.
pub mod Client
pub mod Triples
pub mod Tracked
pub mod Calls
pub mod Challenge
pub mod Sequence
pub mod Single
pub mod Successor
pub use certhub_server.Delegation.Client.{
  TxtParams, Cloudflare, ApiAccess, with_token, with_key, DnsError, inactive, text, Provider,
  Records, State, DnsEnv, Call, continue, cloudflare_min_ttl, ended_as, named, or_text, prefixed,
  seen, at_event,
}
unfoldable pub use certhub_server.Delegation.Client.{
  api_access, ◌>>=◌, ◌>>◌, answer, check_context, require_active, zone_id_from, get_zone_id,
  create_record, delete_record, wrap, create_txt, delete_txt,
}
use certhub_server.Common.{
  ℕ, suc, String, Bool, true, false, not, Option, none, some, [], ◌⊎◌, inl, inr, str_eq,
  if◌then◌else◌,
}
use certhub_server.Common.Text.{◌+++◌}
use certhub_server.Common.Dict.{Dict, lookup, insert, delete}
use certhub_server.Common.Int.{ℤ}
use certhub_server.Config.{CloudflareConfig, DnsConfig}
use certhub_server.Config.Durations.{propagation_timeout_duration, propagation_interval_duration}
use certhub_server.Store.{Result, ok, err}
use certhub_server.Acme.{Liveness, live, context_ended, superseded, require_acme_active}

-- The id of a target's record, empty if there is none.
abbrev pub id_or_empty : Option String → String
id_or_empty none = ""
id_or_empty (some id) = id

unfoldable pub tracked : String → Dict → String
tracked name targets = id_or_empty (lookup name targets)

module _ (cf : Cloudflare) (env : DnsEnv cf) where
  -- state.recordID = id
  unfoldable pub track : String → String → Call cf (Unit {0})
  track name id s = (
    ok tt,
    record s { shared = let r = s.shared in record r { targets = insert name id r.targets } },
  )

  unfoldable pub current_id : String → Call cf String
  current_id name s = (ok (tracked name s.shared.targets), s)

  -- Logs a warning in case of an error, which is dropped.
  unfoldable pub warned_of :
      Result DnsError (Unit {0}) × State cf → Result DnsError (Unit {0}) × State cf
  warned_of (ok u, s) = (ok tt, s)
  warned_of (err e, s) =
      (ok tt, record s { shared = let r = s.shared in record r { warned = true } })

  unfoldable pub or_warn : Call cf (Unit {0}) → Call cf (Unit {0})
  or_warn m s = warned_of (m s)

  -- The branch of replaceDelegationTXT that removes the previous record.
  unfoldable pub delete_previous : String → String → Call cf (Unit {0})
  delete_previous name id =
      if str_eq id "" then answer (ok tt) else (do or_warn (delete_txt cf env id); track name "")

  unfoldable pub replace_delegation_txt : String → String → Call cf String
  replace_delegation_txt name content = do
    require_active cf env
    require_active cf env
    id ← current_id name
    delete_previous name id
    require_active cf env
    new ← create_txt cf env name content
    track name new
    answer (ok new)

  unfoldable pub release_delegation_txt : String → String → Call cf (Unit {0})
  release_delegation_txt name id = do
    current ← current_id name
    if str_eq current id then (do delete_txt cf env id; track name "") else answer (ok tt)

  unfoldable pub remember : String → String → String → Call cf (Unit {0})
  remember token name id s = (
    ok tt,
    record s {
      provider =
          let p = s.provider in
          record p {
            record_ids = insert token id p.record_ids;
            target_names = insert token name p.target_names;
          };
    },
  )

  unfoldable pub forget : String → State cf → State cf
  forget token s = record s {
    provider =
        let p = s.provider in
        record p {
          record_ids = delete token p.record_ids;
          target_names = delete token p.target_names;
        };
  }

  -- d.getDelegationTarget(domain)
  unfoldable pub lookup_target : String → Call cf String
  lookup_target domain s =
      (named (env.delegation_target s.event domain), at_event cf env (seen cf env s) s)

  unfoldable pub present : String → String → String → Call cf (Unit {0})
  present domain token key_auth = do
    require_active cf env
    target ←
        wrap cf env ("delegation DNS: lookup target for " +++ env.quote domain +++ ": ")
          (lookup_target domain)
    let name = env.un_fqdn (env.to_fqdn target)
    id ← replace_delegation_txt name (env.challenge_value domain key_auth)
    remember token name id

  -- The error of a release is logged and handed on.
  unfoldable pub warned_error :
      Result DnsError (Unit {0}) × State cf → Result DnsError (Unit {0}) × State cf
  warned_error (ok u, s) = (ok tt, s)
  warned_error (err e, s) =
      (err e, record s { shared = let r = s.shared in record r { warned = true } })

  unfoldable pub clean_up_known : String → Option String → Call cf (Unit {0})
  clean_up_known token none s = (ok tt, s)
  clean_up_known token (some id) s =
      let name = id_or_empty (lookup token s.provider.target_names) in
      warned_error (release_delegation_txt name id (forget token s))

  unfoldable pub clean_up : String → Call cf (Unit {0})
  clean_up token s = clean_up_known token (lookup token s.provider.record_ids) s

-- newDelegationDNSProvider: a new client has looked no zone up.
abbrev pub new_delegation_dns_provider : Provider
new_delegation_dns_provider = record { zone = none; record_ids = []; target_names = [] }

-- DelegationDNSProvider.Timeout
abbrev pub provider_timeout : (String → Option ℤ) → DnsConfig → ℤ × ℤ
provider_timeout parse_duration dns = (
  propagation_timeout_duration parse_duration dns,
  propagation_interval_duration parse_duration dns,
)
