-- ===== src/Delegation/Client.antt =====
-- The client of services/delegation_dns.go: what the jobs share, the calls of Cloudflare's API, and
-- the records that createTXT and deleteTXT make and remove. cloudflare-go is a parameter.
use certhub_server.Common.{
  ℕ, suc, String, Bool, not, Option, none, some, ◌⊎◌, inl, inr, str_eq, if◌then◌else◌,
}
use certhub_server.Common.Text.{◌+++◌}
use certhub_server.Common.Dict.{Dict}
use certhub_server.Config.{CloudflareConfig}
use certhub_server.Store.{Result, ok, err}
use certhub_server.Acme.{Liveness, live, context_ended, superseded, require_acme_active}

pub record TxtParams : Type 0 where
  pub name : String
  pub content : String
  pub ttl : ℕ

-- The API, by the number of the event: a record is made or refused with an error, and the zone may
-- change. A record is named by its id.
pub record Cloudflare : Type 1 where
  pub Remote : Type 0
  pub zone_id_by_name : ℕ → Remote → String → String ⊎ String
  pub create_dns_record : ℕ → Remote → String → TxtParams → (String ⊎ String) × Remote
  pub delete_dns_record : ℕ → Remote → String → String → Option String × Remote

-- Which constructor of cloudflare-go newCloudflareClient calls, and with what.
pub data ApiAccess : Type 0 where
  with_token : String → ApiAccess
  with_key : String → String → ApiAccess

unfoldable pub api_access : CloudflareConfig → ApiAccess
api_access c =
    if not (str_eq c.api_token "") then with_token c.api_token else with_key c.api_key c.api_email

pub data DnsError : Type 0 where
  inactive : Liveness → DnsError
  text : String → DnsError

abbrev pub cloudflare_min_ttl : ℕ
cloudflare_min_ttl = 120

-- The fields of a client and a provider that change: `zone` is the result of zoneOnce.
pub record Provider : Type 0 where
  pub zone : Option (String ⊎ String)
  pub record_ids : Dict
  pub target_names : Dict

module _ (cf : Cloudflare) where
  -- What the jobs share; `targets` has the recordID of each target, and `warned` is whether a
  -- warning has been logged.
  pub record Records : Type 0 where
    pub remote : cf.Remote
    pub targets : Dict
    pub warned : Bool

  pub record State : Type 0 where
    pub shared : Records
    pub provider : Provider
    pub event : ℕ

  -- What a call does not decide.
  pub record DnsEnv : Type 0 where
    pub auth_zone : String
    pub ended : ℕ → Bool
    pub scope : ℕ → Option Bool
    pub others : ℕ → Records → Records
    pub delegation_target : ℕ → String → String ⊎ String
    pub challenge_value : String → String → String
    pub to_fqdn : String → String
    pub un_fqdn : String → String
    pub quote : String → String

-- What a call of a job does: a function of the state that may end with an error.
abbrev pub Call : Cloudflare → Type 0 → Type 0
Call cf A = State cf → Result DnsError A × State cf

abbrev pub continue :
    {A B S : Type 0}
    → Result DnsError A × S
    → (A → S → Result DnsError B × S)
    → Result DnsError B × S
continue (ok a, s) f = f a s
continue (err e, s) f = (err e, s)

infixl 5 ◌>>=◌ ◌>>◌
unfoldable pub ◌>>=◌ :
    {S A B : Type 0}
    → (S → Result DnsError A × S)
    → (A → S → Result DnsError B × S)
    → S
    → Result DnsError B × S
◌>>=◌ m f s = continue (m s) f

unfoldable pub ◌>>◌ :
    {S B : Type 0}
    → (S → Result DnsError (Unit {0}) × S)
    → (S → Result DnsError B × S)
    → S
    → Result DnsError B × S
◌>>◌ m k s = continue (m s) (λ _. k)

unfoldable pub answer : {S A : Type 0} → Result DnsError A → S → Result DnsError A × S
answer r s = (r, s)

abbrev pub ended_as : Liveness → Result DnsError (Unit {0})
ended_as live = ok tt
ended_as context_ended = err (inactive context_ended)
ended_as superseded = err (inactive superseded)

abbrev pub named : String ⊎ String → Result DnsError String
named (inl e) = err (text e)
named (inr a) = ok a

abbrev pub or_text : Option String → Result DnsError (Unit {0})
or_text none = ok tt
or_text (some e) = err (text e)

abbrev pub prefixed : {S A : Type 0} → String → Result DnsError A × S → Result DnsError A × S
prefixed prefix (ok a, s) = (ok a, s)
prefixed prefix (err (text e), s) = (err (text (prefix +++ e)), s)
prefixed prefix (err (inactive l), s) = (err (inactive l), s)

module _ (cf : Cloudflare) (env : DnsEnv cf) where
  -- The state at an event, after the other jobs have gone on.
  abbrev pub seen : State cf → Records cf
  seen s = env.others s.event s.shared

  abbrev pub at_event : Records cf → State cf → State cf
  at_event r s = record s { shared = r; event = suc s.event }

  -- if err := ctx.Err(); err != nil { return err }
  unfoldable pub check_context : Call cf (Unit {0})
  check_context s =
      (if env.ended s.event then err (inactive context_ended) else ok tt, at_event (seen s) s)

  unfoldable pub require_active : Call cf (Unit {0})
  require_active s =
      (ended_as (require_acme_active (env.ended s.event) (env.scope s.event)), at_event (seen s) s)

  -- The first call looks the zone up, later ones give the same result.
  unfoldable pub zone_id_from : Option (String ⊎ String) → Call cf String
  zone_id_from (some known) s = (named known, s)
  zone_id_from none s =
      let found = cf.zone_id_by_name s.event (seen s).remote env.auth_zone in
      let p = record (s.provider) { zone = some found } in
      (named found, record (at_event (seen s) s) { provider = p })

  unfoldable pub get_zone_id : Call cf String
  get_zone_id s = zone_id_from s.provider.zone s

  -- The call of the API that makes a record, and the zone after it.
  unfoldable pub create_record : String → TxtParams → Call cf String
  create_record zone params s =
      let (r, remote) = cf.create_dns_record s.event (seen s).remote zone params in
      (named r, at_event (record (seen s) { remote = remote }) s)

  unfoldable pub delete_record : String → String → Call cf (Unit {0})
  delete_record zone id s =
      let (r, remote) = cf.delete_dns_record s.event (seen s).remote zone id in
      (or_text r, at_event (record (seen s) { remote = remote }) s)

  -- fmt.Errorf(prefix + "%w", err)
  unfoldable pub wrap : {A : Type 0} → String → Call cf A → Call cf A
  wrap prefix m s = prefixed prefix (m s)

  unfoldable pub create_txt : String → String → Call cf String
  create_txt name content = do
    check_context
    zone ← wrap "cloudflare zone lookup: " get_zone_id
    wrap "cloudflare create TXT: "
        (create_record zone (record { name = name; content = content; ttl = cloudflare_min_ttl }))

  unfoldable pub delete_txt : String → Call cf (Unit {0})
  delete_txt id = do check_context; zone ← get_zone_id; delete_record zone id
