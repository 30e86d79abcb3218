-- ===== src/Config/Filled.antt =====
-- What `load` guarantees of the configuration it returns.
use Prim.Native.Nat.{suc}
use certhub_server.Common.{ℕ, String, false, ◌≡◌, refl, ◌≢◌, arith, str_eq, eq_iff, inr, ap, ◌∙◌}
use certhub_server.Common.Int.{ℤ, pos}
use mathlib.Core.Path.{subst}
use certhub_server.Config.{Config}
use certhub_server.Config.Defaults.{
  default_session_secret, Decoded, load, text_or, number_or, apply_defaults, set_defaults, decoded,
  missing, failed,
}

-- The settings that the rest of the program reads are filled in.
pub record IsFilled (c : Config) : Type 0 where
  pub port : c.server.port ≢ ""
  pub database_port : c.database.port ≢ ""
  pub ssl_mode : c.database.ssl_mode ≢ ""
  pub secret : c.session.secret ≢ ""
  pub max_age : c.session.max_age ≢ pos 0
  pub path : c.session.path ≢ ""
  pub name : c.session.name ≢ ""
  pub same_site : c.session.same_site ≢ ""
  pub ca_url : c.acme.ca_url ≢ ""
  pub cname_target : c.domain.cname_target ≢ ""
  pub propagation_timeout : c.dns.propagation_timeout ≢ ""
  pub propagation_interval : c.dns.propagation_interval ≢ ""
  pub requests_per_minute : c.rate_limit.requests_per_minute ≢ pos 0
  pub check_interval : c.renewal.check_interval ≢ ""
  pub renew_before_days : c.renewal.renew_before_days ≢ pos 0
  pub generating_timeout : c.renewal.generating_timeout ≢ ""
  pub generating_check_interval : c.renewal.generating_check_interval ≢ ""
  pub renew_backoff_base : c.renewal.renew_backoff_base ≢ ""
  pub renew_backoff_max : c.renewal.renew_backoff_max ≢ ""

filled : (default field : String) → str_eq default "" ≡ false → text_or default field ≢ ""
unfolding text_or
filled default field h = ground (arith, eq_iff field "", eq_iff default "")

number_filled : (n : ℕ) (field : ℤ) → number_or (pos (suc n)) field ≢ pos 0
unfolding number_or
number_filled n field = ground arith

apply_defaults-IsFilled : (c : Config) → IsFilled (apply_defaults c)
unfolding apply_defaults
apply_defaults-IsFilled c = record {
  port = filled _ _ refl;
  database_port = filled _ _ refl;
  ssl_mode = filled _ _ refl;
  secret = filled _ _ refl;
  max_age = number_filled 2_591_999 _;
  path = filled _ _ refl;
  name = filled _ _ refl;
  same_site = filled _ _ refl;
  ca_url = filled _ _ refl;
  cname_target = filled _ _ refl;
  propagation_timeout = filled _ _ refl;
  propagation_interval = filled _ _ refl;
  requests_per_minute = number_filled 59 _;
  check_interval = filled _ _ refl;
  renew_before_days = number_filled 29 _;
  generating_timeout = filled _ _ refl;
  generating_check_interval = filled _ _ refl;
  renew_backoff_base = filled _ _ refl;
  renew_backoff_max = filled _ _ refl;
}

text_or_fixed : (default field : String) → field ≢ "" → text_or default field ≡ field
unfolding text_or
text_or_fixed default field h = ground (arith, eq_iff field "")

number_or_fixed : (default field : ℤ) → field ≢ pos 0 → number_or default field ≡ field
unfolding number_or
number_or_fixed default field h = ground arith

apply_defaults_fixed : (c : Config) → IsFilled c → apply_defaults c ≡ c
unfolding apply_defaults
apply_defaults_fixed c h = rw (
  text_or_fixed "8080" _ h.port,
  text_or_fixed "5432" _ h.database_port,
  text_or_fixed "disable" _ h.ssl_mode,
  text_or_fixed default_session_secret _ h.secret,
  number_or_fixed (pos 2_592_000) _ h.max_age,
  text_or_fixed "/" _ h.path,
  text_or_fixed "certhub_session" _ h.name,
  text_or_fixed "lax" _ h.same_site,
  text_or_fixed "https://acme-v02.api.letsencrypt.org/directory" _ h.ca_url,
  text_or_fixed "cname.yourservice.com" _ h.cname_target,
  text_or_fixed "5m" _ h.propagation_timeout,
  text_or_fixed "2s" _ h.propagation_interval,
  number_or_fixed (pos 60) _ h.requests_per_minute,
  text_or_fixed "1h" _ h.check_interval,
  number_or_fixed (pos 30) _ h.renew_before_days,
  text_or_fixed "15m" _ h.generating_timeout,
  text_or_fixed "5m" _ h.generating_check_interval,
  text_or_fixed "6h" _ h.renew_backoff_base,
  text_or_fixed "72h" _ h.renew_backoff_max,
)

set_defaults_fixed : apply_defaults set_defaults ≡ set_defaults
unfolding apply_defaults set_defaults text_or number_or
set_defaults_fixed = refl

-- Every configuration that `load` returns has the settings of `IsFilled`.
pub load-IsFilled : (d : Decoded) (c : Config) → load d ≡ inr c → IsFilled c
unfolding load
load-IsFilled (decoded file) c e =
    let same : apply_defaults file ≡ c = ground arith in
    subst IsFilled same (apply_defaults-IsFilled file)
load-IsFilled missing c e =
    let same : set_defaults ≡ c = ground arith in
    subst IsFilled (set_defaults_fixed ∙ same) (apply_defaults-IsFilled set_defaults)
load-IsFilled (failed text) c e = absurd (ground arith)

-- A file that has all these settings is loaded as it is: a default replaces no setting that is
-- given.
pub load_fixed : (file : Config) → IsFilled file → load (decoded file) ≡ inr file
unfolding load
load_fixed file h = ap inr (apply_defaults_fixed file h)
