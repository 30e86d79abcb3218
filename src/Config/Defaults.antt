-- ===== src/Config/Defaults.antt =====
-- config.Load: the defaults of config/config.go. The TOML decoder is outside the model: what it
-- makes of the file is the argument of `load`.
use certhub_server.Common.{String, true, false, none, [], str_eq, if◌then◌else◌, ◌⊎◌, inl, inr}
use certhub_server.Common.Int.{ℤ, pos, negsuc}
use certhub_server.Config.{Config}
use Prim.Native.Nat.{zero, suc}

abbrev pub default_session_secret : String
default_session_secret = "certhub-secret-change-in-production"

-- setDefaults; the fields that the source leaves out have Go's zero value.
unfoldable pub set_defaults : Config
set_defaults = record {
  server = record { port = "8080"; addr = ""; allowed_origins = [] };
  database = record {
    host = "localhost";
    port = "5432";
    user = "postgres";
    password = "";
    db_name = "certhub";
    ssl_mode = "disable";
  };
  session = record {
    secret = default_session_secret;
    max_age = pos 2_592_000;
    path = "/";
    http_only = true;
    secure = false;
    same_site = "lax";
    name = "certhub_session";
  };
  acme = record { ca_url = "https://acme-v02.api.letsencrypt.org/directory" };
  dns = record {
    provider = "cloudflare";
    auth_zone = "";
    propagation_timeout = "5m";
    propagation_interval = "2s";
    cloudflare = record { api_email = ""; api_key = ""; api_token = "" };
  };
  domain = record { cname_target = "cname.yourservice.com"; unclaimed_error_release = "72h" };
  security = record { encryption_key = ""; dev_mode = none };
  rate_limit = record {
    enabled = true;
    requests_per_minute = pos 60;
    cert_issue_per_hour = pos 10;
  };
  renewal = record {
    enabled = none;
    check_interval = "1h";
    renew_before_days = pos 30;
    generating_timeout = "15m";
    generating_check_interval = "5m";
    renew_backoff_base = "6h";
    renew_backoff_max = "72h";
    max_concurrent_jobs = pos 0;
  };
  deploy = record { enabled = none };
  auth = record { registration_enabled = none };
}

-- `if field == "" { field = default }`
unfoldable pub text_or : String → String → String
text_or default field = if str_eq field "" then default else field

-- `if field == 0 { field = default }`
unfoldable pub number_or : ℤ → ℤ → ℤ
number_or default (pos zero) = default
number_or default (pos (suc n)) = pos (suc n)
number_or default (negsuc n) = negsuc n

unfoldable pub apply_defaults : Config → Config
apply_defaults c = record c {
  server = record (c.server) { port = text_or "8080" c.server.port };
  database = record (c.database) {
    port = text_or "5432" c.database.port;
    ssl_mode = text_or "disable" c.database.ssl_mode;
  };
  session = record (c.session) {
    secret = text_or default_session_secret c.session.secret;
    max_age = number_or (pos 2_592_000) c.session.max_age;
    path = text_or "/" c.session.path;
    name = text_or "certhub_session" c.session.name;
    same_site = text_or "lax" c.session.same_site;
  };
  acme = record { ca_url = text_or "https://acme-v02.api.letsencrypt.org/directory" c.acme.ca_url };
  domain = record (c.domain) {
    cname_target = text_or "cname.yourservice.com" c.domain.cname_target;
  };
  dns = record (c.dns) {
    propagation_timeout = text_or "5m" c.dns.propagation_timeout;
    propagation_interval = text_or "2s" c.dns.propagation_interval;
  };
  rate_limit = record (c.rate_limit) {
    requests_per_minute = number_or (pos 60) c.rate_limit.requests_per_minute;
  };
  renewal = record (c.renewal) {
    check_interval = text_or "1h" c.renewal.check_interval;
    renew_before_days = number_or (pos 30) c.renewal.renew_before_days;
    generating_timeout = text_or "15m" c.renewal.generating_timeout;
    generating_check_interval = text_or "5m" c.renewal.generating_check_interval;
    renew_backoff_base = text_or "6h" c.renewal.renew_backoff_base;
    renew_backoff_max = text_or "72h" c.renewal.renew_backoff_max;
  };
}

-- What reading and decoding the configuration file gives.
pub data Decoded : Type 0 where
  decoded : Config → Decoded
  missing : Decoded
  failed : String → Decoded

-- Load; an error is on the left.
unfoldable pub load : Decoded → String ⊎ Config
load (decoded c) = inr (apply_defaults c)
load missing = inr set_defaults
load (failed e) = inl e

-- The path that Load reads, and what init does with the text of CONFIG_PATH, which is empty if it
-- is not set; an error ends the process. `read` is filepath.Abs and toml.DecodeFile.
unfoldable pub config_path : String → String
config_path path = if str_eq path "" then "./config.toml" else path

unfoldable pub init_config : (String → Decoded) → String → String ⊎ Config
init_config read path = load (read (config_path path))
