-- ===== src/Config.antt =====
-- The configuration of config/config.go: one record for each TOML section. Pointers to booleans
-- are `Option Bool`, `int` fields are ℤ.
pub mod Durations
pub mod Defaults
pub mod Validation
pub mod Backoff
pub mod Filled
pub mod Production
use certhub_server.Common.{String, Bool, List, Option}
use certhub_server.Common.Int.{ℤ}

pub record AuthConfig : Type 0 where
  pub registration_enabled : Option Bool

pub record RenewalConfig : Type 0 where
  pub enabled : Option Bool
  pub check_interval : String
  pub renew_before_days : ℤ
  pub generating_timeout : String
  pub generating_check_interval : String
  pub renew_backoff_base : String
  pub renew_backoff_max : String
  pub max_concurrent_jobs : ℤ

pub record DeployConfig : Type 0 where
  pub enabled : Option Bool

pub record ServerConfig : Type 0 where
  pub port : String
  pub addr : String
  pub allowed_origins : List String

pub record DatabaseConfig : Type 0 where
  pub host : String
  pub port : String
  pub user : String
  pub password : String
  pub db_name : String
  pub ssl_mode : String

pub record SessionConfig : Type 0 where
  pub secret : String
  pub max_age : ℤ
  pub path : String
  pub http_only : Bool
  pub secure : Bool
  pub same_site : String
  pub name : String

pub record AcmeConfig : Type 0 where
  pub ca_url : String

pub record CloudflareConfig : Type 0 where
  pub api_email : String
  pub api_key : String
  pub api_token : String

pub record DnsConfig : Type 0 where
  pub provider : String
  pub auth_zone : String
  pub propagation_timeout : String
  pub propagation_interval : String
  pub cloudflare : CloudflareConfig

pub record DomainConfig : Type 0 where
  pub cname_target : String
  pub unclaimed_error_release : String

pub record SecurityConfig : Type 0 where
  pub encryption_key : String
  pub dev_mode : Option Bool

pub record RateLimitConfig : Type 0 where
  pub enabled : Bool
  pub requests_per_minute : ℤ
  pub cert_issue_per_hour : ℤ

pub record Config : Type 0 where
  pub server : ServerConfig
  pub database : DatabaseConfig
  pub session : SessionConfig
  pub acme : AcmeConfig
  pub dns : DnsConfig
  pub domain : DomainConfig
  pub security : SecurityConfig
  pub rate_limit : RateLimitConfig
  pub renewal : RenewalConfig
  pub deploy : DeployConfig
  pub auth : AuthConfig
