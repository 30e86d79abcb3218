-- ===== src/Examples.antt =====
-- Data for the tests: a quiet environment, a small database and a registry with two jobs.
pub mod Jobs
pub mod Lifecycles
pub mod Handlers
pub mod Services
pub mod Runs
pub mod Accounts
pub mod ToyDns
pub mod Challenges
use Prim.Native.Nat.{ℕ, zero, suc}
use certhub_server.Common.{
  String, Bool, true, false, Option, none, some, List, [], ◌∷◌, ◌≡◌, refl, inl, inr,
}
use certhub_server.Common.Int.{ℤ, pos, negsuc}
use certhub_server.Config.{Config}
use certhub_server.Config.Defaults.{set_defaults}
use certhub_server.Models.{
  Time, Bytes, Status, generating, active, error, verified, pending, Domain, Certificate, User,
}
use certhub_server.Store.{Db}
use certhub_server.Registry.{Entry, Context, Registry, Slots}
use certhub_server.System.{Env, World, Shared, cancelled}
use certhub_server.System.Quiet.{IsQuiet}
use certhub_server.Http.{Web}

abbrev pub test_config : Config
test_config = record set_defaults { auth = record { registration_enabled = some true } }

abbrev pub quiet_env : Env
quiet_env = record {
  config = test_config;
  parse_duration = λ _. none;
  clock = λ n. pos n;
  fault = λ _. false;
  others = λ n s. s;
  lookup_cname = λ n host. inr "1.cname.yourservice.com.";
  worker_ended = λ n id. true;
  jobs_ended = λ n. true;
  acme = λ n. cancelled;
  encrypt = λ n plain. some plain;
  decrypt = λ sealed. inr sealed;
  pem = record { decode = λ b. none; parse_certificate = λ b. none; format_hex = λ n. "" };
  add_days = λ t n. t;
  to_lower = λ s. s;
  quote = λ s. s;
}

abbrev pub quiet : IsQuiet quiet_env
quiet = record { works = λ n. refl; alone = λ n s. refl }

abbrev pub row : Status → Domain
row status = record {
  id = 1;
  user_id = 7;
  domain = "example.com";
  status = status;
  generating_since = some (pos 0);
  cname_target = "1.cname.yourservice.com";
  auto_renew = true;
  cname_verified_at = some (pos 0);
  auto_renew_failures = pos 0;
  auto_renew_backoff_until = none;
  error_message = "";
  created_at = pos 0;
  updated_at = pos 0;
  deleted_at = none;
}

abbrev pub cert : Certificate
cert = record {
  id = 3;
  domain_id = 1;
  user_id = 7;
  domain = "example.com";
  cert_pem = 1 ∷ [];
  key_pem = 2 ∷ [];
  issuer = 3 ∷ [];
  cert_url = "";
  cert_stable_url = "";
  expires_at = pos 100;
  created_at = pos 0;
  updated_at = pos 0;
}

abbrev pub owner : User
owner = record {
  id = 7;
  email = "a@example.com";
  password = "x";
  created_at = pos 0;
  updated_at = pos 0;
}

abbrev pub tables : Status → List Certificate → Db
tables status certs = record {
  domains = row status ∷ [];
  certificates = certs;
  users = owner ∷ [];
  deploy_targets = [];
  deploy_jobs = [];
  acme_accounts = [];
  next_id = 9;
}

abbrev pub two_jobs : Registry
two_jobs = record {
  jobs = record { domain_id = 1; token = 1 } ∷ record { domain_id = 2; token = 2 } ∷ [];
  contexts =
      record { token = 2; deadline = pos 90; cancelled = false }
      ∷ record { token = 1; deadline = pos 90; cancelled = false }
      ∷ [];
  token_seq = 2;
}

abbrev pub world : Db → World
world db = record {
  shared = record { db = db; registry = two_jobs; slots = record { capacity = some 5; taken = 5 } };
  event = 0;
}

-- The same, with no job registered and every slot free.
abbrev pub idle : Db → World
idle db = record {
  shared = record {
    db = db;
    registry = record { jobs = []; contexts = []; token_seq = 0 };
    slots = record { capacity = none; taken = 0 };
  };
  event = 0;
}

abbrev pub test_web : Web
test_web = record {
  format_time = λ t. "";
  parse_uint = λ s. some 1;
  text_of = λ b. "";
  trim_space = λ s. s;
  to_ascii = λ s. some s;
  parses_ip = λ s. false;
}
