-- ===== src/Deploy.antt =====
-- controllers/deploy.go and controllers/deploy_gate.go: the deploy targets of a domain.
pub mod Gate
use Prim.Native.Nat.{ℕ}
use certhub_server.Common.{
  String, Bool, true, false, not, ◌&&◌, Option, none, some, List, [], map, ◌⊎◌, inl, inr, ◌==◌,
  str_eq, if◌then◌else◌,
}
use certhub_server.Common.Int.{ℤ, pos}
use certhub_server.Config.Durations.{is_deploy_enabled}
use certhub_server.Models.{Time, Bytes, Domain, DeployTarget, DeployJob}
use certhub_server.Store.{
  DbError, Result, ok, err, first_target, find_targets, create_target, update_targets,
  delete_targets, first_job,
}
use certhub_server.System.{
  Env, Act, pure, fail, catch, when, attempt, outcome, now, exec, seal, ◌>>=◌, ◌>>◌,
}
use certhub_server.Http.{
  Web, Session, Response, respond_success, respond_error, no_data, target_data, targets_data,
  job_data, require_user_id, or_answer, exec_or, get_domain_owned, parse_domain_id,
}
use certhub_server.Http.Dto.{DeployJobTargetDto, to_deploy_target_dto, to_deploy_job_dto}

pub record DeployTargetInput : Type 0 where
  pub name : String
  pub type : String
  pub host : String
  pub port : ℤ
  pub enabled : Option Bool
  pub auth_type : String
  pub user : String
  pub private_key : String
  pub password : String
  pub cert_path : String
  pub reload_command : String

abbrev pub or_before : Bool → Option Bool → Bool
or_before b none = b
or_before b (some x) = x

-- The fields that both handlers take from the input; a secret that was not given stays.
abbrev pub filled_target :
    DeployTargetInput → Option Bytes → Option Bytes → DeployTarget → DeployTarget
filled_target input key password t = record t {
  name = input.name;
  type = input.type;
  host = input.host;
  port = input.port;
  enabled = or_before t.enabled input.enabled;
  auth_type = input.auth_type;
  ssh_user = input.user;
  private_key_pem = secret_or t.private_key_pem key;
  password_enc = secret_or t.password_enc password;
  cert_path = input.cert_path;
  reload_command = input.reload_command;
}
  where
    secret_or : Bytes → Option Bytes → Bytes
    secret_or old none = old
    secret_or old (some new') = new'

abbrev pub blank_target : ℕ → ℕ → DeployTarget
blank_target domain_id user_id = record {
  id = 0;
  domain_id = domain_id;
  user_id = user_id;
  name = "";
  type = "";
  host = "";
  port = pos 0;
  enabled = true;
  auth_type = "";
  ssh_user = "";
  private_key_pem = [];
  password_enc = [];
  cert_path = "";
  reload_command = "";
  last_deploy_at = none;
  last_status = "";
  created_at = pos 0;
  updated_at = pos 0;
}

abbrev pub target_of : ℕ → ℕ → DeployTarget → Bool
target_of target_id domain_id t = t.id == target_id && t.domain_id == domain_id

abbrev pub target_not_found : Response
target_not_found = respond_error 404 "Deploy target not found"

module _ (env : Env) where
  unfoldable pub require_deploy_api : Act Response (Unit {0})
  require_deploy_api =
      when (not (is_deploy_enabled env.config.deploy))
        (fail (respond_error 501 "Deploy API is not available yet"))

  -- Answers on both branches.
  unfoldable pub require_deploy_execution : Act Response (Unit {0})
  require_deploy_execution = do
    require_deploy_api
    fail (respond_error 501 "Certificate deploy execution is not implemented yet")

  -- Encrypts a secret, if one was given.
  unfoldable pub sealed_secret : (String → Bytes) → String → Response → Act Response (Option Bytes)
  sealed_secret bytes_of secret failure =
      if str_eq secret ""
      then pure none
      else (do key ← seal env (bytes_of secret); enc ← or_answer failure key; pure (some enc))

module _ (env : Env) (web : Web) where
  -- The parameter is `ORDER BY created_at asc`.
  unfoldable pub list_deploy_targets :
      (List DeployTarget → List DeployTarget) → Session → String → Act Response Response
  list_deploy_targets oldest_first session id = do
    require_deploy_api env
    domain ← get_domain_owned env web session id
    targets ←
        exec_or (respond_error 500 "Failed to list deploy targets")
          (exec env (find_targets (λ t. t.domain_id == domain.id)))
    pure (
        respond_success
          (targets_data (map (to_deploy_target_dto web.format_time) (oldest_first targets))))

  add_with : (String → Bytes) → Domain → ℕ → String ⊎ DeployTargetInput → Act Response Response
  add_with bytes_of domain user_id (inl text) = fail (respond_error 400 text)
  add_with bytes_of domain user_id (inr input) = do
    key ←
        sealed_secret env bytes_of input.private_key
          (respond_error 500 "Failed to encrypt private key")
    password ←
        sealed_secret env bytes_of input.password (respond_error 500 "Failed to encrypt password")
    t ← now env
    target ← exec_or (respond_error 500 "Failed to create deploy target") (
        exec env
          (create_target t (filled_target input key password (blank_target domain.id user_id))))
    pure (respond_success (target_data (to_deploy_target_dto web.format_time target)))

  unfoldable pub add_deploy_target :
      (String → Bytes) → Session → String → String ⊎ DeployTargetInput → Act Response Response
  unfolding add_with
  add_deploy_target bytes_of session id input = do
    require_deploy_api env
    domain ← get_domain_owned env web session id
    user_id ← require_user_id session
    add_with bytes_of domain user_id input

  -- What a lookup whose error is dropped leaves in the variable.
  reloaded : DeployTarget → Result DbError DeployTarget → DeployTarget
  reloaded old (ok t) = t
  reloaded old (err e) = old

  change_with : (String → Bytes) → DeployTarget → String ⊎ DeployTargetInput → Act Response Response
  unfolding reloaded
  change_with bytes_of target (inl text) = fail (respond_error 400 text)
  change_with bytes_of target (inr input) = do
    key ←
        sealed_secret env bytes_of input.private_key
          (respond_error 500 "Failed to encrypt private key")
    password ←
        sealed_secret env bytes_of input.password (respond_error 500 "Failed to encrypt password")
    t ← now env
    done ←
        outcome
          (exec env (update_targets t (λ x. x.id == target.id) (filled_target input key password)))
    again ← outcome (exec env (first_target (λ x. x.id == target.id)))
    pure (
        respond_success (
          target_data (
            to_deploy_target_dto web.format_time
              (reloaded (filled_after done input key password target) again))))
    where
      filled_after :
          Result DbError ℕ
          → DeployTargetInput
          → Option Bytes
          → Option Bytes
          → DeployTarget
          → DeployTarget
      filled_after (ok n) input key password t = filled_target input key password t
      filled_after (err e) input key password t = t

  unfoldable pub update_deploy_target :
      (String → Bytes)
      → Session
      → String
      → String
      → String ⊎ DeployTargetInput
      → Act Response Response
  unfolding change_with
  update_deploy_target bytes_of session id raw_target input = do
    require_deploy_api env
    domain ← get_domain_owned env web session id
    target_id ← or_answer (respond_error 400 "Invalid target id") (parse_domain_id web raw_target)
    target ← exec_or target_not_found (exec env (first_target (target_of target_id domain.id)))
    change_with bytes_of target input

  unfoldable pub delete_deploy_target : Session → String → String → Act Response Response
  delete_deploy_target session id raw_target = do
    require_deploy_api env
    domain ← get_domain_owned env web session id
    target_id ← or_answer (respond_error 400 "Invalid target id") (parse_domain_id web raw_target)
    n ←
        exec_or (respond_error 500 "Failed to delete deploy target")
          (exec env (delete_targets (target_of target_id domain.id)))
    when (n == 0) (fail target_not_found)
    pure (respond_success no_data)

  unfoldable pub deploy_domain : Act Response (Unit {0})
  deploy_domain = require_deploy_execution env

  unfoldable pub get_deploy_job :
      (Bytes → Option (List DeployJobTargetDto)) → Session → String → String → Act Response Response
  get_deploy_job parse_targets session id raw_job = do
    require_deploy_api env
    domain ← get_domain_owned env web session id
    job_id ← or_answer (respond_error 400 "Invalid job id") (parse_domain_id web raw_job)
    job ←
        exec_or (respond_error 404 "Deploy job not found")
          (exec env (first_job (λ j. j.id == job_id && j.domain_id == domain.id)))
    pure (respond_success (job_data (to_deploy_job_dto web.format_time parse_targets job)))
