-- ===== src/Deploy/Gate.antt =====
-- The gate before the deploy handlers.
use certhub_server.Common.{String, false, Option, List, ◌≡◌, refl, ◌⊎◌}
use certhub_server.Config.Durations.{is_deploy_enabled}
use certhub_server.Models.{Bytes, DeployTarget}
use certhub_server.Store.{err}
use certhub_server.System.{Env, World, acts}
use certhub_server.Http.{Web, Session, Response, respond_error}
use certhub_server.Http.Dto.{DeployJobTargetDto}
use certhub_server.Deploy.{
  DeployTargetInput, require_deploy_api, require_deploy_execution, list_deploy_targets,
  add_deploy_target, update_deploy_target, delete_deploy_target, deploy_domain, get_deploy_job,
}

abbrev pub unavailable : Response
unavailable = respond_error 501 "Deploy API is not available yet"

module _ (env : Env) (web : Web) where
  -- While the deploy API is disabled, every deploy handler answers 501 before it reads or changes
  -- anything, whoever asks and for whatever.
  pub deploy-disabled :
      (order : List DeployTarget → List DeployTarget) (bytes_of : String → Bytes)
      (parse : Bytes → Option (List DeployJobTargetDto)) (session : Session)
      (id target job : String) (input : String ⊎ DeployTargetInput) (w : World)
      → is_deploy_enabled env.config.deploy ≡ false
      → (list_deploy_targets env web order session id w ≡ (err unavailable, w))
        × (add_deploy_target env web bytes_of session id input w ≡ (err unavailable, w))
        × (update_deploy_target env web bytes_of session id target input w ≡ (err unavailable, w))
        × (delete_deploy_target env web session id target w ≡ (err unavailable, w))
        × (deploy_domain env web w ≡ (err unavailable, w))
        × (get_deploy_job env web parse session id job w ≡ (err unavailable, w))
  unfolding list_deploy_targets add_deploy_target update_deploy_target delete_deploy_target
      deploy_domain get_deploy_job require_deploy_api require_deploy_execution acts
  deploy-disabled order bytes_of parse session id target job input w off =
      rw off (refl, refl, refl, refl, refl, refl)
