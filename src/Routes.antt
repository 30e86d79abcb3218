-- ===== src/Routes.antt =====
-- routes/routes.go: which handler stands behind which middleware. How gin matches the path of a
-- request is a parameter; a chain runs its middleware in order until one of them ends the request.
pub mod Guarded
use certhub_server.Common.{
  ℕ, String, Bool, true, false, not, ◌&&◌, ◌||◌, Option, none, some, ◌⊎◌, inl, inr, List, [], ◌∷◌,
  ◌++◌, all, find, str_eq, if◌then◌else◌,
}
use certhub_server.Config.{SessionConfig}
use certhub_server.Common.Int.{ℤ}
use certhub_server.Http.{Session, Response}
use certhub_server.RateLimit.{auth_middleware}

pub data SameSite : Type 0 where
  strict none_mode lax : SameSite

unfoldable pub parse_same_site : String → SameSite
parse_same_site value =
    if str_eq value "strict" then strict else if str_eq value "none" then none_mode else lax

-- sessions.Options of the cookie store.
pub record SessionOptions : Type 0 where
  pub max_age : ℤ
  pub path : String
  pub http_only : Bool
  pub secure : Bool
  pub same_site : SameSite

unfoldable pub session_options : SessionConfig → SessionOptions
session_options s = record {
  max_age = s.max_age;
  path = s.path;
  http_only = s.http_only;
  secure = s.secure;
  same_site = parse_same_site s.same_site;
}

pub data Method : Type 0 where
  get post put patch delete : Method

pub data Middleware : Type 0 where
  rate_limit cors sessions auth cert_issue_rate_limit : Middleware

pub data Handler : Type 0 where
  health register login logout get_profile : Handler
  add_domain list_domains get_domain update_domain delete_domain : Handler
  get_cname verify_cname : Handler
  issue_certificate get_certificate_info download_domain_certificate : Handler
  list_deploy_targets add_deploy_target update_deploy_target delete_deploy_target : Handler
  deploy_domain get_deploy_job : Handler
  generate_certificate renew_certificate list_certificates download_certificate : Handler

pub record Route : Type 0 where
  pub method : Method
  pub path : String
  pub chain : List Middleware
  pub handler : Handler

-- gin's RouterGroup: the prefix and the middleware of its routes.
pub record Group : Type 0 where
  pub prefix : String
  pub chain : List Middleware

abbrev pub join : String → String → String
join a b = Prim.Native.String.◌++◌ a b

abbrev pub route : Group → Method → String → List Middleware → Handler → Route
route g method path extra handler = record {
  method = method;
  path = join g.prefix path;
  chain = g.chain ++ extra;
  handler = handler;
}

abbrev pub engine : Group
engine = record { prefix = ""; chain = rate_limit ∷ cors ∷ sessions ∷ [] }

abbrev pub subgroup : Group → String → List Middleware → Group
subgroup g path extra = record { prefix = join g.prefix path; chain = g.chain ++ extra }

abbrev pub api_group : Group
api_group = subgroup engine "/api" []

abbrev pub auth_group : Group
auth_group = subgroup api_group "/auth" []

-- api.Group("/"), whose prefix is the same but for the slash at its end.
abbrev pub protected_group : Group
protected_group = subgroup api_group "" (auth ∷ [])

abbrev pub domains_group : Group
domains_group = subgroup protected_group "/domains" []

abbrev pub certs_group : Group
certs_group = subgroup protected_group "/certificates" []

unfoldable pub setup_router : List Route
setup_router =
    route engine get "/health" [] health
    ∷ route auth_group post "/register" [] register
    ∷ route auth_group post "/login" [] login
    ∷ route auth_group post "/logout" [] logout
    ∷ route protected_group get "/profile" [] get_profile
    ∷ route domains_group post "" [] add_domain
    ∷ route domains_group get "" [] list_domains
    ∷ route domains_group get "/:id" [] get_domain
    ∷ route domains_group patch "/:id" [] update_domain
    ∷ route domains_group delete "/:id" [] delete_domain
    ∷ route domains_group get "/:id/cname" [] get_cname
    ∷ route domains_group post "/:id/cname/verify" [] verify_cname
    ∷ route domains_group post "/:id/certificate/issue" (cert_issue_rate_limit ∷ [])
        issue_certificate
    ∷ route domains_group get "/:id/certificate" [] get_certificate_info
    ∷ route domains_group get "/:id/certificate/download" [] download_domain_certificate
    ∷ route domains_group get "/:id/deploy/targets" [] list_deploy_targets
    ∷ route domains_group post "/:id/deploy/targets" [] add_deploy_target
    ∷ route domains_group put "/:id/deploy/targets/:targetId" [] update_deploy_target
    ∷ route domains_group delete "/:id/deploy/targets/:targetId" [] delete_deploy_target
    ∷ route domains_group post "/:id/deploy" [] deploy_domain
    ∷ route domains_group get "/:id/deploy/jobs/:jobId" [] get_deploy_job
    ∷ route certs_group post "/generate" (cert_issue_rate_limit ∷ []) generate_certificate
    ∷ route certs_group post "/renew" (cert_issue_rate_limit ∷ []) renew_certificate
    ∷ route certs_group get "" [] list_certificates
    ∷ route certs_group get "/:id/download" [] download_certificate
    ∷ []

-- What decides whether a request passes each middleware: the two limiters' answers, whether CORS
-- answers a preflight request itself, and the user of the session.
pub record Request : Type 0 where
  pub within_rate : Bool
  pub preflight : Bool
  pub session : Session
  pub within_issue_rate : Bool

abbrev pub is_let_through : Response ⊎ ℕ → Bool
is_let_through (inl response) = false
is_let_through (inr user_id) = true

unfoldable pub passes : Request → Middleware → Bool
passes r rate_limit = r.within_rate
passes r cors = not r.preflight
passes r sessions = true
passes r auth = is_let_through (auth_middleware r.session)
passes r cert_issue_rate_limit = r.within_issue_rate

unfoldable pub run_chain : Request → Option Route → Option Handler
unfolding passes
run_chain r none = none
run_chain r (some route') = if all (passes r) route'.chain then some route'.handler else none

-- The handler that a request reaches, if any.
unfoldable pub reached : (Route → Bool) → Request → Option Handler
unfolding run_chain setup_router
reached matches r = run_chain r (find matches setup_router)
