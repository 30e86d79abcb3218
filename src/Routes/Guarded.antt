-- ===== src/Routes/Guarded.antt =====
-- What stands in front of the handlers of routes/routes.go.
use certhub_server.Common.{
  Bool, true, false, not, ◌&&◌, ◌||◌, Option, none, some, ◌≡◌, refl, inl, inr, List, [], ◌∷◌, all,
  any, find, is_none, arith, Bool-cases,
}
use certhub_server.RateLimit.{auth_middleware}
use certhub_server.Routes.{
  Route, Request, Middleware, rate_limit, cors, sessions, auth, cert_issue_rate_limit, Handler,
  health, register, login, logout, issue_certificate, generate_certificate, renew_certificate,
  setup_router, passes, run_chain, reached,
}

-- The handlers that need no login, and those that start a certificate job.
abbrev pub is_public : Handler → Bool
is_public health = true
is_public register = true
is_public login = true
is_public logout = true
is_public _ = false

abbrev pub issues : Handler → Bool
issues issue_certificate = true
issues generate_certificate = true
issues renew_certificate = true
issues _ = false

abbrev is_auth : Middleware → Bool
is_auth auth = true
is_auth _ = false

abbrev is_issue_limit : Middleware → Bool
is_issue_limit cert_issue_rate_limit = true
is_issue_limit _ = false

abbrev is_guarded : Route → Bool
is_guarded r =
    (is_public r.handler || any is_auth r.chain)
    && (not (issues r.handler) || any is_issue_limit r.chain)

all_guarded : all is_guarded setup_router ≡ true
unfolding setup_router
all_guarded = refl

all-find :
    (p q : Route → Bool) (xs : List Route) (r : Route)
    → all p xs ≡ true
    → find q xs ≡ some r
    → p r ≡ true
unfolding find
all-find p q [] r h e = absurd (ground arith)
all-find p q (x ∷ xs) r h e = ground (arith, all-find p q xs r)

passes-auth :
    (r : Request) (chain : List Middleware)
    → all (passes r) chain ≡ true
    → any is_auth chain ≡ true
    → is_none r.session ≡ false
unfolding passes auth_middleware
passes-auth r [] h a = absurd (ground arith)
passes-auth r (auth ∷ ms) h a = ground arith
passes-auth r (rate_limit ∷ ms) h a = passes-auth r ms (ground arith) a
passes-auth r (cors ∷ ms) h a = passes-auth r ms (ground arith) a
passes-auth r (sessions ∷ ms) h a = passes-auth r ms (ground arith) a
passes-auth r (cert_issue_rate_limit ∷ ms) h a = passes-auth r ms (ground arith) a

passes-issue_limit :
    (r : Request) (chain : List Middleware)
    → all (passes r) chain ≡ true
    → any is_issue_limit chain ≡ true
    → r.within_issue_rate ≡ true
unfolding passes
passes-issue_limit r [] h a = absurd (ground arith)
passes-issue_limit r (cert_issue_rate_limit ∷ ms) h a = ground arith
passes-issue_limit r (rate_limit ∷ ms) h a = passes-issue_limit r ms (ground arith) a
passes-issue_limit r (cors ∷ ms) h a = passes-issue_limit r ms (ground arith) a
passes-issue_limit r (sessions ∷ ms) h a = passes-issue_limit r ms (ground arith) a
passes-issue_limit r (auth ∷ ms) h a = passes-issue_limit r ms (ground arith) a

chain_passed :
    (r : Request) (route : Route) (h : Handler)
    → run_chain r (some route) ≡ some h
    → (all (passes r) route.chain ≡ true) × (route.handler ≡ h)
unfolding run_chain
chain_passed r route h e = elim (Bool-cases (all (passes r) route.chain)) [
  | inl through ↦ (through, ground arith)
  | inr stopped ↦ absurd (ground arith)
]

nowhere : (r : Request) (h : Handler) → run_chain r none ≡ some h → ⊥
unfolding run_chain
nowhere r h e = ground arith

route_guarded :
    (r : Request) (route : Route)
    → is_guarded route ≡ true
    → all (passes r) route.chain ≡ true
    → ((is_public route.handler || not (is_none r.session)) ≡ true)
      × ((not (issues route.handler) || r.within_issue_rate) ≡ true)
route_guarded r route g through =
    ground (arith, passes-auth r route.chain through, passes-issue_limit r route.chain through)

-- However paths are matched: a request reaches a handler other than the health check, registration,
-- login and logout only with a user in its session, and one that starts a certificate job only
-- within the limit for certificate requests.
pub reached-guarded :
    (matches : Route → Bool) (r : Request) (h : Handler)
    → reached matches r ≡ some h
    → ((is_public h || not (is_none r.session)) ≡ true)
      × ((not (issues h) || r.within_issue_rate) ≡ true)
unfolding reached
reached-guarded matches r h reaches = go (find matches setup_router) refl reaches
  where
    go :
        (found : Option Route)
        → find matches setup_router ≡ found
        → run_chain r found ≡ some h
        → ((is_public h || not (is_none r.session)) ≡ true)
          × ((not (issues h) || r.within_issue_rate) ≡ true)
    go none there e = absurd (nowhere r h e)
    go (some route) there e =
        let (through, same) = chain_passed r route h e in
        let guarded = all-find is_guarded matches setup_router route all_guarded there in
        rw (← same) (route_guarded r route guarded through)
