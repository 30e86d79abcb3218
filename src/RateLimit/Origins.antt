-- ===== src/RateLimit/Origins.antt =====
-- CORSMiddleware with a configuration that Validate accepts.
use Prim.Native.Nat.{ℕ}
use certhub_server.Common.{
  String, true, false, ◌||◌, Option, none, some, List, [], ◌∷◌, ◌≡◌, refl, arith, str_eq, any, ◌↔◌,
}
use certhub_server.Config.{Config}
use certhub_server.Config.Validation.{validate, is_dev_mode}
use certhub_server.Config.Production.{validate_iff, any-false}
use certhub_server.RateLimit.{cors_middleware, origin_allowed}

-- `x` is in the list.
abbrev pub Listed : String → List String → Type 0
Listed x xs = any (λ o. str_eq o x) xs ≡ true

listed-any :
    (origin : String) (xs : List String)
    → any (λ o. str_eq o origin || str_eq o "*") xs
      ≡ any (λ o. str_eq o origin) xs || any (λ o. str_eq o "*") xs
listed-any origin [] = refl
listed-any origin (x ∷ xs) = ground (arith, listed-any origin xs)

-- With a configuration that Validate accepts outside the development mode, the header allows an
-- origin with credentials just when the origin is one of the configured ones.
pub cors_middleware_iff :
    (decode_key : String → Option ℕ) (dev_env : Option String) (c : Config) (origin method : String)
    → is_dev_mode dev_env c.security ≡ false
    → validate decode_key dev_env c ≡ none
    → str_eq origin "" ≡ false
    → ((cors_middleware
          (is_dev_mode dev_env c.security)
          c.server.allowed_origins
          origin
          method).allow_origin
        ≡ some origin)
      ↔ Listed origin c.server.allowed_origins
unfolding cors_middleware origin_allowed
cors_middleware_iff decode_key dev_env c origin method prod valid given =
    let ready = (validate_iff decode_key dev_env c prod).0 valid in
    let no_star = (any-false c.server.allowed_origins).1 ready.no_wildcard in
    rw prod (rw given (rw (listed-any origin c.server.allowed_origins) (rw no_star (ground arith))))
