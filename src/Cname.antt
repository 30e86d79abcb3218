-- ===== src/Cname.antt =====
-- services/dns_verify.go: the check of the delegation record.
use certhub_server.Common.{String, ◌⊎◌, inl, inr, str_eq, if◌then◌else◌}
use certhub_server.Common.Text.{◌+++◌, trim_dot}
use certhub_server.System.{Env, Act, pure, fail, resolve_cname, ◌>>=◌}

unfoldable pub challenge_host : String → String
challenge_host domain = "_acme-challenge." +++ trim_dot domain

module _ (env : Env) where
  -- The comparison of the record that was found, or the error of the lookup, as text.
  unfoldable pub compared : String → String → String ⊎ String → Act String (Unit {0})
  compared host expected (inl text) = fail ("CNAME lookup failed for " +++ host +++ ": " +++ text)
  compared host expected (inr cname) =
      let actual = trim_dot (env.to_lower cname) in
      if str_eq actual expected
      then pure tt
      else fail (
          "CNAME mismatch for "
          +++ host
          +++ ": got "
          +++ env.quote actual
          +++ ", expected "
          +++ env.quote expected)

  unfoldable pub verify_challenge_cname : String → String → Act String (Unit {0})
  verify_challenge_cname domain expected_target = do
    let host = challenge_host domain
    let expected = trim_dot (env.to_lower expected_target)
    cname ← resolve_cname env host
    compared host expected cname
