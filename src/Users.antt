-- ===== src/Users.antt =====
-- controllers/user.go: accounts. The parameters are bcrypt (utils/hash.go), whether the session
-- store saves, and what gin read of the body, its rules on e-mail and password included. A handler
-- answers with the session that the client has afterwards.
pub mod Accounts
use Prim.Native.Nat.{ℕ}
use certhub_server.Common.{
  String, Bool, true, false, not, Option, none, some, ◌⊎◌, inl, inr, str_eq, ◌==◌, if◌then◌else◌,
}
use certhub_server.Common.Int.{pos}
use certhub_server.Config.Durations.{is_registration_enabled}
use certhub_server.Models.{User}
use certhub_server.Store.{DbError, Result, ok, err, first_user, create_user}
use certhub_server.System.{Env, Act, pure, fail, catch, when, outcome, now, exec, ◌>>=◌, ◌>>◌}
use certhub_server.Http.{
  Session, Response, respond_success, respond_error, user_data, message_data, require_user_id,
  or_answer, exec_or,
}

pub record Credentials : Type 0 where
  pub email : String
  pub password : String

-- bcrypt, and the session store.
pub record Logins : Type 0 where
  pub hash_password : String → Option String
  pub check_password_hash : String → String → Bool
  pub saves : ℕ → Bool

abbrev pub invalid_login : Response
invalid_login = respond_error 401 "Invalid email or password"

abbrev pub new_user : String → String → User
new_user email password = record {
  id = 0;
  email = email;
  password = password;
  created_at = pos 0;
  updated_at = pos 0;
}

unfoldable pub taken : Result DbError User → Bool
taken (ok user) = true
taken (err e) = false

module _ (env : Env) (lib : Logins) where
  -- session.Set and session.Save, and the answer with the user's data.
  unfoldable pub start_session : User → Act Response (Response × Session)
  start_session user = do
    when (not (lib.saves user.id)) (fail (respond_error 500 "Failed to save session"))
    pure (respond_success (user_data user.id user.email), some user.id)

  unfoldable pub register_new : Credentials → Act Response (Response × Session)
  unfolding taken
  register_new input = do
    existing ← outcome (exec env (first_user (λ u. str_eq u.email input.email)))
    when (taken existing) (fail (respond_error 409 "User already exists"))
    hashed ←
        or_answer (respond_error 500 "Failed to hash password") (lib.hash_password input.password)
    t ← now env
    user ←
        exec_or (respond_error 500 "Failed to create user")
          (exec env (create_user t (new_user input.email hashed)))
    start_session user

  unfoldable pub register_bound : String ⊎ Credentials → Act Response (Response × Session)
  register_bound (inl text) = fail (respond_error 400 text)
  register_bound (inr input) = register_new input

  unfoldable pub register : String ⊎ Credentials → Act Response (Response × Session)
  unfolding register_bound
  register input = do
    when (not (is_registration_enabled env.config.auth))
        (fail (respond_error 403 "User registration is disabled"))
    register_bound input

  unfoldable pub login : String ⊎ Credentials → Act Response (Response × Session)
  login (inl text) = fail (respond_error 400 text)
  login (inr input) = do
    user ← exec_or invalid_login (exec env (first_user (λ u. str_eq u.email input.email)))
    when (not (lib.check_password_hash input.password user.password)) (fail invalid_login)
    start_session user

  unfoldable pub logout : Act Response (Response × Session)
  logout = pure (respond_success (message_data "Logged out successfully"), none)

  unfoldable pub get_profile : Session → Act Response Response
  get_profile session = do
    user_id ← require_user_id session
    user ←
        exec_or (respond_error 404 "User not found") (exec env (first_user (λ u. u.id == user_id)))
    pure (respond_success (user_data user.id user.email))
