-- ===== src/Users/Accounts.antt =====
-- Registering and logging in, in a quiet environment.
use Prim.Native.Nat.{suc}
use certhub_server.Common.{
  String, Bool, true, false, not, Option, none, some, [], ◌∷◌, ◌++◌, ◌≡◌, refl, ◌∙◌, ap, find, any,
  str_eq, eq_refl, find-append, find-any, is_none, inr,
}
use certhub_server.Config.Durations.{is_registration_enabled}
use certhub_server.Models.{User}
use certhub_server.Store.{ok, first_user, create_user, found}
use certhub_server.System.{Env, World, Shared, acts, after, exec}
use certhub_server.System.Quiet.{IsQuiet, exec-quiet}
use certhub_server.Http.{Response, Session, respond_success, user_data, exec_or}
use certhub_server.Users.{
  Credentials, Logins, new_user, taken, register_bound, register_new, start_session, register,
  login,
}

-- The row of a new account.
abbrev pub account : Env → Credentials → String → World → User
account env input hashed w =
    let t = env.clock (suc w.event) in
    record (new_user input.email hashed) {
      id = w.shared.db.next_id;
      created_at = t;
      updated_at = t;
    }

-- The answer to a client that is logged in as a user.
abbrev pub logged_in : User → Response × Session
logged_in u = (respond_success (user_data u.id u.email), some u.id)

module _ (env : Env) (q : IsQuiet env) (lib : Logins) where
  -- The tables with the new account.
  abbrev joined : User → World → Shared
  joined u w =
      let db = w.shared.db in
      record w.shared { db = record db { users = db.users ++ u ∷ []; next_id = suc db.next_id } }

  first_user-quiet :
      (p : User → Bool) (o : Option User) (w : World)
      → find p w.shared.db.users ≡ o
      → exec env (first_user p) w ≡ (found o, after w w.shared)
  unfolding first_user
  first_user-quiet p o w e = rw (exec-quiet env q, first_user) (rw e)

  create_user-quiet :
      (input : Credentials) (hashed : String) (w : World)
      → any (λ u. str_eq u.email input.email) w.shared.db.users ≡ false
      → exec env
          (create_user (env.clock (suc w.event)) (new_user input.email hashed))
          (after w w.shared)
        ≡ (
          ok (account env input hashed w),
          after (after w w.shared) (joined (account env input hashed w) w),
        )
  unfolding create_user
  create_user-quiet input hashed w free =
      rw
        (exec-quiet env q (create_user (env.clock (suc w.event)) (new_user input.email hashed))
          (after w w.shared))
        (rw free refl)

  -- Who registers an address that has no account is logged in under a new account, and can log in
  -- to that account with the same credentials afterwards, if bcrypt accepts what it hashed.
  pub login-register :
      (input : Credentials) (hashed : String) (w : World)
      → is_registration_enabled env.config.auth ≡ true
      → find (λ u. str_eq u.email input.email) w.shared.db.users ≡ none
      → lib.hash_password input.password ≡ some hashed
      → lib.check_password_hash input.password hashed ≡ true
      → lib.saves w.shared.db.next_id ≡ true
      → let end' = register env lib (inr input) w in
        (end'.0 ≡ ok (logged_in (account env input hashed w)))
        × ((login env lib (inr input) end'.1).0 ≡ ok (logged_in (account env input hashed w)))
  unfolding register register_bound register_new taken login start_session exec_or acts find
  login-register input hashed w enabled free hash accepts saved =
      let by_email = λ (u : User). str_eq u.email input.email in
      let row = account env input hashed w in
      let unused : any by_email w.shared.db.users ≡ false =
        find-any by_email w.shared.db.users ∙ ap (λ o. not (is_none o)) free in
      let w2 = after (after w w.shared) (joined row w) in
      let there : find by_email (w.shared.db.users ++ row ∷ []) ≡ some row =
        find-append by_email w.shared.db.users (row ∷ [])
        ∙ rw free (rw (eq_refl input.email) refl) in
      rw enabled (
        rw (first_user-quiet by_email none w free) (
          rw hash (
            rw (create_user-quiet input hashed w unused) (
              rw saved (
                rw (first_user-quiet by_email (some row) w2 there)
                  (rw accepts (rw saved (refl, refl))))))))
