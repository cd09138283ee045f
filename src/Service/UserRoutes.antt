-- ===== src/Service/UserRoutes.antt =====
-- service/src/routes/users.ts: signing up, logging in and out, and deleting an account.
pub mod Passwords
use lil_bobby_tables_my_crt.Common.Tests.{
  ℕ, String, ◌≡◌, Bool, true, false, not, Option, none, some, List, if◌then◌else◌, codes,
}
use lil_bobby_tables_my_crt.Common.Exec.{Result, ok, throw}
use lil_bobby_tables_my_crt.Common.Action.{◌>>=◌, ◌>>◌, pure}
use lil_bobby_tables_my_crt.Service.Tables.{User}
use lil_bobby_tables_my_crt.Service.Http.{Failure, http_error, Handler, fail_with, required}
use lil_bobby_tables_my_crt.Service.UserDao.{
  PublicUser, public, by_email, get_all_users, get_user_with_hash, make_user, delete_user,
}
use lil_bobby_tables_my_crt.Service.SessionDao.{clear_session}
use lil_bobby_tables_my_crt.Service.Session.{
  create_active_session, logged_in_or_forbidden, admin_logged_in_or_forbidden,
}

-- The `bcrypt` package: the hash of a password with a salt, and the test of a password.
pub record Bcrypt : Type 0 where
  pub hash : ℕ → String → String
  pub compare : String → String → Bool

-- A password meets its own hash, whatever the salt.
abbrev pub AcceptsOwn : Bcrypt → Type 0
AcceptsOwn b = (salt : ℕ) (password : String) → b.compare password (b.hash salt password) ≡ true

-- `GET /users`
unfoldable pub list_users : Option User → Handler (List User)
unfolding admin_logged_in_or_forbidden get_all_users
list_users user = admin_logged_in_or_forbidden user (λ _. get_all_users)

-- `GET /users/me`
unfoldable pub show_me : Option User → Handler PublicUser
unfolding logged_in_or_forbidden pure
show_me user = logged_in_or_forbidden user (λ u. pure (public u))

-- `try { await createActiveSession } catch`
unfoldable pub session_or_error : ℕ → String → Handler String
unfolding create_active_session
session_or_error id token w = let r = create_active_session id token w in (failed r.0, r.1)
  where
    failed : Result Failure String → Result Failure String
    failed (ok t) = ok t
    failed (throw e) = throw (http_error 500 none)

module _ (b : Bcrypt) where
  -- `POST /users/login`: the user, and the token that the cookie gets
  unfoldable pub login_route : String → String → String → Handler (PublicUser × String)
  unfolding get_user_with_hash required session_or_error pure fail_with
  login_route token email password = do
    user ←
        get_user_with_hash (by_email email)
        >>= required (http_error 403 (some (codes "User not found")))
    (if not (b.compare password user.password_hash)
        then fail_with 403 (codes "Invalid Password")
        else do cookie ← session_or_error user.id token; pure (public user, cookie))

  -- `try { user = await userDao.makeUser(user) } catch`
  unfoldable pub user_or_taken : String → String → Handler (Option PublicUser)
  unfolding make_user
  user_or_taken email hash w = let r = make_user email hash false w in (taken r.0, r.1)
    where
      taken : Result Failure (Option PublicUser) → Result Failure (Option PublicUser)
      taken (ok u) = ok u
      -- the only error of `makeUser` here
      taken (throw e) =
          throw (http_error 400 (some (codes "An account with that email address already exists")))

  -- `POST /users/signup`
  unfoldable pub signup_route : ℕ → String → String → Bool → Handler (Option PublicUser)
  unfolding fail_with user_or_taken
  signup_route salt email password agree_to_terms =
      if not agree_to_terms
      then fail_with 400 (codes "You must accept the terms of use.")
      else user_or_taken email (b.hash salt password)

-- `PUT /users/logout`
unfoldable pub logout_route : Option User → Handler (Unit {0})
unfolding logged_in_or_forbidden clear_session
logout_route user = logged_in_or_forbidden user (λ u. clear_session u.id)

-- `DELETE /users/:id`: the promise of the deletion is compared with null and sent, which gives `{}`.
unfoldable pub delete_user_route : Option User → ℕ → Handler (Unit {0})
unfolding admin_logged_in_or_forbidden delete_user pure
delete_user_route user id = admin_logged_in_or_forbidden user (λ _. do _ ← delete_user id; pure tt)
