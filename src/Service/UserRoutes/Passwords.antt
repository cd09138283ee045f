-- ===== src/Service/UserRoutes/Passwords.antt =====
-- service/src/routes/users.ts: the ways to set a new password.
use lil_bobby_tables_my_crt.Common.Tests.{
  ℕ, ◌+◌, ◌*◌, String, Bool, true, false, not, ◌&&◌, Option, none, some, ltb, ◌==◌, if◌then◌else◌,
  codes,
}
use lil_bobby_tables_my_crt.Common.Action.{◌>>=◌, ◌>>◌, pure, raise}
use lil_bobby_tables_my_crt.Service.Tables.{User}
use lil_bobby_tables_my_crt.Service.Http.{other_error, send_status, Handler, fail_with, send}
use lil_bobby_tables_my_crt.Service.UserDao.{
  PublicUser, by_id, by_email, get_password_reset_token, update_user_password, get_user,
  get_user_by_reset_token,
}
use lil_bobby_tables_my_crt.Service.Session.{logged_in_or_forbidden}
use lil_bobby_tables_my_crt.Service.UserRoutes.{Bcrypt}

abbrev pub ms_per_hour : ℕ
ms_per_hour = 1000 * 60 * 60

-- `resetUsedAt`, where NULL and 0 do not count
abbrev pub is_used : Option ℕ → Bool
is_used none = false
is_used (some n) = not (n == 0)

-- `resetCreatedAt && (now - resetCreatedAt < MS_PER_HOUR)`
abbrev pub is_recent : ℕ → Option ℕ → Bool
is_recent now none = false
is_recent now (some n) = not (n == 0) && ltb now (n + ms_per_hour)

-- `POST /users/forgotPassword` once the user was looked for: the token is the answer. Without a user the
-- answer is sent, and sending it again throws.
unfoldable pub forgot_found : String → Option PublicUser → Handler String
unfolding send raise get_password_reset_token
forgot_found token none =
    send (send_status 200) >> raise (other_error (codes "Can't set headers after they are sent."))
forgot_found token (some user) = get_password_reset_token token (by_id user.id)

-- The random token is an argument.
unfoldable pub forgot_route : String → String → Handler String
unfolding get_user forgot_found
forgot_route token email = get_user (by_email email) >>= forgot_found token

-- `PUT /users/resetPassword` once the user was looked for and the two passwords were compared
unfoldable pub reset_found : String → Bool → Option User → Handler (Unit {0})
unfolding fail_with update_user_password
reset_found hash matches none w = fail_with 400 (codes "This password reset token does not exist") w
reset_found hash matches (some user) w =
    (if is_used user.reset_used_at
        then fail_with 409 (codes "Password reset token has already been used")
        else (if is_recent w.now user.reset_created_at
            then (if not matches
                then fail_with 400 (codes "New passwords do not match")
                else update_user_password (by_email user.email) hash true)
            else fail_with 400 (codes "This password reset token has expired")))
      w

module _ (b : Bcrypt) where
  -- `PUT /users/resetPassword`, with the salt of the hash
  unfoldable pub reset_route : ℕ → String → String → String → Handler (Unit {0})
  unfolding get_user_by_reset_token reset_found
  reset_route salt token new_password new_password_again =
      let hash = b.hash salt new_password in
      get_user_by_reset_token token >>= reset_found hash (b.compare new_password_again hash)

  -- `PUT /users/changePassword`
  unfoldable pub change_route : ℕ → Option User → String → String → String → Handler User
  unfolding logged_in_or_forbidden fail_with update_user_password pure
  change_route salt requester old_password new_password new_password_again =
      logged_in_or_forbidden requester (λ user.
        let hash = b.hash salt new_password in
        if not (b.compare old_password user.password_hash)
        then fail_with 400 (codes "Old password does not match your current password")
        else (if not (b.compare new_password_again hash)
            then fail_with 400 (codes "New passwords do not match")
            else (update_user_password (by_id user.id) hash false >> pure user)))
