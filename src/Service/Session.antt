-- ===== src/Service/Session.antt =====
-- service/src/auth/session.ts: sessions that last while they are used, and the guards of the routes.
use lil_bobby_tables_my_crt.Common.Tests.{
  ℕ, ◌+◌, String, Bool, true, false, not, ◌&&◌, ◌||◌, Option, none, some, str_eq, ltb, ◌==◌,
  if◌then◌else◌, codes,
}
use lil_bobby_tables_my_crt.Common.Action.{◌>>=◌, ◌>>◌, pure, raise}
use lil_bobby_tables_my_crt.Service.Http.{Text, http_error, other_error, Handler}
use lil_bobby_tables_my_crt.Service.Tables.{User}
use lil_bobby_tables_my_crt.Service.SessionDao.{
  get_user_with_token, begin_session, clear_session, update_session,
}

-- The setting, or two hours.
abbrev pub session_duration : Option ℕ → ℕ
session_duration none = 7_200_000
session_duration (some setting) = if ltb 0 setting then setting else 7_200_000

-- The random token is an argument; it is set as a cookie.
unfoldable pub create_active_session : ℕ → String → Handler String
unfolding raise begin_session pure
create_active_session id token =
    if id == 0
    then raise (other_error (codes "Cannot create an active session without a user id"))
    else (begin_session id token >> pure token)

-- `!lastTokenCheck || lastTokenCheck < now - sessionDuration`
abbrev pub is_expired : ℕ → ℕ → Option ℕ → Bool
is_expired duration now none = true
is_expired duration now (some check) = (check == 0) || ltb (check + duration) now

unfoldable pub known_session : ℕ → String → User → Handler (Option User)
unfolding clear_session update_session get_user_with_token pure
known_session duration token user w =
    (if is_expired duration w.now user.last_token_check
        then (clear_session user.id >> pure none)
        else do session ← update_session user.id; get_user_with_token token)
      w

unfoldable pub check_user : ℕ → String → Option User → Handler (Option User)
unfolding known_session pure
check_user duration token none = pure none
check_user duration token (some user) = known_session duration token user

-- The user of the request, if its cookie opens a session.
unfoldable pub session_middleware : ℕ → Option String → Handler (Option User)
unfolding get_user_with_token check_user pure
session_middleware duration none = pure none
session_middleware duration (some token) =
    if str_eq token "" then pure none else get_user_with_token token >>= check_user duration token

-- The guards of the routes; the second flag of a guard tells whether it redirects.
pub data Gate : Type 0 where
  granted : User → Gate
  redirect : Text → Gate
  forbidden : Text → Gate

abbrev pub gatekeeper : Bool → Bool → Gate
gatekeeper true admin = redirect (codes "/login")
gatekeeper false admin =
    forbidden (if admin then codes "admin login required" else codes "login required")

abbrev pub get_logged_in_middleware : Bool → Bool → Option User → Gate
get_logged_in_middleware admin redirects none = gatekeeper redirects admin
get_logged_in_middleware admin redirects (some user) =
    if admin && not user.is_admin then gatekeeper redirects admin else granted user

-- `loggedInOrForbidden` and `adminLoggedInOrForbidden` before a route
unfoldable pub behind : {A : Type 0} → Gate → (User → Handler A) → Handler A
unfolding raise
behind (granted user) route = route user
behind (redirect url) route = raise (http_error 307 (some url))
behind (forbidden message) route = raise (http_error 403 (some message))

unfoldable pub logged_in_or_forbidden : {A : Type 0} → Option User → (User → Handler A) → Handler A
logged_in_or_forbidden user = behind (get_logged_in_middleware false false user)

unfoldable pub admin_logged_in_or_forbidden :
    {A : Type 0} → Option User → (User → Handler A) → Handler A
admin_logged_in_or_forbidden user = behind (get_logged_in_middleware true false user)
