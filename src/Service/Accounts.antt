-- ===== src/Service/Accounts.antt =====
-- service/src/routes/users.ts behind the session middleware of service/src/main.ts: sequences of requests.
pub mod Kept
pub mod Sessions
pub mod Resets
pub mod Opened
pub mod Logins
use lil_bobby_tables_my_crt.Common.Tests.{ℕ, ◌+◌, String, Bool, Option, List, [], ◌∷◌}
use lil_bobby_tables_my_crt.Common.Exec.{Result, ok, throw}
use lil_bobby_tables_my_crt.Service.Tables.{User}
use lil_bobby_tables_my_crt.Service.Http.{World, Failure}
use lil_bobby_tables_my_crt.Service.Session.{session_middleware}
use lil_bobby_tables_my_crt.Service.UserRoutes.{
  Bcrypt, list_users, show_me, login_route, signup_route, logout_route, delete_user_route,
}
use lil_bobby_tables_my_crt.Service.UserRoutes.Passwords.{forgot_route, reset_route, change_route}

-- The calls with their bodies, and with the salts and tokens that are drawn for them.
pub data Call : Type 0 where
  users me logout : Call
  login : String → String → String → Call
  signup : ℕ → String → String → Bool → Call
  forgot : String → String → Call
  reset : ℕ → String → String → String → Call
  change : ℕ → String → String → String → Call
  remove : ℕ → Call

-- A call with the cookie of its request, or time that passes.
pub data Event : Type 0 where
  request : Option String → Call → Event
  wait : ℕ → Event

module _ (b : Bcrypt) where
  -- The route of a call, for the user whose session the request has.
  unfoldable pub route : Call → Option User → World → World
  unfolding list_users show_me logout_route login_route signup_route forgot_route reset_route
      change_route delete_user_route
  route users user w = (list_users user w).1
  route me user w = (show_me user w).1
  route logout user w = (logout_route user w).1
  route (login token email password) user w = (login_route b token email password w).1
  route (signup salt email password agreed) user w = (signup_route b salt email password agreed w).1
  route (forgot token email) user w = (forgot_route token email w).1
  route (reset salt token new again) user w = (reset_route b salt token new again w).1
  route (change salt old new again) user w = (change_route b salt user old new again w).1
  route (remove id) user w = (delete_user_route user id w).1

  abbrev pub routed : Call → Result Failure (Option User) → World → World
  routed call (ok user) w = route call user w
  routed call (throw e) w = w

  unfoldable pub serve : ℕ → Event → World → World
  unfolding session_middleware
  serve duration (request cookie call) w =
      let r = session_middleware duration cookie w in routed call r.0 r.1
  serve duration (wait n) w = record w { now = w.now + n }

  unfoldable pub serve_all : ℕ → List Event → World → World
  serve_all duration [] w = w
  serve_all duration (e ∷ es) w = serve_all duration es (serve duration e w)
