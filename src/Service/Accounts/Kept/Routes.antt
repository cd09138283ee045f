-- ===== src/Service/Accounts/Kept/Routes.antt =====
-- A property of each account that single writes of rows keep is kept by every request.
use lil_bobby_tables_my_crt.Common.Tests.{
  ℕ, ◌+◌, String, refl, Bool, true, false, not, Option, none, some, List, [], ◌∷◌, arith, ◌==◌,
  if◌then◌else◌, codes,
}
use lil_bobby_tables_my_crt.Common.Lists.{All, All-map_of}
use lil_bobby_tables_my_crt.Common.Exec.{Result, ok, throw}
use lil_bobby_tables_my_crt.Common.Action.{◌>>=◌, raise}
use lil_bobby_tables_my_crt.Common.Action.Keeps.{Keeps, bind-Keeps, pure-Keeps}
use lil_bobby_tables_my_crt.Service.UserDao.{
  get_all_users, PublicUser, public, by_id, by_email, update_user_password, user_of_key,
  user_of_reset_token, get_user, get_user_with_hash, get_user_by_reset_token,
}
use lil_bobby_tables_my_crt.Service.Session.{
  admin_logged_in_or_forbidden, logged_in_or_forbidden, Gate, granted, redirect, forbidden, behind,
  get_logged_in_middleware, session_middleware, create_active_session,
}
use lil_bobby_tables_my_crt.Service.Tables.{User}
use lil_bobby_tables_my_crt.Service.Http.{World, Failure, Handler, http_error, send, fail_with}
use lil_bobby_tables_my_crt.Service.Http.Keeps.{
  keeping, query-Keeps, required-Keeps, raise-Keeps, fail_with-Keeps, if-Keeps, same_world-Keeps,
}
use lil_bobby_tables_my_crt.Service.UserRoutes.{
  Bcrypt, list_users, show_me, login_route, session_or_error, user_or_taken, signup_route,
  logout_route, delete_user_route,
}
use lil_bobby_tables_my_crt.Service.UserRoutes.Passwords.{
  forgot_found, forgot_route, reset_found, reset_route, change_route, is_used, is_recent,
}
use lil_bobby_tables_my_crt.Service.Accounts.{
  Call, users, me, logout, login, signup, forgot, reset, change, remove, Event, request, wait,
  route, routed, serve, serve_all,
}
use lil_bobby_tables_my_crt.Service.Accounts.Kept.{
  Good, Closed, begin_session-Keeps, clear_session-Keeps, get_password_reset_token-Keeps,
  update_user_password-Keeps, make_user-Keeps, delete_user-Keeps,
}
use lil_bobby_tables_my_crt.Service.Accounts.Kept.Checked.{session_middleware-Keeps}

-- Only tokens that are allowed are drawn.
abbrev pub Draws : (String → Type 0) → (String → Type 0) → Call → Type 0
Draws may_begin may_reset (login token email password) = may_begin token
Draws may_begin may_reset (forgot token email) = may_reset token
Draws may_begin may_reset _ = Unit

abbrev pub EventDraws : (String → Type 0) → (String → Type 0) → Event → Type 0
EventDraws may_begin may_reset (request cookie call) = Draws may_begin may_reset call
EventDraws may_begin may_reset (wait n) = Unit

module _ {P : World → Type 0} {A : Type 0} where
  behind-Keeps :
      (gate : Gate) {f : User → Handler A}
      → ((u : User) → Keeps (keeping P) (f u))
      → Keeps (keeping P) (behind gate f)
  unfolding behind
  behind-Keeps (granted u) k = k u
  behind-Keeps (redirect url) k = raise-Keeps (http_error 307 (some url))
  behind-Keeps (forbidden m) k = raise-Keeps (http_error 403 (some m))

module _ {P : ℕ → User → Type 0} {duration : ℕ} {may_begin may_reset : String → Type 0}
    (c : Closed P duration may_begin may_reset) where
  create-Keeps :
      (id : ℕ) (token : String)
      → may_begin token
      → Keeps (keeping (Good P)) (create_active_session id token)
  unfolding create_active_session
  create-Keeps id token m =
      if-Keeps (id == 0) (raise-Keeps _)
        (bind-Keeps (begin_session-Keeps c id token m) (λ _. pure-Keeps token))

  login-Keeps :
      (b : Bcrypt) (token email password : String)
      → may_begin token
      → Keeps (keeping (Good P)) (login_route b token email password)
  unfolding login_route session_or_error get_user_with_hash
  login-Keeps b token email password m =
      bind-Keeps (bind-Keeps (query-Keeps (user_of_key (by_email email))) (λ o. required-Keeps _ o))
        (λ user. if-Keeps (not (b.compare password user.password_hash)) (fail_with-Keeps 403 _) (
          bind-Keeps (same_world-Keeps (λ w. refl) (create-Keeps user.id token m))
            (λ cookie. pure-Keeps (public user, cookie))))

  signup-Keeps :
      (b : Bcrypt) (salt : ℕ) (email password : String) (agreed : Bool)
      → Keeps (keeping (Good P)) (signup_route b salt email password agreed)
  unfolding signup_route user_or_taken
  signup-Keeps b salt email password agreed =
      if-Keeps (not agreed) (fail_with-Keeps 400 _)
        (same_world-Keeps (λ w. refl) (make_user-Keeps c email (b.hash salt password)))

  forgot-Keeps :
      (token email : String) → may_reset token → Keeps (keeping (Good P)) (forgot_route token email)
  unfolding forgot_route get_user forgot_found ◌>>=◌ send raise
  forgot-Keeps token email m = bind-Keeps (query-Keeps _) found
    where
      sent : (w : World) → Good P w → Good P (forgot_found token none w).1
      sent w g = record {
        started = g.started;
        distinct = g.distinct;
        below = g.below;
        each = g.each;
      }

      found : (o : Option PublicUser) → Keeps (keeping (Good P)) (forgot_found token o)
      found none = record { run = λ w g. sent w g }
      found (some user) = get_password_reset_token-Keeps c token (by_id user.id) m

  reset_found-Keeps :
      (hash : String) (matches : Bool) (o : Option User)
      → Keeps (keeping (Good P)) (reset_found hash matches o)
  unfolding reset_found
  reset_found-Keeps hash matches none = record { run = λ w g. g }
  reset_found-Keeps hash matches (some user) = record { run = found }
    where
      found : (w : World) → Good P w → Good P (reset_found hash matches (some user) w).1
      found w =
          let m : Keeps (keeping (Good P)) (
              if is_used user.reset_used_at
              then fail_with 409 (codes "Password reset token has already been used")
              else (if is_recent w.now user.reset_created_at
                  then (if not matches
                      then fail_with 400 (codes "New passwords do not match")
                      else update_user_password (by_email user.email) hash true)
                  else fail_with 400 (codes "This password reset token has expired"))) =
            if-Keeps (is_used user.reset_used_at) (fail_with-Keeps 409 _) (
              if-Keeps (is_recent w.now user.reset_created_at)
                (if-Keeps (not matches) (fail_with-Keeps 400 _)
                  (update_user_password-Keeps c (by_email user.email) hash true))
                (fail_with-Keeps 400 _)) in
          m.run w

  reset-Keeps :
      (b : Bcrypt) (salt : ℕ) (token new again : String)
      → Keeps (keeping (Good P)) (reset_route b salt token new again)
  unfolding reset_route get_user_by_reset_token
  reset-Keeps b salt token new again =
      bind-Keeps (query-Keeps (user_of_reset_token token)) (reset_found-Keeps _ _)

  change-Keeps :
      (b : Bcrypt) (salt : ℕ) (user : Option User) (old new again : String)
      → Keeps (keeping (Good P)) (change_route b salt user old new again)
  unfolding change_route logged_in_or_forbidden
  change-Keeps b salt user old new again =
      behind-Keeps (get_logged_in_middleware false false user) (λ u.
        if-Keeps (not (b.compare old u.password_hash)) (fail_with-Keeps 400 _) (
          if-Keeps (not (b.compare again (b.hash salt new))) (fail_with-Keeps 400 _) (
            bind-Keeps (update_user_password-Keeps c (by_id u.id) (b.hash salt new) false)
              (λ _. pure-Keeps u))))

  module _ (b : Bcrypt) where
    route-Good :
        (call : Call) (user : Option User) (w : World)
        → Draws may_begin may_reset call
        → Good P w
        → Good P (route b call user w)
    unfolding route list_users show_me logout_route delete_user_route logged_in_or_forbidden
        admin_logged_in_or_forbidden get_all_users
    route-Good users user w m =
        (behind-Keeps {P = Good P} (get_logged_in_middleware true false user)
            (λ _. query-Keeps (λ t. t.users))).run
          w
    route-Good me user w m =
        (behind-Keeps {P = Good P} (get_logged_in_middleware false false user)
            (λ u. pure-Keeps (public u))).run
          w
    route-Good logout user w m =
        (behind-Keeps (get_logged_in_middleware false false user)
            (λ u. clear_session-Keeps c u.id)).run
          w
    route-Good (login token email password) user w m = (login-Keeps b token email password m).run w
    route-Good (signup salt email password agreed) user w m =
        (signup-Keeps b salt email password agreed).run w
    route-Good (forgot token email) user w m = (forgot-Keeps token email m).run w
    route-Good (reset salt token new again) user w m = (reset-Keeps b salt token new again).run w
    route-Good (change salt old new again) user w m = (change-Keeps b salt user old new again).run w
    route-Good (remove id) user w m =
        (behind-Keeps (get_logged_in_middleware true false user)
            (λ _. bind-Keeps (delete_user-Keeps c id) (λ _. pure-Keeps tt))).run
          w

    routed-Good :
        (call : Call) (r : Result Failure (Option User)) (w : World)
        → Draws may_begin may_reset call
        → Good P w
        → Good P (routed b call r w)
    routed-Good call (ok user) w m g = route-Good call user w m g
    routed-Good call (throw e) w m g = g

    serve-Good :
        (e : Event) (w : World)
        → EventDraws may_begin may_reset e
        → Good P w
        → Good P (serve b duration e w)
    unfolding serve
    serve-Good (request cookie call) w m g =
        let r = session_middleware duration cookie w in
        routed-Good call r.0 r.1 m ((session_middleware-Keeps c cookie).run w g)
    serve-Good (wait n) w m g = record {
      started = omega (arith, g.started);
      distinct = g.distinct;
      below = g.below;
      each = All-map_of (P w.now) (P (w.now + n)) (c.passes w.now n) w.tables.users g.each;
    }

    pub serve_all-Good :
        (es : List Event) (w : World)
        → All (EventDraws may_begin may_reset) es
        → Good P w
        → Good P (serve_all b duration es w)
    unfolding serve_all
    serve_all-Good [] w m g = g
    serve_all-Good (e ∷ es) w (m, ms) g =
        serve_all-Good es (serve b duration e w) ms (serve-Good e w m g)
