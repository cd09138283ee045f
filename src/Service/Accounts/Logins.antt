-- ===== src/Service/Accounts/Logins.antt =====
-- What a login gives: a session that is open for its duration, also with a password that was just reset.
use lil_bobby_tables_my_crt.Service.Accounts.Opened.{
  begun_first, known_opens, session_known, login_ok,
}
use lil_bobby_tables_my_crt.Common.Tests.{
  ℕ, ◌+◌, ◌≤◌, ◌<◌, String, ◌≡◌, refl, ap, ◌∙◌, ◌≢◌, true, false, some, arith, eq_iff, eq_refl,
  ◌==◌,
}
use lil_bobby_tables_my_crt.Common.Lists.{head, select, In, All, found_of_In}
use lil_bobby_tables_my_crt.Common.Exec.{ok}
use lil_bobby_tables_my_crt.Common.Action.{◌>>=◌, pure}
use lil_bobby_tables_my_crt.Service.Tables.{User, update_where}
use lil_bobby_tables_my_crt.Service.Tables.Rows.{All-In, head-update_where}
use lil_bobby_tables_my_crt.Service.Http.{World, query, execute, required}
use lil_bobby_tables_my_crt.Service.UserDao.{
  PublicUser, public, user_of_key, get_user_with_hash, by_email, is_user, is_text, password_row,
  update_user_password,
}
use lil_bobby_tables_my_crt.Service.SessionDao.{begin_session}
use lil_bobby_tables_my_crt.Service.Session.{create_active_session, session_middleware}
use lil_bobby_tables_my_crt.Service.UserRoutes.{Bcrypt, AcceptsOwn, login_route, session_or_error}
use lil_bobby_tables_my_crt.Service.UserRoutes.Passwords.{reset_route}
use lil_bobby_tables_my_crt.Service.Accounts.Resets.{reset_ok}

-- A login whose user is found, with an id and with a hash that the password meets.
login_found :
    (b : Bcrypt) (token email password : String) (w : World) (user : User)
    → head (select (is_user (by_email email)) w.tables.users) ≡ some user
    → b.compare password user.password_hash ≡ true
    → 0 < user.id
    → login_route b token email password w
      ≡ (ok (public user, token), (begin_session user.id token w).1)
unfolding login_route ◌>>=◌ get_user_with_hash query user_of_key required session_or_error
    create_active_session begin_session execute pure
login_found b token email password w user found good positive =
    let e : (user.id == 0) ≡ false = ground (arith, positive) in rw found (rw good (rw e refl))

-- After a reset that returned, a login with the email of the account that held the token and with the new
-- password returns, if ids are positive and a password meets its own hash.
pub login_route-reset_route :
    (b : Bcrypt) (salt : ℕ) (token new again cookie : String) (w : World)
    → AcceptsOwn b
    → All (λ u. 0 < u.id) w.tables.users
    → (reset_route b salt token new again w).0 ≡ ok tt
    → (user : User) × (holder : PublicUser) × In user w.tables.users
      × (is_text user.reset_token token ≡ true)
      × (holder.email ≡ user.email)
      × ((login_route b cookie user.email new (reset_route b salt token new again w).1).0
          ≡ ok (holder, cookie))
unfolding update_user_password update_where execute
login_route-reset_route b salt token new again cookie w own positive done =
    let r = reset_ok b salt token new again w done in
    let user = r.0 in
    let hash = b.hash salt new in
    let test = is_user (by_email user.email) in
    let f = found_of_In test w.tables.users user r.1 (eq_refl user.email) in
    let set = password_row hash true w.now in
    let updated : head (select test (update_where test set w.tables.users)) ≡ some (set f.0) =
      head-update_where test set test (λ u. refl) w.tables.users f.0 f.1 ∙ rw f.3 refl in
    (
      user,
      public f.0,
      r.1,
      r.2,
      (eq_iff f.0.email user.email).0 f.3,
      opened user f.0 r.6 updated (own salt new)
          (All-In (λ u. 0 < u.id) w.tables.users f.0 positive f.2),
    )
  where
    opened :
        (user found : User)
        → (reset_route b salt token new again w).1
          ≡ (update_user_password (by_email user.email) (b.hash salt new) true w).1
        → head (
            select
              (is_user (by_email user.email))
              (update_user_password (by_email user.email) (b.hash salt new) true w).1.tables.users)
          ≡ some (password_row (b.hash salt new) true w.now found)
        → b.compare new (b.hash salt new) ≡ true
        → 0 < found.id
        → (login_route b cookie user.email new (reset_route b salt token new again w).1).0
          ≡ ok (public found, cookie)
    opened user found e h good lt = rw e (
        ap (λ r. r.0)
          (login_found b cookie user.email new
            (update_user_password (by_email user.email) (b.hash salt new) true w).1
            (password_row (b.hash salt new) true w.now found) h good lt))

-- A login that returns opens a session: a request with its token, which no account had before, has the
-- user who logged in, up to the duration after the login, and counts from then on as its last use.
pub session_middleware-login_route :
    (b : Bcrypt) (duration : ℕ) (token email password : String) (holder : PublicUser) (w : World)
    (k : ℕ)
    → (login_route b token email password w).0 ≡ ok (holder, token)
    → All (λ u. is_text u.session_token token ≡ false) w.tables.users
    → token ≢ ""
    → 0 < w.now
    → k ≤ duration
    → let v = (login_route b token email password w).1 in
      (u : User) × (u.id ≡ holder.id)
      × (u.last_token_check ≡ some (w.now + k))
      × ((session_middleware duration (some token) (record v { now = v.now + k })).0 ≡ ok (some u))
unfolding begin_session execute
session_middleware-login_route b duration token email password holder w k done fresh full positive
      le =
    let l = login_ok b token email password w holder done in
    let opened : World = (begin_session l.0.id token w).1 in
    let later : World = record opened { now = opened.now + k } in
    let first = begun_first token l.0.id w l.0 l.1 refl fresh in
    let known =
      known_opens duration token later first.0 w.now first.4 first.2 positive (omega (arith, le)) in
    (
      known.0,
      known.1 ∙ (first.1 ∙ l.2),
      known.3,
      rw l.3 (session_known duration token later first.0 known.0 first.4 full known.2),
    )
