-- ===== src/Service/Accounts/Kept/Checked.antt =====
-- The session middleware (session.ts) keeps a property of each account that single writes of rows keep.
use lil_bobby_tables_my_crt.Service.Accounts.Kept.{
  Good, Closed, with_users, updated, clear_session-Keeps,
}
use lil_bobby_tables_my_crt.Common.Tests.{
  ℕ, String, ◌≡◌, refl, inl, inr, true, false, Option, none, some, arith, str_eq, ◌==◌, Bool-cases,
  Option-cases,
}
use lil_bobby_tables_my_crt.Common.Lists.{head-select, In}
use lil_bobby_tables_my_crt.Common.Action.{◌>>=◌, pure}
use lil_bobby_tables_my_crt.Common.Action.Keeps.{Keeps, pure-Keeps}
use mathlib.Core.Path.{subst}
use lil_bobby_tables_my_crt.Service.Tables.{User}
use lil_bobby_tables_my_crt.Service.Tables.Rows.{All-In, Distinct-eq}
use lil_bobby_tables_my_crt.Service.Http.{World, execute, query}
use lil_bobby_tables_my_crt.Service.Http.Keeps.{keeping, if-Keeps}
use lil_bobby_tables_my_crt.Service.UserDao.{is_text}
use lil_bobby_tables_my_crt.Service.SessionDao.{
  checked, clear_session, update_session, user_of_token, get_user_with_token, get_session_for_user,
}
use lil_bobby_tables_my_crt.Service.Session.{
  is_expired, known_session, check_user, session_middleware,
}

module _ {P : ℕ → User → Type 0} {duration : ℕ} {may_begin may_reset : String → Type 0}
    (c : Closed P duration may_begin may_reset) where
  -- Only a user whose session has not expired is marked as checked, and no other row has that id.
  update_session-Good :
      (token : String) (user : User) (w : World)
      → In user w.tables.users
      → is_text user.session_token token ≡ true
      → is_expired duration w.now user.last_token_check ≡ false
      → Good P w
      → Good P (with_users (λ u. u.id == user.id) (checked w.now) w)
  update_session-Good token user w i holds fresh g =
      updated (λ u. u.id == user.id) (checked w.now) w (λ u. refl)
        (λ u j p.
          subst (λ v. P w.now (checked w.now v))
            (Distinct-eq (λ v. v.id) w.tables.users user u g.distinct i j (ground (arith, p)))
            (c.checks w.now token user holds fresh (All-In (P w.now) w.tables.users user g.each i)))
        g

  known_session-Good :
      (token : String) (user : User) (w : World)
      → In user w.tables.users
      → is_text user.session_token token ≡ true
      → Good P w
      → Good P (known_session duration token user w).1
  unfolding known_session ◌>>=◌ update_session execute get_session_for_user query
      get_user_with_token clear_session
  known_session-Good token user w i holds g =
      elim (Bool-cases (is_expired duration w.now user.last_token_check)) [
        | inl e ↦ rw e ((clear_session-Keeps c user.id).run w g)
        | inr e ↦ rw e (update_session-Good token user w i holds e g)
      ]

  pub session_middleware-Keeps :
      (cookie : Option String) → Keeps (keeping (Good P)) (session_middleware duration cookie)
  unfolding session_middleware ◌>>=◌ get_user_with_token query check_user pure user_of_token
  session_middleware-Keeps none = pure-Keeps none
  session_middleware-Keeps (some token) = if-Keeps (str_eq token "") (pure-Keeps none) (found token)
    where
      found :
          (t : String) → Keeps (keeping (Good P)) (get_user_with_token t >>= check_user duration t)
      found t = record {
        run = λ w g. elim (Option-cases (user_of_token t w.tables)) [
          | inl e ↦ rw e g
          | inr (user, e) ↦
              let h = head-select (λ u. is_text u.session_token t) w.tables.users user e in
              rw e (known_session-Good t user w h.0 h.1 g)
        ];
      }
