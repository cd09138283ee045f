-- ===== src/Service/Accounts/Kept.antt =====
-- A property of each account that single writes of rows keep is kept by the queries.
pub mod Checked
pub mod Routes
use lil_bobby_tables_my_crt.Common.Tests.{
  ℕ, suc, ◌+◌, ◌-◌, ◌<◌, String, ◌≡◌, refl, inl, inr, Bool, true, false, not, Option, none, some,
  [], ◌∷◌, arith, str_eq, ◌==◌, Bool-cases, Option-cases, is_some,
}
use lil_bobby_tables_my_crt.Common.Lists.{
  head-select, head, select, any, In, All, All-append, All-map_of,
}
use lil_bobby_tables_my_crt.Common.Action.{◌>>=◌, ◌>>◌, pure}
use lil_bobby_tables_my_crt.Common.Action.Keeps.{Keeps, bind-Keeps, pure-Keeps}
use mathlib.Core.Path.{subst}
use lil_bobby_tables_my_crt.Service.Tables.{User, update_where, delete_where}
use lil_bobby_tables_my_crt.Service.Tables.Rows.{
  All-In, All-update_where, All-select, Distinct, Distinct-eq, Distinct-update_where,
  Distinct-select, Distinct-append,
}
use lil_bobby_tables_my_crt.Service.Http.{World, execute, query}
use lil_bobby_tables_my_crt.Service.Http.Keeps.{keeping, query-Keeps, if-Keeps}
use lil_bobby_tables_my_crt.Service.UserDao.{
  UserKey, is_user, is_text, reset_row, password_row, new_user, with_user, without_user,
  get_password_reset_token, update_user_password, make_user, delete_user, get_user,
}
use lil_bobby_tables_my_crt.Service.SessionDao.{
  begun, cleared, checked, begin_session, clear_session, update_session, user_of_token,
  get_user_with_token, get_session_for_user,
}
use lil_bobby_tables_my_crt.Service.Session.{
  is_expired, known_session, check_user, session_middleware,
}
use lil_bobby_tables_my_crt.Service.Accounts.{users}

-- The accounts at a time after the epoch, each with the property at that time.
pub record Good (P : ℕ → User → Type 0) (w : World) : Type 0 where
  pub started : 0 < w.now
  pub distinct : Distinct (λ u. u.id) w.tables.users
  pub below : All (λ u. u.id < w.tables.next_user) w.tables.users
  pub each : All (P w.now) w.tables.users

-- The single writes keep the property, those of a drawn token if the token is allowed.
pub record Closed (P : ℕ → User → Type 0) (duration : ℕ) (may_begin may_reset : String → Type 0)
    : Type 0 where
  pub passes : (n k : ℕ) (u : User) → P n u → P (n + k) u
  pub clears : (n : ℕ) (u : User) → P n u → P n (cleared u)
  pub begins : (n : ℕ) (t : String) (u : User) → may_begin t → P n u → P n (begun t n u)
  pub checks :
      (n : ℕ) (t : String) (u : User)
      → is_text u.session_token t ≡ true
      → is_expired duration n u.last_token_check ≡ false
      → P n u
      → P n (checked n u)
  pub asks : (n : ℕ) (t : String) (u : User) → may_reset t → P n u → P n (reset_row t n u)
  pub sets :
      (n : ℕ) (hash : String) (resets : Bool) (u : User)
      → 0 < n
      → P n u
      → P n (password_row hash resets n u)
  pub starts : (n : ℕ) (email hash : String) (id : ℕ) → P n (new_user email hash false id)

abbrev pub with_users : (User → Bool) → (User → User) → World → World
with_users test edit w = record w {
  tables = record w.tables { users = update_where test edit w.tables.users };
}

module _ {P : ℕ → User → Type 0} where
  pub updated :
      (test : User → Bool) (edit : User → User) (w : World)
      → ((u : User) → (edit u).id ≡ u.id)
      → ((u : User) → In u w.tables.users → test u ≡ true → P w.now (edit u))
      → Good P w
      → Good P (with_users test edit w)
  updated test edit w same h g = record {
    started = g.started;
    distinct = Distinct-update_where (λ u. u.id) test edit same w.tables.users g.distinct;
    below =
        All-update_where (λ u. u.id < w.tables.next_user) test edit w.tables.users g.below
          (λ u i p.
            rw (same u) (All-In (λ v. v.id < w.tables.next_user) w.tables.users u g.below i));
    each = All-update_where (P w.now) test edit w.tables.users g.each h;
  }

  -- A edit of rows that keeps the property at any row.
  updated_all :
      (test : User → Bool) (edit : User → User) (w : World)
      → ((u : User) → (edit u).id ≡ u.id)
      → ((u : User) → P w.now u → P w.now (edit u))
      → Good P w
      → Good P (with_users test edit w)
  updated_all test edit w same h g =
      updated test edit w same (λ u i p. h u (All-In (P w.now) w.tables.users u g.each i)) g

module _ {P : ℕ → User → Type 0} {duration : ℕ} {may_begin may_reset : String → Type 0}
    (c : Closed P duration may_begin may_reset) where
  pub clear_session-Keeps : (id : ℕ) → Keeps (keeping (Good P)) (clear_session id)
  unfolding clear_session execute
  clear_session-Keeps id = record {
    run = λ w. updated_all (λ u. u.id == id) cleared w (λ u. refl) (c.clears w.now);
  }

  pub begin_session-Keeps :
      (id : ℕ) (token : String)
      → may_begin token
      → Keeps (keeping (Good P)) (begin_session id token)
  unfolding begin_session execute
  begin_session-Keeps id token m = record {
    run = λ w.
        updated_all (λ u. u.id == id) (begun token w.now) w (λ u. refl)
          (λ u. c.begins w.now token u m);
  }

  pub get_password_reset_token-Keeps :
      (token : String) (key : UserKey)
      → may_reset token
      → Keeps (keeping (Good P)) (get_password_reset_token token key)
  unfolding get_password_reset_token execute ◌>>=◌ pure
  get_password_reset_token-Keeps token key m = record {
    run = λ w.
        updated_all (is_user key) (reset_row token w.now) w (λ u. refl)
          (λ u. c.asks w.now token u m);
  }

  pub update_user_password-Keeps :
      (key : UserKey) (hash : String) (resets : Bool)
      → Keeps (keeping (Good P)) (update_user_password key hash resets)
  unfolding update_user_password execute
  update_user_password-Keeps key hash resets = record {
    run = λ w g.
        updated_all (is_user key) (password_row hash resets w.now) w (same w resets)
          (λ u. c.sets w.now hash resets u g.started) g;
  }
    where
      same : (w : World) (r : Bool) (u : User) → (password_row hash r w.now u).id ≡ u.id
      same w true u = refl
      same w false u = refl

  with_user-Good :
      (email hash : String) (w : World)
      → Good P w
      → Good P (record w { tables = with_user email hash false w.tables })
  unfolding with_user
  with_user-Good email hash w g =
      let added = new_user email hash false w.tables.next_user in
      record {
        started = g.started;
        distinct = Distinct-append (λ u. u.id) w.tables.users added g.distinct g.below;
        below =
            All-append (λ u. u.id < suc w.tables.next_user) w.tables.users (added ∷ [])
              (All-map_of (λ u. u.id < w.tables.next_user) (λ u. u.id < suc w.tables.next_user)
                (λ u p. omega (arith, p)) w.tables.users g.below)
              (omega arith, tt);
        each =
            All-append (P w.now) w.tables.users (added ∷ []) g.each
              (c.starts w.now email hash w.tables.next_user, tt);
      }

  pub make_user-Keeps :
      (email hash : String) → Keeps (keeping (Good P)) (make_user email hash false)
  unfolding make_user ◌>>=◌ execute get_user query
  make_user-Keeps email hash = record {
    run = λ w g. elim (Bool-cases (any (λ u. str_eq u.email email) w.tables.users)) [
      | inl e ↦ rw e g
      | inr e ↦ rw e (with_user-Good email hash w g)
    ];
  }

  without_user-Good :
      (id : ℕ) (w : World) → Good P w → Good P (record w { tables = without_user id w.tables })
  unfolding without_user delete_where
  without_user-Good id w g =
      let stays = λ (u : User). not (u.id == id) in
      record {
        started = g.started;
        distinct = Distinct-select (λ u. u.id) stays w.tables.users g.distinct;
        below = All-select (λ u. u.id < w.tables.next_user) stays w.tables.users g.below;
        each = All-select (P w.now) stays w.tables.users g.each;
      }

  pub delete_user-Keeps : (id : ℕ) → Keeps (keeping (Good P)) (delete_user id)
  unfolding delete_user get_user
  delete_user-Keeps id = bind-Keeps (query-Keeps _) (λ user.
      if-Keeps (is_some user) (bind-Keeps (deleted id) (λ _. pure-Keeps true)) (pure-Keeps false))
    where
      deleted : (n : ℕ) → Keeps (keeping (Good P)) (execute (without_user n))
      deleted n = record { run = λ w. without_user-Good n w }
