-- ===== src/Service/SessionDao.antt =====
-- common/src/dao/session-dao.ts: the session that a user's row holds.
use lil_bobby_tables_my_crt.Common.Tests.{ℕ, String, Option, none, some, ◌==◌}
use lil_bobby_tables_my_crt.Common.Lists.{head, select}
use lil_bobby_tables_my_crt.Common.Action.{◌>>◌}
use lil_bobby_tables_my_crt.Service.Tables.{User, Tables, update_where, first_row}
use lil_bobby_tables_my_crt.Service.Http.{Handler, query, execute}
use lil_bobby_tables_my_crt.Service.UserDao.{is_text}

pub record Session : Type 0 where
  pub session_token : Option String
  pub login_time : Option ℕ
  pub last_token_check : Option ℕ

abbrev pub row_to_session : User → Session
row_to_session u = record {
  session_token = u.session_token;
  login_time = u.login_time;
  last_token_check = u.last_token_check;
}

unfoldable pub user_of_token : String → Tables → Option User
user_of_token token t = head (select (λ u. is_text u.session_token token) t.users)

unfoldable pub get_user_with_token : String → Handler (Option User)
get_user_with_token token = query (user_of_token token)

unfoldable pub get_session_for_user : ℕ → Handler (Option Session)
get_session_for_user id = query (λ t. first_row row_to_session (select (λ u. u.id == id) t.users))

abbrev pub begun : String → ℕ → User → User
begun token now u = record u {
  session_token = some token;
  login_time = some now;
  last_token_check = some now;
}

unfoldable pub begin_session : ℕ → String → Handler (Unit {0})
unfolding execute
begin_session id token w =
    execute (λ t. record t { users = update_where (λ u. u.id == id) (begun token w.now) t.users }) w

abbrev pub cleared : User → User
cleared u = record u { session_token = none; login_time = none; last_token_check = none }

unfoldable pub clear_session : ℕ → Handler (Unit {0})
clear_session id =
    execute (λ t. record t { users = update_where (λ u. u.id == id) cleared t.users })

abbrev pub checked : ℕ → User → User
checked now u = record u { last_token_check = some now }

unfoldable pub update_session : ℕ → Handler (Option Session)
unfolding execute get_session_for_user query
update_session id w =
    (execute (λ t. record t { users = update_where (λ u. u.id == id) (checked w.now) t.users })
        >> get_session_for_user id)
      w
