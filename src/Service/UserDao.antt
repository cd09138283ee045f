-- ===== src/Service/UserDao.antt =====
-- common/src/dao/user-dao.ts: the accounts, with their passwords and the tokens that reset them.
use lil_bobby_tables_my_crt.Common.Tests.{
  ℕ, suc, String, Bool, true, false, Option, none, some, List, [], ◌∷◌, ◌++◌, str_eq, ◌==◌,
  if◌then◌else◌, is_some, codes,
}
use lil_bobby_tables_my_crt.Common.Lists.{head, select, any}
use lil_bobby_tables_my_crt.Common.Action.{◌>>=◌, ◌>>◌, pure, raise}
use lil_bobby_tables_my_crt.Service.Tables.{
  User, Tables, is_id, update_where, delete_where, first_row,
}
use lil_bobby_tables_my_crt.Service.Http.{other_error, Handler, query, execute}

-- The fields that `getUser` selects when it leaves out the hash of the password.
pub record PublicUser : Type 0 where
  pub id : ℕ
  pub email : String
  pub is_admin : Bool

abbrev pub public : User → PublicUser
public u = record { id = u.id; email = u.email; is_admin = u.is_admin }

-- A user is asked for by id or by email.
pub data UserKey : Type 0 where
  by_id : ℕ → UserKey
  by_email : String → UserKey

abbrev pub is_user : UserKey → User → Bool
is_user (by_id id) u = u.id == id
is_user (by_email email) u = str_eq u.email email

-- `column = ?` for a text that may be NULL
abbrev pub is_text : Option String → String → Bool
is_text none s = false
is_text (some t) s = str_eq t s

unfoldable pub get_all_users : Handler (List User)
get_all_users = query (λ t. t.users)

abbrev pub reset_row : String → ℕ → User → User
reset_row token now u = record u {
  reset_token = some token;
  reset_created_at = some now;
  reset_used_at = none;
}

-- The random token is an argument.
unfoldable pub get_password_reset_token : String → UserKey → Handler String
unfolding execute pure
get_password_reset_token token key w =
    (execute (λ t. record t { users = update_where (is_user key) (reset_row token w.now) t.users })
        >> pure token)
      w

abbrev pub password_row : String → Bool → ℕ → User → User
password_row hash reset now u =
    if reset
    then record u { password_hash = hash; reset_used_at = some now }
    else record u { password_hash = hash }

unfoldable pub update_user_password : UserKey → String → Bool → Handler (Unit {0})
unfolding execute
update_user_password key hash reset w =
    execute
      (λ t. record t { users = update_where (is_user key) (password_row hash reset w.now) t.users })
      w

-- `getUser(id, true)`
unfoldable pub user_of_key : UserKey → Tables → Option User
user_of_key key t = head (select (is_user key) t.users)

unfoldable pub get_user_with_hash : UserKey → Handler (Option User)
get_user_with_hash key = query (user_of_key key)

-- `getUser(id)`
unfoldable pub get_user : UserKey → Handler (Option PublicUser)
get_user key = query (λ t. first_row public (select (is_user key) t.users))

unfoldable pub user_of_reset_token : String → Tables → Option User
user_of_reset_token token t = head (select (λ u. is_text u.reset_token token) t.users)

unfoldable pub get_user_by_reset_token : String → Handler (Option User)
get_user_by_reset_token token = query (user_of_reset_token token)

abbrev pub new_user : String → String → Bool → ℕ → User
new_user email hash is_admin id = record {
  id = id;
  email = email;
  is_admin = is_admin;
  password_hash = hash;
  session_token = none;
  login_time = none;
  last_token_check = none;
  reset_token = none;
  reset_created_at = none;
  reset_used_at = none;
}

unfoldable pub with_user : String → String → Bool → Tables → Tables
with_user email hash is_admin t = record t {
  users = t.users ++ (new_user email hash is_admin t.next_user ∷ []);
  next_user = suc t.next_user;
}

-- The emails are unique.
unfoldable pub make_user : String → String → Bool → Handler (Option PublicUser)
unfolding execute get_user query raise
make_user email hash is_admin w =
    if any (λ u. str_eq u.email email) w.tables.users
    then raise (other_error (codes "ER_DUP_ENTRY")) w
    else (execute (with_user email hash is_admin) >> get_user (by_id w.tables.next_user)) w

-- With the row go the memberships, and what the user owned has no owner any more.
unfoldable pub without_user : ℕ → Tables → Tables
without_user id t = record t {
  users = delete_where (λ u. u.id == id) t.users;
  members = delete_where (λ m. m.user_id == id) t.members;
  environments =
      update_where (λ e. is_id e.owner_id id) (λ e. record e { owner_id = none }) t.environments;
  captures = update_where (λ c. is_id c.owner_id id) (λ c. record c { owner_id = none }) t.captures;
  replays = update_where (λ r. is_id r.owner_id id) (λ r. record r { owner_id = none }) t.replays;
}

-- Whether there was such a user.
unfoldable pub delete_user : ℕ → Handler Bool
unfolding get_user query execute pure
delete_user id = do
  user ← get_user (by_id id)
  (if is_some user then (execute (without_user id) >> pure true) else pure false)
