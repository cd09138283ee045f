-- ===== src/Service/InviteDao.antt =====
-- common/src/dao/environment-invite-dao.ts: the invitations to an environment and its members.
pub mod Membership
pub mod Deadline
use lil_bobby_tables_my_crt.Common.Tests.{
  ℕ, suc, ◌+◌, ◌*◌, String, Bool, true, false, ◌&&◌, Option, none, some, [], ◌∷◌, ◌++◌, str_eq, ltb,
  ◌==◌, if◌then◌else◌, codes,
}
use lil_bobby_tables_my_crt.Common.Lists.{head, select, any}
use lil_bobby_tables_my_crt.Common.Action.{◌>>◌, raise}
use lil_bobby_tables_my_crt.Service.Tables.{
  first_row, User, EnvironmentUser, Tables, is_id, join, update_where, delete_where,
}
use lil_bobby_tables_my_crt.Service.Http.{other_error, Handler, query, execute}
use lil_bobby_tables_my_crt.Service.EnvironmentDao.{Environment}

abbrev pub ms_per_day : ℕ
ms_per_day = 1000 * 60 * 60 * 24

pub record EnvironmentMember : Type 0 where
  pub id : ℕ
  pub user_id : ℕ
  pub email : String
  pub is_member : Bool
  pub is_admin : Bool

-- A row, with the email of its user if the query joins it.
pub record Invite : Type 0 where
  pub row : EnvironmentUser
  pub email : Option String

abbrev pub row_to_invite : EnvironmentUser × User → Invite
row_to_invite (m, u) = record { row = m; email = some u.email }

abbrev pub bare_invite : EnvironmentUser → Invite
bare_invite m = record { row = m; email = none }

unfoldable pub invite_of : ℕ → Tables → Option Invite
invite_of id t =
    first_row row_to_invite
      (select (λ r. r.0.id == id) (join (λ m u. m.user_id == u.id) t.members t.users))

unfoldable pub get_invite : ℕ → Handler (Option Invite)
get_invite id = query (invite_of id)

unfoldable pub invite_of_code : String → Tables → Option Invite
invite_of_code code t = first_row bare_invite (select (λ m. str_eq m.invite_code code) t.members)

unfoldable pub get_invite_by_code : String → Handler (Option Invite)
get_invite_by_code code = query (invite_of_code code)

unfoldable pub without_invite : ℕ → Tables → Tables
without_invite id t = record t { members = delete_where (λ m. m.id == id) t.members }

unfoldable pub del_invite : ℕ → Handler (Unit {0})
del_invite id = execute (without_invite id)

-- `INSERT INTO EnvironmentUser SET ?`
unfoldable pub with_member : EnvironmentUser → Tables → Tables
with_member m t = record t { members = t.members ++ (m ∷ []); next_member = suc t.next_member }

abbrev pub new_invite : String → Environment → User → Bool → ℕ → ℕ → EnvironmentUser
new_invite code environment user is_admin_user now id = record {
  id = id;
  environment_id = environment.id;
  user_id = user.id;
  is_admin = is_admin_user;
  invite_code = code;
  accepted = false;
  accepted_at = none;
  created_at = now;
}

abbrev pub has_references : Environment → User → Tables → Bool
has_references environment user t =
    any (λ e. e.id == environment.id) t.environments && any (λ u. u.id == user.id) t.users

-- The random code is an argument. The foreign keys reject an invitation of no user or to no environment.
unfoldable pub invite_user : String → Environment → User → Bool → Handler (Option Invite)
unfolding get_invite query
invite_user code environment user is_admin_user w =
    if has_references environment user w.tables
    then (execute (
            with_member (new_invite code environment user is_admin_user w.now w.tables.next_member))
          >> get_invite w.tables.next_member)
        w
    else raise (other_error (codes "ER_NO_REFERENCED_ROW_2")) w

unfoldable pub accepted_row : ℕ → EnvironmentUser → EnvironmentUser
accepted_row now m = record m { accepted = true; accepted_at = some now }

unfoldable pub with_accepted : ℕ → ℕ → Tables → Tables
with_accepted now id t = record t {
  members = update_where (λ m. m.id == id) (accepted_row now) t.members;
}

unfoldable pub accept_invite : Invite → Handler (Unit {0})
unfolding execute
accept_invite invite w =
    if ltb (ms_per_day + invite.row.created_at) w.now
    then raise (other_error (codes "This invite has expired")) w
    else execute (with_accepted w.now invite.row.id) w

unfoldable pub with_admin : ℕ → Tables → Tables
with_admin id t = record t {
  members = update_where (λ m. m.id == id) (λ m. record m { is_admin = true }) t.members;
}

unfoldable pub promote_to_admin : ℕ → Handler (Unit {0})
promote_to_admin id = execute (with_admin id)

abbrev pub is_membership : User → Environment → EnvironmentUser → Bool
is_membership user environment m =
    m.user_id == user.id && (m.environment_id == environment.id && m.accepted)

abbrev member_of_row : User → Option EnvironmentUser → EnvironmentMember
member_of_row user none = record {
  id = 0;
  user_id = user.id;
  email = user.email;
  is_member = false;
  is_admin = false;
}
member_of_row user (some m) = record {
  id = m.id;
  user_id = user.id;
  email = user.email;
  is_member = true;
  is_admin = m.is_admin;
}

unfoldable pub membership : User → Environment → Tables → EnvironmentMember
membership user environment t =
    if is_id environment.owner_id user.id
    then record { id = 0; user_id = user.id; email = user.email; is_member = true; is_admin = true }
    else member_of_row user (head (select (is_membership user environment) t.members))

unfoldable pub get_user_membership : User → Environment → Handler EnvironmentMember
get_user_membership user environment = query (membership user environment)
