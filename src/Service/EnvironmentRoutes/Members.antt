-- ===== src/Service/EnvironmentRoutes/Members.antt =====
-- service/src/routes/environment-user.ts: the members of an environment.
use lil_bobby_tables_my_crt.Common.Tests.{
  ℕ, String, Bool, ◌&&◌, Option, none, some, List, map, ◌==◌, if◌then◌else◌,
}
use lil_bobby_tables_my_crt.Common.Lists.{length, is_nil, select}
use lil_bobby_tables_my_crt.Common.Action.{◌>>=◌}
use lil_bobby_tables_my_crt.Service.Tables.{User, EnvironmentUser, Tables, join}
use lil_bobby_tables_my_crt.Service.Http.{Handler, required, query}
use lil_bobby_tables_my_crt.Service.EnvironmentDao.{Environment, get_environment}
use lil_bobby_tables_my_crt.Service.InviteDao.{EnvironmentMember, get_user_membership}
use lil_bobby_tables_my_crt.Service.CaptureRoutes.{member_only, not_found}

-- `getEnvUserCount`
abbrev is_accepted : Environment → EnvironmentUser → Bool
is_accepted environment m = (m.environment_id == environment.id) && m.accepted

unfoldable pub count_members : Environment → Tables → ℕ
count_members environment t = length (select (is_accepted environment) t.members)

pub record MemberRow : Type 0 where
  pub user_id : ℕ
  pub username : String
  pub is_admin : Bool
  pub accepted_at : Option ℕ

abbrev to_member_row : EnvironmentUser × User → MemberRow
to_member_row (m, u) = record {
  user_id = u.id;
  username = u.email;
  is_admin = m.is_admin;
  accepted_at = m.accepted_at;
}

-- `getEnvUsers`, where no row gives null
unfoldable pub members_of : Environment → Tables → Option (List MemberRow)
members_of environment t =
    let rows =
      select (λ r. is_accepted environment r.0)
        (join (λ m u. m.user_id == u.id) t.members t.users) in
    if is_nil rows then none else some (map to_member_row rows)

-- `GET /environments/:id/users/count`
unfoldable pub show_count : User → ℕ → Handler ℕ
unfolding get_environment get_user_membership required member_only query
show_count user id = do
  environment ← get_environment id >>= required not_found
  m ← get_user_membership user environment
  member_only m (query (count_members environment))

-- `GET /environments/:id/users/list`
unfoldable pub list_members : User → ℕ → Handler (Option (List MemberRow))
unfolding get_environment get_user_membership required member_only query
list_members user id = do
  environment ← get_environment id >>= required not_found
  m ← get_user_membership user environment
  member_only m (query (members_of environment))

-- `GET /environments/:id/users/me`
unfoldable pub show_membership : User → ℕ → Handler EnvironmentMember
unfolding get_environment get_user_membership required
show_membership user id = do
  environment ← get_environment id >>= required not_found
  get_user_membership user environment
