-- ===== src/Service/EnvironmentRoutes.antt =====
-- service/src/routes/environment.ts, with the guard of
-- service/src/auth/middleware.ts and a list of common/src/dao/environment-invite-dao.ts.
pub mod Members
pub mod Deletion
pub mod Shared
use lil_bobby_tables_my_crt.Common.Tests.{
  ℕ, zero, suc, String, Bool, true, not, ◌&&◌, Option, none, some, List, ◌++◌, map, str_eq, ◌==◌,
  if◌then◌else◌, codes,
}
use lil_bobby_tables_my_crt.Common.Lists.{select}
use lil_bobby_tables_my_crt.Common.Exec.{Result}
use lil_bobby_tables_my_crt.Common.Action.{◌>>=◌, ◌>>◌, pure, raise, lift}
use lil_bobby_tables_my_crt.Common.Digits.{decimal}
use lil_bobby_tables_my_crt.Service.Tables.{DbReference, User, AwsKeys, Tables, is_id, join}
use lil_bobby_tables_my_crt.Service.Http.{
  Failure, http_error, other_error, delete_prefix, Handler, Text, fail, fail_with, required, send,
  query,
}
use lil_bobby_tables_my_crt.Service.EnvironmentDao.{
  Environment, EnvironmentFull, row_to_environment, get_environment, get_environment_full,
}
use lil_bobby_tables_my_crt.Service.EnvironmentDao.Editing.{
  NewEnvironment, get_environment_by_name, make_environment, edit_environment, delete_environment,
  get_aws_keys, get_all_aws_keys_by_name, make_aws_keys, make_s3_reference, make_db_reference,
}
use lil_bobby_tables_my_crt.Service.InviteDao.{get_user_membership, invite_user, accept_invite}
use lil_bobby_tables_my_crt.Service.CaptureRoutes.{without_details, member_only, not_found}
use lil_bobby_tables_my_crt.Service.InviteRoutes.{unknown_environment, unless}

-- `getAllEnvironmentsWithMembership`: the environments with an owner that the user has joined
unfoldable pub joined_environments : User → Tables → List Environment
joined_environments user t =
    let rows =
      join (λ r u. is_id r.0.owner_id u.id)
        (join (λ e m. e.id == m.environment_id) t.environments t.members) t.users in
    map (λ r. row_to_environment (r.0.0, r.1))
      (select (λ r. r.0.1.accepted && (r.0.1.user_id == user.id)) rows)

-- `GET /environments`
unfoldable pub list_environments : User → Handler (List Environment)
unfolding query
list_environments user = query (joined_environments user)

-- `GET /environments/:id`
unfoldable pub show_environment : User → ℕ → Handler EnvironmentFull
unfolding get_environment_full get_user_membership required member_only pure
show_environment user id = do
  environment ← get_environment_full id >>= required not_found
  m ← get_user_membership user (without_details environment)
  member_only m (pure environment)

-- `makeSureUserIsEnvironmentMember`
unfoldable pub make_sure_user_is_environment_member : User → ℕ → Handler (Unit {0})
unfolding get_environment get_user_membership required pure fail_with
make_sure_user_is_environment_member user id = do
  environment ←
      get_environment id >>= required (http_error 404 (some (codes "Environment does not exist")))
  m ← get_user_membership user environment
  (if not m.is_member && not (is_id environment.owner_id user.id)
      then fail_with 404 (codes "Environment does not exist")
      else pure tt)

-- `GET /environments/:id/dbs`, where Amazon's answer is an argument
unfoldable pub list_databases : {D : Type 0} → (AwsKeys → Result Failure D) → User → ℕ → Handler D
unfolding make_sure_user_is_environment_member get_environment_full get_aws_keys required lift
list_databases instances user id = do
  _ ← make_sure_user_is_environment_member user id
  environment ← get_environment_full id >>= required not_found
  keys ← get_aws_keys environment.keys_id >>= required (http_error 500 none)
  lift (instances keys)

-- The body of a request for a new environment; keys are named by their id, or new.
pub record EnvironmentBody : Type 0 where
  pub env_name : String
  pub keys_id : Option ℕ
  pub keys_name : Option String
  pub region : String
  pub bucket : String
  pub prefix : String
  pub db_name : String
  pub host : String

abbrev same_name : {A : Type 0} → Text → Option A → Option Failure
same_name message none = none
same_name message (some a) = some (http_error 400 (some message))

unfoldable pub own_keys : User → AwsKeys → Handler AwsKeys
unfolding fail_with pure
own_keys user keys =
    if not (is_id keys.user_id user.id)
    then fail_with 403 (codes "Keys don't belong to user")
    else pure keys

unfoldable pub new_keys : User → String → String → Handler AwsKeys
unfolding make_aws_keys required
new_keys user name region =
    make_aws_keys name region user.id
    >>= required (http_error 500 (some (codes "Failed to store aws keys")))

unfoldable pub named_keys : User → Option String → String → Handler AwsKeys
unfolding get_all_aws_keys_by_name new_keys unless
named_keys user none region = new_keys user "myKeys" region
named_keys user (some name) region = if str_eq name "" then new_keys user "myKeys" region else do
  found ← get_all_aws_keys_by_name name (some user)
  unless (same_name (codes "Keys with same name already exists") found) (new_keys user name region)

-- The keys of the request; an id of 0 counts as none.
unfoldable pub keys_for : User → EnvironmentBody → Option ℕ → Handler AwsKeys
unfolding get_aws_keys own_keys named_keys required
keys_for user body none = named_keys user body.keys_name body.region
keys_for user body (some zero) = named_keys user body.keys_name body.region
keys_for user body (some (suc n)) =
    get_aws_keys (suc n)
    >>= required (http_error 404 (some (codes "Keys do not exist")))
    >>= own_keys user

-- The end of the route: the user's own invitation, accepted at once. Where the environment or the
-- invitation is not read back, `envId!.id` and `acceptInvite` of null throw.
unfoldable pub join_own : String → User → Option Environment → Handler (Option Environment)
unfolding invite_user accept_invite required pure raise
join_own code user none = raise (other_error (codes "Cannot read property 'id' of null"))
join_own code user (some environment) = do
  invite ←
      invite_user code environment user true
      >>= required (other_error (codes "Cannot read property 'createdAt' of null"))
  accept_invite invite
  pure (some environment)

abbrev pub db_id_of : Option DbReference → Option ℕ
db_id_of none = none
db_id_of (some db) = some db.id

abbrev environment_to_make : EnvironmentBody → User → ℕ → ℕ → Option ℕ → NewEnvironment
environment_to_make body user keys s3 db = record {
  name = body.env_name;
  owner_id = user.id;
  aws_keys_id = keys;
  s3_id = s3;
  db_id = db;
}

-- `POST /environments`, with the random invite code
unfoldable pub create_environment : String → User → EnvironmentBody → Handler (Option Environment)
unfolding get_environment_by_name keys_for make_s3_reference make_db_reference make_environment
    join_own required unless
create_environment code user body = do
  same ← get_environment_by_name body.env_name none
  unless (same_name (codes "Environment with same name already exists") same) (do
    keys ← keys_for user body body.keys_id
    s3 ← make_s3_reference body.bucket body.prefix
    db ← make_db_reference body.db_name body.host
    made ← make_environment (environment_to_make body user keys.id s3.id (db_id_of db))
    join_own code user made)

-- `PUT /environments/:id`
unfoldable pub rename_environment : User → ℕ → String → Handler (Unit {0})
unfolding get_environment get_user_membership edit_environment required fail
rename_environment user id name = do
  environment ← get_environment id >>= required (unknown_environment id)
  m ← get_user_membership user environment
  (if not m.is_admin then fail 401 else edit_environment id name)

unfoldable pub delete_files : Option EnvironmentFull → Handler (Unit {0})
unfolding send pure
delete_files none = pure tt
delete_files (some e) = send (delete_prefix (codes "environment" ++ (decimal e.id ++ codes "/")))

-- `DELETE /environments/:id`
unfoldable pub remove_environment : User → ℕ → Bool → Handler (Option (Unit {0}))
unfolding get_environment get_user_membership get_environment_full delete_files delete_environment
    required fail pure
remove_environment user id is_delete_logs = do
  environment ← get_environment id >>= required not_found
  m ← get_user_membership user environment
  (if not m.is_admin
      then fail 401
      else ((if is_delete_logs then (get_environment_full id >>= delete_files) else pure tt)
          >> delete_environment id))
