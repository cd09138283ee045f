-- ===== src/Service/EnvironmentDao/Editing.antt =====
-- common/src/dao/environment-dao.ts: making, editing and deleting environments, with the keys and the
-- references to a bucket and a database that they hold. What is encrypted is left out.
use lil_bobby_tables_my_crt.Common.Tests.{
  ℕ, suc, String, Bool, false, not, ◌&&◌, Option, none, some, List, [], ◌∷◌, ◌++◌, map, str_eq,
  ◌==◌, if◌then◌else◌, codes,
}
use lil_bobby_tables_my_crt.Common.Lists.{head, select, any}
use lil_bobby_tables_my_crt.Common.Action.{◌>>=◌, ◌>>◌, pure, raise}
use lil_bobby_tables_my_crt.Service.Tables.{
  User, EnvironmentRow, DbReference, S3Reference, AwsKeys, Tables, is_id, is_reference, join,
  update_where, delete_where, first_row,
}
use lil_bobby_tables_my_crt.Service.Http.{Handler, other_error, query, execute}
use lil_bobby_tables_my_crt.Service.EnvironmentDao.{
  Environment, EnvironmentFull, row_to_environment, row_to_environment_full, full_rows,
  get_environment,
}

-- `getAllEnvironments`, of one owner or of all
unfoldable pub get_all_environments : Option User → Handler (List EnvironmentFull)
unfolding query
get_all_environments none = query (λ t. map row_to_environment_full (full_rows t))
get_all_environments (some user) =
    query (λ t. map row_to_environment_full (select (λ r. r.1.id == user.id) (full_rows t)))

abbrev is_named : String → Option User → EnvironmentRow → Bool
is_named name none e = str_eq e.name name
is_named name (some user) e = str_eq e.name name && is_id e.owner_id user.id

unfoldable pub environment_of_name : String → Option User → Tables → Option Environment
environment_of_name name user t = first_row row_to_environment (
    select (λ r. is_named name user r.0)
      (join (λ e u. is_id e.owner_id u.id) t.environments t.users))

unfoldable pub get_environment_by_name : String → Option User → Handler (Option Environment)
get_environment_by_name name user = query (environment_of_name name user)

-- The columns that a route sets.
pub record NewEnvironment : Type 0 where
  pub name : String
  pub owner_id : ℕ
  pub aws_keys_id : ℕ
  pub s3_id : ℕ
  pub db_id : Option ℕ

abbrev pub new_environment_row : NewEnvironment → ℕ → EnvironmentRow
new_environment_row e id = record {
  id = id;
  name = e.name;
  owner_id = some e.owner_id;
  aws_keys_id = some e.aws_keys_id;
  db_id = e.db_id;
  s3_id = some e.s3_id;
}

unfoldable pub with_environment : NewEnvironment → Tables → Tables
with_environment e t = record t {
  environments = t.environments ++ (new_environment_row e t.next_environment ∷ []);
  next_environment = suc t.next_environment;
}

-- The name is unique, and the owner is a user.
unfoldable pub make_environment : NewEnvironment → Handler (Option Environment)
unfolding execute get_environment query raise
make_environment e w =
    if any (λ r. str_eq r.name e.name) w.tables.environments
    then raise (other_error (codes "ER_DUP_ENTRY")) w
    else (if is_reference (some e.owner_id) (map (λ u. u.id) w.tables.users)
        then (execute (with_environment e) >> get_environment w.tables.next_environment) w
        else raise (other_error (codes "ER_NO_REFERENCED_ROW_2")) w)

unfoldable pub with_name : ℕ → String → Tables → Tables
with_name id name t = record t {
  environments = update_where (λ e. e.id == id) (λ e. record e { name = name }) t.environments;
}

-- `editEnvironment` of the name, the only change that a route makes
unfoldable pub edit_environment : ℕ → String → Handler (Unit {0})
unfolding execute raise
edit_environment id name w =
    if any (λ e. e.id == id) w.tables.environments
      && any (λ e. str_eq e.name name && not (e.id == id)) w.tables.environments
    then raise (other_error (codes "ER_DUP_ENTRY")) w
    else execute (with_name id name) w

unfoldable pub get_all_aws_keys : Option User → Handler (List AwsKeys)
unfolding query
get_all_aws_keys none = query (λ t. t.aws_keys)
get_all_aws_keys (some user) = query (λ t. select (λ k. is_id k.user_id user.id) t.aws_keys)

-- `getAllAwsKeysByName`; without a user the query names a table that does not exist.
unfoldable pub get_all_aws_keys_by_name : String → Option User → Handler (Option AwsKeys)
unfolding query raise
get_all_aws_keys_by_name name none = raise (other_error (codes "ER_NO_SUCH_TABLE"))
get_all_aws_keys_by_name name (some user) =
    query (λ t. head (select (λ k. is_id k.user_id user.id && str_eq k.name name) t.aws_keys))

unfoldable pub keys_of : ℕ → Tables → Option AwsKeys
keys_of id t = head (select (λ k. k.id == id) t.aws_keys)

unfoldable pub get_aws_keys : ℕ → Handler (Option AwsKeys)
get_aws_keys id = query (keys_of id)

unfoldable pub with_keys : String → String → ℕ → Tables → Tables
with_keys name region user_id t = record t {
  aws_keys =
      t.aws_keys
      ++ (record { id = t.next_keys; name = name; region = region; user_id = some user_id } ∷ []);
  next_keys = suc t.next_keys;
}

unfoldable pub make_aws_keys : String → String → ℕ → Handler (Option AwsKeys)
unfolding execute get_aws_keys query
make_aws_keys name region user_id w =
    (execute (with_keys name region user_id) >> get_aws_keys w.tables.next_keys) w

unfoldable pub get_s3_reference : ℕ → Handler (Option S3Reference)
get_s3_reference id = query (λ t. head (select (λ s. s.id == id) t.s3_references))

unfoldable pub with_s3_reference : String → String → Tables → Tables
with_s3_reference bucket prefix t = record t {
  s3_references =
      t.s3_references ++ (record { id = t.next_s3; bucket = bucket; prefix = prefix } ∷ []);
  next_s3 = suc t.next_s3;
}

-- `rowToIS3Reference` of no row throws.
unfoldable pub made_s3_reference : Option S3Reference → Handler S3Reference
unfolding raise pure
made_s3_reference none = raise (other_error (codes "Cannot read property 'id' of undefined"))
made_s3_reference (some s) = pure s

unfoldable pub make_s3_reference : String → String → Handler S3Reference
unfolding execute get_s3_reference query made_s3_reference
make_s3_reference bucket prefix w =
    (execute (with_s3_reference bucket prefix)
        >> (get_s3_reference w.tables.next_s3 >>= made_s3_reference))
      w

unfoldable pub get_db_reference : ℕ → Handler (Option DbReference)
get_db_reference id = query (λ t. head (select (λ d. d.id == id) t.databases))

unfoldable pub with_db_reference : String → String → Tables → Tables
with_db_reference name host t = record t {
  databases = t.databases ++ (record { id = t.next_database; name = name; host = host } ∷ []);
  next_database = suc t.next_database;
}

unfoldable pub make_db_reference : String → String → Handler (Option DbReference)
unfolding execute get_db_reference query
make_db_reference name host w =
    (execute (with_db_reference name host) >> get_db_reference w.tables.next_database) w

-- `id ? DELETE … WHERE id = ? : null`
abbrev pub has_id : Option ℕ → ℕ → Bool
has_id none n = false
has_id (some m) n = not (m == 0) && (n == m)

-- A replay that names the database keeps it from being deleted.
unfoldable pub delete_db_reference : Option ℕ → Handler (Unit {0})
unfolding execute raise
delete_db_reference id w =
    if any (λ d. has_id id d.id && any (λ r. is_id r.db_id d.id) w.tables.replays)
      w.tables.databases
    then raise (other_error (codes "ER_ROW_IS_REFERENCED_2")) w
    else execute (λ t. record t { databases = delete_where (λ d. has_id id d.id) t.databases }) w

unfoldable pub delete_aws_keys : Option ℕ → Handler (Unit {0})
delete_aws_keys id =
    execute (λ t. record t { aws_keys = delete_where (λ k. has_id id k.id) t.aws_keys })

unfoldable pub delete_s3_reference : Option ℕ → Handler (Unit {0})
delete_s3_reference id =
    execute (λ t. record t { s3_references = delete_where (λ s. has_id id s.id) t.s3_references })

-- `DELETE FROM Capture WHERE envId = ?`, with the replays of the captures
unfoldable pub without_captures_of : ℕ → Tables → Tables
without_captures_of id t = record t {
  captures = delete_where (λ c. is_id c.env_id id) t.captures;
  replays =
      delete_where (λ r. any (λ c. is_id c.env_id id && is_id r.capture_id c.id) t.captures)
        t.replays;
}

-- `DELETE FROM Environment WHERE id = ?`, with its members
unfoldable pub without_environment : ℕ → Tables → Tables
without_environment id t = record t {
  environments = delete_where (λ e. e.id == id) t.environments;
  members = delete_where (λ m. m.environment_id == id) t.members;
}

unfoldable pub delete_found_environment : ℕ → Option Environment → Handler (Option (Unit {0}))
unfolding delete_db_reference delete_aws_keys delete_s3_reference execute pure
delete_found_environment id none = pure none
delete_found_environment id (some e) = do
  delete_db_reference e.db_id
  delete_aws_keys e.aws_keys_id
  delete_s3_reference e.s3_id
  execute (without_captures_of id)
  execute (without_environment id)
  pure (some tt)

unfoldable pub delete_environment : ℕ → Handler (Option (Unit {0}))
unfolding get_environment delete_found_environment
delete_environment id = get_environment id >>= delete_found_environment id
