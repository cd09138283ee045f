-- ===== src/Service/EnvironmentDao.antt =====
-- common/src/dao/environment-dao.ts: reading an environment.
pub mod Editing
use lil_bobby_tables_my_crt.Common.Tests.{List, ℕ, String, Option, ◌==◌}
use lil_bobby_tables_my_crt.Common.Lists.{select}
use lil_bobby_tables_my_crt.Service.Tables.{
  first_row, User, EnvironmentRow, DbReference, S3Reference, AwsKeys, Tables, is_id, join,
}
use lil_bobby_tables_my_crt.Service.Http.{Handler, query}

pub record Environment : Type 0 where
  pub id : ℕ
  pub name : String
  pub owner_id : Option ℕ
  pub aws_keys_id : Option ℕ
  pub db_id : Option ℕ
  pub s3_id : Option ℕ
  pub username : String

-- The fields of an `IEnvironmentFull` but for its credentials.
pub record EnvironmentFull : Type 0 where
  pub id : ℕ
  pub env_name : String
  pub owner_id : Option ℕ
  pub username : String
  pub keys_id : ℕ
  pub keys_name : String
  pub region : String
  pub db_name : String
  pub host : String
  pub bucket : String
  pub prefix : String

abbrev pub row_to_environment : EnvironmentRow × User → Environment
row_to_environment (e, u) = record {
  id = e.id;
  name = e.name;
  owner_id = e.owner_id;
  aws_keys_id = e.aws_keys_id;
  db_id = e.db_id;
  s3_id = e.s3_id;
  username = u.email;
}

abbrev pub row_to_environment_full :
    (((EnvironmentRow × DbReference) × S3Reference) × AwsKeys) × User → EnvironmentFull
row_to_environment_full ((((e, d), s), a), u) = record {
  id = e.id;
  env_name = e.name;
  owner_id = e.owner_id;
  username = u.email;
  keys_id = a.id;
  keys_name = a.name;
  region = a.region;
  db_name = d.name;
  host = d.host;
  bucket = s.bucket;
  prefix = s.prefix;
}

-- `SELECT e.*, u.isAdmin, u.email FROM Environment AS e JOIN User as u ON e.ownerId = u.id WHERE e.id = ?`
unfoldable pub environment_of : ℕ → Tables → Option Environment
environment_of id t =
    first_row row_to_environment
      (select (λ r. r.0.id == id) (join (λ e u. is_id e.owner_id u.id) t.environments t.users))

unfoldable pub get_environment : ℕ → Handler (Option Environment)
get_environment id = query (environment_of id)

abbrev pub FullRow : Type 0
FullRow = (((EnvironmentRow × DbReference) × S3Reference) × AwsKeys) × User

-- The environments with all that they hold.
abbrev pub full_rows : Tables → List FullRow
full_rows t =
    let with_db = join (λ e d. is_id e.db_id d.id) t.environments t.databases in
    let with_s3 = join (λ r s. is_id r.0.s3_id s.id) with_db t.s3_references in
    let with_keys = join (λ r a. is_id r.0.0.aws_keys_id a.id) with_s3 t.aws_keys in
    join (λ r u. is_id r.0.0.0.owner_id u.id) with_keys t.users

unfoldable pub environment_full_of : ℕ → Tables → Option EnvironmentFull
environment_full_of id t =
    first_row row_to_environment_full (select (λ r. r.0.0.0.0.id == id) (full_rows t))

unfoldable pub get_environment_full : ℕ → Handler (Option EnvironmentFull)
get_environment_full id = query (environment_full_of id)
