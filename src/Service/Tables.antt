-- ===== src/Service/Tables.antt =====
-- scripts/db/mycrt.sql: the tables that the service reads and writes, as lists of rows in the order of
-- their ids, and the parts of SQL that its queries use. The credentials of Amazon and of the captured
-- databases are left out.
pub mod Rows
use lil_bobby_tables_my_crt.Common.Tests.{
  ℕ, String, Bool, true, false, not, Option, none, some, List, [], ◌∷◌, ◌++◌, ◌==◌, if◌then◌else◌,
}
use lil_bobby_tables_my_crt.Common.Lists.{select, any}
use lil_bobby_tables_my_crt.Data.{ChildProgramStatus}

pub record User : Type 0 where
  pub id : ℕ
  pub email : String
  pub is_admin : Bool
  pub password_hash : String
  pub session_token : Option String
  pub login_time : Option ℕ
  pub last_token_check : Option ℕ
  pub reset_token : Option String
  pub reset_created_at : Option ℕ
  pub reset_used_at : Option ℕ

pub record EnvironmentRow : Type 0 where
  pub id : ℕ
  pub name : String
  pub owner_id : Option ℕ
  pub aws_keys_id : Option ℕ
  pub db_id : Option ℕ
  pub s3_id : Option ℕ

pub record EnvironmentUser : Type 0 where
  pub id : ℕ
  pub environment_id : ℕ
  pub user_id : ℕ
  pub is_admin : Bool
  pub invite_code : String
  pub accepted : Bool
  pub accepted_at : Option ℕ
  pub created_at : ℕ

pub record CaptureRow : Type 0 where
  pub id : ℕ
  pub name : String
  pub owner_id : Option ℕ
  pub is_mimic : Bool
  pub start : Option ℕ
  pub scheduled_start : Option ℕ
  pub scheduled_end : Option ℕ
  pub end : Option ℕ
  pub status : ChildProgramStatus
  pub reason : Option String
  pub env_id : Option ℕ

pub record ReplayRow : Type 0 where
  pub id : ℕ
  pub owner_id : Option ℕ
  pub capture_id : Option ℕ
  pub is_mimic : Bool
  pub db_id : Option ℕ
  pub name : String
  pub start : Option ℕ
  pub scheduled_start : Option ℕ
  pub end : Option ℕ
  pub status : ChildProgramStatus
  pub reason : Option String

pub record DbReference : Type 0 where
  pub id : ℕ
  pub name : String
  pub host : String

pub record S3Reference : Type 0 where
  pub id : ℕ
  pub bucket : String
  pub prefix : String

pub record AwsKeys : Type 0 where
  pub id : ℕ
  pub name : String
  pub region : String
  pub user_id : Option ℕ

-- The next ids are the tables' AUTO_INCREMENT counters.
pub record Tables : Type 0 where
  pub users : List User
  pub environments : List EnvironmentRow
  pub members : List EnvironmentUser
  pub captures : List CaptureRow
  pub replays : List ReplayRow
  pub databases : List DbReference
  pub s3_references : List S3Reference
  pub aws_keys : List AwsKeys
  pub next_user : ℕ
  pub next_environment : ℕ
  pub next_database : ℕ
  pub next_s3 : ℕ
  pub next_keys : ℕ
  pub next_member : ℕ
  pub next_capture : ℕ
  pub next_replay : ℕ

-- `column = id` for a column that may be NULL
abbrev pub is_id : Option ℕ → ℕ → Bool
is_id none n = false
is_id (some m) n = m == n

-- A foreign key that is NULL or names a row.
abbrev pub is_reference : Option ℕ → List ℕ → Bool
is_reference none ids = true
is_reference (some m) ids = any (λ n. m == n) ids

module _ {A B : Type 0} where
  abbrev pub pair_with : A → List B → List (A × B)
  pair_with a [] = []
  pair_with a (b ∷ ys) = (a, b) ∷ pair_with a ys

  -- `A JOIN B ON on`
  unfoldable pub join : (A → B → Bool) → List A → List B → List (A × B)
  join on [] ys = []
  join on (a ∷ xs) ys = pair_with a (select (on a) ys) ++ join on xs ys

module _ {A : Type 0} where
  -- `UPDATE A SET change WHERE test`
  unfoldable pub update_where : (A → Bool) → (A → A) → List A → List A
  update_where test change [] = []
  update_where test change (a ∷ xs) =
      let rest = update_where test change xs in if test a then change a ∷ rest else a ∷ rest

  -- `DELETE FROM A WHERE test`
  unfoldable pub delete_where : (A → Bool) → List A → List A
  delete_where test xs = select (λ a. not (test a)) xs

module _ {A B : Type 0} where
  -- `rows.length === 0 ? null : rowTo(rows[0])`
  unfoldable pub first_row : (A → B) → List A → Option B
  first_row row_to [] = none
  first_row row_to (a ∷ xs) = some (row_to a)
