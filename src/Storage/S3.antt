-- ===== src/Storage/S3.antt =====
-- common/src/storage/s3-backend.ts: files as the objects of a bucket of Amazon S3, under a prefix.
pub mod Laws
pub mod Files
pub mod Deletion
pub mod Unprefixed
use lil_bobby_tables_my_crt.Common.Tests.{
  Bool, true, false, Option, none, some, List, [], ◌∷◌, ◌++◌, if◌then◌else◌, is_some, codes,
}
use lil_bobby_tables_my_crt.Common.Lists.{length, drop, select}
use lil_bobby_tables_my_crt.Common.Exec.{Result, ok, throw}
use lil_bobby_tables_my_crt.Common.Action.{Action}
use lil_bobby_tables_my_crt.Storage.Schema.{Key, Error, strip}
use lil_bobby_tables_my_crt.Storage.Backend.{StorageBackend}

-- An error of the service, with its code.
pub data AwsError : Type 0 where
  not_found : AwsError
  aws_error : Error → AwsError

abbrev pub code_of : AwsError → Error
code_of not_found = "NotFound"
code_of (aws_error code) = code

-- The calls of the client `S3` on one bucket, for objects that hold values of one type.
pub record S3Client (T : Type 0) : Type 1 where
  pub State : Type 0
  pub head_object : State → Key → Result AwsError (Unit {0})
  pub get_object : State → Key → Result AwsError T
  pub put_object : Key → T → Action State AwsError (Unit {0})
  pub delete_object : Key → Action State AwsError (Unit {0})
  -- `listObjects`, whose answer may have no contents
  pub list_objects : State → Key → Result AwsError (Option (List Key))

-- `key.lastIndexOf(prefix, 0) === 0`
abbrev pub starts_with : Key → Key → Bool
starts_with prefix key = is_some (strip prefix key)

unfoldable pub attach_prefix : Key → Key → Key
attach_prefix prefix key = if starts_with prefix key then key else prefix ++ (codes "/" ++ key)

abbrev exists_of : Result AwsError (Unit {0}) → Result Error Bool
exists_of (ok u) = ok true
exists_of (throw not_found) = ok false
exists_of (throw (aws_error code)) = throw code

module _ {A : Type 0} where
  abbrev pub by_code : Result AwsError A → Result Error A
  by_code (ok a) = ok a
  by_code (throw e) = throw (code_of e)

-- The keys whose rest behind the directory matches.
abbrev pub rest_matches : Key → (Key → Bool) → Key → Bool
rest_matches dir pattern key = pattern (drop (length dir) key)

abbrev listed_keys : Result AwsError (Option (List Key)) → Result Error (List Key)
listed_keys (ok none) = ok []
listed_keys (ok (some keys)) = ok keys
listed_keys (throw e) = throw (code_of e)

abbrev matching : Key → (Key → Bool) → Result Error (List Key) → Result Error (List Key)
matching dir pattern (ok keys) = ok (select (rest_matches dir pattern) keys)
matching dir pattern (throw e) = throw e

module _ {T : Type 0} (s3 : S3Client T) (prefix : Key) where
  -- `listObjects`, one request
  unfoldable pub list_objects : s3.State → Key → Result Error (List Key)
  list_objects s dir = listed_keys (s3.list_objects s dir)

  unfoldable pub all_matching : s3.State → Key → (Key → Bool) → Result Error (List Key)
  unfolding list_objects
  all_matching s dir pattern =
      let full = attach_prefix prefix dir in matching full pattern (list_objects s full)

  unfoldable pub write_json : Key → T → Action s3.State Error (Unit {0})
  write_json key value s =
      let r = s3.put_object (attach_prefix prefix key) value s in (by_code r.0, r.1)

  unfoldable pub delete_json : Key → Action s3.State Error (Unit {0})
  delete_json key s = let r = s3.delete_object (attach_prefix prefix key) s in (by_code r.0, r.1)

  abbrev pub s3_backend : StorageBackend T
  s3_backend = record {
    State = s3.State;
    exists = λ s key. exists_of (s3.head_object s (attach_prefix prefix key));
    all_matching = all_matching;
    read_json = λ s key. by_code (s3.get_object s (attach_prefix prefix key));
    write_json = write_json;
    delete_json = delete_json;
  }

  -- The deletions are started in order; what they answer is not awaited.
  -- Here each is done when it is started.
  unfoldable pub delete_each : List Key → s3.State → s3.State
  unfolding delete_json
  delete_each [] s = s
  delete_each (key ∷ keys) s = delete_each keys (delete_json key s).1

  abbrev deleted : Result Error (List Key) → Action s3.State Error (Unit {0})
  deleted (ok keys) s = (ok tt, delete_each keys s)
  deleted (throw e) s = (throw e, s)

  unfoldable pub delete_prefix : Key → Action s3.State Error (Unit {0})
  unfolding list_objects delete_each
  delete_prefix dir s = deleted (list_objects s (attach_prefix prefix dir)) s
