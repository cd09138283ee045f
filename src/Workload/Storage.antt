-- ===== src/Workload/Storage.antt =====
-- capture/src/workload/workload-storage.ts: workloads as a fragmented file.
pub mod Exact
pub mod Merged
use lil_bobby_tables_my_crt.Common.Tests.{
  ℕ, zero, ◌+◌, String, Bool, false, Option, none, some, List, [], ◌++◌, map, str_eq, ltb,
  if◌then◌else◌, codes,
}
use lil_bobby_tables_my_crt.Common.Lists.{all}
use lil_bobby_tables_my_crt.Common.Action.{Action, ◌>>=◌, lift}
use lil_bobby_tables_my_crt.Common.Digits.{decimal}
use lil_bobby_tables_my_crt.Common.Dict.{values}
use lil_bobby_tables_my_crt.Common.Keyed.{put_all}
use lil_bobby_tables_my_crt.Common.Sort.{sort}
use lil_bobby_tables_my_crt.Data.{Command, Workload, ChildProgram}
use lil_bobby_tables_my_crt.Storage.Schema.{Key, Error, workload, done_key}
use lil_bobby_tables_my_crt.Storage.Backend.{StorageBackend}
use lil_bobby_tables_my_crt.Storage.Fragmented
use lil_bobby_tables_my_crt.Storage.Fragmented.{FragmentedStorage}

-- The text that `hash` digests.
abbrev pub command_text : Command → Key
command_text c =
    decimal c.server_id
    ++ (decimal c.thread_id
        ++ (codes c.user_host
            ++ (codes c.event_time ++ (codes c.command_type ++ codes c.argument))))

-- `a < b` for times that may be `NaN`.
abbrev pub before : Option ℕ → Option ℕ → Bool
before (some m) (some n) = ltb m n
before _ _ = false

abbrev pub time_or_zero : Option ℕ → ℕ
time_or_zero none = 0
time_or_zero (some n) = n

-- `md5` is the digest of the package of that name, and `date_time` is `new Date(text).getTime()`, which
-- is `none` for a text that is no date. (Where an event time is no date the order of the sort is not
-- determined; here such an event comes first.)
module _ (md5 : Key → String) (date_time : String → Option ℕ) where
  -- `if (command.hash) return;` passes over an empty hash.
  hash_or_new : Option String → Command → String
  hash_or_new none c = md5 (command_text c)
  hash_or_new (some h) c = if str_eq h "" then md5 (command_text c) else h

  unfoldable pub ensure_hash : Command → Command
  unfolding hash_or_new
  ensure_hash c = record c { hash = some (hash_or_new c.hash c) }

  abbrev pub hash_of : Command → String
  hash_of c = elim c.hash [ none ↦ "" | some h ↦ h ]

  abbrev pub event_ms : Command → ℕ
  event_ms c = time_or_zero (date_time c.event_time)

  unfoldable pub build_sorted_commands : List (String × Command) → List Command
  build_sorted_commands m = sort event_ms (values m)

  unfoldable pub merge_objects : Workload → Workload → Workload
  merge_objects a b = record {
    start = if before (date_time a.start) (date_time b.start) then a.start else b.start;
    end = if before (date_time b.end) (date_time a.end) then a.end else b.end;
    commands =
        build_sorted_commands
          (put_all hash_of (map ensure_hash a.commands ++ map ensure_hash b.commands) []);
  }

  abbrev pub default_object : Workload
  default_object = record { start = ""; end = ""; commands = [] }

  module _ (backend : StorageBackend Workload) where
    abbrev pub workload_storage : FragmentedStorage Workload
    workload_storage = record {
      fragment_type = workload;
      backend = backend;
      default_object = default_object;
      merge_objects = merge_objects;
    }

    unfoldable pub build_final_workload_file : ChildProgram → Action backend.State Error (Unit {0})
    build_final_workload_file c = do
      all ← Fragmented.read workload_storage c false
      key ← lift (done_key workload c)
      backend.write_json key all
