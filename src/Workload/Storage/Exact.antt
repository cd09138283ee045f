-- ===== src/Workload/Storage/Exact.antt =====
-- What a merge of workloads holds (workload-storage.ts), against the commands of both.
use lil_bobby_tables_my_crt.Common.Tests.{ℕ, String, ◌≡◌, ◌↔◌, Option, none, some, [], ◌++◌, map}
use lil_bobby_tables_my_crt.Common.Lists.{In}
use lil_bobby_tables_my_crt.Common.Dict.{values}
use lil_bobby_tables_my_crt.Common.Keyed.{put_all, last_with, In-values-put_all}
use lil_bobby_tables_my_crt.Common.Sort.{IsSorted, sort-IsSorted, sort-In}
use lil_bobby_tables_my_crt.Data.{Command, Workload}
use lil_bobby_tables_my_crt.Storage.Schema.{Key}
use lil_bobby_tables_my_crt.Workload.Storage.{
  ensure_hash, hash_of, event_ms, build_sorted_commands, merge_objects,
}

module _ (md5 : Key → String) (date_time : String → Option ℕ) where
  -- The merge of two workloads holds exactly the commands, with their hashes, that are the last ones
  -- of their hash in the first and then the second, in the order of their event times.
  pub merge_objects_exact :
      (a b : Workload)
      → let both =
          map (ensure_hash md5 date_time) a.commands
          ++ map (ensure_hash md5 date_time) b.commands in
        ((x : Command)
          → In x (merge_objects md5 date_time a b).commands
            ↔ (last_with (hash_of md5 date_time) (hash_of md5 date_time x) none both ≡ some x))
        × IsSorted (event_ms md5 date_time) (merge_objects md5 date_time a b).commands
  unfolding merge_objects build_sorted_commands
  merge_objects_exact a b =
      let both =
        map (ensure_hash md5 date_time) a.commands ++ map (ensure_hash md5 date_time) b.commands in
      (
        λ x.
            let sorted =
              sort-In (event_ms md5 date_time) x
                (values (put_all (hash_of md5 date_time) both [])) in
            let kept = In-values-put_all (hash_of md5 date_time) x both in
            (λ m. kept.0 (sorted.0 m), λ e. sorted.1 (kept.1 e)),
        sort-IsSorted (event_ms md5 date_time) _,
      )
