-- ===== src/Tests/Storage.antt =====
-- The keys and the fragmented files at concrete inputs.
use lil_bobby_tables_my_crt.Common.Tests.{
  ℕ, ◌≡◌, refl, ap, ◌≢◌, Bool, true, false, none, some, List, [], ◌∷◌, ◌++◌, arith, codes,
}
use lil_bobby_tables_my_crt.Common.Lists.{drop, all}
use lil_bobby_tables_my_crt.Common.Exec.{ok}
use lil_bobby_tables_my_crt.Common.Action.{◌>>=◌}
use lil_bobby_tables_my_crt.Common.Digits.{decimal, parse_int}
use lil_bobby_tables_my_crt.Data.{ChildProgram, capture, mimic, running}
use lil_bobby_tables_my_crt.Storage.Schema.{
  Key, metrics, root_prefix, depot_prefix, done_key, in_progress_key, single_sample_key, timed_name,
  done_name, child_process_type_to_string, show, strip, take_digits, drop_digits, match_timed,
  time_pattern, time_from_key, at,
}
use lil_bobby_tables_my_crt.Storage.Schema.Directories.{root_prefix_disjoint}
use lil_bobby_tables_my_crt.Storage.Backend.{key_eq}
use lil_bobby_tables_my_crt.Storage.Fragmented.{
  FragmentedStorage, newest, latest_key, absorb, get_latest_in_progress_object, get_updated_object,
  read, read_fragments, delete_all, delete_in_progress, delete_depot_entries,
  clean_in_progress_and_depot_files, update_in_progress_object,
}
use lil_bobby_tables_my_crt.Storage.Fragmented.Outside.{read_only_inside}
use lil_bobby_tables_my_crt.Storage.Fragmented.Final.{read_final_lem}
use lil_bobby_tables_my_crt.Storage.Fragmented.Merging.{Entry, get_updated_object_resumed}
use lil_bobby_tables_my_crt.Tests.Memory.{
  memory, memory-IsLawful, find, put, remove, matching, found,
}

-- To unfold this is to unfold all that a run of the keys or of a read computes with.
keys_run : Unit {0}
unfolding root_prefix depot_prefix done_key in_progress_key single_sample_key timed_name
    child_process_type_to_string show strip take_digits drop_digits match_timed time_pattern
    time_from_key decimal parse_int all
keys_run = tt

read_run : Unit {0}
unfolding keys_run ◌>>=◌ newest latest_key absorb get_latest_in_progress_object get_updated_object
    read read_fragments delete_all delete_in_progress delete_depot_entries
    clean_in_progress_and_depot_files update_in_progress_object find put remove matching found
    key_eq
read_run = tt

abbrev program : ChildProgram
program = record { type = some capture; id = some 7; env_id = some 3; status = some running }

abbrev other : ChildProgram
other = record { type = some mimic; id = some 7; env_id = some 3; status = none }

abbrev storage : FragmentedStorage (List ℕ)
storage = record {
  fragment_type = metrics;
  backend = memory (List ℕ);
  default_object = [];
  merge_objects = λ a b. a ++ b;
}

abbrev root : Key
root = codes "environment3/capture7/"

abbrev sample_key : ℕ → Key
sample_key n = root ++ (codes "depot/metrics-" ++ (n ∷ codes ".json"))

-- Samples of the times 5 and 8, of which the first is in the in-progress file, and a file of another
-- program.
abbrev files : List (Key × List ℕ)
files =
    (codes "environment3/capture7/metrics-5.json", 1 ∷ [])
    ∷ (sample_key b'5', 1 ∷ [])
    ∷ (sample_key b'8', 2 ∷ [])
    ∷ (codes "environment3/capture70/metrics.json", 9 ∷ [])
    ∷ []

abbrev entry : ℕ → List ℕ → Entry (List ℕ)
entry n v = record { key = sample_key n; sample = v }

read_twice :
    ((read storage program true files).0 ≡ ok (1 ∷ 2 ∷ []))
    × ((read storage program false (read storage program true files).1).0 ≡ ok (1 ∷ 2 ∷ []))
unfolding read_run
read_twice = (refl, refl)

root_prefix_disjoint_example :
    (◌≡◌ {A = Bool} false false)
    × (◌≡◌ {A = ℕ} 3 3)
    × (◌≡◌ {A = ℕ} 7 7)
    × (codes "metrics.json" ≡ codes "metrics.json")
unfolding keys_run
root_prefix_disjoint_example =
    root_prefix_disjoint program other {p = root} {q = root} (codes "metrics.json")
      (codes "metrics.json") refl refl refl refl refl refl refl refl refl

get_updated_object_resumed_example :
    (get_updated_object storage program files).0 ≡ ok (1 ∷ 2 ∷ [], at 8)
unfolding read_run
get_updated_object_resumed_example =
    get_updated_object_resumed storage program files {root = root} {depot = root ++ codes "depot/"}
      refl refl (codes "environment3/capture7/metrics-5.json") (entry b'5' (1 ∷ []) ∷ [])
      (entry b'8' (2 ∷ []) ∷ []) 4 refl refl refl refl (refl, tt) (refl, tt) (refl, tt)

read_final_lem_example :
    ((read storage program false files).0 ≡ ok (1 ∷ 2 ∷ []))
    × (find (read storage program false files).1 (root ++ done_name metrics) ≡ some (1 ∷ 2 ∷ []))
    × ((live : Bool)
        → read storage program live (read storage program false files).1
          ≡ (ok (1 ∷ 2 ∷ []), (read storage program false files).1))
unfolding read_run
read_final_lem_example =
    read_final_lem storage find (memory-IsLawful (List ℕ)) program root refl files (1 ∷ 2 ∷ [])
      (at 8) refl refl

abbrev elsewhere : Key
elsewhere = codes "environment3/capture70/metrics.json"

-- The character behind the number 7.
abbrev nth : Key → ℕ
nth k = elim (drop 21 k) [ [] ↦ 0 | c ∷ _ ↦ c ]

outside_root : (x : Key) → elsewhere ≢ root ++ x
outside_root x e = absurd (omega (arith, ap nth e))

read_only_inside_example :
    find (read storage program false files).1 elsewhere ≡ find files elsewhere
unfolding keys_run
read_only_inside_example =
    read_only_inside storage find (memory-IsLawful (List ℕ)) program root refl false files elsewhere
      outside_root
