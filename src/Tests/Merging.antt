-- ===== src/Tests/Merging.antt =====
-- Merges of metrics and of workloads at concrete inputs. A timestamp is read by its length here.
use lil_bobby_tables_my_crt.Common.Tests.{
  ℕ, String, ◌≡◌, refl, ◌↔◌, true, Option, none, some, List, [], ◌∷◌, ◌++◌, map, ◌==◌,
  if◌then◌else◌,
}
use lil_bobby_tables_my_crt.Common.Lists.{In}
use Prim.Native.String.{count}
use lil_bobby_tables_my_crt.Common.Dict.{lookup, insert}
use lil_bobby_tables_my_crt.Common.Keyed.{put_all, last_with}
use lil_bobby_tables_my_crt.Common.Sort.{sort, IsSorted}
use lil_bobby_tables_my_crt.Data.{Metric, MetricsList, Command, Workload}
use lil_bobby_tables_my_crt.Storage.Schema.{Key}
use lil_bobby_tables_my_crt.Metrics.Merger.{
  timestamp_of, time_of, merge_metrics_lists, add_list, hash_out, build,
}
use lil_bobby_tables_my_crt.Metrics.Merger.Types.{points_of}
use lil_bobby_tables_my_crt.Metrics.Merger.Exact.{merge_metrics_lists_exact}
use lil_bobby_tables_my_crt.Workload.Storage.{ensure_hash, hash_of, event_ms, merge_objects}
use lil_bobby_tables_my_crt.Workload.Storage.Exact.{merge_objects_exact}
use lil_bobby_tables_my_crt.Workload.Prep.{mock_filter, begins_with}

abbrev point : String → ℕ → Metric ℕ
point t v = record { timestamp = t; maximum = v; unit = "Percent" }

abbrev list_of : String → List (Metric ℕ) → MetricsList ℕ
list_of ty ps = record {
  label = "CPUUtilization";
  type = ty;
  display_name = none;
  complete = none;
  data_points = ps;
}

abbrev cpu_old : List (MetricsList ℕ)
cpu_old = list_of "CPU UTILIZATION" (point "aaa" 1 ∷ point "a" 2 ∷ []) ∷ []

abbrev cpu_new : List (MetricsList ℕ)
cpu_new =
    list_of "READ IOPS" (point "a" 7 ∷ [])
    ∷ list_of "CPU UTILIZATION" (point "aaa" 3 ∷ point "aa" 4 ∷ [])
    ∷ []

merge_sorts :
    points_of "CPU UTILIZATION" (merge_metrics_lists count cpu_old cpu_new)
    ≡ point "a" 2 ∷ point "aa" 4 ∷ point "aaa" 3 ∷ []
unfolding merge_metrics_lists add_list hash_out build points_of put_all lookup insert sort
merge_sorts = refl

merge_metrics_lists_exact_example :
    ((x : Metric ℕ)
      → In x (points_of "CPU UTILIZATION" (merge_metrics_lists count cpu_old cpu_new)) ↔ (
          last_with timestamp_of x.timestamp none (points_of "CPU UTILIZATION" (cpu_old ++ cpu_new))
          ≡ some x))
    × IsSorted
        (time_of count)
        (points_of "CPU UTILIZATION" (merge_metrics_lists count cpu_old cpu_new))
merge_metrics_lists_exact_example =
    merge_metrics_lists_exact count "CPU UTILIZATION" cpu_old cpu_new

abbrev command : String → String → Command
command time text = record {
  event_time = time;
  user_host = "root";
  thread_id = 1;
  server_id = 2;
  command_type = "Query";
  argument = text;
  hash = none;
}

-- The digest stands for the text: its last character, which the tests make different.
abbrev digest : Key → String
digest [] = ""
digest (c ∷ []) = if c == b'1' then "h1" else "h2"
digest (_ ∷ c ∷ s) = digest (c ∷ s)

abbrev ms : String → Option ℕ
ms s = some (count s)

abbrev first_half : Workload
first_half = record { start = "a"; end = "aaa"; commands = command "aa" "q1" ∷ [] }

abbrev second_half : Workload
second_half = record {
  start = "aa";
  end = "aaaa";
  commands = command "aa" "q1" ∷ command "a" "q2" ∷ [];
}

abbrev both : List Command
both =
    map (ensure_hash digest ms) first_half.commands
    ++ map (ensure_hash digest ms) second_half.commands

merge_objects_exact_example :
    ((x : Command)
      → In x (merge_objects digest ms first_half second_half).commands
        ↔ (last_with (hash_of digest ms) (hash_of digest ms x) none both ≡ some x))
    × IsSorted (event_ms digest ms) (merge_objects digest ms first_half second_half).commands
merge_objects_exact_example = merge_objects_exact digest ms first_half second_half

mock_filter_test : mock_filter (command "a" "update LilBobbyTables set x") ≡ true
unfolding mock_filter begins_with
mock_filter_test = refl
