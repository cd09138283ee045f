-- ===== src/Metrics/Storage.antt =====
-- common/src/metrics/metrics-storage.ts: metrics as a fragmented file.
pub mod Single
use lil_bobby_tables_my_crt.Common.Tests.{
  ℕ, String, Bool, true, false, Option, none, some, List, [], ◌∷◌, str_eq,
}
use lil_bobby_tables_my_crt.Common.Lists.{select, all}
use lil_bobby_tables_my_crt.Common.Exec.{Result, ok, throw}
use lil_bobby_tables_my_crt.Common.Action.{Action, ◌>>=◌, raise, lift}
use lil_bobby_tables_my_crt.Data.{
  MetricsList, MetricType, cpu, write, read, memory, free_storage, read_throughput,
  write_throughput, ChildProgram, ChildProgramStatus, scheduled, started, starting, running,
  stopping, done, failed,
}
use lil_bobby_tables_my_crt.Storage.Schema.{Error, metrics}
use lil_bobby_tables_my_crt.Storage.Backend.{StorageBackend}
use lil_bobby_tables_my_crt.Storage.Fragmented
use lil_bobby_tables_my_crt.Storage.Fragmented.{FragmentedStorage}
use lil_bobby_tables_my_crt.Metrics.Merger.{merge_metrics_lists}

-- The values of the enumeration.
abbrev pub metric_type_name : MetricType → String
metric_type_name cpu = "CPU UTILIZATION"
metric_type_name write = "WRITE IOPS"
metric_type_name read = "READ IOPS"
metric_type_name memory = "FREEABLE MEMORY"
metric_type_name free_storage = "FREE STORAGE"
metric_type_name read_throughput = "READ THROUGHPUT"
metric_type_name write_throughput = "WRITE THROUGHPUT"

-- `IMetricsList | IMetricsList[]`
pub data MetricsReply (Number : Type 0) : Type 0 where
  single : MetricsList Number → MetricsReply Number
  many : List (MetricsList Number) → MetricsReply Number

module _ {Number : Type 0} where
  only_one : List (MetricsList Number) → Result Error (MetricsList Number)
  only_one [] = throw "No metrics of this type"
  only_one (l ∷ []) = ok l
  only_one (l ∷ _ ∷ _) = throw "Too many IMetricsLists with this type"

  -- The messages also hold the type, and the number of lists.
  unfoldable pub get_specific_metric_from_list :
      List (MetricsList Number) → String → Result Error (MetricsList Number)
  unfolding only_one
  get_specific_metric_from_list list ty = only_one (select (λ l. str_eq l.type ty) list)

  -- The `try` of `readMetricsFromBackend`.
  no_metrics : Result Error (MetricsList Number) → Result Error (MetricsReply Number)
  no_metrics (ok l) = ok (single l)
  no_metrics (throw e) = throw "No metrics for this type"

  unfoldable pub pick :
      Option MetricType → List (MetricsList Number) → Result Error (MetricsReply Number)
  unfolding no_metrics
  pick none all = ok (many all)
  pick (some t) all = no_metrics (get_specific_metric_from_list all (metric_type_name t))

module _ {Number : Type 0} (date_time : String → ℕ)
    (backend : StorageBackend (List (MetricsList Number))) where
  abbrev pub metrics_storage : FragmentedStorage (List (MetricsList Number))
  metrics_storage = record {
    fragment_type = metrics;
    backend = backend;
    default_object = [];
    merge_objects = merge_metrics_lists date_time;
  }

  unfoldable pub read_metrics_from_backend :
      ChildProgram → Option MetricType → Bool → Action backend.State Error (MetricsReply Number)
  read_metrics_from_backend c ty live = do
    all ← Fragmented.read metrics_storage c live
    lift (pick ty all)

  -- The `switch` of `readMetrics`; a program with no status, or just started, falls to its default.
  read_for_status :
      Option ChildProgramStatus
      → ChildProgram
      → Option MetricType
      → Action backend.State Error (MetricsReply Number)
  read_for_status (some scheduled) c ty = raise "Its too early to get metrics"
  read_for_status (some starting) c ty = raise "Its too early to get metrics"
  read_for_status (some running) c ty = read_metrics_from_backend c ty true
  read_for_status (some stopping) c ty = read_metrics_from_backend c ty true
  read_for_status (some done) c ty = read_metrics_from_backend c ty false
  read_for_status (some failed) c ty = read_metrics_from_backend c ty false
  read_for_status (some started) c ty = raise "Bad ChildProgramStatus"
  read_for_status none c ty = raise "Bad ChildProgramStatus"

  unfoldable pub read_metrics :
      ChildProgram → Option MetricType → Action backend.State Error (MetricsReply Number)
  unfolding read_for_status
  read_metrics c ty = read_for_status c.status c ty
