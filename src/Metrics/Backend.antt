-- ===== src/Metrics/Backend.antt =====
-- common/src/metrics/metrics.ts, metrics-backend.ts and cloudwatch-metrics-backend.ts: what is measured, and
-- the queries to CloudWatch, whose client is a parameter.
use lil_bobby_tables_my_crt.Common.Tests.{ℕ, String, Option, none, some, List, [], ◌∷◌}
use lil_bobby_tables_my_crt.Common.Action.{Action, ◌>>=◌, pure}
use lil_bobby_tables_my_crt.Data.{
  Metric, MetricsList, MetricType, cpu, read, write, memory, free_storage, read_throughput,
  write_throughput,
}
use lil_bobby_tables_my_crt.Storage.Schema.{Error}
use lil_bobby_tables_my_crt.Metrics.Storage.{metric_type_name}

-- The class `Metric`, an entry of `MetricsHash`.
pub record MetricEntry : Type 0 where
  pub metric_type : MetricType
  pub metric_name : String
  pub unit : String

abbrev entry : MetricType → String → String → MetricEntry
entry ty name unit = record { metric_type = ty; metric_name = name; unit = unit }

-- `for (const entry in MetricsHash)` takes them in the order in which they were put there.
abbrev pub metrics_hash : List MetricEntry
metrics_hash =
    entry cpu "CPUUtilization" "Percent"
    ∷ entry read "ReadIOPS" "Count/Second"
    ∷ entry write "WriteIOPS" "Count/Second"
    ∷ entry memory "FreeableMemory" "Bytes"
    ∷ entry free_storage "FreeStorageSpace" "Bytes"
    ∷ entry write_throughput "WriteThroughput" "Bytes/Second"
    ∷ entry read_throughput "ReadThroughput" "Bytes/Second"
    ∷ []

abbrev or_no_points : {Number : Type 0} → Option (List (Metric Number)) → List (Metric Number)
or_no_points none = []
or_no_points (some points) = points

unfoldable pub to_i_metrics_list :
    {Number : Type 0} → MetricEntry → Option (List (Metric Number)) → MetricsList Number
to_i_metrics_list metric points = record {
  label = metric.metric_name;
  type = metric_type_name metric.metric_type;
  display_name = some (metric_type_name metric.metric_type);
  complete = none;
  data_points = or_no_points points;
}

-- `getMetricsForType` of some backend.
abbrev pub MetricsBackend : Type 0 → Type 0 → Type 0
MetricsBackend World Number = MetricEntry → ℕ → ℕ → Action World Error (MetricsList Number)

pub record CloudWatchMetricsBackend : Type 0 where
  pub dim_name : String
  pub dim_value : String
  pub period : ℕ
  pub statistics : List String

pub record GetMetricStatisticsInput : Type 0 where
  pub dimension : String × String
  pub end_time : ℕ
  pub metric_name : String
  pub namespace : String
  pub period : ℕ
  pub start_time : ℕ
  pub statistics : List String
  pub unit : String

unfoldable pub clone_for_instance : CloudWatchMetricsBackend → String → CloudWatchMetricsBackend
clone_for_instance b instance_name = record b { dim_value = instance_name }

unfoldable pub build_metric_request :
    CloudWatchMetricsBackend → MetricEntry → ℕ → ℕ → GetMetricStatisticsInput
build_metric_request b metric start end = record {
  dimension = (b.dim_name, b.dim_value);
  end_time = end;
  metric_name = metric.metric_name;
  namespace = "AWS/RDS";
  period = b.period;
  start_time = start;
  statistics = b.statistics;
  unit = metric.unit;
}

-- `get_metric_statistics` is the call of the client, with the `Datapoints` of its answer.
unfoldable pub get_metrics_of :
    {World Number : Type 0}
    → (GetMetricStatisticsInput → Action World Error (Option (List (Metric Number))))
    → CloudWatchMetricsBackend
    → MetricsBackend World Number
get_metrics_of get_metric_statistics b metric start end = do
  points ← get_metric_statistics (build_metric_request b metric start end)
  pure (to_i_metrics_list metric points)
