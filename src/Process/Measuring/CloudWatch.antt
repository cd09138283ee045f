-- ===== src/Process/Measuring/CloudWatch.antt =====
-- The answers of CloudWatchMetricsBackend (cloudwatch-metrics-backend.ts), over a client that keeps a series of
-- points for each name of a metric.
use lil_bobby_tables_my_crt.Common.Tests.{
  ℕ, String, ◌≡◌, refl, inl, inr, ◌&&◌, Option, some, List, leb, ltb,
}
use lil_bobby_tables_my_crt.Common.Lists.{select, In}
use lil_bobby_tables_my_crt.Common.Exec.{ok}
use lil_bobby_tables_my_crt.Common.Action.{Action, ◌>>=◌}
use lil_bobby_tables_my_crt.Data.{
  Metric, MetricType, cpu, read, write, memory, free_storage, read_throughput, write_throughput,
}
use lil_bobby_tables_my_crt.Storage.Schema.{Error}
use lil_bobby_tables_my_crt.Metrics.Backend.{
  MetricEntry, metrics_hash, CloudWatchMetricsBackend, GetMetricStatisticsInput,
  build_metric_request, get_metrics_of,
}
use lil_bobby_tables_my_crt.Process.Measuring.Points.{Reports}

-- The names in CloudWatch of what is measured.
abbrev pub cloud_watch_name : MetricType → String
cloud_watch_name cpu = "CPUUtilization"
cloud_watch_name read = "ReadIOPS"
cloud_watch_name write = "WriteIOPS"
cloud_watch_name memory = "FreeableMemory"
cloud_watch_name free_storage = "FreeStorageSpace"
cloud_watch_name read_throughput = "ReadThroughput"
cloud_watch_name write_throughput = "WriteThroughput"

name_of_entry :
    (entry : MetricEntry)
    → In entry metrics_hash
    → entry.metric_name ≡ cloud_watch_name entry.metric_type
name_of_entry entry (inl e) = rw e refl
name_of_entry entry (inr (inl e)) = rw e refl
name_of_entry entry (inr (inr (inl e))) = rw e refl
name_of_entry entry (inr (inr (inr (inl e)))) = rw e refl
name_of_entry entry (inr (inr (inr (inr (inl e))))) = rw e refl
name_of_entry entry (inr (inr (inr (inr (inr (inl e)))))) = rw e refl
name_of_entry entry (inr (inr (inr (inr (inr (inr (inl e))))))) = rw e refl
name_of_entry entry (inr (inr (inr (inr (inr (inr (inr i))))))) = absurd i

module _ {Number World : Type 0} (to_megabytes : Number → Number) (date_time : String → ℕ)
    (round_start : ℕ → ℕ) (named : String → List (Metric Number))
    (get_metric_statistics : GetMetricStatisticsInput
      → Action World Error (Option (List (Metric Number)))) where
  -- A request is answered with the points of its name from its start time, which CloudWatch rounds, on and
  -- before its end time (GetMetricStatistics excludes the points of the end time).
  abbrev pub AnswersRequests : Type 0
  AnswersRequests =
      (r : GetMetricStatisticsInput) (w : World)
      → (get_metric_statistics r w).0
        ≡ ok (
            some (
              select
                (λ p.
                  leb (round_start r.start_time) (date_time p.timestamp)
                  && ltb (date_time p.timestamp) r.end_time)
                (named r.metric_name)))

  pub get_metrics_of-Reports :
      AnswersRequests
      → (b : CloudWatchMetricsBackend)
      → Reports to_megabytes date_time round_start
          (λ ty. named (cloud_watch_name ty))
          (get_metrics_of get_metric_statistics b)
  unfolding get_metrics_of build_metric_request ◌>>=◌
  get_metrics_of-Reports answers b entry i start end w =
      rw (answers (build_metric_request b entry start end) w) (rw (name_of_entry entry i) refl)
