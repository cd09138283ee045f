-- ===== src/Metrics/Merger/Exact.antt =====
-- What a merge holds (metrics-merger.ts), against the points of both lists one after the other.
use lil_bobby_tables_my_crt.Common.Tests.{ℕ, String, ◌≡◌, ◌↔◌, none, some, List, [], ◌++◌}
use lil_bobby_tables_my_crt.Common.Lists.{In}
use lil_bobby_tables_my_crt.Common.Dict.{values}
use lil_bobby_tables_my_crt.Common.Keyed.{put_all, last_with, In-values-put_all}
use lil_bobby_tables_my_crt.Common.Sort.{IsSorted, sort-IsSorted, sort-In}
use lil_bobby_tables_my_crt.Data.{Metric, MetricsList}
use lil_bobby_tables_my_crt.Metrics.Merger.{timestamp_of, time_of, merge_metrics_lists}
use lil_bobby_tables_my_crt.Metrics.Merger.Types.{points_of, points-merge}

module _ {Number : Type 0} (date_time : String → ℕ) where
  -- For every type the merge of two lists holds exactly the points that are the last ones of their
  -- timestamp in both lists one after the other, and holds them in the order of time.
  pub merge_metrics_lists_exact :
      (ty : String) (a b : List (MetricsList Number))
      → ((x : Metric Number)
          → In x (points_of ty (merge_metrics_lists date_time a b))
            ↔ (last_with timestamp_of x.timestamp none (points_of ty (a ++ b)) ≡ some x))
        × IsSorted (time_of date_time) (points_of ty (merge_metrics_lists date_time a b))
  merge_metrics_lists_exact ty a b = rw (points-merge date_time ty a b) (
    λ x.
        let points = points_of ty (a ++ b) in
        let sorted = sort-In (time_of date_time) x (values (put_all timestamp_of points [])) in
        let kept = In-values-put_all timestamp_of x points in
        (λ m. kept.0 (sorted.0 m), λ e. sorted.1 (kept.1 e)),
    sort-IsSorted (time_of date_time) _,
  )
