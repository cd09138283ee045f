-- ===== src/Metrics/Merger.antt =====
-- common/src/metrics/metrics-merger.ts. `Number` is the type of the measured floats; `date_time` is
-- `new Date(text).getTime()` (for a text that is no date the order of the sort is not determined).
-- The warning about conflicting measurements is only logged.
pub mod Types
pub mod Exact
pub mod Merged
use lil_bobby_tables_my_crt.Common.Tests.{
  ℕ, ◌+◌, String, Option, none, some, List, [], ◌∷◌, ◌++◌, map,
}
use lil_bobby_tables_my_crt.Common.Dict.{lookup, insert, values}
use lil_bobby_tables_my_crt.Common.Keyed.{put_all}
use lil_bobby_tables_my_crt.Common.Sort.{sort}
use lil_bobby_tables_my_crt.Data.{Metric, MetricsList}

pub record TypeMap (Number : Type 0) : Type 0 where
  pub template : MetricsList Number
  pub metrics : List (String × Metric Number)

module _ {Number : Type 0} where
  abbrev pub timestamp_of : Metric Number → String
  timestamp_of m = m.timestamp

  -- `metricsMap[type]`, made anew where there is none.
  abbrev pub or_new : MetricsList Number → Option (TypeMap Number) → TypeMap Number
  or_new l none = record { template = l; metrics = [] }
  or_new l (some tm) = tm

  -- One round of the outer `forEach`: the points of one list put into the map of its type.
  unfoldable pub add_list :
      List (String × TypeMap Number) → MetricsList Number → List (String × TypeMap Number)
  add_list m l =
      let tm = or_new l (lookup l.type m) in
      insert l.type (record tm { metrics = put_all timestamp_of l.data_points tm.metrics }) m

  unfoldable pub hash_out :
      List (String × TypeMap Number) → List (MetricsList Number) → List (String × TypeMap Number)
  hash_out m [] = m
  hash_out m (l ∷ ls) = hash_out (add_list m l) ls

module _ {Number : Type 0} (date_time : String → ℕ) where
  abbrev pub time_of : Metric Number → ℕ
  time_of m = date_time m.timestamp

  -- The list of one type: the template's fields and the points, then sorted by time.
  unfoldable pub build : TypeMap Number → MetricsList Number
  build tm = record {
    label = tm.template.label;
    type = tm.template.type;
    display_name = tm.template.display_name;
    complete = tm.template.complete;
    data_points = sort time_of (values tm.metrics);
  }

  unfoldable pub merge_metrics_lists :
      List (MetricsList Number) → List (MetricsList Number) → List (MetricsList Number)
  merge_metrics_lists a b = map build (values (hash_out [] (a ++ b)))
