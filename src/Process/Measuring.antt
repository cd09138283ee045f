-- ===== src/Process/Measuring.antt =====
-- `sendMetricsToS3` of capture/src/capture.ts, replay/src/replay.ts and capture/src/mimic/replay-manager.ts.
pub mod Whole
pub mod Points
pub mod CloudWatch
pub mod Measured
use lil_bobby_tables_my_crt.Common.Tests.{
  ℕ, Bool, true, false, Option, List, [], ◌∷◌, map, if◌then◌else◌,
}
use lil_bobby_tables_my_crt.Common.Action.{Action, ◌>>=◌, pure, lift}
use lil_bobby_tables_my_crt.Data.{
  Metric, MetricsList, MetricType, cpu, read, write, memory, free_storage, read_throughput,
  write_throughput, ChildProgram,
}
use lil_bobby_tables_my_crt.Storage.Schema.{Error, metrics, single_sample_key}
use lil_bobby_tables_my_crt.Storage.Backend.{StorageBackend}
use lil_bobby_tables_my_crt.Metrics.Backend.{MetricEntry, metrics_hash, MetricsBackend}
use lil_bobby_tables_my_crt.Process.Tries.{try_twice}
use lil_bobby_tables_my_crt.Process.Window.{window_start}

-- The world that the metrics are asked of, and the files.
pub record Measuring (World Files : Type 0) : Type 0 where
  pub world : World
  pub files : Files

module _ {World Files A : Type 0} where
  unfoldable pub on_world : Action World Error A → Action (Measuring World Files) Error A
  on_world m g = let r = m g.world in (r.0, record g { world = r.1 })

  unfoldable pub on_sample : Action Files Error A → Action (Measuring World Files) Error A
  on_sample m g = let r = m g.files in (r.0, record g { files = r.1 })

-- `to_megabytes` multiplies a float by `ByteToMegabyte`.
module _ {Number : Type 0} (to_megabytes : Number → Number) where
  abbrev pub in_megabytes : Metric Number → Metric Number
  in_megabytes m = record m { unit = "Megabytes"; maximum = to_megabytes m.maximum }

  abbrev is_memory : MetricType → Bool
  is_memory memory = true
  is_memory cpu = false
  is_memory read = false
  is_memory write = false
  is_memory free_storage = false
  is_memory read_throughput = false
  is_memory write_throughput = false

  unfoldable pub convert : MetricEntry → MetricsList Number → MetricsList Number
  convert entry list =
      if is_memory entry.metric_type
      then record list { data_points = map in_megabytes list.data_points }
      else list

  module _ {World : Type 0} (service : MetricsBackend World Number) where
    unfoldable pub get_all :
        ℕ → ℕ → List MetricEntry → Action World Error (List (MetricsList Number))
    get_all start end [] = pure []
    get_all start end (entry ∷ entries) = do
      list ← service entry start end
      rest ← get_all start end entries
      pure (convert entry list ∷ rest)

    module _ (backend : StorageBackend (List (MetricsList Number))) (program : ChildProgram) where
      -- One try; `ReplayManager.sendMetricsToS3` makes no other.
      unfoldable pub send_metrics : ℕ → ℕ → Action (Measuring World backend.State) Error (Unit {0})
      unfolding on_world on_sample
      send_metrics start end = do
        lists ← on_world (get_all start end metrics_hash)
        key ← lift (single_sample_key metrics program end)
        on_sample (backend.write_json key lists)

      unfoldable pub send_metrics_to_s3 :
          ℕ → ℕ → Action (Measuring World backend.State) Error (Option (Unit {0}))
      unfolding send_metrics
      send_metrics_to_s3 start end = try_twice (send_metrics start end)

      -- What the timers of the rounds of a capture at these times do, each with its window.
      unfoldable pub send_all :
          ℕ → ℕ → ℕ → List ℕ → Measuring World backend.State → Measuring World backend.State
      send_all interval overlap started [] g = g
      send_all interval overlap started (end ∷ ends) g =
          send_all interval overlap started ends
            (send_metrics_to_s3 (window_start interval overlap started end) end g).1
