-- ===== src/Tests/Measuring.antt =====
-- The metrics of a small program. The time of a point is the length of its timestamp.
use lil_bobby_tables_my_crt.Tests.Bucket.Place.{place, place_lawful, place-ListsAll}
use lil_bobby_tables_my_crt.Common.Tests.{
  ◌/◌, suc, none, ◌==◌, ◌⊎◌, if◌then◌else◌, str_eq, some, Option, ℕ, ◌≤◌, ◌<◌, String, ◌≡◌, refl,
  sym, ap, ◌∙◌, ◌↔◌, inl, inr, false, ◌&&◌, List, [], ◌∷◌, ◌++◌, arith, leb, ltb, codes, ◌*◌,
}
use lil_bobby_tables_my_crt.Common.Exec.{throw, ok}
use lil_bobby_tables_my_crt.Common.Action.{◌>>=◌, Action}
use lil_bobby_tables_my_crt.Common.Lists.{select, In}
use lil_bobby_tables_my_crt.Common.Digits.{decimal}
use lil_bobby_tables_my_crt.Common.Sort.{IsSorted}
use Prim.Native.String.{count}
use lil_bobby_tables_my_crt.Metrics.Backend.{
  to_i_metrics_list, MetricsBackend, CloudWatchMetricsBackend, GetMetricStatisticsInput,
  get_metrics_of,
}
use lil_bobby_tables_my_crt.Process.Tries.{try_twice}
use lil_bobby_tables_my_crt.Process.Measuring.{send_metrics_to_s3, get_all, Measuring, send_all}
use lil_bobby_tables_my_crt.Process.Measuring.Whole.{Fails, Written, send_metrics_to_s3_whole}
use lil_bobby_tables_my_crt.Storage.Schema.{
  depot_prefix, single_sample_key, Error, Key, metrics, done_name, root_prefix,
  child_process_type_to_string, show,
}
use lil_bobby_tables_my_crt.Process.Measuring.CloudWatch.{cloud_watch_name, get_metrics_of-Reports}
use lil_bobby_tables_my_crt.Data.{
  Metric, MetricsList, MetricType, cpu, read, write, memory, free_storage, read_throughput,
  write_throughput, capture, running, ChildProgram,
}
use lil_bobby_tables_my_crt.Metrics.Merger.{time_of}
use lil_bobby_tables_my_crt.Metrics.Merger.Types.{points_of}
use lil_bobby_tables_my_crt.Metrics.Storage.{metric_type_name, metrics_storage}
use lil_bobby_tables_my_crt.Process.Measuring.Points.{TimesDiffer, converted}
use lil_bobby_tables_my_crt.Process.Measuring.Measured.{measured_exactly}
use lil_bobby_tables_my_crt.Tests.Memory.{memory as disk, memory-IsLawful, find}
use lil_bobby_tables_my_crt.Storage.Fragmented

abbrev point : String → Metric ℕ
point s = record { timestamp = s; maximum = count s; unit = "Percent" }

-- The last point of the first series comes after the last round.
abbrev named : String → List (Metric ℕ)
named name =
    if str_eq name "CPUUtilization"
    then point "aaaa" ∷ point "aaaaaa" ∷ point "aaaaaaaaaaaa" ∷ []
    else (if str_eq name "FreeableMemory" then point "aaaaa" ∷ [] else [])

abbrev series : MetricType → List (Metric ℕ)
series ty = named (cloud_watch_name ty)

-- A start is rounded down to an even number.
abbrev even : ℕ → ℕ
even n = n / 2 * 2

abbrev client : GetMetricStatisticsInput → Action (Unit {0}) Error (Option (List (Metric ℕ)))
client r w = (
  ok (
      some (
        select
          (λ p. leb (even r.start_time) (count p.timestamp) && ltb (count p.timestamp) r.end_time)
          (named r.metric_name))),
  w,
)

abbrev cloud_watch : CloudWatchMetricsBackend
cloud_watch = record {
  dim_name = "DBInstanceIdentifier";
  dim_value = "db";
  period = 60;
  statistics = "Maximum" ∷ [];
}

abbrev service : MetricsBackend (Unit {0}) ℕ
service = get_metrics_of client cloud_watch

abbrev program : ChildProgram
program = record { type = some capture; id = some 7; env_id = some 3; status = some running }

abbrev begin : Measuring (Unit {0}) (List (Key × List (MetricsList ℕ)))
begin = record { world = tt; files = [] }

abbrev root : Key
root = codes "environment3/capture7/"

known : (ty : MetricType) (p : Metric ℕ) → In p (series ty) → p ≡ point p.timestamp
known cpu p (inl e) = rw e refl
known cpu p (inr (inl e)) = rw e refl
known cpu p (inr (inr (inl e))) = rw e refl
known cpu p (inr (inr (inr i))) = absurd i
known memory p (inl e) = rw e refl
known memory p (inr i) = absurd i
known read p i = absurd i
known write p i = absurd i
known free_storage p i = absurd i
known read_throughput p i = absurd i
known write_throughput p i = absurd i

times_differ : TimesDiffer series
times_differ ty p q i j e = known ty p i ∙ (ap point e ∙ sym (known ty q j))

-- The place for files is S3 without a prefix.
measured_exactly_example :
    let files =
      (send_all
        (λ n. n * 2)
        service
        (place (List (MetricsList ℕ)))
        program
        4
        1
        3
        (5 ∷ 9 ∷ [])
        begin).files in
    let final =
      Fragmented.read (metrics_storage count (place (List (MetricsList ℕ)))) program false files in
    (w : List (MetricsList ℕ)) × (final.0 ≡ ok w)
    × (find final.1 (root ++ done_name metrics) ≡ some w)
    × ((ty : MetricType)
        → ((x : Metric ℕ)
            → In x (points_of (metric_type_name ty) w) ↔ (
                (p : Metric ℕ) × In p (series ty)
                × (even 3 ≤ count p.timestamp)
                × (count p.timestamp < 9)
                × (x ≡ converted (λ n. n * 2) count even series ty p)))
          × IsSorted (time_of count) (points_of (metric_type_name ty) w))
unfolding root_prefix child_process_type_to_string show decimal find
measured_exactly_example =
    measured_exactly (λ n. n * 2) count even ((λ n. omega arith), λ m n h. omega (arith, h)) series
      service
      (get_metrics_of-Reports (λ n. n * 2) count even named client (λ r w. refl) cloud_watch)
      (place (List (MetricsList ℕ))) find (place_lawful (List (MetricsList ℕ))) 1000
      (place-ListsAll (List (MetricsList ℕ))) program root refl 4 1 3 (5 ∷ 9 ∷ []) 9 (omega arith)
      (5, inl refl) begin (λ name. refl) (omega arith) times_differ

-- The fourth query fails, so that the first try does, after three answers.
abbrev fails_once : MetricsBackend ℕ ℕ
fails_once entry start end n =
    if n == 3 then (throw "throttled", suc n) else (ok (to_i_metrics_list entry none), suc n)

abbrev nothing : Measuring ℕ (List (Key × List (MetricsList ℕ)))
nothing = record { world = 0; files = [] }

abbrev Wrote : ℕ → List (Key × List (MetricsList ℕ)) → Type 0
Wrote n =
    Written (λ n. n) fails_once (disk (List (MetricsList ℕ))) find
      (memory-IsLawful (List (MetricsList ℕ))) program 2 5 n []

abbrev Failing : ℕ → Type 0
Failing =
    Fails (λ n. n) fails_once (disk (List (MetricsList ℕ))) find
      (memory-IsLawful (List (MetricsList ℕ))) program 2 5

second_try_writes :
    (send_metrics_to_s3 (λ n. n) fails_once (disk (List (MetricsList ℕ))) program 2 5 nothing).0
    ≡ ok (some tt)
unfolding send_metrics_to_s3 try_twice get_all single_sample_key ◌>>=◌ depot_prefix root_prefix
    child_process_type_to_string
second_try_writes = refl

send_metrics_to_s3_whole_example :
    let r =
      send_metrics_to_s3 (λ n. n) fails_once (disk (List (MetricsList ℕ))) program 2 5 nothing in
    ((r.0 ≡ ok (some tt)) × Wrote 0 r.1.files)
    ⊎ ((r.0 ≡ ok (some tt)) × Failing 0 × Wrote 4 r.1.files)
    ⊎ ((r.0 ≡ ok none) × Failing 0 × Failing 4 × (r.1.files ≡ []))
unfolding get_all ◌>>=◌
send_metrics_to_s3_whole_example =
    send_metrics_to_s3_whole (λ n. n) fails_once (disk (List (MetricsList ℕ))) find
      (memory-IsLawful (List (MetricsList ℕ))) program 2 5 nothing
