-- ===== src/Process/Measuring/Measured.antt =====
-- The metrics that a capture leaves: its rounds of sendMetricsToS3 (capture.ts) composed with the
-- files that they write and the last read of metrics-storage.ts.
use lil_bobby_tables_my_crt.Common.Tests.{
  ◌≤◌, leb, Bool-cases, false, ℕ, ◌+◌, ◌<◌, String, ◌≡◌, refl, ap, ◌∙◌, ◌↔◌, inl, inr, Option, none,
  some, List, [], ◌∷◌, ◌++◌, arith, if◌then◌else◌,
}
use lil_bobby_tables_my_crt.Common.Lists.{length, In}
use lil_bobby_tables_my_crt.Common.Exec.{ok}
use lil_bobby_tables_my_crt.Common.Action.{◌>>=◌}
use lil_bobby_tables_my_crt.Common.Sort.{IsSorted}
use mathlib.Core.Path.{subst}
use lil_bobby_tables_my_crt.Process.Gathering.Windows.{
  first_window, Paced, between, covered_before, started-le-window_start,
}
use lil_bobby_tables_my_crt.Process.Measuring.Points.{
  RoundsDown, Reports, converted, lists_of, get_all_lem, In-lists_of, TimesDiffer, Known,
  Known-differ,
}
use lil_bobby_tables_my_crt.Data.{Metric, MetricsList, MetricType, ChildProgram}
use lil_bobby_tables_my_crt.Storage.Schema.{Key, metrics, root_prefix, done_name}
use lil_bobby_tables_my_crt.Storage.Backend.{StorageBackend, IsLawful, key_eq}
use lil_bobby_tables_my_crt.Storage.Fragmented.Listed.{ListsAll, merged}
use lil_bobby_tables_my_crt.Storage.Fragmented.Samples.{
  sample_key, single_sample_key_lem, found_after,
}
use lil_bobby_tables_my_crt.Storage.Fragmented.Sampled.{read_sampled}
use lil_bobby_tables_my_crt.Metrics.Backend.{metrics_hash, MetricsBackend}
use lil_bobby_tables_my_crt.Metrics.Storage.{metric_type_name, metrics_storage}
use lil_bobby_tables_my_crt.Metrics.Merger.{time_of}
use lil_bobby_tables_my_crt.Metrics.Merger.Types.{points_of}
use lil_bobby_tables_my_crt.Metrics.Merger.Merged.{KnownIn, points-merged}
use lil_bobby_tables_my_crt.Process.Tries.{try_twice}
use lil_bobby_tables_my_crt.Process.Window.{window_start}
use lil_bobby_tables_my_crt.Process.Measuring.{
  Measuring, send_metrics, send_metrics_to_s3, send_all,
}
use lil_bobby_tables_my_crt.Storage.Fragmented

module _ {Number : Type 0} (to_megabytes : Number → Number) (date_time : String → ℕ)
    (round_start : ℕ → ℕ) (rounds : RoundsDown round_start)
    (series : MetricType → List (Metric Number)) where
  module _ {World : Type 0} (service : MetricsBackend World Number)
      (reports : Reports to_megabytes date_time round_start series service)
      (backend : StorageBackend (List (MetricsList Number)))
      (contents : backend.State → Key → Option (List (MetricsList Number)))
      (lawful : IsLawful backend contents) (limit : ℕ)
      (lists : ListsAll backend contents lawful limit) (program : ChildProgram) (root : Key)
      (rooted : root_prefix program ≡ ok root) (interval overlap started : ℕ) where
    abbrev sample_at : ℕ → List (MetricsList Number)
    sample_at end =
        lists_of to_megabytes date_time round_start series
          (window_start interval overlap started end) end metrics_hash

    -- One round writes its sample and no other file.
    send_lem :
        (end : ℕ) (g : Measuring World backend.State) (k : Key)
        → contents
            (send_metrics_to_s3 to_megabytes service backend program
              (window_start interval overlap started end)
              end
              g).1.files
            k
          ≡ (if key_eq (sample_key metrics root end) k
              then some (sample_at end)
              else contents g.files k)
    unfolding send_metrics_to_s3 send_metrics try_twice ◌>>=◌
    send_lem end g k =
        let start = window_start interval overlap started end in
        rw
          (get_all_lem to_megabytes date_time round_start series service reports start end
            metrics_hash (λ e i. i) g.world)
          (rw (single_sample_key_lem metrics root program rooted end) (
            rw (lawful.write_ok g.files (sample_key metrics root end) (sample_at end))
              (lawful.write_lem g.files (sample_key metrics root end) (sample_at end) k)))

    send_all_lem :
        (ends : List ℕ) (g : Measuring World backend.State) (k : Key)
        → contents
            (send_all to_megabytes service backend program interval overlap started ends g).files
            k
          ≡ found_after metrics root sample_at ends k (contents g.files k)
    unfolding send_all
    send_all_lem [] g k = refl
    send_all_lem (end ∷ ends) g k =
        send_all_lem ends
          (send_metrics_to_s3 to_megabytes service backend program
            (window_start interval overlap started end) end g).1
          k
        ∙ ap (found_after metrics root sample_at ends k) (send_lem end g k)

    module _ (ends : List ℕ) (last : ℕ) (paced : Paced (interval + overlap) started ends last)
        (some_round : (end : ℕ) × In end ends) where
      -- A time from the rounded start on and before the last round lies in the rounded window of one.
      covered_rounded :
          (time : ℕ)
          → round_start started ≤ time
          → time < last
          → (e : ℕ) × In e ends
            × (round_start (window_start interval overlap started e) ≤ time)
            × (time < e)
      covered_rounded time from to = elim (Bool-cases (leb started time)) [
        | inl later ↦
            let e =
              covered_before interval overlap started ends started last time (omega arith) paced
                (ground (arith, later)) to in
            let down = rounds.0 (window_start interval overlap started e.0) in
            (e.0, e.1, omega (arith, down, e.2), e.3)
        | inr earlier ↦
            let e = first_window interval overlap started ends last some_round paced in
            let down = rounds.1 (window_start interval overlap started e.0) started e.2 in
            let lt : time < started = ground (arith, earlier) in
            (e.0, e.1, omega (arith, down, from), omega (arith, e.3, lt))
      ]

      -- The points of the samples are those of the series from the start to before the last round.
      In-samples :
          (ty : MetricType) (x : Metric Number)
          → ((s : List (MetricsList Number)) × ((end : ℕ) × In end ends × (s ≡ sample_at end))
              × In x (points_of (metric_type_name ty) s))
            ↔ ((p : Metric Number) × In p (series ty)
                × (round_start started ≤ date_time p.timestamp)
                × (date_time p.timestamp < last)
                × (x ≡ converted to_megabytes date_time round_start series ty p))
      In-samples ty x = (
        (λ h.
            let end = h.1.0 in
            let start = window_start interval overlap started end in
            let p =
              (In-lists_of to_megabytes date_time round_start series ty start end x).0
                (subst (λ s. In x (points_of (metric_type_name ty) s)) h.1.2 h.2) in
            let time =
              between interval overlap started ends started last (omega arith) paced end h.1.1 in
            let early =
              started-le-window_start interval overlap started end (omega (arith, time.0)) in
            (
              p.0,
              p.1,
              omega (arith, rounds.1 started start early, p.2),
              omega (arith, p.3, time.1),
              p.4,
            )),
        λ p.
            let e = covered_rounded (date_time p.0.timestamp) p.2 p.3 in
            let start = window_start interval overlap started e.0 in
            (
              sample_at e.0,
              (e.0, e.1, refl),
              (In-lists_of to_megabytes date_time round_start series ty start e.0 x).1
                  (p.0, p.1, e.2, e.3, p.4),
            ),
      )

      module _ (g : Measuring World backend.State)
          (fresh : (name : Key) → contents g.files (root ++ name) ≡ none) where
        abbrev files : backend.State
        files =
            (send_all to_megabytes service backend program interval overlap started ends g).files

        -- The last read of the metrics of a capture whose rounds came in time returns, and keeps as the
        -- final file, for each type exactly the points of its series from the start of the capture,
        -- rounded down as CloudWatch does, to before its last round, those of the memory in
        -- megabytes, in the order of their time.
        -- This is for a service that answers each query from series where points that differ have
        -- different timestamps, a place for files that works, lists all files of a directory up to a
        -- limit and has none of the capture at first, and at least one round and no more than the
        -- limit (a page of S3 has 1000 keys).
        pub measured_exactly :
            length ends ≤ limit
            → TimesDiffer series
            → (w : List (MetricsList Number)) × ((Fragmented.read
                  (metrics_storage date_time backend)
                  program
                  false
                  files).0
                ≡ ok w)
              × (contents
                    (Fragmented.read (metrics_storage date_time backend) program false files).1
                    (root ++ done_name metrics)
                  ≡ some w)
              × ((ty : MetricType)
                  → ((x : Metric Number)
                      → In x (points_of (metric_type_name ty) w) ↔ (
                          (p : Metric Number) × In p (series ty)
                          × (round_start started ≤ date_time p.timestamp)
                          × (date_time p.timestamp < last)
                          × (x ≡ converted to_megabytes date_time round_start series ty p)))
                    × IsSorted (time_of date_time) (points_of (metric_type_name ty) w))
        unfolding points_of
        measured_exactly few differ =
            let storage = metrics_storage date_time backend in
            let sampled =
              read_sampled storage contents program root sample_at lawful limit lists rooted ends
                files (contents g.files) fresh (send_all_lem ends g)
                (λ end i. omega (
                  arith,
                  (between interval overlap started ends started last (omega arith) paced end i).0,
                ))
                few in
            let vs = sampled.0 in
            (
              merged storage [] vs,
              sampled.1,
              sampled.2,
              λ ty.
                  let known : (s : List (MetricsList Number))
                      → In s vs
                      → KnownIn date_time (metric_type_name ty)
                          (Known to_megabytes date_time round_start series ty)
                          (Known-differ to_megabytes date_time round_start series differ ty) s =
                    λ s i x j.
                      let p = (In-samples ty x).0 (s, (sampled.3 s).0 i, j) in (p.0, p.1, p.4) in
                  let held =
                    points-merged date_time (metric_type_name ty)
                      (Known to_megabytes date_time round_start series ty)
                      (Known-differ to_megabytes date_time round_start series differ ty) backend vs
                      [] (λ x i. absurd i) tt known in
                  (
                    λ x. (
                      (λ i. elim ((held.0 x).0 i) [
                        | inl j ↦ absurd j
                        | inr s ↦ (In-samples ty x).0 (s.0, (sampled.3 s.0).0 s.1, s.2)
                      ]),
                      λ p.
                          let s = (In-samples ty x).1 p in
                          (held.0 x).1 (inr (s.0, (sampled.3 s.0).1 s.1, s.2)),
                    ),
                    held.1,
                  ),
            )
