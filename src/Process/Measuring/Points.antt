-- ===== src/Process/Measuring/Points.antt =====
-- The points of one round (sendMetricsToS3), where CloudWatch answers each query from one series for each type.
use lil_bobby_tables_my_crt.Common.Tests.{
  ap, ℕ, ◌≤◌, ◌<◌, String, ◌≡◌, refl, inl, inr, sym, ◌∙◌, ◌↔◌, Bool, ◌&&◌, some, List, [], ◌∷◌, map,
  arith, leb, ltb, if◌then◌else◌,
}
use lil_bobby_tables_my_crt.Common.Lists.{In, In-map, In-select, map_id, append_nil, select}
use lil_bobby_tables_my_crt.Common.Exec.{ok}
use lil_bobby_tables_my_crt.Common.Action.{◌>>=◌}
use lil_bobby_tables_my_crt.Data.{
  Metric, MetricsList, MetricType, cpu, read, write, memory, free_storage, read_throughput,
  write_throughput,
}
use lil_bobby_tables_my_crt.Metrics.Backend.{
  MetricEntry, metrics_hash, MetricsBackend, to_i_metrics_list,
}
use lil_bobby_tables_my_crt.Metrics.Merger.Types.{points_of}
use lil_bobby_tables_my_crt.Metrics.Storage.{metric_type_name}
use lil_bobby_tables_my_crt.Process.Measuring.{in_megabytes, is_memory, convert, get_all}

-- How CloudWatch rounds the start of a query: down, for the last 15 days to the whole minute.
abbrev pub RoundsDown : (ℕ → ℕ) → Type 0
RoundsDown round_start =
    ((n : ℕ) → round_start n ≤ n) × ((m n : ℕ) → m ≤ n → round_start m ≤ round_start n)

module _ {Number : Type 0} (series : MetricType → List (Metric Number)) where
  -- Of the points of a type no two that differ have one timestamp.
  abbrev pub TimesDiffer : Type 0
  TimesDiffer =
      (ty : MetricType) (p q : Metric Number)
      → In p (series ty)
      → In q (series ty)
      → p.timestamp ≡ q.timestamp
      → p ≡ q

module _ {Number : Type 0} (to_megabytes : Number → Number) (date_time : String → ℕ)
    (round_start : ℕ → ℕ) (series : MetricType → List (Metric Number)) where
  abbrev is_within : ℕ → ℕ → Metric Number → Bool
  is_within start end p = leb start (date_time p.timestamp) && ltb (date_time p.timestamp) end

  abbrev points : ℕ → ℕ → MetricType → List (Metric Number)
  points start end ty = select (is_within (round_start start) end) (series ty)

  -- A query for one of the entries is answered with the points of its type from its start, rounded, on and before its end,
  -- whatever happens outside (`EndTime` of GetMetricStatistics is exclusive).
  abbrev pub Reports : {World : Type 0} → MetricsBackend World Number → Type 0
  Reports {World} service =
      (entry : MetricEntry)
      → In entry metrics_hash
      → (start end : ℕ) (w : World)
      → (service entry start end w).0
        ≡ ok (to_i_metrics_list entry (some (points start end entry.metric_type)))

  -- What becomes of a point of a type: the memory is told in megabytes.
  abbrev pub converted : MetricType → Metric Number → Metric Number
  converted ty p = if is_memory to_megabytes ty then in_megabytes to_megabytes p else p

  abbrev pub lists_of : ℕ → ℕ → List MetricEntry → List (MetricsList Number)
  lists_of start end =
      map
        (λ e. convert to_megabytes e (to_i_metrics_list e (some (points start end e.metric_type))))

  pub get_all_lem :
      {World : Type 0} (service : MetricsBackend World Number)
      → Reports service
      → (start end : ℕ) (entries : List MetricEntry)
      → ((entry : MetricEntry) → In entry entries → In entry metrics_hash)
      → (w : World)
      → (get_all to_megabytes service start end entries w).0 ≡ ok (lists_of start end entries)
  unfolding get_all ◌>>=◌
  get_all_lem service reports start end [] h w = refl
  get_all_lem service reports start end (entry ∷ entries) h w =
      let r = service entry start end w in
      rw (reports entry (h entry (inl refl)) start end w)
        (rw (get_all_lem service reports start end entries (λ e i. h e (inr i)) r.1) refl)

  points-lists_of :
      (ty : MetricType) (start end : ℕ)
      → points_of (metric_type_name ty) (lists_of start end metrics_hash)
        ≡ map (converted ty) (points start end ty)
  unfolding points_of convert to_i_metrics_list
  points-lists_of cpu start end = append_nil _ ∙ sym (map_id (points start end cpu))
  points-lists_of read start end = append_nil _ ∙ sym (map_id (points start end read))
  points-lists_of write start end = append_nil _ ∙ sym (map_id (points start end write))
  points-lists_of memory start end = append_nil _
  points-lists_of free_storage start end =
      append_nil _ ∙ sym (map_id (points start end free_storage))
  points-lists_of read_throughput start end =
      append_nil _ ∙ sym (map_id (points start end read_throughput))
  points-lists_of write_throughput start end =
      append_nil _ ∙ sym (map_id (points start end write_throughput))

  -- The points of a type in a sample are those of its series in the window.
  pub In-lists_of :
      (ty : MetricType) (start end : ℕ) (x : Metric Number)
      → In x (points_of (metric_type_name ty) (lists_of start end metrics_hash)) ↔ (
          (p : Metric Number) × In p (series ty)
          × (round_start start ≤ date_time p.timestamp)
          × (date_time p.timestamp < end)
          × (x ≡ converted ty p))
  In-lists_of ty start end x = rw (points-lists_of ty start end) (
    (λ i.
        let h = (In-map (converted ty) (points start end ty) x).0 i in
        let s = (In-select (is_within (round_start start) end) (series ty) h.0).0 h.1 in
        (h.0, s.0, ground (arith, s.1), ground (arith, s.1), h.2)),
    λ h. (In-map (converted ty) (points start end ty) x).1 (
      h.0,
      (In-select (is_within (round_start start) end) (series ty) h.0).1
          (h.1, ground (arith, h.2, h.3)),
      h.4,
    ),
  )

  timestamp-converted :
      (ty : MetricType) (p : Metric Number) → (converted ty p).timestamp ≡ p.timestamp
  timestamp-converted cpu p = refl
  timestamp-converted read p = refl
  timestamp-converted write p = refl
  timestamp-converted memory p = refl
  timestamp-converted free_storage p = refl
  timestamp-converted read_throughput p = refl
  timestamp-converted write_throughput p = refl

  -- A point of the series of a type, as it is reported.
  abbrev pub Known : MetricType → Metric Number → Type 0
  Known ty x = (p : Metric Number) × In p (series ty) × (x ≡ converted ty p)

  pub Known-differ :
      TimesDiffer series
      → (ty : MetricType) (x y : Metric Number) → Known ty x
      → Known ty y
      → y.timestamp ≡ x.timestamp
      → y ≡ x
  Known-differ differ ty x y (p, i, e) (q, j, d) same =
      let times : q.timestamp ≡ p.timestamp =
        sym (timestamp-converted ty q)
        ∙ (ap (λ z. z.timestamp) (sym d)
            ∙ (same ∙ (ap (λ z. z.timestamp) e ∙ timestamp-converted ty p))) in
      d ∙ (ap (converted ty) (differ ty q p j i times) ∙ sym e)
