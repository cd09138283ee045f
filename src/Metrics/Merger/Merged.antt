-- ===== src/Metrics/Merger/Merged.antt =====
-- Many lists of metrics merged one after the other (metrics-merger.ts), where no two points that differ have
-- one timestamp: every point of each, once.
use lil_bobby_tables_my_crt.Common.Tests.{
  ℕ, String, ◌≡◌, refl, sym, ap, ◌∙◌, ◌↔◌, ◌⊎◌, inl, inr, List, [], ◌∷◌, ◌++◌, str_eq,
  if◌then◌else◌,
}
use lil_bobby_tables_my_crt.Common.Lists.{In, In-append, append_assoc}
use lil_bobby_tables_my_crt.Common.Keyed.{last_with_iff_In}
use lil_bobby_tables_my_crt.Common.Sort.{IsSorted}
use mathlib.Core.Path.{subst}
use lil_bobby_tables_my_crt.Data.{Metric, MetricsList}
use lil_bobby_tables_my_crt.Storage.Backend.{StorageBackend}
use lil_bobby_tables_my_crt.Storage.Fragmented.Listed.{merged}
use lil_bobby_tables_my_crt.Metrics.Merger.{timestamp_of, time_of, merge_metrics_lists}
use lil_bobby_tables_my_crt.Metrics.Merger.Types.{points_of}
use lil_bobby_tables_my_crt.Metrics.Merger.Exact.{merge_metrics_lists_exact}
use lil_bobby_tables_my_crt.Metrics.Storage.{metrics_storage}

module _ {Number : Type 0} (date_time : String → ℕ) (ty : String) where
  points-append :
      (a b : List (MetricsList Number)) → points_of ty (a ++ b) ≡ points_of ty a ++ points_of ty b
  unfolding points_of
  points-append [] b = refl
  points-append (l ∷ ls) b =
      ap (λ ps. (if str_eq l.type ty then l.data_points else []) ++ ps) (points-append ls b)
      ∙ sym (append_assoc (if str_eq l.type ty then l.data_points else []) (points_of ty ls) _)

  module _ (known : Metric Number → Type 0)
      (differ : (x y : Metric Number) → known x → known y → y.timestamp ≡ x.timestamp → y ≡ x) where
    -- The points of the type in these lists are all known.
    abbrev pub KnownIn : List (MetricsList Number) → Type 0
    KnownIn v = (x : Metric Number) → In x (points_of ty v) → known x

    points_of_merge :
        (a b : List (MetricsList Number))
        → KnownIn a
        → KnownIn b
        → (x : Metric Number)
        → In x (points_of ty (merge_metrics_lists date_time a b))
          ↔ (In x (points_of ty a) ⊎ In x (points_of ty b))
    points_of_merge a b h k x =
        let exact = (merge_metrics_lists_exact date_time ty a b).0 x in
        let both = points_of ty a ++ points_of ty b in
        let any : (y : Metric Number) → In y both → known y = λ y i.
          elim ((In-append (points_of ty a) (points_of ty b) y).0 i) [
            | inl j ↦ h y j
            | inr j ↦ k y j
          ] in
        let last =
          last_with_iff_In timestamp_of x both λ i y j e. differ x y (any x i) (any y j) e in
        let parts = In-append (points_of ty a) (points_of ty b) x in
        let one_list = rw (points-append a b) at exact in
        ((λ i. parts.0 (last.0 (one_list.0 i))), λ s. one_list.1 (last.1 (parts.1 s)))

    module _ (backend : StorageBackend (List (MetricsList Number))) where
      pub points-merged :
          (vs : List (List (MetricsList Number))) (v : List (MetricsList Number))
          → KnownIn v
          → IsSorted (time_of date_time) (points_of ty v)
          → ((s : List (MetricsList Number)) → In s vs → KnownIn s)
          → let w = merged (metrics_storage date_time backend) v vs in
            ((x : Metric Number)
              → In x (points_of ty w) ↔ (
                  In x (points_of ty v)
                  ⊎ ((s : List (MetricsList Number)) × In s vs × In x (points_of ty s))))
            × IsSorted (time_of date_time) (points_of ty w)
      points-merged [] v h sorted k =
          (λ x. ((λ i. inl i), λ s. elim s [ inl i ↦ i | inr e ↦ absurd e.1 ]), sorted)
      points-merged (s ∷ vs) v h sorted k =
          let one = points_of_merge v s h (k s (inl refl)) in
          let rest =
            points-merged vs (merge_metrics_lists date_time v s)
              (λ x i. elim ((one x).0 i) [ inl j ↦ h x j | inr j ↦ k s (inl refl) x j ])
              (merge_metrics_lists_exact date_time ty v s).1 (λ u i. k u (inr i)) in
          (
            λ x. (
              (λ i. elim ((rest.0 x).0 i) [
                | inl j ↦ elim ((one x).0 j) [ inl l ↦ inl l | inr l ↦ inr (s, inl refl, l) ]
                | inr e ↦ inr (e.0, inr e.1, e.2)
              ]),
              λ h'. (rest.0 x).1 (elim h' [
                | inl l ↦ inl ((one x).1 (inl l))
                | inr e ↦ elim e.1 [
                  | inl same ↦ inl ((one x).1 (inr (subst (λ u. In x (points_of ty u)) same e.2)))
                  | inr j ↦ inr (e.0, j, e.2)
                ]
              ]),
            ),
            rest.1,
          )
