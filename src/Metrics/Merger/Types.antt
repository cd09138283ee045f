-- ===== src/Metrics/Merger/Types.antt =====
-- The map that the merger builds (metrics-merger.ts): one entry for each type.
use lil_bobby_tables_my_crt.Common.Tests.{
  ℕ, String, ◌≡◌, refl, sym, ap, ◌∙◌, inl, inr, Option, none, some, List, [], ◌∷◌, ◌++◌, map, arith,
  str_eq, eq_iff, if◌then◌else◌, Bool-cases, Option-cases,
}
use mathlib.Core.List.{append-nil}
use lil_bobby_tables_my_crt.Common.Dict.{
  lookup, insert, values, NodupKeys, lookup-insert, insert-NodupKeys,
}
use lil_bobby_tables_my_crt.Common.Keyed.{put_all, put_all-append}
use lil_bobby_tables_my_crt.Common.Sort.{sort}
use lil_bobby_tables_my_crt.Data.{Metric, MetricsList}
use lil_bobby_tables_my_crt.Metrics.Merger.{
  TypeMap, timestamp_of, or_new, add_list, hash_out, time_of, build, merge_metrics_lists,
}

module _ {Number : Type 0} where
  -- The points of one type in some lists, in their order.
  unfoldable pub points_of : String → List (MetricsList Number) → List (Metric Number)
  points_of ty [] = []
  points_of ty (l ∷ ls) = (if str_eq l.type ty then l.data_points else []) ++ points_of ty ls

  abbrev metrics_of : Option (TypeMap Number) → List (String × Metric Number)
  metrics_of none = []
  metrics_of (some tm) = tm.metrics

  metrics-add_list :
      (ty : String) (m : List (String × TypeMap Number)) (l : MetricsList Number)
      → metrics_of (lookup ty (add_list m l))
        ≡ put_all timestamp_of
            (if str_eq l.type ty then l.data_points else [])
            (metrics_of (lookup ty m))
  unfolding add_list put_all
  metrics-add_list ty m l = elim (Bool-cases (str_eq l.type ty)) [
    | inl e ↦
        rw lookup-insert (rw e (rw (← (eq_iff l.type ty).0 e) (new_metrics (lookup l.type m))))
    | inr e ↦ rw lookup-insert (rw e refl)
  ]
    where
      new_metrics :
          (o : Option (TypeMap Number))
          → put_all timestamp_of l.data_points (or_new l o).metrics
            ≡ put_all timestamp_of l.data_points (metrics_of o)
      new_metrics none = refl
      new_metrics (some tm) = refl

  metrics-hash_out :
      (ty : String) (m : List (String × TypeMap Number)) (ls : List (MetricsList Number))
      → metrics_of (lookup ty (hash_out m ls))
        ≡ put_all timestamp_of (points_of ty ls) (metrics_of (lookup ty m))
  unfolding hash_out points_of put_all
  metrics-hash_out ty m [] = refl
  metrics-hash_out ty m (l ∷ ls) =
      metrics-hash_out ty (add_list m l) ls
      ∙ ap (put_all timestamp_of (points_of ty ls)) (metrics-add_list ty m l)
      ∙ sym (
          put_all-append timestamp_of (if str_eq l.type ty then l.data_points else [])
            (points_of ty ls) _)

  -- Each entry stands under its template's type, and no type has two.
  abbrev pub IsTyped : List (String × TypeMap Number) → Type 0
  IsTyped [] = Unit
  IsTyped ((k, tm) ∷ m) = (tm.template.type ≡ k) × IsTyped m

  lookup-IsTyped :
      (k : String) (m : List (String × TypeMap Number)) (tm : TypeMap Number)
      → IsTyped m
      → lookup k m ≡ some tm
      → tm.template.type ≡ k
  unfolding lookup
  lookup-IsTyped k [] tm h e = cc
  lookup-IsTyped k ((j, tm') ∷ m) tm (p, h) e = ground (arith, eq_iff j k, lookup-IsTyped k m tm h)

  insert-IsTyped :
      (k : String) (tm : TypeMap Number) (m : List (String × TypeMap Number))
      → tm.template.type ≡ k
      → IsTyped m
      → IsTyped (insert k tm m)
  unfolding insert
  insert-IsTyped k tm [] e h = (e, tt)
  insert-IsTyped k tm ((j, tm') ∷ m) e (p, h) =
      ground (arith, eq_iff j k, insert-IsTyped k tm m e h)

  or_new_type :
      (l : MetricsList Number) (m : List (String × TypeMap Number))
      → IsTyped m
      → (or_new l (lookup l.type m)).template.type ≡ l.type
  or_new_type l m h = elim (Option-cases (lookup l.type m)) [
    | inl e ↦ rw e refl
    | inr (tm, e) ↦ rw e (lookup-IsTyped l.type m tm h e)
  ]

  pub hash_out-IsTyped :
      (m : List (String × TypeMap Number)) (ls : List (MetricsList Number))
      → IsTyped m
      → IsTyped (hash_out m ls)
  unfolding hash_out add_list
  hash_out-IsTyped m [] h = h
  hash_out-IsTyped m (l ∷ ls) h =
      hash_out-IsTyped (add_list m l) ls (insert-IsTyped l.type _ m (or_new_type l m h) h)

  pub hash_out-NodupKeys :
      (m : List (String × TypeMap Number)) (ls : List (MetricsList Number))
      → NodupKeys m
      → NodupKeys (hash_out m ls)
  unfolding hash_out add_list
  hash_out-NodupKeys m [] h = h
  hash_out-NodupKeys m (l ∷ ls) h =
      hash_out-NodupKeys (add_list m l) ls (insert-NodupKeys l.type _ m h)

module _ {Number : Type 0} (date_time : String → ℕ) where
  -- The points of a type in the lists that are built from such a map.
  points-build :
      (ty : String) (m : List (String × TypeMap Number))
      → IsTyped m
      → NodupKeys m
      → points_of ty (map (build date_time) (values m))
        ≡ sort (time_of date_time) (values (metrics_of (lookup ty m)))
  unfolding points_of build lookup sort
  points-build ty [] h u = refl
  points-build ty ((k, tm) ∷ m) (p, h) (fresh, u) = elim (Bool-cases (str_eq k ty)) [
    | inl e ↦
        let gone = rw ((eq_iff k ty).0 e) at fresh in
        rw (p, e) (rw (points-build ty m h u) (rw gone (append-nil _)))
    | inr e ↦ rw (p, e) (points-build ty m h u)
  ]

  -- The points of a type in a merge: the last point of each timestamp, sorted by time.
  pub points-merge :
      (ty : String) (a b : List (MetricsList Number))
      → points_of ty (merge_metrics_lists date_time a b)
        ≡ sort (time_of date_time) (values (put_all timestamp_of (points_of ty (a ++ b)) []))
  unfolding merge_metrics_lists lookup
  points-merge ty a b =
      points-build ty (hash_out [] (a ++ b)) (hash_out-IsTyped [] (a ++ b) tt)
        (hash_out-NodupKeys [] (a ++ b) tt)
      ∙ ap (λ d. sort (time_of date_time) (values d)) (metrics-hash_out ty [] (a ++ b))
