-- ===== src/Metrics/Storage/Single.antt =====
-- A merge has one list for each type, so that a type is never found twice (metrics-storage.ts).
use lil_bobby_tables_my_crt.Common.Tests.{
  ℕ, ◌≤◌, String, ◌≡◌, refl, sym, ◌⊎◌, inl, inr, none, List, [], ◌∷◌, ◌++◌, map, arith, str_eq,
  eq_iff, Bool-cases,
}
use lil_bobby_tables_my_crt.Common.Lists.{length, select}
use lil_bobby_tables_my_crt.Common.Exec.{ok, throw}
use mathlib.Core.Option.{none-ne-some}
use lil_bobby_tables_my_crt.Common.Dict.{lookup, values, NodupKeys}
use lil_bobby_tables_my_crt.Data.{MetricsList}
use lil_bobby_tables_my_crt.Metrics.Merger.{TypeMap, build, hash_out, merge_metrics_lists}
use lil_bobby_tables_my_crt.Metrics.Merger.Types.{IsTyped, hash_out-IsTyped, hash_out-NodupKeys}
use lil_bobby_tables_my_crt.Metrics.Storage.{get_specific_metric_from_list, only_one}

module _ {Number : Type 0} (date_time : String → ℕ) where
  abbrev of_type : String → List (MetricsList Number) → List (MetricsList Number)
  of_type ty = select (λ l. str_eq l.type ty)

  of_type_absent :
      (ty : String) (m : List (String × TypeMap Number))
      → IsTyped m
      → lookup ty m ≡ none
      → of_type ty (map (build date_time) (values m)) ≡ []
  unfolding lookup select build
  of_type_absent ty [] h e = refl
  of_type_absent ty ((k, tm) ∷ m) (p, h) e = elim (Bool-cases (str_eq k ty)) [
    | inl same ↦ absurd (none-ne-some tm (sym (rw same at e)))
    | inr differ ↦ rw (p, differ) (of_type_absent ty m h (rw differ at e))
  ]

  of_type_once :
      (ty : String) (m : List (String × TypeMap Number))
      → IsTyped m
      → NodupKeys m
      → length (of_type ty (map (build date_time) (values m))) ≤ 1
  unfolding select build
  of_type_once ty [] h u = omega arith
  of_type_once ty ((k, tm) ∷ m) (p, h) (fresh, u) = elim (Bool-cases (str_eq k ty)) [
    | inl same ↦
        rw (p, same) (rw (of_type_absent ty m h (rw ((eq_iff k ty).0 same) at fresh)) (omega arith))
    | inr differ ↦ rw (p, differ) (of_type_once ty m h u)
  ]

  only_one_not_many :
      (ls : List (MetricsList Number)) (ty : String)
      → length ls ≤ 1
      → ((l : MetricsList Number) × (only_one ls ≡ ok l) × (ls ≡ l ∷ []))
        ⊎ ((only_one ls ≡ throw "No metrics of this type") × (ls ≡ []))
  unfolding only_one
  only_one_not_many [] ty h = inr (refl, refl)
  only_one_not_many (l ∷ []) ty h = inl (l, refl, refl)
  only_one_not_many (l ∷ _ ∷ _) ty h = absurd (omega arith)

  -- In what a merge gives, a type is found once, with its list, or not at all: the error that there
  -- are too many lists of a type does not occur.
  pub get_specific_metric-merge :
      (a b : List (MetricsList Number)) (ty : String)
      → let merged = merge_metrics_lists date_time a b in
        ((l : MetricsList Number) × (get_specific_metric_from_list merged ty ≡ ok l)
          × (select (λ m. str_eq m.type ty) merged ≡ l ∷ []))
        ⊎ ((get_specific_metric_from_list merged ty ≡ throw "No metrics of this type")
            × (select (λ m. str_eq m.type ty) merged ≡ []))
  unfolding get_specific_metric_from_list merge_metrics_lists
  get_specific_metric-merge a b ty = only_one_not_many _ ty (
      of_type_once ty (hash_out [] (a ++ b)) (hash_out-IsTyped [] (a ++ b) tt)
        (hash_out-NodupKeys [] (a ++ b) tt))
