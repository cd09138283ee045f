-- ===== src/Storage/Fragmented/Sampled.antt =====
-- The files of a program that wrote one sample for each of some times (fragmented-storage.ts), and its last
-- read, which merges these samples.
use lil_bobby_tables_my_crt.Common.Tests.{
  ◌≤◌, ℕ, ◌<◌, ◌≡◌, sym, ap, ◌∙◌, ◌≢◌, ◌↔◌, inl, inr, false, Option, none, some, List, [], ◌++◌,
  map, Option-cases, codes,
}
use lil_bobby_tables_my_crt.Common.Lists.{
  length, length-map, In, In-map, nil_of_none, All-In, All_of_In,
}
use lil_bobby_tables_my_crt.Common.Exec.{ok}
use mathlib.Core.List.{append_assoc}
use mathlib.Core.Bool.{true≢false}
use lil_bobby_tables_my_crt.Storage.Fragmented.Listed.{
  AtMost, ListsAll, AreSamples, merged, get_updated_object_listed, later_min,
}
use lil_bobby_tables_my_crt.Storage.Fragmented.Samples.{
  depot, sample_key, single_sample_key_lem, found_after, found_after-cases, found_after-sample_key,
}
use lil_bobby_tables_my_crt.Data.{ChildProgram}
use lil_bobby_tables_my_crt.Storage.Schema.{
  Key, at, min_value, timed_name, time_pattern, time_from_key, root_prefix, done_name,
}
use lil_bobby_tables_my_crt.Storage.Schema.Matching.{time_pattern-timed_name}
use lil_bobby_tables_my_crt.Storage.Schema.Directories.{time_from_key-single_sample_key}
use lil_bobby_tables_my_crt.Storage.Backend.{IsLawful}
use lil_bobby_tables_my_crt.Storage.Fragmented.{FragmentedStorage, later, read}
use lil_bobby_tables_my_crt.Storage.Fragmented.Final.{
  append_cancel, done_name_not_in_depot, depot_prefix_lem, read_final_lem,
}

module _ {T : Type 0} (F : FragmentedStorage T) (contents : F.backend.State → Key → Option T)
    (c : ChildProgram) (root : Key) (sample : ℕ → T) where
  open F use {fragment_type, backend, default_object}

  module _ (lawful : IsLawful backend contents) (limit : ℕ)
      (lists : ListsAll backend contents lawful limit) (rooted : root_prefix c ≡ ok root)
      (ends : List ℕ) (files : backend.State) (before : Key → Option T)
      (fresh : (name : Key) → before (root ++ name) ≡ none)
      (after : (k : Key)
        → contents files k ≡ found_after fragment_type root sample ends k (before k))
      (timed : (end : ℕ) → In end ends → 0 < end) (few : length ends ≤ limit) where
    -- A file of the program is there only as a sample.
    found :
        (name : Key)
        → contents files (root ++ name) ≢ none
        → (end : ℕ) × In end ends
          × (root ++ name ≡ sample_key fragment_type root end)
          × (contents files (root ++ name) ≡ some (sample end))
    found name there =
        let k = root ++ name in
        elim (found_after-cases fragment_type root sample ends k (before k)) [
          | inl e ↦ absurd (there (after k ∙ (e ∙ fresh name)))
          | inr h ↦ (h.0, h.1, h.2, after k ∙ h.3)
        ]

    not_done : contents files (root ++ done_name fragment_type) ≡ none
    not_done = elim (Option-cases (contents files (root ++ done_name fragment_type))) [
      | inl e ↦ e
      | inr (w, e) ↦
          let h = found (done_name fragment_type) (λ n. cc (n, e)) in
          absurd (
            done_name_not_in_depot fragment_type (timed_name fragment_type h.0) (
              append_cancel root _ _ (
                sym (append_assoc root (codes "depot/") (timed_name fragment_type h.0)) ∙ sym h.2)))
    ]

    abbrev keys : List Key
    keys = lawful.list_keys files (depot fragment_type root) (time_pattern fragment_type)

    or_default : Option T → T
    or_default none = default_object
    or_default (some v) = v

    abbrev sample_of : Key → T
    sample_of k = or_default (contents files k)

    no_in_progress : backend.all_matching files root (time_pattern fragment_type) ≡ ok []
    no_in_progress =
        let listed = lawful.list_keys files root (time_pattern fragment_type) in
        lawful.list_lem files root (time_pattern fragment_type)
        ∙ ap ok (
            nil_of_none listed λ k i.
              let m =
                All-In _ listed k (lawful.list_matches files root (time_pattern fragment_type)) i in
              let h = found m.0 (λ n.
                lists.there files root (time_pattern fragment_type) k i
                  (ap (contents files) m.1 ∙ n)) in
              let same =
                append_cancel root m.0 (codes "depot/" ++ timed_name fragment_type h.0)
                  (h.2 ∙ append_assoc root (codes "depot/") (timed_name fragment_type h.0)) in
              true≢false (
                sym m.2
                ∙ (ap (time_pattern fragment_type) same
                    ∙ time_pattern-timed_name fragment_type (codes "depot/") h.0)))

    listed_sample :
        (k : Key)
        → In k keys
        → (end : ℕ) × In end ends
          × (k ≡ sample_key fragment_type root end)
          × (contents files k ≡ some (sample end))
    listed_sample k i =
        let m =
          All-In _ keys k
            (lawful.list_matches files (depot fragment_type root) (time_pattern fragment_type)) i in
        let e = m.1 ∙ append_assoc root (codes "depot/") m.0 in
        let h = found (codes "depot/" ++ m.0) (λ n.
          lists.there files (depot fragment_type root) (time_pattern fragment_type) k i
            (ap (contents files) e ∙ n)) in
        (h.0, h.1, e ∙ h.2, ap (contents files) e ∙ h.3)

    few_in_depot : AtMost (contents files) limit (depot fragment_type root)
    few_in_depot = (
      map (sample_key fragment_type root) ends,
      rw (length-map (sample_key fragment_type root) ends) few,
      λ name there.
          let e = append_assoc root (codes "depot/") name in
          let h = found (codes "depot/" ++ name) (λ n. there (ap (contents files) e ∙ n)) in
          (In-map (sample_key fragment_type root) ends _).1 (h.0, h.1, e ∙ h.2),
    )

    sample_listed :
        (end : ℕ)
        → In end ends
        → In (sample_key fragment_type root end) keys
          × (contents files (sample_key fragment_type root end) ≡ some (sample end))
    sample_listed end i =
        let there : contents files (sample_key fragment_type root end) ≡ some (sample end) =
          after (sample_key fragment_type root end)
          ∙ found_after-sample_key fragment_type root sample ends end
              (before (sample_key fragment_type root end)) i in
        (
          lists.listed files (depot fragment_type root) fragment_type end few_in_depot
              (λ n. cc (n, there)),
          there,
        )

    are_samples : AreSamples F sample_of files keys
    unfolding or_default
    are_samples = All_of_In _ keys λ k i.
        let s = listed_sample k i in
        let time : time_from_key fragment_type k ≡ at s.0 =
          ap (time_from_key fragment_type) s.2
          ∙ time_from_key-single_sample_key fragment_type c s.0
              (single_sample_key_lem fragment_type root c rooted s.0) in
        (
          ap (λ x. later x min_value) time ∙ later_min s.0 (timed s.0 s.1),
          lawful.read_lem files k _ s.3 ∙ ap ok (sym (ap or_default s.3)),
        )

    -- The last read returns, and keeps as the done file, the samples of all times merged in some order.
    pub read_sampled :
        (vs : List T) × ((read F c false files).0 ≡ ok (merged F default_object vs))
        × (contents (read F c false files).1 (root ++ done_name fragment_type)
            ≡ some (merged F default_object vs))
        × ((v : T) → In v vs ↔ ((end : ℕ) × In end ends × (v ≡ sample end)))
    unfolding or_default
    read_sampled =
        let updated =
          get_updated_object_listed F sample_of c files keys rooted
            (depot_prefix_lem F contents lawful c root rooted) no_in_progress
            (lawful.list_lem files (depot fragment_type root) (time_pattern fragment_type))
            are_samples in
        let final =
          read_final_lem F contents lawful c root rooted files _ updated.0 not_done updated.1 in
        (
          map sample_of keys,
          final.0,
          final.1,
          λ v. (
            (λ i.
                let k = (In-map sample_of keys v).0 i in
                let s = listed_sample k.0 k.1 in (s.0, s.1, k.2 ∙ ap or_default s.3)),
            λ e.
                let s = sample_listed e.0 e.1 in
                (In-map sample_of keys v).1
                  (sample_key fragment_type root e.0, s.0, e.2 ∙ sym (ap or_default s.1)),
          ),
        )
