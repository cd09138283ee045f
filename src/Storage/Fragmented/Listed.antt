-- ===== src/Storage/Fragmented/Listed.antt =====
-- A fragmented file with no in-progress file (fragmented-storage.ts): a read merges whatever samples the
-- depot lists, in the order in which it lists them.
use lil_bobby_tables_my_crt.Common.Tests.{
  ◌≤◌, ℕ, zero, suc, ◌<◌, ◌≡◌, refl, ap, ◌≢◌, Bool, true, Option, none, List, [], ◌∷◌, ◌++◌, map,
  arith,
}
use lil_bobby_tables_my_crt.Common.Lists.{length, In, All}
use lil_bobby_tables_my_crt.Common.Exec.{ok}
use lil_bobby_tables_my_crt.Common.Action.{◌>>=◌}
use lil_bobby_tables_my_crt.Storage.Schema.{
  FragmentType, timed_name, Key, Time, min_value, time_from_key, time_pattern, root_prefix,
  depot_prefix,
}
use lil_bobby_tables_my_crt.Storage.Fragmented.{
  at, FragmentedStorage, later, absorb, get_latest_in_progress_object, get_updated_object,
  latest_key,
}
use lil_bobby_tables_my_crt.Data.{ChildProgram}
use lil_bobby_tables_my_crt.Storage.Backend.{StorageBackend, IsLawful}

-- At most this many files have a key that starts with the prefix.
abbrev pub AtMost : {T : Type 0} → (Key → Option T) → ℕ → Key → Type 0
AtMost contents limit p =
    (ks : List Key) × (length ks ≤ limit)
    × ((name : Key) → contents (p ++ name) ≢ none → In (p ++ name) ks)

-- Of a directory with no more files than the limit the listing leaves out no fragment, and it names only
-- files that there are.
pub record ListsAll {T : Type 0} (B : StorageBackend T) (contents : B.State → Key → Option T)
    (lawful : IsLawful B contents) (limit : ℕ) : Type 0 where
  pub listed :
      (s : B.State) (p : Key) (t : FragmentType) (n : ℕ)
      → AtMost (contents s) limit p
      → contents s (p ++ timed_name t n) ≢ none
      → In (p ++ timed_name t n) (lawful.list_keys s p (time_pattern t))
  pub there :
      (s : B.State) (p : Key) (f : Key → Bool) (k : Key)
      → In k (lawful.list_keys s p f)
      → contents s k ≢ none

-- A time of a round is later than no time at all.
pub later_min : (n : ℕ) → 0 < n → later (at n) min_value ≡ true
later_min zero h = absurd (omega (arith, h))
later_min (suc n) h = ground arith

module _ {T : Type 0} (F : FragmentedStorage T) where
  open F use {fragment_type, backend, default_object, merge_objects}

  -- These samples merged into a value.
  abbrev pub merged : T → List T → T
  merged v [] = v
  merged v (sample ∷ samples) = merged (merge_objects v sample) samples

  module _ (sample_of : Key → T) where
    -- Each key has a time, and the sample is read at it.
    abbrev pub AreSamples : backend.State → List Key → Type 0
    AreSamples s = All (λ k.
        (later (time_from_key fragment_type k) min_value ≡ true)
        × (backend.read_json s k ≡ ok (sample_of k)))

    absorb_listed :
        (ks : List Key) (v : T) (time : Time) (s : backend.State)
        → AreSamples s ks
        → (last : Time) × (absorb F min_value ks (v, time) s
            ≡ (ok (merged v (map sample_of ks), last), s))
    unfolding absorb ◌>>=◌
    absorb_listed [] v time s h = (time, refl)
    absorb_listed (k ∷ ks) v time s ((p, q), h) =
        let rest =
          absorb_listed ks (merge_objects v (sample_of k)) (time_from_key fragment_type k) s h in
        (rest.0, rw p (rw q rest.1))

    pub get_updated_object_listed :
        (c : ChildProgram) (s : backend.State) (ks : List Key) {root depot : Key}
        → root_prefix c ≡ ok root
        → depot_prefix c ≡ ok depot
        → backend.all_matching s root (time_pattern fragment_type) ≡ ok []
        → backend.all_matching s depot (time_pattern fragment_type) ≡ ok ks
        → AreSamples s ks
        → (last : Time) × ((get_updated_object F c s).0
            ≡ ok (merged default_object (map sample_of ks), last))
    unfolding get_updated_object get_latest_in_progress_object latest_key ◌>>=◌
    get_updated_object_listed c s ks rooted in_depot no_keys keys h =
        let all = absorb_listed ks default_object min_value s h in
        (all.0, rw (rooted, in_depot) (rw (no_keys, keys) (ap (λ r. r.0) all.1)))
