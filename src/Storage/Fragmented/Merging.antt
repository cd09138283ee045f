-- ===== src/Storage/Fragmented/Merging.antt =====
-- What a read merges (fragmented-storage.ts): every sample of the depot once, in the order of time,
-- whether it starts from nothing or goes on from an in-progress file.
use lil_bobby_tables_my_crt.Common.Tests.{
  ℕ, suc, ◌≤◌, ◌≡◌, refl, ap, true, false, some, List, [], ◌∷◌, ◌++◌, arith,
}
use lil_bobby_tables_my_crt.Common.Lists.{All}
use lil_bobby_tables_my_crt.Common.Exec.{ok}
use lil_bobby_tables_my_crt.Common.Action.{◌>>=◌}
use lil_bobby_tables_my_crt.Data.{ChildProgram}
use lil_bobby_tables_my_crt.Storage.Schema.{
  Key, FragmentType, Time, min_value, at, time_pattern, time_from_key, root_prefix, depot_prefix,
}
use lil_bobby_tables_my_crt.Storage.Fragmented.{
  FragmentedStorage, rank, later, absorb, read_or_default, get_latest_in_progress_object,
  get_updated_object, latest_key, newest,
}

-- A file of the depot with the sample that it holds.
pub record Entry (T : Type 0) : Type 0 where
  pub key : Key
  pub sample : T

abbrev pub keys_of : {T : Type 0} → List (Entry T) → List Key
keys_of [] = []
keys_of (e ∷ es) = e.key ∷ keys_of es

-- The samples merged into a value, from the first to the last.
abbrev pub merged : {T : Type 0} → (T → T → T) → T → List (Entry T) → T
merged merge v [] = v
merged merge v (e ∷ es) = merged merge (merge v e.sample) es

-- The times of the samples rise, from later than the given time.
abbrev pub Rising : {T : Type 0} → FragmentType → Time → List (Entry T) → Type 0
Rising t last [] = Unit
Rising t last (e ∷ es) =
    (later (time_from_key t e.key) last ≡ true) × Rising t (time_from_key t e.key) es

-- No sample is later than the given time.
abbrev pub NoneLater : {T : Type 0} → FragmentType → Time → List (Entry T) → Type 0
NoneLater t last = All (λ e. later (time_from_key t e.key) last ≡ false)

-- The time of the last sample.
abbrev pub last_of : {T : Type 0} → FragmentType → Time → List (Entry T) → Time
last_of t last [] = last
last_of t last (e ∷ es) = last_of t (time_from_key t e.key) es

merged-append :
    {T : Type 0} (merge : T → T → T) (v : T) (xs ys : List (Entry T))
    → merged merge v (xs ++ ys) ≡ merged merge (merged merge v xs) ys
merged-append merge v [] ys = refl
merged-append merge v (x ∷ xs) ys = merged-append merge (merge v x.sample) xs ys

keys_of-append :
    {T : Type 0} (xs ys : List (Entry T)) → keys_of (xs ++ ys) ≡ keys_of xs ++ keys_of ys
keys_of-append [] ys = refl
keys_of-append (x ∷ xs) ys = ap (λ ks. x.key ∷ ks) (keys_of-append xs ys)

latest_key_one :
    (t : FragmentType) (k : Key) (n : ℕ)
    → time_from_key t k ≡ at (suc n)
    → latest_key t (k ∷ []) ≡ some k
unfolding latest_key newest
latest_key_one t k n e = ground arith

module _ {T : Type 0} (F : FragmentedStorage T) where
  open F use {fragment_type, backend, default_object, merge_objects}

  -- What is read back at a state is what the entries hold.
  abbrev pub Holds : backend.State → List (Entry T) → Type 0
  Holds s = All (λ e. backend.read_json s e.key ≡ ok e.sample)

  absorb_old :
      (last : Time) (xs : List (Entry T)) (ks : List Key) (acc : T × Time)
      → NoneLater fragment_type last xs
      → absorb F last (keys_of xs ++ ks) acc ≡ absorb F last ks acc
  unfolding absorb
  absorb_old last [] ks acc h = refl
  absorb_old last (x ∷ xs) ks (v, time) (p, h) = rw p (absorb_old last xs ks (v, time) h)

  absorb_new :
      (last new : Time) (es : List (Entry T)) (v : T) (s : backend.State)
      → rank last ≤ rank new
      → Rising fragment_type new es
      → Holds s es
      → absorb F last (keys_of es) (v, new) s
        ≡ (ok (merged merge_objects v es, last_of fragment_type new es), s)
  unfolding absorb ◌>>=◌
  absorb_new last new [] v s o r h = refl
  absorb_new last new (e ∷ es) v s o (p, r) (q, h) =
      let sooner : later (time_from_key fragment_type e.key) last ≡ true = ground arith in
      rw sooner (
        rw q (
          absorb_new last (time_from_key fragment_type e.key) es (merge_objects v e.sample) s
            (ground arith) r h))

  module _ (c : ChildProgram) (s : backend.State) {root depot : Key}
      (rooted : root_prefix c ≡ ok root) (in_depot : depot_prefix c ≡ ok depot) where
    -- With no in-progress file a read merges all samples of the depot into the default.
    pub get_updated_object_fresh :
        (es : List (Entry T))
        → backend.all_matching s root (time_pattern fragment_type) ≡ ok []
        → backend.all_matching s depot (time_pattern fragment_type) ≡ ok (keys_of es)
        → Rising fragment_type min_value es
        → Holds s es
        → (get_updated_object F c s).0
          ≡ ok (merged merge_objects default_object es, last_of fragment_type min_value es)
    unfolding get_updated_object get_latest_in_progress_object latest_key ◌>>=◌
    get_updated_object_fresh es no_keys keys r h =
        rw (rooted, in_depot)
          (rw (no_keys, keys)
            (ap (λ r. r.0) (absorb_new min_value min_value es default_object s (omega arith) r h)))

    -- If exactly one in-progress file is kept, it holds the earlier samples of the depot merged, it is
    -- named by a time that none of them is later than, and the other samples are listed after them in
    -- rising time and are later than that, a read gives what merging all samples from nothing gives.
    pub get_updated_object_resumed :
        (k : Key) (xs ys : List (Entry T)) (n : ℕ)
        → time_from_key fragment_type k ≡ at (suc n)
        → backend.all_matching s root (time_pattern fragment_type) ≡ ok (k ∷ [])
        → backend.read_json s k ≡ ok (merged merge_objects default_object xs)
        → backend.all_matching s depot (time_pattern fragment_type) ≡ ok (keys_of (xs ++ ys))
        → NoneLater fragment_type (at (suc n)) xs
        → Rising fragment_type (at (suc n)) ys
        → Holds s ys
        → (get_updated_object F c s).0
          ≡ ok (
            merged merge_objects default_object (xs ++ ys),
            last_of fragment_type (at (suc n)) ys,
          )
    unfolding get_updated_object get_latest_in_progress_object read_or_default ◌>>=◌
    get_updated_object_resumed k xs ys n e keys held depot_keys old r h = rw rooted (
        rw keys (
          rw (latest_key_one fragment_type k n e) (
            rw held (
              rw in_depot (
                rw depot_keys (
                  rw (e, keys_of-append xs ys, merged-append merge_objects default_object xs ys)
                    (rw
                      (absorb_old (at (suc n)) xs (keys_of ys)
                        (merged merge_objects default_object xs, at (suc n)) old)
                      (ap (λ r. r.0)
                        (absorb_new (at (suc n)) (at (suc n)) ys
                          (merged merge_objects default_object xs) s (omega arith) r h)))))))))
