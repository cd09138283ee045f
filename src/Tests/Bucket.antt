-- ===== src/Tests/Bucket.antt =====
-- A bucket in memory, and the S3 backend over it.
pub mod Place
use lil_bobby_tables_my_crt.Tests.Unique.{unique, In-unique}
use lil_bobby_tables_my_crt.Common.Lists.{All-In}
use lil_bobby_tables_my_crt.Common.Tests.{◌≢◌}
use lil_bobby_tables_my_crt.Common.Tests.{Bool}
use lil_bobby_tables_my_crt.Common.Lists.{All_of_In}
use lil_bobby_tables_my_crt.Common.Lists.{In-select}
use lil_bobby_tables_my_crt.Common.Tests.{◌↔◌}
use lil_bobby_tables_my_crt.Common.Tests.{not}
use lil_bobby_tables_my_crt.Common.Lists.{select}
use lil_bobby_tables_my_crt.Common.Tests.{
  ℕ, ◌≡◌, refl, sym, ap, ◌∙◌, ◌⊎◌, inl, inr, Option, none, some, List, [], ◌∷◌, ◌++◌, arith,
  if◌then◌else◌, Bool-cases, Option-cases, is_some, codes,
}
use lil_bobby_tables_my_crt.Common.Lists.{In, take}
use lil_bobby_tables_my_crt.Common.Exec.{Result, ok, throw}
use lil_bobby_tables_my_crt.Storage.Schema.{Key, strip}
use lil_bobby_tables_my_crt.Storage.Schema.Matching.{strip-append}
use lil_bobby_tables_my_crt.Storage.Backend.{key_eq, key_eq_iff}
use lil_bobby_tables_my_crt.Storage.S3.{
  AwsError, not_found, S3Client, s3_backend, attach_prefix, delete_prefix,
}
use lil_bobby_tables_my_crt.Storage.S3.Laws.{IsS3, strip-eq-some}
use lil_bobby_tables_my_crt.Storage.S3.Files.{contents, s3_backend_lem}
use lil_bobby_tables_my_crt.Storage.S3.Deletion.{delete_prefix_lem}
use lil_bobby_tables_my_crt.Storage.S3.Unprefixed.{NoRepeats}
use mathlib.Core.Bool.{true≢false}
use lil_bobby_tables_my_crt.Tests.Memory.{find, put, remove, find-put, find-remove}

module _ {T : Type 0} where
  abbrev pub headed : Option T → Result AwsError (Unit {0})
  headed none = throw not_found
  headed (some v) = ok tt

  abbrev pub got : Option T → Result AwsError T
  got none = throw not_found
  got (some v) = ok v

  unfoldable pub keys_with : Key → List (Key × T) → List Key
  keys_with p [] = []
  keys_with p ((k, v) ∷ m) =
      let rest = keys_with p m in if is_some (strip p k) then k ∷ rest else rest

abbrev pub bucket : (T : Type 0) → S3Client T
bucket T = record {
  State = List (Key × T);
  head_object = λ s k. headed (find s k);
  get_object = λ s k. got (find s k);
  put_object = λ k v s. (ok tt, put k v s);
  delete_object = λ k s. (ok tt, remove k s);
  list_objects = λ s p. ok (some (take 1000 (unique (keys_with p s))));
}

module _ {T : Type 0} where
  pub listed_found :
      (p : Key) (s : List (Key × T)) (k : Key)
      → In k (keys_with p s)
      → ((v : T) × (find s k ≡ some v)) × ((name : Key) × (k ≡ p ++ name))
  unfolding keys_with find
  listed_found p [] k i = absurd i
  listed_found p ((j, v) ∷ s) k i = elim (Option-cases (strip p j)) [
    | inl e ↦ later (listed_found p s k (rw e at i))
    | inr (r, e) ↦ first (listed_found p s k) r e (rw e at i)
  ]
    where
      later :
          ((w : T) × (find s k ≡ some w)) × ((name : Key) × (k ≡ p ++ name))
          → ((w : T) × ((if key_eq j k then some v else find s k) ≡ some w))
            × ((name : Key) × (k ≡ p ++ name))
      later r = elim (Bool-cases (key_eq j k)) [
        | inl t ↦ ((v, rw t refl), r.1)
        | inr t ↦ ((r.0.0, rw t r.0.1), r.1)
      ]

      first :
          (In k (keys_with p s)
            → ((w : T) × (find s k ≡ some w)) × ((name : Key) × (k ≡ p ++ name)))
          → (r : Key) → strip p j ≡ some r
          → (k ≡ j) ⊎ In k (keys_with p s)
          → ((w : T) × ((if key_eq j k then some v else find s k) ≡ some w))
            × ((name : Key) × (k ≡ p ++ name))
      first ih r e (inl same) =
          ((v, rw ((key_eq_iff j k).1 (sym same)) refl), (r, same ∙ strip-eq-some p j r e))
      first ih r e (inr more) = later (ih more)

  found_listed :
      (p : Key) (s : List (Key × T)) (name : Key) (v : T)
      → find s (p ++ name) ≡ some v
      → In (p ++ name) (keys_with p s)
  unfolding keys_with find
  found_listed p [] name v e = cc
  found_listed p ((j, w) ∷ s) name v e = elim (Bool-cases (key_eq j (p ++ name))) [
    | inl t ↦
        let same = (key_eq_iff j (p ++ name)).0 t in
        let h : strip p j ≡ some name = rw same (strip-append p name) in rw h (inl (sym same))
    | inr t ↦
        let ih = found_listed p s name v (rw t at e) in
        elim (Option-cases (strip p j)) [ inl n ↦ rw n ih | inr (r, n) ↦ rw n (inr ih) ]
  ]

  pub subst_key :
      (p : Key) (s : List (Key × T)) (k name : Key)
      → k ≡ p ++ name
      → (v : T) → find s k ≡ some v
      → In k (keys_with p s)
  subst_key p s k name same v e = rw same (found_listed p s name v (ap (find s) (sym same) ∙ e))

unfoldable pub bucket-IsS3 : (T : Type 0) → IsS3 (bucket T) find
unfolding unique keys_with
bucket-IsS3 T = record {
  head_none = λ s k e. ap headed e;
  head_some = λ s k v e. ap headed e;
  get_some = λ s k v e. ap got e;
  put_ok = λ s k v. refl;
  put_lem = λ s k v j. find-put k v s j;
  delete_lem = λ s k j. find-remove k s j;
  keys = λ s p. unique (keys_with p s);
  keys_lem = λ s p k. (
    (λ i. listed_found p s k ((In-unique (keys_with p s) k).0 i)),
    λ r. (In-unique (keys_with p s) k).1 (subst_key p s k r.1.0 r.1.1 r.0.0 r.0.1),
  );
  list_lem = λ s p. refl;
}

abbrev team : Key
team = codes "team"

abbrev first_file : Key
first_file = codes "environment1/capture1/a.json"

abbrev second_file : Key
second_file = codes "environment1/capture2/b.json"

abbrev two_files : List (Key × ℕ)
two_files = (team ++ (codes "/" ++ first_file), 5) ∷ (team ++ (codes "/" ++ second_file), 6) ∷ []

s3_backend_lem_example :
    let B = s3_backend (bucket ℕ) team in
    (B.exists two_files first_file
      ≡ ok (is_some (contents (bucket ℕ) find (bucket-IsS3 ℕ) team two_files first_file)))
    × (B.read_json (B.write_json first_file 7 two_files).1 first_file ≡ ok 7)
    × ((B.write_json first_file 7 two_files).0 ≡ ok tt)
    × (contents
          (bucket ℕ)
          find
          (bucket-IsS3 ℕ)
          team
          (B.write_json first_file 7 two_files).1
          second_file
        ≡ (if key_eq first_file second_file
            then some 7
            else contents (bucket ℕ) find (bucket-IsS3 ℕ) team two_files second_file))
    × (contents
          (bucket ℕ)
          find
          (bucket-IsS3 ℕ)
          team
          (B.delete_json first_file two_files).1
          second_file
        ≡ (if key_eq first_file second_file
            then none
            else contents (bucket ℕ) find (bucket-IsS3 ℕ) team two_files second_file))
unfolding strip
s3_backend_lem_example =
    s3_backend_lem (bucket ℕ) find (bucket-IsS3 ℕ) team two_files first_file second_file 7 refl refl

delete_prefix_lem_example :
    let dir = codes "environment1/capture1/" in
    let v = (delete_prefix (bucket ℕ) team dir two_files).1 in
    ((delete_prefix (bucket ℕ) team dir two_files).0 ≡ ok tt)
    × (find v (attach_prefix team dir ++ codes "a.json") ≡ none)
    × (find v (attach_prefix team second_file) ≡ find two_files (attach_prefix team second_file))
unfolding strip attach_prefix keys_with unique bucket-IsS3
delete_prefix_lem_example =
    delete_prefix_lem (bucket ℕ) find (bucket-IsS3 ℕ) team two_files
      (codes "environment1/capture1/") (codes "a.json") (attach_prefix team second_file)
      (omega arith) refl
