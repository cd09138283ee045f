-- ===== src/Tests/Memory.antt =====
-- A place for files in memory, which has the laws that the fragmented files rely on.
use lil_bobby_tables_my_crt.Common.Tests.{
  ◌≡◌, refl, inl, inr, Bool, true, false, Option, none, some, List, [], ◌∷◌, ◌++◌, arith,
  if◌then◌else◌, Bool-cases, Option-cases, is_some,
}
use lil_bobby_tables_my_crt.Common.Lists.{All}
use lil_bobby_tables_my_crt.Common.Exec.{Result, ok, throw}
use mathlib.Core.Bool.{false≢true}
use lil_bobby_tables_my_crt.Storage.Schema.{Key, Error, strip}
use lil_bobby_tables_my_crt.Storage.Backend.{StorageBackend, IsLawful, key_eq, key_eq_iff}

name_matches : (Key → Bool) → Option Key → Bool
name_matches f none = false
name_matches f (some name) = f name

strip-eq-some : (p s : Key) (r : Key) → strip p s ≡ some r → s ≡ p ++ r
unfolding strip
strip-eq-some [] s r h = cc
strip-eq-some (c ∷ p) [] r h = cc
strip-eq-some (c ∷ p) (d ∷ s) r h = ground (arith, strip-eq-some p s r)

name_matches-cases :
    (f : Key → Bool) (p k : Key)
    → name_matches f (strip p k) ≡ true
    → (name : Key) × (k ≡ p ++ name) × (f name ≡ true)
unfolding name_matches
name_matches-cases f p k h = elim (Option-cases (strip p k)) [
  | inl e ↦ absurd (false≢true (rw e at h))
  | inr (name, e) ↦ (name, strip-eq-some p k name e, rw e at h)
]

module _ {T : Type 0} where
  unfoldable pub find : List (Key × T) → Key → Option T
  find [] k = none
  find ((j, v) ∷ m) k = if key_eq j k then some v else find m k

  unfoldable pub put : Key → T → List (Key × T) → List (Key × T)
  put k v [] = (k, v) ∷ []
  put k v ((j, w) ∷ m) = if key_eq j k then (j, v) ∷ m else (j, w) ∷ put k v m

  unfoldable pub remove : Key → List (Key × T) → List (Key × T)
  remove k [] = []
  remove k ((j, w) ∷ m) = let rest = remove k m in if key_eq j k then rest else (j, w) ∷ rest

  unfoldable pub matching : Key → (Key → Bool) → List (Key × T) → List Key
  unfolding name_matches
  matching p f [] = []
  matching p f ((k, v) ∷ m) =
      let rest = matching p f m in if name_matches f (strip p k) then k ∷ rest else rest

  unfoldable pub found : Option T → Result Error T
  found none = throw "no such key"
  found (some v) = ok v

  pub find-put :
      (k : Key) (v : T) (m : List (Key × T)) (j : Key)
      → find (put k v m) j ≡ (if key_eq k j then some v else find m j)
  unfolding find put
  find-put k v [] j = refl
  find-put k v ((i, w) ∷ m) j =
      ground (arith, key_eq_iff k j, key_eq_iff i k, key_eq_iff i j, find-put k v m j)

  pub find-remove :
      (k : Key) (m : List (Key × T)) (j : Key)
      → find (remove k m) j ≡ (if key_eq k j then none else find m j)
  unfolding find remove
  find-remove k [] j = ground arith
  find-remove k ((i, w) ∷ m) j =
      ground (arith, key_eq_iff k j, key_eq_iff i k, key_eq_iff i j, find-remove k m j)

  matching_lem :
      (p : Key) (f : Key → Bool) (m : List (Key × T))
      → All (λ k. (name : Key) × (k ≡ p ++ name) × (f name ≡ true)) (matching p f m)
  unfolding matching
  matching_lem p f [] = tt
  matching_lem p f ((k, v) ∷ m) = elim (Bool-cases (name_matches f (strip p k))) [
    | inl e ↦ rw e (name_matches-cases f p k e, matching_lem p f m)
    | inr e ↦ rw e (matching_lem p f m)
  ]

module _ (T : Type 0) where
  abbrev pub memory : StorageBackend T
  memory = record {
    State = List (Key × T);
    exists = λ s k. ok (is_some (find s k));
    all_matching = λ s p f. ok (matching p f s);
    read_json = λ s k. found (find s k);
    write_json = λ k v s. (ok tt, put k v s);
    delete_json = λ k s. (ok tt, remove k s);
  }

  found-some : (s : List (Key × T)) (k : Key) (v : T) → find s k ≡ some v → found (find s k) ≡ ok v
  unfolding found
  found-some s k v h = rw h refl

  pub memory-IsLawful : IsLawful memory find
  memory-IsLawful = record {
    exists_lem = λ s k. refl;
    read_lem = found-some;
    write_ok = λ s k v. refl;
    write_lem = λ s k v j. find-put k v s j;
    delete_lem = λ s k j. find-remove k s j;
    list_keys = λ s p f. matching p f s;
    list_lem = λ s p f. refl;
    list_matches = λ s p f. matching_lem p f s;
  }
