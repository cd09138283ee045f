-- ===== src/Storage/Backend.antt =====
-- common/src/storage/backend.ts: the interface of a place for files, an abstract class in the source,
-- and what its users rely on. The two implementations call a file system and a web service.
use lil_bobby_tables_my_crt.Common.Tests.{
  ◌≡◌, ◌↔◌, Bool, true, false, ◌&&◌, Option, none, some, List, [], ◌∷◌, ◌++◌, arith, ◌==◌,
  if◌then◌else◌, is_some,
}
use lil_bobby_tables_my_crt.Common.Lists.{All}
use lil_bobby_tables_my_crt.Common.Exec.{Result, ok}
use lil_bobby_tables_my_crt.Common.Action.{Action}
use lil_bobby_tables_my_crt.Storage.Schema.{Key, Error}

-- The methods over the state of the place, for the values of one type that are kept there.
pub record StorageBackend (T : Type 0) : Type 1 where
  pub State : Type 0
  pub exists : State → Key → Result Error Bool
  pub all_matching : State → Key → (Key → Bool) → Result Error (List Key)
  pub read_json : State → Key → Result Error T
  pub write_json : Key → T → Action State Error (Unit {0})
  pub delete_json : Key → Action State Error (Unit {0})

-- Two keys are the same text.
unfoldable pub key_eq : Key → Key → Bool
key_eq [] [] = true
key_eq (c ∷ s) (d ∷ t) = (c == d) && key_eq s t
key_eq _ _ = false

pub key_eq_iff : (s t : Key) → (key_eq s t ≡ true) ↔ (s ≡ t)
unfolding key_eq
key_eq_iff [] [] = ground arith
key_eq_iff [] (d ∷ t) = ground arith
key_eq_iff (c ∷ s) [] = ground arith
key_eq_iff (c ∷ s) (d ∷ t) = ground (arith, key_eq_iff s t)

-- A place that works: a map from keys to values, of which `all_matching` lists the keys with a prefix
-- whose rest matches. An S3 place without a prefix is one (Storage.S3.Unprefixed); with a prefix, two keys
-- may name one object, and it is not.
pub record IsLawful {T : Type 0} (B : StorageBackend T) (contents : B.State → Key → Option T)
    : Type 0 where
  pub exists_lem : (s : B.State) (k : Key) → B.exists s k ≡ ok (is_some (contents s k))
  pub read_lem : (s : B.State) (k : Key) (v : T) → contents s k ≡ some v → B.read_json s k ≡ ok v
  pub write_ok : (s : B.State) (k : Key) (v : T) → (B.write_json k v s).0 ≡ ok tt
  pub write_lem :
      (s : B.State) (k : Key) (v : T) (j : Key)
      → contents (B.write_json k v s).1 j ≡ (if key_eq k j then some v else contents s j)
  pub delete_lem :
      (s : B.State) (k j : Key)
      → contents (B.delete_json k s).1 j ≡ (if key_eq k j then none else contents s j)
  pub list_keys : B.State → Key → (Key → Bool) → List Key
  pub list_lem :
      (s : B.State) (p : Key) (f : Key → Bool) → B.all_matching s p f ≡ ok (list_keys s p f)
  pub list_matches :
      (s : B.State) (p : Key) (f : Key → Bool)
      → All (λ k. (name : Key) × (k ≡ p ++ name) × (f name ≡ true)) (list_keys s p f)
