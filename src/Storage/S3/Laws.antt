-- ===== src/Storage/S3/Laws.antt =====
-- What an S3 backend keeps, if the service keeps objects as documented.
use lil_bobby_tables_my_crt.Common.Tests.{
  ◌≡◌, refl, sym, ap, ◌∙◌, ◌↔◌, inl, inr, false, Option, none, some, List, [], ◌∷◌, ◌++◌, arith,
  if◌then◌else◌, Bool-cases, Option-cases,
}
use lil_bobby_tables_my_crt.Common.Lists.{length, drop, In, take, append_assoc}
use lil_bobby_tables_my_crt.Common.Exec.{ok, throw}
use mathlib.Core.Bool.{true≢false}
use lil_bobby_tables_my_crt.Storage.S3.{starts_with, not_found, S3Client, attach_prefix}
use lil_bobby_tables_my_crt.Storage.Schema.Matching.{strip-append}
use lil_bobby_tables_my_crt.Storage.Schema.{Key, strip}
use lil_bobby_tables_my_crt.Storage.Backend.{key_eq, key_eq_iff}

-- A bucket that works: a map from keys to objects, whose keys with a prefix are listed in order, 1000 of
-- them in one answer.
pub record IsS3 {T : Type 0} (s3 : S3Client T) (objects : s3.State → Key → Option T) : Type 0 where
  pub head_none :
      (s : s3.State) (k : Key) → objects s k ≡ none → s3.head_object s k ≡ throw not_found
  pub head_some :
      (s : s3.State) (k : Key) (v : T) → objects s k ≡ some v → s3.head_object s k ≡ ok tt
  pub get_some : (s : s3.State) (k : Key) (v : T) → objects s k ≡ some v → s3.get_object s k ≡ ok v
  pub put_ok : (s : s3.State) (k : Key) (v : T) → (s3.put_object k v s).0 ≡ ok tt
  pub put_lem :
      (s : s3.State) (k : Key) (v : T) (j : Key)
      → objects (s3.put_object k v s).1 j ≡ (if key_eq k j then some v else objects s j)
  pub delete_lem :
      (s : s3.State) (k j : Key)
      → objects (s3.delete_object k s).1 j ≡ (if key_eq k j then none else objects s j)
  pub keys : s3.State → Key → List Key
  pub keys_lem :
      (s : s3.State) (p k : Key)
      → In k (keys s p) ↔ (((v : T) × (objects s k ≡ some v)) × ((name : Key) × (k ≡ p ++ name)))
  pub list_lem : (s : s3.State) (p : Key) → s3.list_objects s p ≡ ok (some (take 1000 (keys s p)))

pub strip-eq-some : (p s : Key) (r : Key) → strip p s ≡ some r → s ≡ p ++ r
unfolding strip
strip-eq-some [] s r h = cc
strip-eq-some (c ∷ p) [] r h = cc
strip-eq-some (c ∷ p) (d ∷ s) r h = ground (arith, strip-eq-some p s r)

pub append_cancel : (p s t : Key) → p ++ s ≡ p ++ t → s ≡ t
append_cancel [] s t e = e
append_cancel (c ∷ p) s t e = append_cancel p s t (cc)

pub drop-append : (p s : Key) → drop (length p) (p ++ s) ≡ s
drop-append [] s = refl
drop-append (c ∷ p) s = drop-append p s

-- The key does not start with the prefix.
abbrev pub Plain : Key → Key → Type 0
Plain prefix k = starts_with prefix k ≡ false

attach_prefix-Plain :
    (prefix k : Key) → Plain prefix k → attach_prefix prefix k ≡ prefix ++ (b'/' ∷ k)
unfolding attach_prefix
attach_prefix-Plain prefix k h = rw h refl

-- Two keys of which neither starts with the prefix are kept under different keys.
pub key_eq-attach_prefix :
    (prefix k j : Key)
    → Plain prefix k
    → Plain prefix j
    → key_eq (attach_prefix prefix k) (attach_prefix prefix j) ≡ key_eq k j
key_eq-attach_prefix prefix k j p q = rw (attach_prefix-Plain prefix k p) (
    rw (attach_prefix-Plain prefix j q) (elim (Bool-cases (key_eq k j)) [
      | inl e ↦ rw e (
          (key_eq_iff (prefix ++ (b'/' ∷ k)) (prefix ++ (b'/' ∷ j))).1
            (ap (λ x. prefix ++ (b'/' ∷ x)) ((key_eq_iff k j).0 e)))
      | inr e ↦ elim (Bool-cases (key_eq (prefix ++ (b'/' ∷ k)) (prefix ++ (b'/' ∷ j)))) [
        | inr f ↦ rw e f
        | inl f ↦
            let same =
              append_cancel prefix (b'/' ∷ k) (b'/' ∷ j)
                ((key_eq_iff (prefix ++ (b'/' ∷ k)) (prefix ++ (b'/' ∷ j))).0 f) in
            let equal = (key_eq_iff k j).1 (cc) in absurd (true≢false (sym equal ∙ e))
      ]
    ]))

-- What is listed under a directory is found under its own key.
pub attached_once :
    (prefix dir name : Key)
    → attach_prefix prefix (attach_prefix prefix dir ++ name) ≡ attach_prefix prefix dir ++ name
unfolding attach_prefix
attached_once prefix dir name = elim (Option-cases (strip prefix dir)) [
  | inl e ↦
      let h : strip prefix ((prefix ++ (b'/' ∷ dir)) ++ name) ≡ some ((b'/' ∷ dir) ++ name) =
        rw (append_assoc prefix (b'/' ∷ dir) name) (strip-append prefix ((b'/' ∷ dir) ++ name)) in
      rw e (rw h refl)
  | inr (r, e) ↦
      let h : strip prefix (dir ++ name) ≡ some (r ++ name) =
        rw (strip-eq-some prefix dir r e)
          (rw (append_assoc prefix r name) (strip-append prefix (r ++ name))) in
      rw e (rw h refl)
]
