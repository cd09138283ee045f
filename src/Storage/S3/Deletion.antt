-- ===== src/Storage/S3/Deletion.antt =====
-- Deleting the files of a directory.
use lil_bobby_tables_my_crt.Common.Tests.{
  ◌≤◌, ◌≡◌, refl, sym, ap, ◌∙◌, inl, inr, true, Option, none, List, [], ◌∷◌, ◌++◌, if◌then◌else◌,
  Bool-cases, Option-cases,
}
use lil_bobby_tables_my_crt.Common.Lists.{length, any, In, All}
use lil_bobby_tables_my_crt.Common.Exec.{ok}
use mathlib.Core.Bool.{true≢false}
use lil_bobby_tables_my_crt.Storage.Schema.{Key}
use lil_bobby_tables_my_crt.Storage.Schema.Matching.{strip-append}
use lil_bobby_tables_my_crt.Storage.Backend.{key_eq, key_eq_iff}
use lil_bobby_tables_my_crt.Storage.S3.{
  S3Client, starts_with, attach_prefix, list_objects, delete_json, delete_each, delete_prefix,
}
use lil_bobby_tables_my_crt.Storage.S3.Laws.{IsS3, Plain, attached_once}
use lil_bobby_tables_my_crt.Storage.S3.Files.{take_all}

any_key : (ks : List Key) (k : Key) → any (λ key. key_eq key k) ks ≡ true → In k ks
unfolding any
any_key [] k e = cc
any_key (j ∷ ks) k e = elim (Bool-cases (key_eq j k)) [
  | inl p ↦ inl (sym ((key_eq_iff j k).0 p))
  | inr p ↦ inr (any_key ks k (rw p at e))
]

any_of_In : (ks : List Key) (k : Key) → In k ks → any (λ key. key_eq key k) ks ≡ true
unfolding any
any_of_In [] k i = absurd i
any_of_In (j ∷ ks) k (inl e) = rw ((key_eq_iff j k).1 (sym e)) refl
any_of_In (j ∷ ks) k (inr i) = elim (Bool-cases (key_eq j k)) [
  | inl p ↦ rw p refl
  | inr p ↦ rw p (any_of_In ks k i)
]

module _ {T : Type 0} (s3 : S3Client T) (objects : s3.State → Key → Option T) (h : IsS3 s3 objects)
    (prefix : Key) where
  abbrev deleted_in : List Key → Key → Option T → Option T
  deleted_in keys k before = if any (λ key. key_eq key k) keys then none else before

  delete_each_lem :
      (keys : List Key) (s : s3.State) (k : Key)
      → All (λ key. attach_prefix prefix key ≡ key) keys
      → objects (delete_each s3 prefix keys s) k ≡ deleted_in keys k (objects s k)
  unfolding delete_each delete_json any
  delete_each_lem [] s k f = refl
  delete_each_lem (key ∷ keys) s k (e, f) =
      let next = (s3.delete_object (attach_prefix prefix key) s).1 in
      let one : objects next k ≡ (if key_eq key k then none else objects s k) =
        h.delete_lem s (attach_prefix prefix key) k ∙ rw e refl in
      let ih = delete_each_lem keys next k f in
      elim (Bool-cases (any (λ j. key_eq j k) keys)) [
        | inl q ↦ elim (Bool-cases (key_eq key k)) [
          | inl p ↦ rw p (ih ∙ rw q refl)
          | inr p ↦ rw p (rw q (ih ∙ rw q refl))
        ]
        | inr q ↦ elim (Bool-cases (key_eq key k)) [
          | inl p ↦ rw p (ih ∙ (rw q (one ∙ rw p refl)))
          | inr p ↦ rw p (rw q (ih ∙ (rw q (one ∙ rw p refl))))
        ]
      ]

  module _ (s : s3.State) (dir : Key) where
    abbrev full : Key
    full = attach_prefix prefix dir

    listed_once :
        (ks : List Key)
        → ((k : Key) → In k ks → In k (h.keys s full))
        → All (λ key. attach_prefix prefix key ≡ key) ks
    listed_once [] f = tt
    listed_once (k ∷ ks) f =
        let r = (h.keys_lem s full k).0 (f k (inl refl)) in
        let e = r.1.1 in
        (
          ap (attach_prefix prefix) e ∙ (attached_once prefix dir r.1.0 ∙ sym e),
          listed_once ks (λ j i. f j (inr i)),
        )

    inside :
        (name : Key) → deleted_in (h.keys s full) (full ++ name) (objects s (full ++ name)) ≡ none
    inside name = elim (Option-cases (objects s (full ++ name))) [
      | inl e ↦ elim (Bool-cases (any (λ key. key_eq key (full ++ name)) (h.keys s full))) [
        | inl p ↦ rw p refl
        | inr p ↦ rw p e
      ]
      | inr (v, e) ↦
          let i = (h.keys_lem s full (full ++ name)).1 ((v, e), (name, refl)) in
          rw (any_of_In (h.keys s full) (full ++ name) i) refl
    ]

    outside : (k : Key) → Plain full k → deleted_in (h.keys s full) k (objects s k) ≡ objects s k
    outside k out = elim (Bool-cases (any (λ key. key_eq key k) (h.keys s full))) [
      | inr p ↦ rw p refl
      | inl p ↦
          let r = (h.keys_lem s full k).0 (any_key (h.keys s full) k p) in
          let t : starts_with full k ≡ true = rw r.1.1 (rw (strip-append full r.1.0) refl) in
          absurd (true≢false (sym t ∙ out))
    ]

  -- Deleting a directory with at most 1000 files succeeds, leaves no object whose key starts with the
  -- directory's, and leaves any other object as it is.
  pub delete_prefix_lem :
      (s : s3.State) (dir name k : Key)
      → length (h.keys s (attach_prefix prefix dir)) ≤ 1000
      → Plain (attach_prefix prefix dir) k
      → let v = (delete_prefix s3 prefix dir s).1 in
        ((delete_prefix s3 prefix dir s).0 ≡ ok tt)
        × (objects v (attach_prefix prefix dir ++ name) ≡ none)
        × (objects v k ≡ objects s k)
  unfolding delete_prefix list_objects
  delete_prefix_lem s dir name k few out =
      let keys = h.keys s (attach_prefix prefix dir) in
      let gone = λ (j : Key). delete_each_lem keys s j (listed_once s dir keys (λ j i. i)) in
      rw (h.list_lem s (attach_prefix prefix dir)) (
        rw (take_all 1000 keys few) (
          refl,
          gone (attach_prefix prefix dir ++ name) ∙ inside s dir name,
          gone k ∙ outside s dir k out,
        ))
