-- ===== src/Storage/S3/Files.antt =====
-- An S3 backend as a map from keys to values.
use lil_bobby_tables_my_crt.Common.Tests.{
  ℕ, zero, suc, ◌≤◌, ◌≡◌, refl, sym, ap, ◌∙◌, ◌↔◌, inl, inr, Bool, true, Option, none, some, List,
  [], ◌∷◌, ◌++◌, arith, if◌then◌else◌, Option-cases, is_some,
}
use lil_bobby_tables_my_crt.Common.Lists.{length, drop, select, In, In-select, take}
use lil_bobby_tables_my_crt.Common.Exec.{ok}
use lil_bobby_tables_my_crt.Storage.S3.{
  list_objects, all_matching, rest_matches, s3_backend, write_json, delete_json, S3Client,
  attach_prefix,
}
use lil_bobby_tables_my_crt.Storage.Schema.{Key}
use lil_bobby_tables_my_crt.Storage.Backend.{key_eq, key_eq_iff}
use lil_bobby_tables_my_crt.Storage.S3.Laws.{
  IsS3, Plain, key_eq-attach_prefix, attached_once, drop-append,
}

pub take_all : (n : ℕ) (xs : List Key) → length xs ≤ n → take n xs ≡ xs
take_all zero [] h = refl
take_all zero (x ∷ xs) h = absurd (omega (arith, h))
take_all (suc n) [] h = refl
take_all (suc n) (x ∷ xs) h = ap (λ ys. x ∷ ys) (take_all n xs (omega (arith, h)))

module _ {T : Type 0} (s3 : S3Client T) (objects : s3.State → Key → Option T) (h : IsS3 s3 objects)
    (prefix : Key) where
  -- What the backend keeps under a key.
  abbrev pub contents : s3.State → Key → Option T
  contents s k = objects s (attach_prefix prefix k)

  pub exists_lem :
      (s : s3.State) (k : Key) → (s3_backend s3 prefix).exists s k ≡ ok (is_some (contents s k))
  exists_lem s k = elim (Option-cases (contents s k)) [
    | inl e ↦ rw (h.head_none s (attach_prefix prefix k) e) (rw e refl)
    | inr (v, e) ↦ rw (h.head_some s (attach_prefix prefix k) v e) (rw e refl)
  ]

  write_ok : (s : s3.State) (k : Key) (v : T) → (write_json s3 prefix k v s).0 ≡ ok tt
  unfolding write_json
  write_ok s k v = rw (h.put_ok s (attach_prefix prefix k) v) refl

  written : (s : s3.State) (k : Key) (v : T) → contents (write_json s3 prefix k v s).1 k ≡ some v
  unfolding write_json
  written s k v =
      let full = attach_prefix prefix k in
      h.put_lem s full v full ∙ rw ((key_eq_iff full full).1 refl) refl

  -- For keys that do not start with the prefix, the backend is a map from keys to values: a file exists
  -- exactly if it has contents, a read gives the last value written, a write
  -- succeeds, and writing or deleting one key changes no other.
  pub s3_backend_lem :
      (s : s3.State) (k j : Key) (v : T)
      → Plain prefix k
      → Plain prefix j
      → let B = s3_backend s3 prefix in
        (B.exists s k ≡ ok (is_some (contents s k)))
        × (B.read_json (B.write_json k v s).1 k ≡ ok v)
        × ((B.write_json k v s).0 ≡ ok tt)
        × (contents (B.write_json k v s).1 j ≡ (if key_eq k j then some v else contents s j))
        × (contents (B.delete_json k s).1 j ≡ (if key_eq k j then none else contents s j))
  unfolding write_json delete_json
  s3_backend_lem s k j v p q =
      let same = key_eq-attach_prefix prefix k j p q in
      (
        exists_lem s k,
        rw (h.get_some (write_json s3 prefix k v s).1 (attach_prefix prefix k) v (written s k v))
            refl,
        write_ok s k v,
        h.put_lem s (attach_prefix prefix k) v (attach_prefix prefix j) ∙ rw same refl,
        h.delete_lem s (attach_prefix prefix k) (attach_prefix prefix j) ∙ rw same refl,
      )

  -- A directory with at most 1000 files lists exactly those whose rest matches, under keys by which they
  -- are found again.
  pub all_matching_lem :
      (s : s3.State) (dir : Key) (pattern : Key → Bool)
      → let full = attach_prefix prefix dir in
        length (h.keys s full) ≤ 1000
        → (ks : List Key) × (all_matching s3 prefix s dir pattern ≡ ok ks)
          × ((k : Key)
              → In k ks ↔ (
                  ((v : T) × (contents s k ≡ some v))
                  × ((name : Key) × (k ≡ full ++ name) × (pattern name ≡ true))))
  unfolding all_matching list_objects
  all_matching_lem s dir pattern few =
      let full = attach_prefix prefix dir in
      let keys = h.keys s full in
      let test = rest_matches full pattern in
      let all_of = take_all 1000 keys few in
      (
        select test keys,
        rw (h.list_lem s full) (rw all_of refl),
        λ k. (
          (λ i.
              let m = (In-select test keys k).0 i in
              let r = (h.keys_lem s full k).0 m.0 in
              let e = r.1.1 in
              (
                (
                  r.0.0,
                  ap (objects s)
                        (ap (attach_prefix prefix) e ∙ (attached_once prefix dir r.1.0 ∙ sym e))
                      ∙ r.0.1,
                ),
                (
                  r.1.0,
                  e,
                  ap pattern (sym (drop-append full r.1.0) ∙ ap (drop (length full)) (sym e)) ∙ m.1,
                ),
              )),
          λ r.
              let e = r.1.1 in
              let here : objects s k ≡ some r.0.0 =
                ap (objects s)
                  (sym (ap (attach_prefix prefix) e ∙ (attached_once prefix dir r.1.0 ∙ sym e)))
                ∙ r.0.1 in
              (In-select test keys k).1 (
                (h.keys_lem s full k).1 ((r.0.0, here), (r.1.0, e)),
                ap pattern (ap (drop (length full)) e ∙ drop-append full r.1.0) ∙ r.1.2,
              ),
        ),
      )
