-- ===== src/Storage/S3/Unprefixed.antt =====
-- An S3 backend with an empty prefix (s3-backend.ts) is a place that works, and lists all files of a directory
-- of at most 1000, if a listing names each key once.
use lil_bobby_tables_my_crt.Common.Tests.{
  ℕ, zero, suc, ◌≤◌, ◌≡◌, refl, sym, ap, ◌∙◌, ◌≢◌, inl, inr, Bool, Option, List, [], ◌∷◌, ◌++◌,
  arith, Option-cases,
}
use lil_bobby_tables_my_crt.Common.Lists.{
  length, drop, select, take, In, In-select, All, All_of_In, All-In,
}
use mathlib.Core.Path.{subst}
use lil_bobby_tables_my_crt.Storage.Schema.{Key, strip, timed_name, time_pattern}
use lil_bobby_tables_my_crt.Storage.Schema.Matching.{time_pattern-timed_name}
use lil_bobby_tables_my_crt.Storage.Backend.{IsLawful}
use lil_bobby_tables_my_crt.Storage.Fragmented.Listed.{ListsAll}
use lil_bobby_tables_my_crt.Storage.S3.{
  S3Client, s3_backend, attach_prefix, write_json, delete_json, all_matching, list_objects,
  rest_matches,
}
use lil_bobby_tables_my_crt.Storage.S3.Laws.{IsS3, drop-append}
use lil_bobby_tables_my_crt.Storage.S3.Files.{exists_lem, take_all}

abbrev pub NoRepeats : List Key → Type 0
NoRepeats [] = Unit
NoRepeats (k ∷ ks) = All (λ j. k ≢ j) ks × NoRepeats ks

-- A list with a member, without that member.
without :
    (k : Key) (ks : List Key)
    → In k ks
    → (js : List Key) × (length ks ≡ suc (length js)) × ((j : Key) → In j ks → k ≢ j → In j js)
without k [] i = absurd i
without k (x ∷ xs) (inl e) =
    (xs, refl, λ j m ne. elim m [ inl p ↦ absurd (ne (e ∙ sym p)) | inr r ↦ r ])
without k (x ∷ xs) (inr i) =
    let rest = without k xs i in
    (x ∷ rest.0, ap suc rest.1, λ j m ne. elim m [ inl p ↦ inl p | inr r ↦ inr (rest.2 j r ne) ])

-- A list with no repeats is no longer than one that has all its members.
length-NoRepeats :
    (xs ys : List Key) → NoRepeats xs → ((k : Key) → In k xs → In k ys) → length xs ≤ length ys
length-NoRepeats [] ys n h = omega arith
length-NoRepeats (x ∷ xs) ys (fresh, n) h =
    let rest = without x ys (h x (inl refl)) in
    let shorter =
      length-NoRepeats xs rest.0 n
        λ k i. rest.2 k (h k (inr i)) (All-In (λ j. x ≢ j) xs k fresh i) in
    omega (arith, rest.1, shorter)

pub In-take : (n : ℕ) (xs : List Key) (k : Key) → In k (take n xs) → In k xs
In-take zero xs k i = absurd i
In-take (suc n) [] k i = absurd i
In-take (suc n) (x ∷ xs) k (inl e) = inl e
In-take (suc n) (x ∷ xs) k (inr i) = inr (In-take n xs k i)

module _ {T : Type 0} (s3 : S3Client T) (objects : s3.State → Key → Option T)
    (h : IsS3 s3 objects) where
  abbrev kept : s3.State → Key → (Key → Bool) → List Key
  kept s p f = select (rest_matches p f) (take 1000 (h.keys s p))

  unfoldable pub unprefixed_lawful : IsLawful (s3_backend s3 []) objects
  unfolding attach_prefix strip write_json delete_json all_matching list_objects
  unprefixed_lawful = record {
    exists_lem = exists_lem s3 objects h [];
    read_lem = λ s k v e. rw (h.get_some s k v e) refl;
    write_ok = λ s k v. rw (h.put_ok s k v) refl;
    write_lem = h.put_lem;
    delete_lem = h.delete_lem;
    list_keys = kept;
    list_lem = λ s p f. rw (h.list_lem s p) refl;
    list_matches = λ s p f. All_of_In _ (kept s p f) λ k i.
        let m = (In-select (rest_matches p f) (take 1000 (h.keys s p)) k).0 i in
        let r = (h.keys_lem s p k).0 (In-take 1000 (h.keys s p) k m.0) in
        (r.1.0, r.1.1, ap f (sym (drop-append p r.1.0) ∙ ap (drop (length p)) (sym r.1.1)) ∙ m.1);
  }

  pub unprefixed-ListsAll :
      ((s : s3.State) (p : Key) → NoRepeats (h.keys s p))
      → ListsAll (s3_backend s3 []) objects unprefixed_lawful 1000
  unfolding unprefixed_lawful
  unprefixed-ListsAll once = record {
    listed = λ s p t n few there.
        let k = p ++ timed_name t n in
        let keys = h.keys s p in
        let short = length-NoRepeats keys few.0 (once s p) λ j i.
          let r = (h.keys_lem s p j).0 i in
          subst (λ x. In x few.0) (sym r.1.1) (few.2 r.1.0 (λ e. cc (e, r.0.1, r.1.1))) in
        elim (Option-cases (objects s k)) [
          | inl e ↦ absurd (there e)
          | inr (v, e) ↦
              let all_of = take_all 1000 keys (omega (arith, short, few.1)) in
              (In-select (rest_matches p (time_pattern t)) (take 1000 keys) k).1 (
                rw all_of ((h.keys_lem s p k).1 ((v, e), (timed_name t n, refl))),
                ap (time_pattern t) (drop-append p (timed_name t n))
                    ∙ time_pattern-timed_name t [] n,
              )
        ];
    there = λ s p f k i e.
        let m = (In-select (rest_matches p f) (take 1000 (h.keys s p)) k).0 i in
        let r = (h.keys_lem s p k).0 (In-take 1000 (h.keys s p) k m.0) in cc (e, r.0.1);
  }
