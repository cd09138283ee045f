-- ===== src/Tests/Unique.antt =====
-- A list of keys with each key once.
use mathlib.Core.Bool.{true≢false}
use lil_bobby_tables_my_crt.Storage.S3.Unprefixed.{NoRepeats}
use lil_bobby_tables_my_crt.Storage.Schema.{Key}
use lil_bobby_tables_my_crt.Storage.Backend.{key_eq, key_eq_iff}
use lil_bobby_tables_my_crt.Common.Lists.{In, select, In-select, All-In, All_of_In}
use lil_bobby_tables_my_crt.Common.Tests.{
  Bool, not, List, [], ◌∷◌, ◌≢◌, ◌↔◌, ap, sym, ◌∙◌, inl, inr, Bool-cases,
}

abbrev pub is_other : Key → Key → Bool
is_other k j = not (key_eq k j)

-- Each key once.
unfoldable pub unique : List Key → List Key
unfolding select
unique [] = []
unique (k ∷ ks) = k ∷ select (is_other k) (unique ks)

pub In-unique : (ks : List Key) (x : Key) → In x (unique ks) ↔ In x ks
unfolding unique
In-unique [] x = ((λ i. i), λ i. i)
In-unique (k ∷ ks) x =
    let ih = In-unique ks x in
    let kept = In-select (is_other k) (unique ks) x in
    (
      (λ i. elim i [ inl e ↦ inl e | inr j ↦ inr (ih.0 (kept.0 j).0) ]),
      λ i. elim i [
        | inl e ↦ inl e
        | inr j ↦ elim (Bool-cases (key_eq k x)) [
          | inl e ↦ inl (sym ((key_eq_iff k x).0 e))
          | inr e ↦ inr (kept.1 (ih.1 j, ap not e))
        ]
      ],
    )

NoRepeats-select : (test : Key → Bool) (ks : List Key) → NoRepeats ks → NoRepeats (select test ks)
unfolding select
NoRepeats-select test [] n = tt
NoRepeats-select test (k ∷ ks) (fresh, n) =
    let ih = NoRepeats-select test ks n in
    let still =
      All_of_In (λ j. k ≢ j) (select test ks)
        λ j i. All-In (λ j. k ≢ j) ks j fresh ((In-select test ks j).0 i).0 in
    elim (Bool-cases (test k)) [ inl e ↦ rw e (still, ih) | inr e ↦ rw e ih ]

pub unique-NoRepeats : (ks : List Key) → NoRepeats (unique ks)
unfolding unique
unique-NoRepeats [] = tt
unique-NoRepeats (k ∷ ks) = (
  All_of_In (λ j. k ≢ j) (select (is_other k) (unique ks))
      (λ j i e.
        true≢false
          (sym ((In-select (is_other k) (unique ks) j).0 i).1 ∙ ap not ((key_eq_iff k j).1 e))),
  NoRepeats-select (is_other k) (unique ks) (unique-NoRepeats ks),
)
