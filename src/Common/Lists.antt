-- ===== src/Common/Lists.antt =====
-- Lists measured by native numbers, predicates on all items, and tests by a Boolean predicate.
use lil_bobby_tables_my_crt.Common.Tests.{
  map, sym, ◌∙◌, ◌↔◌, inr, ap, inl, Bool-cases, ◌⊎◌, ℕ, zero, suc, ◌+◌, ◌≡◌, refl, Bool, true,
  false, ◌&&◌, ◌||◌, List, [], ◌∷◌, ◌++◌, arith, if◌then◌else◌, Option, none, some,
}
use mathlib.Core.Path.{subst}
use mathlib.Core.Bool.{true≢false}

module _ {ℓ} {A : Type ℓ} where
  abbrev pub length : List A → ℕ
  length [] = 0
  length (x ∷ xs) = suc (length xs)

  pub length-append : (xs ys : List A) → length (xs ++ ys) ≡ length xs + length ys
  length-append [] ys = omega arith
  length-append (x ∷ xs) ys = omega (arith, length-append xs ys)

  abbrev pub get_elem? : List A → ℕ → Option A
  get_elem? [] i = none
  get_elem? (x ∷ xs) zero = some x
  get_elem? (x ∷ xs) (suc i) = get_elem? xs i

  abbrev pub take : ℕ → List A → List A
  take zero xs = []
  take (suc n) [] = []
  take (suc n) (x ∷ xs) = x ∷ take n xs

  abbrev pub drop : ℕ → List A → List A
  drop zero xs = xs
  drop (suc n) [] = []
  drop (suc n) (x ∷ xs) = drop n xs

  abbrev pub is_nil : List A → Bool
  is_nil [] = true
  is_nil (x ∷ xs) = false

  abbrev pub head : List A → Option A
  head [] = none
  head (x ∷ xs) = some x

  -- `list.filter(test)`
  unfoldable pub select : (A → Bool) → List A → List A
  select test [] = []
  select test (x ∷ xs) = let rest = select test xs in if test x then x ∷ rest else rest

  unfoldable pub all : (A → Bool) → List A → Bool
  all test [] = true
  all test (x ∷ xs) = test x && all test xs

  unfoldable pub any : (A → Bool) → List A → Bool
  any test [] = false
  any test (x ∷ xs) = test x || any test xs

module _ {A : Type 0} where
  -- The item stands in the list.
  abbrev pub In : A → List A → Type 0
  In x [] = ⊥
  In x (y ∷ ys) = (x ≡ y) ⊎ In x ys

module _ {ℓ κ} {A : Type ℓ} (P : A → Type κ) where
  abbrev pub All : List A → Type κ
  All [] = Unit
  All (x ∷ xs) = P x × All xs

  pub All-append : (xs ys : List A) → All xs → All ys → All (xs ++ ys)
  All-append [] ys h k = k
  All-append (x ∷ xs) ys (p, h) k = (p, All-append xs ys h k)

module _ {ℓ κ μ} {A : Type ℓ} where
  pub All-map_of :
      (P : A → Type κ) (Q : A → Type μ) (f : (a : A) → P a → Q a) (xs : List A)
      → All P xs
      → All Q xs
  All-map_of P Q f [] h = tt
  All-map_of P Q f (x ∷ xs) (p, h) = (f x p, All-map_of P Q f xs h)

module _ {ℓ} {A : Type ℓ} where
  pub select-append :
      (test : A → Bool) (xs ys : List A) → select test (xs ++ ys) ≡ select test xs ++ select test ys
  unfolding select
  select-append test [] ys = refl
  select-append test (x ∷ xs) ys = ground (arith, select-append test xs ys)

  pub select-All : (test : A → Bool) (xs : List A) → All (λ x. test x ≡ true) (select test xs)
  unfolding select
  select-All test [] = tt
  select-All test (x ∷ xs) = ground (arith, select-All test xs)

  -- Selecting a second time changes nothing.
  pub select-select :
      (test : A → Bool) (xs : List A) → select test (select test xs) ≡ select test xs
  unfolding select
  select-select test [] = refl
  select-select test (x ∷ xs) = elim (Bool-cases (test x)) [
    | inl e ↦ rw e (rw e (ap (λ ys. x ∷ ys) (select-select test xs)))
    | inr e ↦ rw e (select-select test xs)
  ]

module _ {A : Type 0} where
  pub In-select :
      (test : A → Bool) (xs : List A) (x : A) → In x (select test xs) ↔ (In x xs × (test x ≡ true))
  unfolding select
  In-select test [] x = ((λ i. absurd i), λ h. h.0)
  In-select test (y ∷ ys) x = elim (Bool-cases (test y)) [
    | inl e ↦ rw e (
      (λ i. elim i [
        | inl p ↦ (inl p, ap test p ∙ e)
        | inr j ↦ let r = (In-select test ys x).0 j in (inr r.0, r.1)
      ]),
      λ h. elim h.0 [ inl p ↦ inl p | inr j ↦ inr ((In-select test ys x).1 (j, h.1)) ],
    )
    | inr e ↦ rw e (
      (λ i. let r = (In-select test ys x).0 i in (inr r.0, r.1)),
      λ h. elim h.0 [
        | inl p ↦ absurd (true≢false (sym h.1 ∙ (ap test p ∙ e)))
        | inr j ↦ (In-select test ys x).1 (j, h.1)
      ],
    )
  ]

  -- What is found first stands in the list and meets the test.
  pub head-select :
      (test : A → Bool) (xs : List A) (x : A)
      → head (select test xs) ≡ some x
      → In x xs × (test x ≡ true)
  head-select test xs x h = (In-select test xs x).0 (first (select test xs) h)
    where
      injective : {a b : A} → ◌≡◌ {A = Option A} (some a) (some b) → a ≡ b
      injective p = cc

      first : (ys : List A) → head ys ≡ some x → In x ys
      first [] p = cc
      first (y ∷ ys) p = inl (sym (injective p))

  -- Where an item meets the test, one is found.
  pub found_of_In :
      (test : A → Bool) (xs : List A) (x : A)
      → In x xs
      → test x ≡ true
      → (y : A) × (head (select test xs) ≡ some y) × In y xs × (test y ≡ true)
  found_of_In test xs x i t = found (select test xs) refl ((In-select test xs x).1 (i, t))
    where
      found :
          (ys : List A)
          → select test xs ≡ ys
          → In x ys
          → (y : A) × (head (select test xs) ≡ some y) × In y xs × (test y ≡ true)
      found [] e j = absurd j
      found (y ∷ ys) e j =
          let h : head (select test xs) ≡ some y = rw e refl in
          let r = head-select test xs y h in (y, h, r.0, r.1)

  pub In-append : (xs ys : List A) (x : A) → In x (xs ++ ys) ↔ (In x xs ⊎ In x ys)
  In-append [] ys x = ((λ i. inr i), λ h. elim h [ inl i ↦ absurd i | inr i ↦ i ])
  In-append (y ∷ xs) ys x = (
    (λ i. elim i [
      | inl p ↦ inl (inl p)
      | inr j ↦ elim ((In-append xs ys x).0 j) [ inl k ↦ inl (inr k) | inr k ↦ inr k ]
    ]),
    λ h. elim h [
      | inl i ↦ elim i [ inl p ↦ inl p | inr k ↦ inr ((In-append xs ys x).1 (inl k)) ]
      | inr k ↦ inr ((In-append xs ys x).1 (inr k))
    ],
  )

  pub append_nil : (xs : List A) → xs ++ [] ≡ xs
  append_nil [] = refl
  append_nil (x ∷ xs) = ap (λ ys. x ∷ ys) (append_nil xs)

  pub append_assoc : (xs ys zs : List A) → (xs ++ ys) ++ zs ≡ xs ++ (ys ++ zs)
  append_assoc [] ys zs = refl
  append_assoc (x ∷ xs) ys zs = ap (λ l. x ∷ l) (append_assoc xs ys zs)

  pub nil_of_none : (xs : List A) → ((x : A) → ¬ (In x xs)) → xs ≡ []
  nil_of_none [] h = refl
  nil_of_none (x ∷ xs) h = absurd (h x (inl refl))

module _ {ℓ} {A : Type 0} (P : A → Type ℓ) where
  pub All-In : (xs : List A) (x : A) → All P xs → In x xs → P x
  All-In [] x h i = absurd i
  All-In (y ∷ ys) x (p, h) (inl e) = subst P (sym e) p
  All-In (y ∷ ys) x (p, h) (inr i) = All-In ys x h i

  pub All_of_In : (xs : List A) → ((x : A) → In x xs → P x) → All P xs
  All_of_In [] h = tt
  All_of_In (x ∷ xs) h = (h x (inl refl), All_of_In xs (λ y i. h y (inr i)))

module _ {A B : Type 0} (f : A → B) where
  pub In-map : (xs : List A) (y : B) → In y (map f xs) ↔ ((x : A) × In x xs × (y ≡ f x))
  In-map [] y = ((λ i. absurd i), λ h. absurd h.1)
  In-map (x ∷ xs) y = (
    (λ i. elim i [
      | inl e ↦ (x, inl refl, e)
      | inr j ↦ let h = (In-map xs y).0 j in (h.0, inr h.1, h.2)
    ]),
    λ h. elim h.1 [ inl e ↦ inl (h.2 ∙ ap f e) | inr j ↦ inr ((In-map xs y).1 (h.0, j, h.2)) ],
  )

pub map_id : {A : Type 0} → (xs : List A) → map (λ (x : A). x) xs ≡ xs
map_id [] = refl
map_id (x ∷ xs) = ap (λ ys. x ∷ ys) (map_id xs)

pub length-map : {A B : Type 0} → (f : A → B) (xs : List A) → length (map f xs) ≡ length xs
length-map f [] = refl
length-map f (x ∷ xs) = ap suc (length-map f xs)
