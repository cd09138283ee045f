-- ===== src/Common/Sort.antt =====
-- `list.sort(compare)` by a numeric key, as a stable insertion sort.
use lil_bobby_tables_my_crt.Common.Tests.{
  ◌⊎◌, ◌≡◌, ◌↔◌, ℕ, ◌≤◌, inl, inr, List, [], ◌∷◌, arith, if◌then◌else◌, leb, Bool-cases,
}
use lil_bobby_tables_my_crt.Common.Lists.{In, All}
use mathlib.Core.List.{Perm}
use mathlib.Core.List.Perm

module _ {ℓ} {A : Type ℓ} (key : A → ℕ) where
  -- Before the first item whose key is not smaller: `x` stands before the items of its own key.
  insert_sorted : A → List A → List A
  insert_sorted x [] = x ∷ []
  insert_sorted x (y ∷ ys) = if leb (key x) (key y) then x ∷ y ∷ ys else y ∷ insert_sorted x ys

  unfoldable pub sort : List A → List A
  unfolding insert_sorted
  sort [] = []
  sort (x ∷ xs) = insert_sorted x (sort xs)

  abbrev pub IsSorted : List A → Type 0
  IsSorted [] = Unit
  IsSorted (x ∷ xs) = All (λ y. key x ≤ key y) xs × IsSorted xs

  All-insert_sorted :
      (n : ℕ) (x : A) (ys : List A)
      → n ≤ key x
      → All (λ y. n ≤ key y) ys
      → All (λ y. n ≤ key y) (insert_sorted x ys)
  unfolding insert_sorted
  All-insert_sorted n x [] p h = (p, tt)
  All-insert_sorted n x (y ∷ ys) p (q, h) = ground (arith, All-insert_sorted n x ys p h)

  All-le_trans : (m n : ℕ) (ys : List A) → m ≤ n → All (λ y. n ≤ key y) ys → All (λ y. m ≤ key y) ys
  All-le_trans m n [] p h = tt
  All-le_trans m n (y ∷ ys) p (q, h) = (omega arith, All-le_trans m n ys p h)

  insert_sorted-IsSorted : (x : A) (ys : List A) → IsSorted ys → IsSorted (insert_sorted x ys)
  unfolding insert_sorted
  insert_sorted-IsSorted x [] h = (tt, tt)
  insert_sorted-IsSorted x (y ∷ ys) (b, h) = elim (Bool-cases (leb (key x) (key y))) [
    | inl e ↦ rw e ((ground arith, All-le_trans (key x) (key y) ys (ground arith) b), (b, h))
    | inr e ↦ rw e (All-insert_sorted (key y) x ys (ground arith) b, insert_sorted-IsSorted x ys h)
  ]

  pub sort-IsSorted : (xs : List A) → IsSorted (sort xs)
  unfolding sort
  sort-IsSorted [] = tt
  sort-IsSorted (x ∷ xs) = insert_sorted-IsSorted x (sort xs) (sort-IsSorted xs)

  insert_sorted-perm : (x : A) (ys : List A) → Perm (insert_sorted x ys) (x ∷ ys)
  unfolding insert_sorted
  insert_sorted-perm x [] = Perm.refl (x ∷ [])
  insert_sorted-perm x (y ∷ ys) = elim (Bool-cases (leb (key x) (key y))) [
    | inl e ↦ rw e (Perm.refl (x ∷ y ∷ ys))
    | inr e ↦ rw e (Perm.trans (Perm.cons y (insert_sorted-perm x ys)) (Perm.swap x y ys))
  ]

  pub sort-perm : (xs : List A) → Perm (sort xs) xs
  unfolding sort
  sort-perm [] = Perm.refl []
  sort-perm (x ∷ xs) = Perm.trans (insert_sorted-perm x (sort xs)) (Perm.cons x (sort-perm xs))

module _ {A : Type 0} (key : A → ℕ) where
  insert_sorted-In : (x y : A) (ys : List A) → In x (insert_sorted key y ys) ↔ ((x ≡ y) ⊎ In x ys)
  unfolding insert_sorted
  insert_sorted-In x y [] = ground arith
  insert_sorted-In x y (z ∷ zs) = ground (arith, insert_sorted-In x y zs)

  -- Sorting keeps the items.
  pub sort-In : (x : A) (xs : List A) → In x (sort key xs) ↔ In x xs
  unfolding sort
  sort-In x [] = ground arith
  sort-In x (y ∷ ys) = ground (arith, insert_sorted-In x y (sort key ys), sort-In x ys)
