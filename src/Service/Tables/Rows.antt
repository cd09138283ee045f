-- ===== src/Service/Tables/Rows.antt =====
-- Rows of different ids, and what updates and deletions do to all rows.
use lil_bobby_tables_my_crt.Common.Tests.{
  suc, false, ◌==◌, eq_self, Option, some, ◌↔◌, inl, inr, if◌then◌else◌, ◌∙◌, ℕ, ◌<◌, ◌≡◌, refl,
  sym, ap, ◌≢◌, Bool, true, List, [], ◌∷◌, ◌++◌, arith, Bool-cases,
}
use lil_bobby_tables_my_crt.Common.Lists.{
  In-select, In-append, head, select-append, select, In, All, All-append, All-map_of,
}
use lil_bobby_tables_my_crt.Service.Tables.{delete_where, join, pair_with, update_where}
pub use lil_bobby_tables_my_crt.Common.Lists.{All-In}

module _ {ℓ} {A : Type 0} (P : A → Type ℓ) where
  pub All-update_where :
      (test : A → Bool) (change : A → A) (xs : List A)
      → All P xs
      → ((x : A) → In x xs → test x ≡ true → P (change x))
      → All P (update_where test change xs)
  unfolding update_where
  All-update_where test change [] h f = tt
  All-update_where test change (x ∷ xs) (p, h) f =
      let rest = All-update_where test change xs h (λ y i. f y (inr i)) in
      elim (Bool-cases (test x)) [ inl e ↦ rw e (f x (inl refl) e, rest) | inr e ↦ rw e (p, rest) ]

  -- Where rows that meet the condition and rows that do not are told apart.
  pub All-update_where_split :
      (test : A → Bool) (change : A → A) (xs : List A)
      → ((x : A) → In x xs → test x ≡ true → P (change x))
      → ((x : A) → In x xs → test x ≡ false → P x)
      → All P (update_where test change xs)
  unfolding update_where
  All-update_where_split test change [] f g = tt
  All-update_where_split test change (x ∷ xs) f g =
      let rest = All-update_where_split test change xs (λ y i. f y (inr i)) (λ y i. g y (inr i)) in
      elim (Bool-cases (test x)) [
        | inl e ↦ rw e (f x (inl refl) e, rest)
        | inr e ↦ rw e (g x (inl refl) e, rest)
      ]

  pub All-select : (test : A → Bool) (xs : List A) → All P xs → All P (select test xs)
  unfolding select
  All-select test [] h = tt
  All-select test (x ∷ xs) (p, h) = elim (Bool-cases (test x)) [
    | inl e ↦ rw e (p, All-select test xs h)
    | inr e ↦ rw e (All-select test xs h)
  ]

module _ {A : Type 0} (id : A → ℕ) where
  -- No two rows have one id.
  abbrev pub Distinct : List A → Type 0
  Distinct [] = Unit
  Distinct (x ∷ xs) = All (λ y. id x ≢ id y) xs × Distinct xs

  pub Distinct-eq : (xs : List A) (x y : A) → Distinct xs → In x xs → In y xs → id x ≡ id y → x ≡ y
  Distinct-eq [] x y h i j e = absurd i
  Distinct-eq (z ∷ zs) x y (fresh, h) (inl p) (inl q) e = p ∙ sym q
  Distinct-eq (z ∷ zs) x y (fresh, h) (inl p) (inr j) e =
      absurd (All-In (λ w. id z ≢ id w) zs y fresh j (sym (ap id p) ∙ e))
  Distinct-eq (z ∷ zs) x y (fresh, h) (inr i) (inl q) e =
      absurd (All-In (λ w. id z ≢ id w) zs x fresh i (sym (e ∙ ap id q)))
  Distinct-eq (z ∷ zs) x y (fresh, h) (inr i) (inr j) e = Distinct-eq zs x y h i j e

  pub Distinct-update_where :
      (test : A → Bool) (change : A → A)
      → ((a : A) → id (change a) ≡ id a)
      → (xs : List A) → Distinct xs
      → Distinct (update_where test change xs)
  unfolding update_where
  Distinct-update_where test change same [] h = tt
  Distinct-update_where test change same (x ∷ xs) (fresh, h) = elim (Bool-cases (test x)) [
    | inl e ↦ rw e (others (change x) (same x), Distinct-update_where test change same xs h)
    | inr e ↦ rw e (others x refl, Distinct-update_where test change same xs h)
  ]
    where
      others : (y : A) → id y ≡ id x → All (λ z. id y ≢ id z) (update_where test change xs)
      others y e =
          All-update_where (λ z. id y ≢ id z) test change xs
            (All-map_of (λ z. id x ≢ id z) (λ z. id y ≢ id z) (λ z ne p. ne (sym e ∙ p)) xs fresh)
            (λ z i t p. All-In (λ w. id x ≢ id w) xs z fresh i (sym e ∙ (p ∙ same z)))

  pub Distinct-select : (test : A → Bool) (xs : List A) → Distinct xs → Distinct (select test xs)
  unfolding select
  Distinct-select test [] h = tt
  Distinct-select test (x ∷ xs) (fresh, h) = elim (Bool-cases (test x)) [
    | inl e ↦ rw e (All-select (λ y. id x ≢ id y) test xs fresh, Distinct-select test xs h)
    | inr e ↦ rw e (Distinct-select test xs h)
  ]

  -- A new row whose id is above all others.
  pub Distinct-append :
      (xs : List A) (x : A) → Distinct xs → All (λ y. id y < id x) xs → Distinct (xs ++ (x ∷ []))
  Distinct-append [] x h below = (tt, tt)
  Distinct-append (y ∷ ys) x (fresh, h) (lt, below) = (
    All-append (λ z. id y ≢ id z) ys (x ∷ []) fresh ((λ e. omega arith), tt),
    Distinct-append ys x h below,
  )

module _ {A B : Type 0} (test : A → Bool) where
  select-pair_with :
      (a : A) (ys : List B)
      → select (λ r. test r.0) (pair_with a ys) ≡ (if test a then pair_with a ys else [])
  unfolding select
  select-pair_with a [] = elim (Bool-cases (test a)) [ inl e ↦ rw e refl | inr e ↦ rw e refl ]
  select-pair_with a (y ∷ ys) = elim (Bool-cases (test a)) [
    | inl e ↦ rw (select-pair_with a ys) (rw e refl)
    | inr e ↦ rw (select-pair_with a ys) (rw e refl)
  ]

  -- A condition on the left rows may be tested before the join.
  pub select-join :
      (on : A → B → Bool) (xs : List A) (ys : List B)
      → select (λ r. test r.0) (join on xs ys) ≡ join on (select test xs) ys
  unfolding join select
  select-join on [] ys = refl
  select-join on (x ∷ xs) ys =
      select-append (λ r. test r.0) (pair_with x (select (on x) ys)) (join on xs ys)
      ∙ rw (select-join on xs ys) (
          rw (select-pair_with x (select (on x) ys))
            (elim (Bool-cases (test x)) [ inl e ↦ rw e refl | inr e ↦ rw e refl ]))

module _ {A : Type 0} (test : A → Bool) where
  -- After a deletion no row meets its condition.
  pub select-delete_where : (xs : List A) → select test (delete_where test xs) ≡ []
  unfolding delete_where select
  select-delete_where [] = refl
  select-delete_where (x ∷ xs) = elim (Bool-cases (test x)) [
    | inl e ↦ rw e (select-delete_where xs)
    | inr e ↦ rw e (rw e (select-delete_where xs))
  ]

module _ {A B : Type 0} where
  In-pair_with : (a x : A) (ys : List B) (y : B) → In (x, y) (pair_with a ys) ↔ ((x ≡ a) × In y ys)
  In-pair_with a x [] y = ((λ i. absurd i), λ h. h.1)
  In-pair_with a x (b ∷ ys) y = (
    (λ i. elim i [
      | inl p ↦ (ap (λ r. r.0) p, inl (ap (λ r. r.1) p))
      | inr j ↦ let h = (In-pair_with a x ys y).0 j in (h.0, inr h.1)
    ]),
    λ h. elim h.1 [
      | inl q ↦ inl (ap (λ r. (r, y)) h.0 ∙ ap (λ r. (a, r)) q)
      | inr j ↦ inr ((In-pair_with a x ys y).1 (h.0, j))
    ],
  )

  -- The pairs of a join are the pairs of rows that its condition joins.
  pub In-join :
      (on : A → B → Bool) (xs : List A) (ys : List B) (x : A) (y : B)
      → In (x, y) (join on xs ys) ↔ (In x xs × In y ys × (on x y ≡ true))
  unfolding join
  In-join on [] ys x y = ((λ i. absurd i), λ h. h.0)
  In-join on (a ∷ xs) ys x y = (
    (λ i. elim ((In-append (pair_with a (select (on a) ys)) (join on xs ys) (x, y)).0 i) [
      | inl j ↦
          let h = (In-pair_with a x (select (on a) ys) y).0 j in
          let s = (In-select (on a) ys y).0 h.1 in (inl h.0, s.0, ap (λ r. on r y) h.0 ∙ s.1)
      | inr j ↦ let h = (In-join on xs ys x y).0 j in (inr h.0, h.1, h.2)
    ]),
    λ h. (In-append (pair_with a (select (on a) ys)) (join on xs ys) (x, y)).1 (elim h.0 [
      | inl p ↦ inl (
          (In-pair_with a x (select (on a) ys) y).1
            (p, (In-select (on a) ys y).1 (h.1, sym (ap (λ r. on r y) p) ∙ h.2)))
      | inr j ↦ inr ((In-join on xs ys x y).1 (j, h.1, h.2))
    ]),
  )

module _ {A : Type 0} (test : A → Bool) (change : A → A) (key : A → Bool) where
  -- The first row of a condition, after an update that leaves the condition as it is.
  pub head-update_where :
      ((x : A) → key (change x) ≡ key x)
      → (xs : List A) (x : A) → head (select key xs) ≡ some x
      → head (select key (update_where test change xs)) ≡ some (if test x then change x else x)
  unfolding select update_where
  head-update_where same [] x h = cc
  head-update_where same (y ∷ ys) x h = elim (Bool-cases (key y)) [
    | inl k ↦
        let e : y ≡ x = injective (rw k at h) in
        elim (Bool-cases (test y)) [
          | inl t ↦ rw (← e) (rw t (rw (same y ∙ k) refl))
          | inr t ↦ rw (← e) (rw t (rw k refl))
        ]
    | inr k ↦ elim (Bool-cases (test y)) [
      | inl t ↦ rw t (rw (same y ∙ k) (head-update_where same ys x (rw k at h)))
      | inr t ↦ rw t (rw k (head-update_where same ys x (rw k at h)))
    ]
  ]
    where
      injective : {a b : A} → ◌≡◌ {A = Option A} (some a) (some b) → a ≡ b
      injective p = cc

module _ {A : Type 0} (id : A → ℕ) where
  -- Where all ids are below a counter, no row has its value, and a row that gets it is found.
  pub select-below :
      (n : ℕ) (rows : List A) → All (λ r. id r < n) rows → select (λ r. id r == n) rows ≡ []
  unfolding select
  select-below n [] h = refl
  select-below n (r ∷ rows) (lt, h) =
      let e : (id r == n) ≡ false = ground (arith, lt) in rw e (select-below n rows h)

  pub select-added :
      (rows : List A) (row : A)
      → All (λ r. id r < id row) rows
      → select (λ r. id r == id row) (rows ++ (row ∷ [])) ≡ row ∷ []
  unfolding select
  select-added rows row h =
      rw (select-append (λ r. id r == id row) rows (row ∷ []))
        (rw (select-below (id row) rows h) (rw (eq_self (id row)) refl))

  -- The rows stay below a counter that moves with a new row.
  pub below-added :
      (rows : List A) (row : A)
      → All (λ r. id r < id row) rows
      → All (λ r. id r < suc (id row)) (rows ++ (row ∷ []))
  below-added rows row h =
      All-append (λ r. id r < suc (id row)) rows (row ∷ [])
        (All-map_of (λ r. id r < id row) (λ r. id r < suc (id row)) (λ r lt. omega (arith, lt)) rows
          h)
        (omega arith, tt)
