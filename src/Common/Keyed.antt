-- ===== src/Common/Keyed.antt =====
-- Items put into a map one after the other, each under a key of its own: the last item of a key stays.
use lil_bobby_tables_my_crt.Common.Tests.{
  true, ◌⊎◌, String, ◌≡◌, refl, sym, ap, ◌∙◌, ◌↔◌, inl, inr, Option, none, some, List, [], ◌∷◌,
  ◌++◌, arith, str_eq, eq_iff, if◌then◌else◌, Bool-cases,
}
use lil_bobby_tables_my_crt.Common.Lists.{In}
use lil_bobby_tables_my_crt.Common.Dict.{
  lookup, insert, values, NodupKeys, lookup-insert, insert-NodupKeys,
}
use mathlib.Core.Option.{some-injective}

module _ {A : Type 0} (key : A → String) where
  -- `items.forEach((item) => { map[key(item)] = item; })`
  unfoldable pub put_all : List A → List (String × A) → List (String × A)
  put_all [] d = d
  put_all (x ∷ xs) d = put_all xs (insert (key x) x d)

  pub put_all-append :
      (xs ys : List A) (d : List (String × A)) → put_all (xs ++ ys) d ≡ put_all ys (put_all xs d)
  unfolding put_all
  put_all-append [] ys d = refl
  put_all-append (x ∷ xs) ys d = put_all-append xs ys (insert (key x) x d)

  -- The last item with a key, or what was found before the list.
  unfoldable pub last_with : String → Option A → List A → Option A
  last_with k found [] = found
  last_with k found (x ∷ xs) = last_with k (if str_eq (key x) k then some x else found) xs

  pub last_with-append :
      (k : String) (found : Option A) (xs ys : List A)
      → last_with k found (xs ++ ys) ≡ last_with k (last_with k found xs) ys
  unfolding last_with
  last_with-append k found [] ys = refl
  last_with-append k found (x ∷ xs) ys =
      last_with-append k (if str_eq (key x) k then some x else found) xs ys

  pub lookup-put_all :
      (k : String) (xs : List A) (d : List (String × A))
      → lookup k (put_all xs d) ≡ last_with k (lookup k d) xs
  unfolding put_all last_with
  lookup-put_all k [] d = refl
  lookup-put_all k (x ∷ xs) d =
      lookup-put_all k xs (insert (key x) x d)
      ∙ ap (λ f. last_with k f xs) (lookup-insert (key x) k x d)

  -- Each entry stands under the key of its item.
  abbrev pub IsKeyed : List (String × A) → Type 0
  IsKeyed [] = Unit
  IsKeyed ((k, x) ∷ d) = (key x ≡ k) × IsKeyed d

  insert-IsKeyed : (x : A) (d : List (String × A)) → IsKeyed d → IsKeyed (insert (key x) x d)
  unfolding insert
  insert-IsKeyed x [] h = (refl, tt)
  insert-IsKeyed x ((j, y) ∷ d) (p, h) = ground (arith, insert-IsKeyed x d h, eq_iff j (key x))

  pub put_all-IsKeyed : (xs : List A) (d : List (String × A)) → IsKeyed d → IsKeyed (put_all xs d)
  unfolding put_all
  put_all-IsKeyed [] d h = h
  put_all-IsKeyed (x ∷ xs) d h = put_all-IsKeyed xs (insert (key x) x d) (insert-IsKeyed x d h)

  pub put_all-NodupKeys :
      (xs : List A) (d : List (String × A)) → NodupKeys d → NodupKeys (put_all xs d)
  unfolding put_all
  put_all-NodupKeys [] d h = h
  put_all-NodupKeys (x ∷ xs) d h =
      put_all-NodupKeys xs (insert (key x) x d) (insert-NodupKeys (key x) x d h)

  -- In a map with no key twice the items are those that a lookup finds.
  In-values→lookup :
      (x : A) (d : List (String × A))
      → IsKeyed d
      → NodupKeys d
      → In x (values d)
      → lookup (key x) d ≡ some x
  unfolding lookup
  In-values→lookup x [] h u m = absurd m
  In-values→lookup x ((j, y) ∷ d) (p, h) (fresh, u) (inl e) =
      ground (arith, eq_iff j (key x), ap key e)
  In-values→lookup x ((j, y) ∷ d) (p, h) (fresh, u) (inr m) =
      ground (arith, eq_iff j (key x), In-values→lookup x d h u m)

  lookup→In-values :
      (k : String) (x : A) (d : List (String × A)) → lookup k d ≡ some x → In x (values d)
  unfolding lookup
  lookup→In-values k x [] h = cc
  lookup→In-values k x ((j, y) ∷ d) h = elim (Bool-cases (str_eq j k)) [
    | inl e ↦ inl (sym (some-injective y x (rw e at h)))
    | inr e ↦ inr (lookup→In-values k x d (rw e at h))
  ]

  -- An item is among those that are kept exactly when it is the last one with its key.
  pub In-values-put_all :
      (x : A) (xs : List A) → In x (values (put_all xs [])) ↔ (last_with (key x) none xs ≡ some x)
  unfolding lookup
  In-values-put_all x xs = (
    λ m.
        sym (lookup-put_all (key x) xs [])
        ∙ In-values→lookup x (put_all xs []) (put_all-IsKeyed xs [] tt) (put_all-NodupKeys xs [] tt)
            m,
    λ e. lookup→In-values (key x) x (put_all xs []) (lookup-put_all (key x) xs [] ∙ e),
  )

  -- What is found last was there before or stands in the list.
  In-last_with :
      (k : String) (found : Option A) (xs : List A) (x : A)
      → last_with k found xs ≡ some x
      → (found ≡ some x) ⊎ In x xs
  unfolding last_with
  In-last_with k found [] x h = inl h
  In-last_with k found (y ∷ ys) x h =
      elim (In-last_with k (if str_eq (key y) k then some y else found) ys x h) [
        | inr i ↦ inr (inr i)
        | inl e ↦ elim (Bool-cases (str_eq (key y) k)) [
          | inl p ↦ inr (inl (sym (some-injective y x (rw p at e))))
          | inr p ↦ inl (rw p at e)
        ]
      ]

  last_with_kept :
      (x : A) (xs : List A)
      → ((y : A) → In y xs → key y ≡ key x → y ≡ x)
      → last_with (key x) (some x) xs ≡ some x
  unfolding last_with
  last_with_kept x [] h = refl
  last_with_kept x (y ∷ ys) h =
      let rest = last_with_kept x ys (λ z i. h z (inr i)) in
      elim (Bool-cases (str_eq (key y) (key x))) [
        | inl p ↦ let e : y ≡ x = h y (inl refl) ((eq_iff (key y) (key x)).0 p) in rw p (rw e rest)
        | inr p ↦ rw p rest
      ]

  -- An item that alone has its key is the last with it.
  last_with-In :
      (x : A) (found : Option A) (xs : List A)
      → ((y : A) → In y xs → key y ≡ key x → y ≡ x)
      → In x xs
      → last_with (key x) found xs ≡ some x
  unfolding last_with
  last_with-In x found [] h i = absurd i
  last_with-In x found (y ∷ ys) h (inl e) =
      let same : str_eq (key y) (key x) ≡ true = (eq_iff (key y) (key x)).1 (ap key (sym e)) in
      rw same (rw (← e) (last_with_kept x ys (λ z i. h z (inr i))))
  last_with-In x found (y ∷ ys) h (inr i) =
      last_with-In x (if str_eq (key y) (key x) then some y else found) ys (λ z j. h z (inr j)) i

  -- Of items of which no two that differ have one key, each is the last with its key.
  pub last_with_iff_In :
      (x : A) (xs : List A)
      → (In x xs → (y : A) → In y xs → key y ≡ key x → y ≡ x)
      → (last_with (key x) none xs ≡ some x) ↔ In x xs
  last_with_iff_In x xs alone = (
    λ e. elim (In-last_with (key x) none xs x e) [ inl n ↦ cc | inr i ↦ i ],
    λ i. last_with-In x none xs (alone i) i,
  )
