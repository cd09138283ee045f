-- ===== src/Process/Tries.antt =====
-- common/src/capture-replay/subprocess.ts: `tryTwice`.
use lil_bobby_tables_my_crt.Common.Tests.{◌≡◌, refl, ◌⊎◌, inl, inr, Option, none, some}
use lil_bobby_tables_my_crt.Common.Exec.{Result, ok, throw}
use lil_bobby_tables_my_crt.Common.Action.{Action}

module _ {S E A : Type 0} where
  -- What an action sets on its last line: the value that the caller finds in the variable, if any try
  -- came to its end. A second failure is logged and dropped.
  abbrev second_try : Result E A × S → Result E (Option A) × S
  second_try (ok a, s) = (ok (some a), s)
  second_try (throw e, s) = (ok none, s)

  abbrev first_try : Action S E A → Result E A × S → Result E (Option A) × S
  first_try action (ok a, s) = (ok (some a), s)
  first_try action (throw e, s) = second_try (action s)

  unfoldable pub try_twice : Action S E A → Action S E (Option A)
  try_twice action s = first_try action (action s)

  -- `tryTwice` does not throw. It runs the action once if that returns, and otherwise once more from the
  -- state that the failure left; it finds no value exactly if both runs fail.
  pub try_twice_lem :
      (action : Action S E A) (s : S)
      → ((a : A) × ((action s).0 ≡ ok a) × (try_twice action s ≡ (ok (some a), (action s).1)))
        ⊎ ((e : E) × ((action s).0 ≡ throw e)
            × (((a : A) × ((action (action s).1).0 ≡ ok a)
                  × (try_twice action s ≡ (ok (some a), (action (action s).1).1)))
                ⊎ ((e' : E) × ((action (action s).1).0 ≡ throw e')
                    × (try_twice action s ≡ (ok none, (action (action s).1).1)))))
  unfolding try_twice
  try_twice_lem action s = first (action s)
    where
      second :
          (r : Result E A × S)
          → ((a : A) × (r.0 ≡ ok a) × (second_try r ≡ (ok (some a), r.1)))
            ⊎ ((e : E) × (r.0 ≡ throw e) × (second_try r ≡ (ok none, r.1)))
      second (ok a, t) = inl (a, refl, refl)
      second (throw e, t) = inr (e, refl, refl)

      first :
          (r : Result E A × S)
          → ((a : A) × (r.0 ≡ ok a) × (first_try action r ≡ (ok (some a), r.1)))
            ⊎ ((e : E) × (r.0 ≡ throw e)
                × (((a : A) × ((action r.1).0 ≡ ok a)
                      × (first_try action r ≡ (ok (some a), (action r.1).1)))
                    ⊎ ((e' : E) × ((action r.1).0 ≡ throw e')
                        × (first_try action r ≡ (ok none, (action r.1).1)))))
      first (ok a, t) = inl (a, refl, refl)
      first (throw e, t) = inr (e, refl, second (action t))
