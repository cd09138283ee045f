-- ===== src/Process/Gathering/Windows.antt =====
-- The windows of the rounds of a capture leave out no time between its start and its last round.
use lil_bobby_tables_my_crt.Common.Tests.{
  ℕ, ◌+◌, ◌≤◌, ◌<◌, ◌≡◌, refl, inl, inr, List, [], ◌∷◌, arith, leb, Bool-cases,
}
use lil_bobby_tables_my_crt.Common.Lists.{In}
use lil_bobby_tables_my_crt.Process.Window.{window_start}

-- The rounds come one after the other, each within the interval and the overlap after the one before (the
-- first after the start), and the last at `last`.
abbrev pub Paced : ℕ → ℕ → List ℕ → ℕ → Type 0
Paced span previous [] last = previous ≡ last
Paced span previous (end ∷ ends) last =
    (previous < end) × (end ≤ previous + span) × Paced span end ends last

module _ (interval overlap started : ℕ) where
  -- The time lies in the window of a round at `end`.
  abbrev pub InWindow : ℕ → ℕ → Type 0
  InWindow time end = (window_start interval overlap started end ≤ time) × (time ≤ end)

  Paced-le :
      (ends : List ℕ) (previous last : ℕ)
      → Paced (interval + overlap) previous ends last
      → previous ≤ last
  Paced-le [] previous last h = omega (arith, h)
  Paced-le (end ∷ ends) previous last (p, q, h) = omega (arith, Paced-le ends end last h)

  window_start_early :
      (previous end : ℕ)
      → started ≤ previous
      → end ≤ previous + (interval + overlap)
      → window_start interval overlap started end ≤ previous
  unfolding window_start
  window_start_early previous end h k = ground arith

  pub window_start-lt :
      (end : ℕ)
      → started < end
      → 0 < interval + overlap
      → window_start interval overlap started end < end
  unfolding window_start
  window_start-lt end h k = ground arith

  pub started-le-window_start :
      (end : ℕ) → started ≤ end → started ≤ window_start interval overlap started end
  unfolding window_start
  started-le-window_start end h = ground arith

  -- A time since a round lies in the window of a later round, up to the last.
  covered :
      (end : ℕ) (ends : List ℕ) (previous last time : ℕ)
      → started ≤ previous
      → Paced (interval + overlap) previous (end ∷ ends) last
      → previous ≤ time
      → time ≤ last
      → (e : ℕ) × In e (end ∷ ends) × InWindow time e
  covered end [] previous last time s (p, q, h) from to =
      let early = window_start_early previous end s q in
      (end, inl refl, (omega (arith, early), omega (arith, h)))
  covered end (next ∷ ends) previous last time s (p, q, h) from to =
      elim (Bool-cases (leb time end)) [
        | inl now ↦
            let early = window_start_early previous end s q in
            (end, inl refl, (omega (arith, early), ground (arith, now)))
        | inr later ↦
            let rest = covered next ends end last time (omega arith) h (ground (arith, later)) to in
            (rest.0, inr rest.1, rest.2)
      ]

  -- A time since a round and before the last lies before a round and not before its window.
  pub covered_before :
      (ends : List ℕ) (previous last time : ℕ)
      → started ≤ previous
      → Paced (interval + overlap) previous ends last
      → previous ≤ time
      → time < last
      → (e : ℕ) × In e ends × (window_start interval overlap started e ≤ time) × (time < e)
  covered_before [] previous last time s h from to = absurd (omega (arith, h))
  covered_before (end ∷ ends) previous last time s (p, q, h) from to =
      elim (Bool-cases (leb end time)) [
        | inl past ↦
            let rest =
              covered_before ends end last time (omega arith) h (ground (arith, past)) to in
            (rest.0, inr rest.1, rest.2, rest.3)
        | inr now ↦
            let early = window_start_early previous end s q in
            (end, inl refl, omega (arith, early), ground (arith, now))
      ]

  -- The window of the first round begins no later than the start.
  pub first_window :
      (ends : List ℕ) (last : ℕ)
      → ((end : ℕ) × In end ends)
      → Paced (interval + overlap) started ends last
      → (e : ℕ) × In e ends × (window_start interval overlap started e ≤ started) × (started < e)
  first_window [] last some_round h = absurd some_round.1
  first_window (end ∷ ends) last some_round (p, q, h) =
      (end, inl refl, window_start_early started end (omega arith) q, p)

  -- The rounds come after the start, and none after the last.
  pub between :
      (ends : List ℕ) (previous last : ℕ)
      → started ≤ previous
      → Paced (interval + overlap) previous ends last
      → (e : ℕ) → In e ends
      → (started < e) × (e ≤ last)
  between [] previous last s h e i = absurd i
  between (end ∷ ends) previous last s (p, q, h) e (inl same) =
      rw same (omega arith, Paced-le ends end last h)
  between (end ∷ ends) previous last s (p, q, h) e (inr i) =
      between ends end last (omega arith) h e i

  pub covered_any :
      (ends : List ℕ) (last time : ℕ)
      → ((end : ℕ) × In end ends)
      → Paced (interval + overlap) started ends last
      → started ≤ time
      → time ≤ last
      → (end : ℕ) × In end ends × InWindow time end
  covered_any [] last time some_round paced from to = absurd some_round.1
  covered_any (end ∷ ends) last time some_round paced from to =
      covered end ends started last time (omega arith) paced from to
