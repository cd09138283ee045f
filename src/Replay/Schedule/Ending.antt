-- ===== src/Replay/Schedule/Ending.antt =====
-- The end of a replay, once its commands are all scheduled (replay.ts).
use lil_bobby_tables_my_crt.Common.Tests.{
  ℕ, zero, suc, ◌+◌, ◌≤◌, ◌<◌, String, ◌≡◌, refl, ap, inl, inr, Bool, true, false, not, List, [],
  ◌∷◌, ◌++◌, arith, ltb, Bool-cases,
}
use lil_bobby_tables_my_crt.Common.Lists.{length, drop}
use lil_bobby_tables_my_crt.Replay.Schedule.{Replay, schedule, should_we_continue, round, rounds}

drop_all : {A : Type 0} (i : ℕ) (xs : List A) → length xs ≤ i → drop i xs ≡ []
drop_all zero [] h = refl
drop_all zero (x ∷ xs) h = absurd (omega (arith, h))
drop_all (suc i) [] h = refl
drop_all (suc i) (x ∷ xs) h = drop_all i xs (omega (arith, h))

module _ (date_time : String → ℕ) (clock : ℕ → ℕ) where
  -- Whether the clock's n-th reading is before the end of the replay.
  abbrev pub is_before_end : Replay → ℕ → Bool
  is_before_end r n = ltb (r.workload_start + clock n) (r.replay_start + r.workload_end)

  round_waiting :
      (r : Replay) (n : ℕ)
      → length r.commands ≤ r.workload_index
      → round date_time clock r n
        ≡ record { timers = []; after = r; readings = n + 1; finished = not (is_before_end r n) }
  unfolding round should_we_continue schedule
  round_waiting r n h =
      rw (drop_all r.workload_index r.commands h)
        (rw (not_below r.workload_index (length r.commands) h) refl)
    where
      not_below : (i m : ℕ) → m ≤ i → ltb i m ≡ false
      not_below i m h = ground (arith, h)

  -- What `k` rounds after the n-th reading leave, if the commands were all scheduled before.
  abbrev Ended : ℕ → Replay → ℕ → Type 0
  Ended k r n =
      let all = rounds date_time clock k r n in
      (all.finished ≡ true) × (all.timers ≡ []) × (all.after ≡ r)

  ends_now :
      (k : ℕ) (r : Replay) (n : ℕ)
      → length r.commands ≤ r.workload_index
      → is_before_end r n ≡ false
      → Ended (suc k) r n
  unfolding rounds
  ends_now k r n done over = rw (round_waiting r n done) (rw over (refl, refl, refl))

  ends_waiting :
      (k : ℕ) (r : Replay) (n : ℕ)
      → length r.commands ≤ r.workload_index
      → ((m : ℕ) → n ≤ m → clock m < clock (m + 1))
      → r.replay_start + r.workload_end ≤ r.workload_start + clock n + k
      → Ended (suc k) r n
  unfolding rounds
  ends_waiting zero r n done ahead near = ends_now zero r n done (ground (arith, near))
  ends_waiting (suc k) r n done ahead near = elim (Bool-cases (is_before_end r n)) [
    | inl waits ↦
        let next =
          ends_waiting k r (n + 1) done (λ m le. ahead m (omega (arith, le)))
            (omega (arith, near, ahead n (omega arith))) in
        rw (round_waiting r n done) (rw waits next)
    | inr over ↦ ends_now (suc k) r n done over
  ]

  -- If `j` rounds have handed over all commands, the clock is later at every reading from then on, and the
  -- end of the replay is at most `k` milliseconds after its next reading, then with `k + 1` rounds more
  -- the replay has finished, and these hand over nothing more.
  pub rounds_finish :
      (j k : ℕ) (r : Replay) (n : ℕ)
      → length r.commands ≤ (rounds date_time clock j r n).after.workload_index
      → ((m : ℕ) → (rounds date_time clock j r n).readings ≤ m → clock m < clock (m + 1))
      → r.replay_start + r.workload_end
        ≤ r.workload_start + clock (rounds date_time clock j r n).readings + k
      → let all = rounds date_time clock (j + suc k) r n in
        (all.finished ≡ true)
        × (all.timers ≡ (rounds date_time clock j r n).timers)
        × (all.after ≡ (rounds date_time clock j r n).after)
  unfolding rounds round
  rounds_finish zero k r n done ahead near =
      let count : 0 + suc k ≡ suc k = omega arith in rw count (ends_waiting k r n done ahead near)
  rounds_finish (suc j) k r n done ahead near =
      let count : suc j + suc k ≡ suc (j + suc k) = omega arith in
      let one = round date_time clock r n in
      rw count (elim (Bool-cases one.finished) [
        | inl p ↦ rw p (refl, refl, refl)
        | inr p ↦
            let rest =
              rounds_finish j k one.after one.readings (rw p at done) (rw p at ahead)
                (rw p at near) in
            rw p (rest.0, ap (λ ts. one.timers ++ ts) rest.1, rest.2)
      ])
