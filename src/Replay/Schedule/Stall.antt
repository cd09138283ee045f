-- ===== src/Replay/Schedule/Stall.antt =====
-- A command whose time has passed before a round reaches it (replay.ts).
use lil_bobby_tables_my_crt.Common.Tests.{
  ℕ, zero, suc, ◌+◌, ◌≤◌, ◌<◌, String, ◌≡◌, refl, false, List, [], ◌∷◌, arith, lt→ltb,
}
use lil_bobby_tables_my_crt.Common.Lists.{length, drop}
use lil_bobby_tables_my_crt.Data.{Command}
use lil_bobby_tables_my_crt.Replay.Schedule.{
  Replay, query_start, query_in_interval, delay_for, schedule, should_we_continue, round, rounds,
}

-- The index of a command that is left is below the number of commands.
drop_cons-lt :
    {A : Type 0} (i : ℕ) (xs : List A) {x : A} {rest : List A}
    → drop i xs ≡ x ∷ rest
    → i < length xs
drop_cons-lt zero [] h = cc
drop_cons-lt zero (y ∷ xs) h = omega arith
drop_cons-lt (suc i) [] h = cc
drop_cons-lt (suc i) (y ∷ xs) h = omega (arith, drop_cons-lt i xs h)

module _ (date_time : String → ℕ) (clock : ℕ → ℕ) where
  -- The command was due before the clock's n-th reading.
  abbrev pub IsLate : Replay → Command → ℕ → Type 0
  IsLate r c n = query_start date_time r c + r.replay_start < r.workload_start + clock n

  late_not_in_interval :
      (r : Replay) (c : Command) (n : ℕ)
      → IsLate r c n
      → query_in_interval date_time r c (clock n) ≡ false
  unfolding query_in_interval delay_for
  late_not_in_interval r c n h = ground arith

  round_late :
      (r : Replay) (c : Command) (rest : List Command) (n : ℕ)
      → drop r.workload_index r.commands ≡ c ∷ rest
      → IsLate r c n
      → round date_time clock r n
        ≡ record { timers = []; after = r; readings = n + 1; finished = false }
  unfolding round should_we_continue schedule
  round_late r c rest n h late = rw h (
      rw (late_not_in_interval r c n late)
        (rw (lt→ltb _ _ (drop_cons-lt r.workload_index r.commands h)) refl))

  -- If the next command was due before the clock is read, and the clock does not go back, then no
  -- number of rounds schedules a command, moves the index or finishes the replay.
  pub late_command_stalls :
      (k : ℕ) (r : Replay) (c : Command) (rest : List Command) (n : ℕ)
      → drop r.workload_index r.commands ≡ c ∷ rest
      → ((m : ℕ) → clock m ≤ clock (m + 1))
      → IsLate r c n
      → let end = rounds date_time clock k r n in
        (end.timers ≡ []) × (end.after ≡ r) × (end.finished ≡ false)
  unfolding rounds
  late_command_stalls zero r c rest n h steady late = (refl, refl, refl)
  late_command_stalls (suc k) r c rest n h steady late =
      rw (round_late r c rest n h late)
        (late_command_stalls k r c rest (n + 1) h steady (omega (arith, steady n)))
