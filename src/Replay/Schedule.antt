-- ===== src/Replay/Schedule.antt =====
-- replay/src/replay.ts: which commands a round of `Replay.loop` schedules. Times are milliseconds;
-- `date_time` is the time of a command's `event_time`, and `clock n` is what the n-th `moment()` reads.
pub mod Order
pub mod Stall
pub mod Ending
use lil_bobby_tables_my_crt.Common.Tests.{
  ℕ, zero, suc, ◌+◌, ◌*◌, String, Bool, false, not, ◌&&◌, ◌||◌, List, [], ◌∷◌, ◌++◌, ltb,
  if◌then◌else◌,
}
use lil_bobby_tables_my_crt.Common.Lists.{length, drop, is_nil}
use lil_bobby_tables_my_crt.Common.Int.{ℤ, sub_ℕ, is_nonneg, below}
use lil_bobby_tables_my_crt.Data.{Command}

-- The fields of the replay that its rounds read, and the index that they move.
pub record Replay : Type 0 where
  pub commands : List Command
  pub workload_start : ℕ
  pub workload_end : ℕ
  pub replay_start : ℕ
  pub mock : Bool
  pub interval : ℕ
  pub workload_index : ℕ

-- A command handed to `setTimeout`: its index, its delay and the command.
pub record Timer : Type 0 where
  pub index : ℕ
  pub delay : ℤ
  pub command : Command

-- What the `while` loop of a round leaves: the timers, the index and how often the clock was read.
pub record Scheduled : Type 0 where
  pub timers : List Timer
  pub index : ℕ
  pub readings : ℕ

-- What a round leaves: the timers, the replay with its new index, how often the clock was read, and
-- whether it finished the replay, which then goes on to `onStop`.
pub record Round : Type 0 where
  pub timers : List Timer
  pub after : Replay
  pub readings : ℕ
  pub finished : Bool

abbrev pub seven_hours : ℕ
seven_hours = 7 * 60 * 60 * 1000

module _ (date_time : String → ℕ) where
  unfoldable pub query_start : Replay → Command → ℕ
  query_start r c = date_time c.event_time + (if r.mock then seven_hours else 0)

  -- `getDelayForIndex` for a command of the workload, when the clock reads `now`:
  -- queryStart - workloadStart - (now - replayStartTime).
  unfoldable pub delay_for : Replay → Command → ℕ → ℤ
  unfolding query_start
  delay_for r c now = sub_ℕ (query_start r c + r.replay_start) (r.workload_start + now)

  -- `queryInInterval`
  unfoldable pub query_in_interval : Replay → Command → ℕ → Bool
  query_in_interval r c now =
      let delay = delay_for r c now in is_nonneg delay && below delay r.interval

  module _ (clock : ℕ → ℕ) (r : Replay) where
    -- The `while` loop over the commands from the index on: the clock is read for the test and, where
    -- the command is scheduled, once more for its delay. At the end of the commands it is not read.
    unfoldable pub schedule : List Command → ℕ → ℕ → Scheduled
    schedule [] i n = record { timers = []; index = i; readings = n }
    schedule (c ∷ cs) i n =
        let rest = schedule cs (suc i) (n + 2) in
        let timer : Timer = record {
          index = i;
          delay = delay_for r c (clock (n + 1));
          command = c;
        } in
        if query_in_interval r c (clock n)
        then record rest { timers = timer ∷ rest.timers }
        else record { timers = []; index = i; readings = n + 1 }

    -- `shouldWeContinue`: replayEndTime - now > 0, where replayEndTime is replayStartTime + workloadEnd -
    -- workloadStart. The clock is read only if all commands are scheduled.
    unfoldable pub should_we_continue : ℕ → ℕ → Bool
    should_we_continue i n =
        ltb i (length r.commands)
        || ltb (r.workload_start + clock n) (r.replay_start + r.workload_end)

    unfoldable pub round : ℕ → Round
    round n =
        let s = schedule (drop r.workload_index r.commands) r.workload_index n in
        record {
          timers = s.timers;
          after = record r { workload_index = s.index };
          readings = if ltb s.index (length r.commands) then s.readings else s.readings + 1;
          finished = is_nil s.timers && not (should_we_continue s.index s.readings);
        }

  -- The rounds that the interval timer starts, as many as are given, until one finishes the replay.
  unfoldable pub rounds : (ℕ → ℕ) → ℕ → Replay → ℕ → Round
  rounds clock zero r n = record { timers = []; after = r; readings = n; finished = false }
  rounds clock (suc k) r n =
      let one = round clock r n in
      let more = rounds clock k one.after one.readings in
      if one.finished then one else record more { timers = one.timers ++ more.timers }
