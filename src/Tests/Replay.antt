-- ===== src/Tests/Replay.antt =====
-- Rounds of a replay at concrete times. An event time is read by its length.
use lil_bobby_tables_my_crt.Common.Tests.{
  true, ◌+◌, String, ◌≡◌, refl, false, none, [], ◌∷◌, ◌++◌, arith,
}
use lil_bobby_tables_my_crt.Common.Lists.{length, drop}
use Prim.Native.String.{count}
use lil_bobby_tables_my_crt.Data.{Command}
use lil_bobby_tables_my_crt.Replay.Schedule.{
  Replay, query_start, query_in_interval, delay_for, schedule, should_we_continue, round, rounds,
}
use lil_bobby_tables_my_crt.Replay.Schedule.Order.{commands_of, Consecutive, rounds_order}
use lil_bobby_tables_my_crt.Replay.Schedule.Ending.{rounds_finish}
use lil_bobby_tables_my_crt.Replay.Schedule.Stall.{late_command_stalls}

rounds_run : Unit {0}
unfolding query_start query_in_interval delay_for schedule should_we_continue round rounds
rounds_run = tt

abbrev command : String → Command
command time = record {
  event_time = time;
  user_host = "";
  thread_id = 0;
  server_id = 0;
  command_type = "Query";
  argument = "";
  hash = none;
}

abbrev replay : Replay
replay = record {
  commands = command "aa" ∷ command "aaaa" ∷ command "aaaaaaa" ∷ [];
  workload_start = 0;
  workload_end = 8;
  replay_start = 100;
  mock = false;
  interval = 5;
  workload_index = 0;
}

-- The clock advances by one at each reading.
two_rounds :
    let end = rounds count (λ n. 100 + n) 2 replay 0 in
    (commands_of end.timers ≡ replay.commands)
    × (end.after.workload_index ≡ 3)
    × (end.finished ≡ false)
unfolding rounds_run
two_rounds = (refl, refl, refl)

rounds_order_example :
    let end = rounds count (λ n. 100 + n) 2 replay 0 in
    Consecutive 0 end.timers
    × (end.after.workload_index ≡ 0 + length end.timers)
    × (commands_of end.timers ++ drop end.after.workload_index replay.commands ≡ replay.commands)
    × (end.after.commands ≡ replay.commands)
rounds_order_example = rounds_order count (λ n. 100 + n) 2 replay 0

-- The first round comes three milliseconds after the start, and the first command was due after two.
late_command_stalls_example :
    let end = rounds count (λ n. 103 + n) 9 replay 0 in
    (end.timers ≡ []) × (end.after ≡ replay) × (end.finished ≡ false)
unfolding query_start
late_command_stalls_example =
    late_command_stalls count (λ n. 103 + n) 9 replay (command "aa")
      (command "aaaa" ∷ command "aaaaaaa" ∷ []) 0 refl (λ m. omega arith) (omega arith)

-- All commands are handed over in two rounds, and the replay ends eight milliseconds after its start.
rounds_finish_example :
    let end = rounds count (λ n. 100 + n) 11 replay 0 in
    (end.finished ≡ true)
    × (end.timers ≡ (rounds count (λ n. 100 + n) 2 replay 0).timers)
    × (end.after ≡ (rounds count (λ n. 100 + n) 2 replay 0).after)
unfolding rounds_run
rounds_finish_example =
    rounds_finish count (λ n. 100 + n) 2 8 replay 0 (omega arith) (λ m le. omega arith)
      (omega arith)
