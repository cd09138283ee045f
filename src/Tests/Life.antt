-- ===== src/Tests/Life.antt =====
-- The life of a capture whose log cannot be turned on, and the commands of a mimic.
use lil_bobby_tables_my_crt.Common.Tests.{
  ℕ, suc, ◌+◌, ◌≤◌, ◌<◌, ◌≡◌, refl, ◌⊎◌, Bool, true, false, none, some, List, [], ◌∷◌, ◌++◌, arith,
}
use lil_bobby_tables_my_crt.Common.Action.{◌>>=◌}
use lil_bobby_tables_my_crt.Common.Lists.{any}
use lil_bobby_tables_my_crt.Common.Exec.{ok, throw}
use lil_bobby_tables_my_crt.Process.Lifecycle.{
  wait_for_metrics, Step, ipc_start, ipc_stop, set_status, record_start_time, set_logging,
  build_workload_file, build_metrics_file, rejected, exited, Process, setup, finish,
}
use lil_bobby_tables_my_crt.Data.{starting, running, done, failed}
use lil_bobby_tables_my_crt.Process.Lifecycle.Order.{
  AllReturn, RejectsAt, take, after, setup_lem, finish_lem,
}
use lil_bobby_tables_my_crt.Process.Commands.{
  Clock, Timed, pending, finish_all_commands, process_workload_fragment, process_command,
  process_command_lem, finish_all_commands-Punctual,
}

abbrev fresh : Process
fresh = record { steps = []; clock = 10; start_time = none; is_done = false; looping = false }

-- Turning the log on fails.
abbrev no_log : Step → List Step → Bool
no_log (set_logging on) made = false
no_log _ made = true

failed_setup :
    (setup no_log fresh).1.steps
    ≡ ipc_start ∷ set_status starting ∷ set_logging true ∷ set_status failed ∷ []
unfolding setup ◌>>=◌
failed_setup = refl

setup_lem_example :
    let before = ipc_start ∷ set_status starting ∷ set_logging true ∷ set_status running ∷ [] in
    let all = before ++ (record_start_time ∷ []) in
    (AllReturn no_log [] all
      × (setup no_log fresh ≡ (ok tt, record fresh { steps = all; start_time = some 10 })))
    ⊎ ((n : ℕ) × (e : Step) × (n < 5)
        × RejectsAt no_log n [] all e
        × ((setup no_log fresh).0 ≡ throw (exited 42))
        × ((setup no_log fresh).1.steps ≡ take (suc n) all ++ (set_status failed ∷ [])))
setup_lem_example = setup_lem no_log fresh

finish_lem_example :
    let all =
      build_workload_file
      ∷ wait_for_metrics
      ∷ build_metrics_file
      ∷ ipc_stop
      ∷ set_status done
      ∷ [] in
    (AllReturn no_log [] all × (finish no_log fresh ≡ (ok tt, after all fresh)))
    ⊎ ((n : ℕ) × (e : Step) × (n < 5)
        × RejectsAt no_log n [] all e
        × (finish no_log fresh ≡ (throw (rejected e), after (take (suc n) all) fresh)))
finish_lem_example = finish_lem no_log fresh

abbrev clock : Clock
clock = record { mock = true; capture_start = 100; start_time = 1000; now = 1030 }

process_command_lem_example :
    (1030 ≤ 1030 + (process_command clock true 150).delay)
    × (1050 ≤ 1030 + (process_command clock true 150).delay)
    × ((1030 + (process_command clock true 150).delay ≡ 1030)
        ⊎ (1030 + (process_command clock true 150).delay ≡ 1050))
    × (1030 + (process_command clock true 150).delay
        ≤ 1030 + (process_command clock false 160).delay)
process_command_lem_example =
    process_command_lem clock true false 150 160 (omega arith) (omega arith)

abbrev commands : List Timed
commands = (150, true) ∷ (160, false) ∷ []

finish_all_commands-Punctual_example :
    finish_all_commands (process_workload_fragment clock commands []) ≡ pending
unfolding any
finish_all_commands-Punctual_example =
    finish_all_commands-Punctual clock commands
      ((omega arith, omega arith), ((omega arith, omega arith), tt))
