-- ===== src/Tests/Gathering.antt =====
-- A capture of a small log. The time of a command is the length of its event time.
use lil_bobby_tables_my_crt.Common.Tests.{
  ℕ, String, true, false, Option, some, List, [], ◌∷◌, str_eq, if◌then◌else◌, codes,
}
use lil_bobby_tables_my_crt.Common.Lists.{select}
use lil_bobby_tables_my_crt.Common.Exec.{ok}
use Prim.Native.String.{count}
use lil_bobby_tables_my_crt.Data.{capture, running, Command, Workload}
use lil_bobby_tables_my_crt.Storage.Schema.{Key}
use lil_bobby_tables_my_crt.Workload.Logger.{LoggerMethods}
use lil_bobby_tables_my_crt.Process.Gathering.{Config, Gathering}
use lil_bobby_tables_my_crt.Process.Gathering.Rounds.{is_between}

abbrev command : String → String → Command
command time hash = record {
  event_time = time;
  user_host = "";
  thread_id = 0;
  server_id = 0;
  command_type = "Query";
  argument = "";
  hash = some hash;
}

-- The last command comes after the last round.
abbrev log : List Command
log = command "aaaa" "x" ∷ command "aaaaaa" "y" ∷ command "aaaaaaaaaaaa" "z" ∷ []

abbrev logged_at : Command → ℕ
logged_at c = count c.event_time

abbrev methods : LoggerMethods (Unit {0})
methods = record {
  other_captures_need_logs = λ w. (ok (some []), w);
  turn_on_logging = λ w. (ok tt, w);
  turn_off_logging = λ w. (ok tt, w);
  query_general_log = λ start end w. (ok (select (is_between logged_at start end) log), w);
}

abbrev config : Config
config = record {
  program = record { type = some capture; id = some 7; env_id = some 3; status = some running };
  interval = 4;
  interval_overlap = 1;
  mock = false;
  start_time = 2;
}

abbrev begin : Gathering (Unit {0}) (List (Key × Workload))
begin = record { logger = record { logging = true; world = tt }; files = [] }

abbrev root : Key
root = codes "environment3/capture7/"

abbrev digest : Key → String
digest text = "hash"

abbrev date_time : String → Option ℕ
date_time s = some (count s)

abbrev of_hash : String → Command
of_hash h =
    if str_eq h "x"
    then command "aaaa" "x"
    else (if str_eq h "y" then command "aaaaaa" "y" else command "aaaaaaaaaaaa" "z")
