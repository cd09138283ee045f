-- ===== src/Service/Launching.antt =====
-- service/src/common/launching.ts and the launch.ts of the three programs: the arguments that a process is
-- started with; validCapture and validReplay of capture/src/main.ts and replay/src/main.ts: whether
-- the process then runs.
use lil_bobby_tables_my_crt.Common.Tests.{
  ℕ, ◌<◌, ◌≡◌, Bool, true, false, ◌||◌, Option, none, some, List, ◌∷◌,
}
use lil_bobby_tables_my_crt.Common.Exec.{Result, ok}
use lil_bobby_tables_my_crt.Data.{ChildProgramStatus, scheduled, started, status_eq}
use lil_bobby_tables_my_crt.Service.Tables.{Tables}
use lil_bobby_tables_my_crt.Service.CaptureDao.{capture_of}
use lil_bobby_tables_my_crt.Service.ReplayDao.{replay_of}
use lil_bobby_tables_my_crt.Process.Args.{Arg, Options, OptionDefinition, ReadsArgs, to_arg_list}
use lil_bobby_tables_my_crt.Process.Args.Configs.{
  Timing, CaptureConfig, ReplayConfig, capture_map, replay_map, mimic_map, capture_options,
  replay_options, mimic_options, capture_from_cmd_args, replay_from_cmd_args, mimic_from_cmd_args,
}
use lil_bobby_tables_my_crt.Process.Args.Written.{
  capture_from_cmd_args-to_arg_list, replay_from_cmd_args-to_arg_list,
  mimic_from_cmd_args-to_arg_list,
}

-- `settings.captures` and `settings.replays`
pub record ProcessSettings : Type 0 where
  pub mock : Bool
  pub interval : ℕ
  pub interval_overlap : ℕ
  pub metrics_delay : ℕ
  pub file_prep_delay : ℕ

-- What the launching sets; `supervised` keeps its default.
abbrev pub timing_of : ProcessSettings → Timing
timing_of s = record {
  mock = s.mock;
  interval = s.interval;
  interval_overlap = s.interval_overlap;
  metrics_delay = s.metrics_delay;
  file_prep_delay = s.file_prep_delay;
  supervised = true;
}

abbrev pub capture_config : ProcessSettings → ℕ → ℕ → CaptureConfig
capture_config s id env_id = record { id = id; env_id = env_id; timing = timing_of s }

abbrev pub replay_config : ProcessSettings → ℕ → ℕ → ℕ → ReplayConfig
replay_config s id capture_id db_id = record {
  id = id;
  capture_id = capture_id;
  db_id = db_id;
  timing = timing_of s;
}

unfoldable pub start_capture : ProcessSettings → ℕ → ℕ → Result Arg (List Arg)
start_capture s id env_id = to_arg_list (capture_map (capture_config s id env_id))

unfoldable pub start_replay : ProcessSettings → ℕ → ℕ → ℕ → Result Arg (List Arg)
start_replay s id capture_id db_id = to_arg_list (replay_map (replay_config s id capture_id db_id))

unfoldable pub start_mimic : ProcessSettings → ℕ → ℕ → List ℕ → Result Arg (List Arg)
start_mimic s id env_id replay_ids =
    to_arg_list
      (mimic_map (record { capture = capture_config s id env_id; replay_ids = replay_ids }))

module _ (read : List OptionDefinition → List Arg → Option Options) (s : ProcessSettings) where
  -- Where the arguments are read as documented, each process that the service starts for ids that are not
  -- 0, a mimic with at least one replay, has exactly the configuration that the service gave it.
  pub start_lem :
      ReadsArgs capture_options (read capture_options)
      → ReadsArgs replay_options (read replay_options)
      → ReadsArgs mimic_options (read mimic_options)
      → (id other third : ℕ) (replay_ids : List ℕ) → 0 < id
      → 0 < other
      → 0 < third
      → ((args : List Arg) × (start_capture s id other ≡ ok args)
          × (capture_from_cmd_args read args ≡ ok (capture_config s id other)))
        × ((args : List Arg) × (start_replay s id other third ≡ ok args)
            × (replay_from_cmd_args read args ≡ ok (replay_config s id other third)))
        × ((args : List Arg) × (start_mimic s id other (third ∷ replay_ids) ≡ ok args)
            × (mimic_from_cmd_args read args
                ≡ ok (record {
                  capture = capture_config s id other;
                  replay_ids = third ∷ replay_ids;
                })))
  unfolding start_capture start_replay start_mimic
  start_lem c r m id other third replay_ids p q z = (
    capture_from_cmd_args-to_arg_list read (capture_config s id other) c p q,
    replay_from_cmd_args-to_arg_list read (replay_config s id other third) r p q z,
    mimic_from_cmd_args-to_arg_list read (capture_config s id other) third replay_ids m p q,
  )

abbrev may_run : ChildProgramStatus → Bool
may_run status = status_eq status started || status_eq status scheduled

-- `validCapture`
unfoldable pub valid_capture : ℕ → Tables → Bool
valid_capture id t = elim (capture_of id t) [ none ↦ false | some c ↦ may_run c.status ]

-- `validReplay`
unfoldable pub valid_replay : ℕ → Tables → Bool
valid_replay id t = elim (replay_of id t) [ none ↦ false | some r ↦ may_run r.status ]
