-- ===== src/Process/Args/Configs.antt =====
-- capture/src/args.ts, replay/src/args.ts and capture/src/mimic/args.ts: the options of the three
-- processes and their configurations.
use lil_bobby_tables_my_crt.Common.Tests.{
  ℕ, ◌*◌, String, Bool, true, false, Option, none, some, List, [], ◌∷◌, ◌++◌, if◌then◌else◌, codes,
}
use lil_bobby_tables_my_crt.Common.Exec.{Result, ok, throw, ◌>>=◌}
use lil_bobby_tables_my_crt.Process.Args.{
  Arg, number_type, boolean_type, Value, null_value, flag, number, numbers, OptionDefinition,
  Options, is_truthy,
}

abbrev number_option : String → String → Value → OptionDefinition
number_option name alias default_value = record {
  name = name;
  alias = alias;
  type = number_type;
  multiple = false;
  default_value = default_value;
}

abbrev flag_option : String → String → Bool → OptionDefinition
flag_option name alias default_value = record {
  name = name;
  alias = alias;
  type = boolean_type;
  multiple = false;
  default_value = flag default_value;
}

abbrev pub option_id : OptionDefinition
option_id = number_option "id" "" null_value

abbrev pub option_env_id : OptionDefinition
option_env_id = number_option "envId" "" null_value

abbrev pub option_capture_id : OptionDefinition
option_capture_id = number_option "captureId" "" null_value

abbrev pub option_db_id : OptionDefinition
option_db_id = number_option "dbId" "" null_value

abbrev pub option_mock : OptionDefinition
option_mock = flag_option "mock" "m" false

abbrev pub option_interval : OptionDefinition
option_interval = number_option "interval" "i" (number (5 * 60 * 1000))

abbrev pub option_interval_overlap : OptionDefinition
option_interval_overlap = number_option "intervalOverlap" "o" (number (60 * 1000))

abbrev pub option_metrics_delay : OptionDefinition
option_metrics_delay = number_option "metricsDelay" "d" (number (200 * 1000))

abbrev pub option_file_prep_delay : OptionDefinition
option_file_prep_delay = number_option "filePrepDelay" "f" (number (15 * 1000))

abbrev pub option_supervised : OptionDefinition
option_supervised = flag_option "supervised" "s" true

abbrev pub option_replay_id : OptionDefinition
option_replay_id = record (number_option "replayIds" "r" null_value) { multiple = true }

abbrev shared_options : List OptionDefinition
shared_options =
    option_mock ∷ option_interval ∷ option_interval_overlap ∷ option_metrics_delay
    ∷ option_file_prep_delay ∷ option_supervised ∷ []

abbrev pub capture_options : List OptionDefinition
capture_options = option_id ∷ option_env_id ∷ shared_options

abbrev pub replay_options : List OptionDefinition
replay_options = option_id ∷ option_capture_id ∷ option_db_id ∷ shared_options

abbrev pub mimic_options : List OptionDefinition
mimic_options = capture_options ++ (option_replay_id ∷ [])

-- The fields that all configurations have.
pub record Timing : Type 0 where
  pub mock : Bool
  pub interval : ℕ
  pub interval_overlap : ℕ
  pub metrics_delay : ℕ
  pub file_prep_delay : ℕ
  pub supervised : Bool

pub record CaptureConfig : Type 0 where
  pub id : ℕ
  pub env_id : ℕ
  pub timing : Timing

pub record ReplayConfig : Type 0 where
  pub id : ℕ
  pub capture_id : ℕ
  pub db_id : ℕ
  pub timing : Timing

pub record MimicConfig : Type 0 where
  pub capture : CaptureConfig
  pub replay_ids : List ℕ

abbrev pub timing_map : Timing → List (OptionDefinition × Value)
timing_map t =
    (option_mock, flag t.mock)
    ∷ (option_interval, number t.interval)
    ∷ (option_interval_overlap, number t.interval_overlap)
    ∷ (option_metrics_delay, number t.metrics_delay)
    ∷ (option_file_prep_delay, number t.file_prep_delay)
    ∷ (option_supervised, flag t.supervised)
    ∷ []

-- `getOptionsMap`
abbrev pub capture_map : CaptureConfig → List (OptionDefinition × Value)
capture_map c = (option_id, number c.id) ∷ (option_env_id, number c.env_id) ∷ timing_map c.timing

abbrev pub replay_map : ReplayConfig → List (OptionDefinition × Value)
replay_map c =
    (option_id, number c.id)
    ∷ (option_capture_id, number c.capture_id)
    ∷ (option_db_id, number c.db_id)
    ∷ timing_map c.timing

abbrev pub mimic_map : MimicConfig → List (OptionDefinition × Value)
mimic_map c = capture_map c.capture ++ ((option_replay_id, numbers c.replay_ids) ∷ [])

-- An option with a default value is always set.
abbrev pub to_number : Value → ℕ
to_number (number n) = n
to_number _ = 0

abbrev pub read_timing : Options → Timing
read_timing options = record {
  mock = is_truthy (options "mock");
  interval = to_number (options "interval");
  interval_overlap = to_number (options "intervalOverlap");
  metrics_delay = to_number (options "metricsDelay");
  file_prep_delay = to_number (options "filePrepDelay");
  supervised = is_truthy (options "supervised");
}

abbrev pub required : Options → String → Arg → Result Arg ℕ
required options name message =
    if is_truthy (options name) then ok (to_number (options name)) else throw message

abbrev or_unreadable : Option Options → Result Arg Options
or_unreadable none = throw (codes "the arguments do not fit the options")
or_unreadable (some options) = ok options

module _ (read : List OptionDefinition → List Arg → Option Options) where
  abbrev read_args : List OptionDefinition → List Arg → Result Arg Options
  read_args os args = or_unreadable (read os args)

  -- `CaptureConfig.fromCmdArgs`
  unfoldable pub capture_from_cmd_args : List Arg → Result Arg CaptureConfig
  capture_from_cmd_args args = do
    options ← read_args capture_options args
    id ← required options "id" (codes "No id was provided for the capture")
    env_id ← required options "envId" (codes "No envId was provided for the capture")
    ok (record { id = id; env_id = env_id; timing = read_timing options })

  -- `ReplayConfig.fromCmdArgs`
  unfoldable pub replay_from_cmd_args : List Arg → Result Arg ReplayConfig
  replay_from_cmd_args args = do
    options ← read_args replay_options args
    id ← required options "id" (codes "No id was provided for the replay")
    capture_id ← required options "captureId" (codes "No captureId was provided for the replay")
    db_id ← required options "dbId" (codes "No dbId was provided for the replay")
    ok (record { id = id; capture_id = capture_id; db_id = db_id; timing = read_timing options })

  abbrev replay_ids_of : Value → Result Arg (List ℕ)
  replay_ids_of (numbers ns) = ok ns
  replay_ids_of _ = throw (codes "No replay Ids were provided")

  -- `MimicConfig.fromCmdArgs`
  unfoldable pub mimic_from_cmd_args : List Arg → Result Arg MimicConfig
  mimic_from_cmd_args args = do
    options ← read_args mimic_options args
    id ← required options "id" (codes "No id was provided for the mimic")
    env_id ← required options "envId" (codes "No envId was provided for the mimic")
    replay_ids ← replay_ids_of (options "replayIds")
    ok (record {
      capture = record { id = id; env_id = env_id; timing = read_timing options };
      replay_ids = replay_ids;
    })
