-- ===== src/Tests/Arguments.antt =====
-- A reader of arguments that behaves as documented, and configurations that it reads back.
use lil_bobby_tables_my_crt.Common.Tests.{
  ◌≡◌, refl, sym, ap, ◌∙◌, ◌≢◌, inl, inr, Bool, true, false, not, Option, none, some, List, [], ◌∷◌,
  arith, if◌then◌else◌, Bool-cases,
}
use lil_bobby_tables_my_crt.Common.Lists.{all, In}
use lil_bobby_tables_my_crt.Common.Exec.{ok}
use lil_bobby_tables_my_crt.Common.Digits.{parse_int, parse_int-decimal}
use lil_bobby_tables_my_crt.Service.Launching.{
  ProcessSettings, capture_config, replay_config, start_capture, start_replay, start_mimic,
  start_lem,
}
use lil_bobby_tables_my_crt.Process.Args.Configs.{
  capture_options, replay_options, capture_from_cmd_args, replay_from_cmd_args, mimic_from_cmd_args,
  mimic_options, CaptureConfig, Timing, mimic_map,
}
use lil_bobby_tables_my_crt.Storage.Backend.{key_eq, key_eq_iff}
use lil_bobby_tables_my_crt.Process.Args.{
  Arg, OptionType, number_type, boolean_type, flag, number, numbers, OptionDefinition, Options,
  to_arg_list, ReadsArgs, long, set_option, defaults, listed, Behind,
}
use lil_bobby_tables_my_crt.Process.Args.RoundTrip.{all_differ}
use lil_bobby_tables_my_crt.Process.Args.Written.{supervised_again, mimic_from_cmd_args-to_arg_list}

abbrev find_option : List OptionDefinition → Arg → Option OptionDefinition
find_option [] arg = none
find_option (o ∷ os) arg =
    let rest = find_option os arg in if key_eq arg (long o) then some o else rest

abbrev map_options : (Options → Options) → Option Options → Option Options
map_options f none = none
map_options f (some options) = some (f options)

-- An option with the argument behind it.
abbrev with_value : Bool → OptionDefinition → Arg → Options → Options
with_value false o arg options = set_option o.name (number (parse_int arg)) options
with_value true o arg options =
    set_option o.name (numbers (parse_int arg ∷ listed (options o.name))) options

abbrev one_option :
    OptionType → OptionDefinition → Arg → Option Options → Option Options → Option Options
one_option boolean_type o arg next after = map_options (set_option o.name (flag true)) next
one_option number_type o arg next after = map_options (with_value o.multiple o arg) after

abbrev last_option : OptionType → OptionDefinition → Option Options → Option Options
last_option boolean_type o next = map_options (set_option o.name (flag true)) next
last_option number_type o next = none

abbrev with_option : Option OptionDefinition → (OptionDefinition → Option Options) → Option Options
with_option none f = none
with_option (some o) f = f o

reader : List OptionDefinition → List Arg → Option Options
reader os [] = some (defaults os)
reader os (arg ∷ []) =
    with_option (find_option os arg) (λ o. last_option o.type o (some (defaults os)))
reader os (arg ∷ value ∷ rest) =
    let next = reader os (value ∷ rest) in
    let after = reader os rest in
    with_option (find_option os arg) (λ o. one_option o.type o value next after)

abbrev all_long : List OptionDefinition → List Arg
all_long [] = []
all_long (o ∷ os) = long o ∷ all_long os

differs :
    (arg : Arg) (os : List OptionDefinition) (o : OptionDefinition)
    → all (λ b. not (key_eq arg b)) (all_long os) ≡ true
    → In o os
    → long o ≢ arg
unfolding all
differs arg [] o h i e = i
differs arg (p ∷ os) o h (inl q) e =
    let same = (key_eq_iff arg (long p)).1 (sym e ∙ ap long q) in
    let t : not (key_eq arg (long p)) ≡ true = ground (arith, h) in cc
differs arg (p ∷ os) o h (inr i) e = differs arg os o (ground (arith, h)) i e

find_option-In :
    (os : List OptionDefinition) (o : OptionDefinition)
    → all_differ (all_long os) ≡ true
    → In o os
    → find_option os (long o) ≡ some o
find_option-In [] o d i = absurd i
find_option-In (p ∷ os) o d (inl e) = rw e (rw ((key_eq_iff (long p) (long p)).1 refl) refl)
find_option-In (p ∷ os) o d (inr i) =
    let ne = differs (long p) os o (ground (arith, d)) i in
    elim (Bool-cases (key_eq (long o) (long p))) [
      | inl t ↦ absurd (ne ((key_eq_iff (long o) (long p)).0 t))
      | inr f ↦ rw f (find_option-In os o (ground (arith, d)) i)
    ]

reader-ReadsArgs :
    (os : List OptionDefinition) → all_differ (all_long os) ≡ true → ReadsArgs os (reader os)
unfolding reader
reader-ReadsArgs os d = record {
  nothing = refl;
  reads_flag = flags;
  reads_number = λ o n rest options i t m b e.
      rw (find_option-In os o d i) (rw t (rw m (rw e (rw (parse_int-decimal n) refl))));
  reads_numbers = λ o n rest options i t m a p e.
      rw (find_option-In os o d i) (rw t (rw m (rw e (rw (parse_int-decimal n) refl))));
}
  where
    flags :
        (o : OptionDefinition) (rest : List Arg) (options : Options)
        → In o os
        → o.type ≡ boolean_type
        → Behind os o rest
        → reader os rest ≡ some options
        → reader os (long o ∷ rest) ≡ some (set_option o.name (flag true) options)
    flags o [] options i t b e =
        rw (find_option-In os o d i) (rw t (ap (map_options (set_option o.name (flag true))) e))
    flags o (arg ∷ rest) options i t b e =
        rw (find_option-In os o d i) (rw t (ap (map_options (set_option o.name (flag true))) e))

abbrev brisk : Timing
brisk = record {
  mock = true;
  interval = 5000;
  interval_overlap = 10;
  metrics_delay = 7;
  file_prep_delay = 3;
  supervised = false;
}

abbrev third : CaptureConfig
third = record { id = 3; env_id = 1; timing = brisk }

mimic_from_cmd_args-to_arg_list_example :
    (args : List Arg) × (to_arg_list
        (mimic_map (record { capture = third; replay_ids = 8 ∷ 9 ∷ [] }))
      ≡ ok args)
    × (mimic_from_cmd_args reader args
        ≡ ok (record {
          capture = record third { timing = supervised_again brisk };
          replay_ids = 8 ∷ 9 ∷ [];
        }))
unfolding key_eq all
mimic_from_cmd_args-to_arg_list_example =
    mimic_from_cmd_args-to_arg_list reader third 8 (9 ∷ []) (reader-ReadsArgs mimic_options refl)
      (omega arith) (omega arith)

abbrev mocked : ProcessSettings
mocked = record {
  mock = true;
  interval = 5000;
  interval_overlap = 10;
  metrics_delay = 7;
  file_prep_delay = 3;
}

start_lem_example :
    ((args : List Arg) × (start_capture mocked 3 1 ≡ ok args)
      × (capture_from_cmd_args reader args ≡ ok (capture_config mocked 3 1)))
    × ((args : List Arg) × (start_replay mocked 3 1 2 ≡ ok args)
        × (replay_from_cmd_args reader args ≡ ok (replay_config mocked 3 1 2)))
    × ((args : List Arg) × (start_mimic mocked 3 1 (2 ∷ 8 ∷ []) ≡ ok args)
        × (mimic_from_cmd_args reader args
            ≡ ok (record { capture = capture_config mocked 3 1; replay_ids = 2 ∷ 8 ∷ [] })))
unfolding key_eq all
start_lem_example =
    start_lem reader mocked (reader-ReadsArgs capture_options refl)
      (reader-ReadsArgs replay_options refl) (reader-ReadsArgs mimic_options refl) 3 1 2 (8 ∷ [])
      (omega arith) (omega arith) (omega arith)
