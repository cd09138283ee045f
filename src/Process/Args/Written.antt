-- ===== src/Process/Args/Written.antt =====
-- The service writes the configuration of a process as arguments, and the process reads it back.
use lil_bobby_tables_my_crt.Common.Tests.{
  ◌∙◌, String, str_eq, true, ap, [], ◌∷◌, ℕ, ◌==◌, arith, false, Option, List, ◌≡◌, refl, ◌<◌,
  Bool-cases, inl, inr,
}
use lil_bobby_tables_my_crt.Common.Lists.{all}
use lil_bobby_tables_my_crt.Common.Exec.{ok}
use lil_bobby_tables_my_crt.Process.Args.{
  flag, null_value, numbers, listed, Options, OptionDefinition, Arg, to_arg_list, ReadsArgs,
  defaults,
}
use lil_bobby_tables_my_crt.Process.Args.RoundTrip.{put, put_all, read-to_arg_list}
use lil_bobby_tables_my_crt.Process.Args.Configs.{
  read_timing, timing_map, option_replay_id, capture_options, replay_options, mimic_options,
  CaptureConfig, ReplayConfig, MimicConfig, Timing, capture_map, replay_map, mimic_map,
  capture_from_cmd_args, replay_from_cmd_args, mimic_from_cmd_args,
}
use lil_bobby_tables_my_crt.Storage.Backend.{key_eq}

-- What is read back: a process always takes itself for supervised.
abbrev pub supervised_again : Timing → Timing
supervised_again t = record t { supervised = true }

positive : (n : ℕ) → 0 < n → (n == 0) ≡ false
positive n h = ground (arith, h)

-- The flags and times are read back over whatever the other options set.
timing_back :
    (t : Timing) (options : Options)
    → options "mock" ≡ flag false
    → options "supervised" ≡ flag true
    → read_timing (put_all (timing_map t) options) ≡ supervised_again t
timing_back t options m s = elim (Bool-cases t.mock) [
  | inl p ↦ elim (Bool-cases t.supervised) [
    | inl q ↦ rw p (rw q refl)
    | inr q ↦ rw p (rw q (rw s refl))
  ]
  | inr p ↦ elim (Bool-cases t.supervised) [
    | inl q ↦ rw p (rw q (rw m refl))
    | inr q ↦ rw p (rw q (rw m (rw s refl)))
  ]
]

-- The numbers that an option with several values is given are those that it has.
listed-put :
    (ns : List ℕ) (options : Options)
    → options "replayIds" ≡ null_value
    → listed (put option_replay_id (numbers ns) options "replayIds") ≡ ns
listed-put [] options e = rw e refl
listed-put (n ∷ ns) options e = ap (λ ms. n ∷ ms) (listed-put ns options e)

other-put :
    (ns : List ℕ) (options : Options) (name : String)
    → str_eq name "replayIds" ≡ false
    → put option_replay_id (numbers ns) options name ≡ options name
other-put [] options name e = refl
other-put (n ∷ ns) options name e = rw e (other-put ns options name e)

ids_kept :
    (t : Timing) (options : Options)
    → put_all (timing_map t) options "replayIds" ≡ options "replayIds"
ids_kept t options = elim (Bool-cases t.mock) [
  | inl p ↦ elim (Bool-cases t.supervised) [ inl q ↦ rw p (rw q refl) | inr q ↦ rw p (rw q refl) ]
  | inr p ↦ elim (Bool-cases t.supervised) [ inl q ↦ rw p (rw q refl) | inr q ↦ rw p (rw q refl) ]
]

module _ (read : List OptionDefinition → List Arg → Option Options) where
  -- A capture whose ids are not 0 is started with arguments from which it reads its whole configuration
  -- back, but for `supervised`, which it reads as true.
  pub capture_from_cmd_args-to_arg_list :
      (c : CaptureConfig)
      → ReadsArgs capture_options (read capture_options)
      → 0 < c.id
      → 0 < c.env_id
      → (args : List Arg) × (to_arg_list (capture_map c) ≡ ok args)
        × (capture_from_cmd_args read args ≡ ok (record c { timing = supervised_again c.timing }))
  unfolding capture_from_cmd_args key_eq all
  capture_from_cmd_args-to_arg_list c h id env_id =
      let r =
        read-to_arg_list capture_options (read capture_options) h (capture_map c) (search arith)
          refl in
      let t = timing_back c.timing (defaults capture_options) refl refl in
      (
        r.0,
        r.1,
        rw r.4 (
            rw (positive c.id id) (
              rw (positive c.env_id env_id) (ap (λ (u : Timing). ok (record c { timing = u })) t))),
      )

  -- A replay whose ids are not 0 reads its configuration back in the same way.
  pub replay_from_cmd_args-to_arg_list :
      (c : ReplayConfig)
      → ReadsArgs replay_options (read replay_options)
      → 0 < c.id
      → 0 < c.capture_id
      → 0 < c.db_id
      → (args : List Arg) × (to_arg_list (replay_map c) ≡ ok args)
        × (replay_from_cmd_args read args ≡ ok (record c { timing = supervised_again c.timing }))
  unfolding replay_from_cmd_args key_eq all
  replay_from_cmd_args-to_arg_list c h id capture_id db_id =
      let r =
        read-to_arg_list replay_options (read replay_options) h (replay_map c) (search arith)
          refl in
      let t = timing_back c.timing (defaults replay_options) refl refl in
      (
        r.0,
        r.1,
        rw r.4 (
            rw (positive c.id id) (
              rw (positive c.capture_id capture_id) (
                rw (positive c.db_id db_id)
                  (ap (λ (u : Timing). ok (record c { timing = u })) t)))),
      )

  -- Where the arguments are read as documented: the arguments to which the configuration of a mimic is
  -- printed, with ids that are not 0 and at least one replay, are read back as that configuration, all its
  -- replays in their order included, but that it is supervised even if it was not.
  pub mimic_from_cmd_args-to_arg_list :
      (c : CaptureConfig) (n : ℕ) (ns : List ℕ)
      → ReadsArgs mimic_options (read mimic_options)
      → 0 < c.id
      → 0 < c.env_id
      → (args : List Arg) × (to_arg_list (mimic_map (record { capture = c; replay_ids = n ∷ ns }))
          ≡ ok args)
        × (mimic_from_cmd_args read args
            ≡ ok (record {
              capture = record c { timing = supervised_again c.timing };
              replay_ids = n ∷ ns;
            }))
  unfolding mimic_from_cmd_args key_eq all
  mimic_from_cmd_args-to_arg_list c n ns h id env_id =
      let m : MimicConfig = record { capture = c; replay_ids = n ∷ ns } in
      let r =
        read-to_arg_list mimic_options (read mimic_options) h (mimic_map m) (search arith) refl in
      let first : Options = put option_replay_id (numbers (n ∷ ns)) (defaults mimic_options) in
      let ids = listed-put ns (defaults mimic_options) refl in
      let kept =
        ids_kept c.timing (put option_replay_id (numbers (n ∷ ns)) (defaults mimic_options)) in
      let t =
        timing_back c.timing (put option_replay_id (numbers (n ∷ ns)) (defaults mimic_options))
          (other-put ns (defaults mimic_options) "mock" refl)
          (other-put ns (defaults mimic_options) "supervised" refl) in
      (
        r.0,
        r.1,
        rw r.4 (
            rw (positive c.id id) (
              rw (positive c.env_id env_id) (
                rw kept (
                  ap
                    (λ (ms : List ℕ). ok (record {
                      capture = record c {
                        timing = read_timing (put_all (timing_map c.timing) first);
                      };
                      replay_ids = n ∷ ms;
                    }))
                    ids
                  ∙ ap (λ (u : Timing). ok (record m { capture = record c { timing = u } })) t)))),
      )
