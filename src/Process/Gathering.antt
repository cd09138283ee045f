-- ===== src/Process/Gathering.antt =====
-- capture/src/capture.ts: the workload that a round of a capture sends (sendWorkloadToS3, and the part of
-- loop that waits for it), over a logger and a storage backend.
pub mod Windows
pub mod Rounds
pub mod Commands
pub mod Captured
use lil_bobby_tables_my_crt.Common.Tests.{
  ℕ, String, Bool, true, false, Option, none, some, List, [], ◌∷◌,
}
use lil_bobby_tables_my_crt.Common.Exec.{ok}
use lil_bobby_tables_my_crt.Common.Action.{Action, ◌>>=◌, ◌>>◌, pure, raise, lift}
use lil_bobby_tables_my_crt.Data.{ChildProgram, Workload}
use lil_bobby_tables_my_crt.Storage.Schema.{Error, workload, single_sample_key}
use lil_bobby_tables_my_crt.Storage.Backend.{StorageBackend}
use lil_bobby_tables_my_crt.Workload.Logger.{LoggerMethods, Logger, get_workload_fragment}
use lil_bobby_tables_my_crt.Workload.Prep.{prepare_workload}
use lil_bobby_tables_my_crt.Process.Tries.{try_twice}
use lil_bobby_tables_my_crt.Process.Window.{window_start}

-- What a round reads of the capture: its configuration, `asIChildProgram()` and its start.
pub record Config : Type 0 where
  pub program : ChildProgram
  pub interval : ℕ
  pub interval_overlap : ℕ
  pub mock : Bool
  pub start_time : ℕ

-- What the rounds change: the logger with the world that it is in, and the files.
pub record Gathering (World Files : Type 0) : Type 0 where
  pub logger : Logger World
  pub files : Files

module _ {World Files A : Type 0} where
  unfoldable pub on_logger : Action (Logger World) Error A → Action (Gathering World Files) Error A
  on_logger m g = let r = m g.logger in (r.0, record g { logger = r.1 })

  unfoldable pub on_files : Action Files Error A → Action (Gathering World Files) Error A
  on_files m g = let r = m g.files in (r.0, record g { files = r.1 })

-- `date_string` is `new Date(ms).toString()`, and `fake_request` the update that a mock capture makes.
module _ {World : Type 0} (methods : LoggerMethods World) (backend : StorageBackend Workload)
    (date_string : ℕ → String) (fake_request : Action World Error (Unit {0}))
    (config : Config) where
  abbrev pub GatheringAction : Type 0 → Type 0
  GatheringAction A = Action (Gathering World backend.State) Error A

  -- One try of `sendWorkloadToS3`
  unfoldable pub send_fragment : ℕ → ℕ → GatheringAction Workload
  unfolding on_logger on_files
  send_fragment start end = do
    fragment ← on_logger (get_workload_fragment methods date_string start end)
    let prepared = prepare_workload fragment config.mock
    key ← lift (single_sample_key workload config.program end)
    on_files (backend.write_json key prepared)
    pure prepared

  unfoldable pub send_workload_to_s3 : ℕ → ℕ → GatheringAction (Option Workload)
  unfolding send_fragment
  send_workload_to_s3 start end = try_twice (send_fragment start end)

  unfoldable pub or_unable : Option Workload → GatheringAction Workload
  or_unable none = raise "Unable to obtain workload in loop"
  or_unable (some w) = pure w

  request_if_mock : Bool → GatheringAction (Unit {0})
  request_if_mock true g =
      let r = fake_request g.logger.world in
      (r.0, record g { logger = record g.logger { world = r.1 } })
  request_if_mock false g = (ok tt, g)

  -- `Capture.loop` at a time, up to the timer of its metrics
  unfoldable pub loop : ℕ → GatheringAction Workload
  unfolding or_unable request_if_mock
  loop end = do
    sent ←
        send_workload_to_s3
          (window_start config.interval config.interval_overlap config.start_time end) end
    w ← or_unable sent
    request_if_mock config.mock
    pure w

  -- The rounds at these times; one that rejects does not keep the next from running.
  unfoldable pub gather : List ℕ → Gathering World backend.State → Gathering World backend.State
  gather [] g = g
  gather (end ∷ ends) g = gather ends (loop end g).1
