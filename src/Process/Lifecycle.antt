-- ===== src/Process/Lifecycle.antt =====
-- common/src/capture-replay/subprocess.ts (run, stop, selfDestruct) and capture/src/capture.ts (setup,
-- teardown, onStop, dontPanic), over the calls that they await. Whether a call returns is decided by
-- `returns`, from the call and those made before it; a call that rejects may have had its effect.
pub mod Order
use lil_bobby_tables_my_crt.Common.Tests.{
  ℕ, ◌+◌, Bool, true, false, Option, some, List, [], ◌∷◌, ◌++◌, if◌then◌else◌,
}
use lil_bobby_tables_my_crt.Common.Exec.{Result, ok, throw}
use lil_bobby_tables_my_crt.Common.Action.{Action, ◌>>=◌, ◌>>◌}
use lil_bobby_tables_my_crt.Data.{ChildProgramStatus, starting, running, stopping, done, failed}

pub data Step : Type 0 where
  ipc_start ipc_stop : Step
  -- `captureDao.updateCaptureStatus`
  set_status : ChildProgramStatus → Step
  -- `captureDao.updateCaptureStartTime` and `updateCaptureEndTime`
  record_start_time record_end_time : Step
  -- `workloadLogger.setLogging`
  set_logging : Bool → Step
  -- `workloadStorage.buildFinalWorkloadFile`, `Promise.all(this.metricsPromises)` and
  -- `metricsStorage.read(..., false)`
  build_workload_file wait_for_metrics build_metrics_file : Step

-- How a call may not return: its promise rejects, or `process.exit` ends the process.
pub data Halt : Type 0 where
  rejected : Step → Halt
  exited : ℕ → Halt

pub record Process : Type 0 where
  pub steps : List Step
  pub clock : ℕ
  pub start_time : Option ℕ
  pub is_done : Bool
  -- whether the interval timer runs the loop
  pub looping : Bool

module _ {A : Type 0} where
  abbrev caught :
      Result Halt A × Process → (Process → Result Halt A × Process) → Result Halt A × Process
  caught (ok a, p) handler = (ok a, p)
  caught (throw (rejected e), p) handler = handler p
  caught (throw (exited code), p) handler = (throw (exited code), p)

  -- `try { m } catch (error) { handler }`
  unfoldable pub catching : Action Process Halt A → Action Process Halt A → Action Process Halt A
  catching m handler p = caught (m p) handler

module _ (returns : Step → List Step → Bool) where
  unfoldable pub call : Step → Action Process Halt (Unit {0})
  call step p =
      let q : Process = record p { steps = p.steps ++ (step ∷ []) } in
      if returns step p.steps then (ok tt, q) else (throw (rejected step), q)

  -- `selfDestruct`: a rejection of `dontPanic` is caught, and the process exits with 42. (The logger is
  -- taken to work.)
  unfoldable pub self_destruct : Action Process Halt (Unit {0})
  unfolding call
  self_destruct p = (throw (exited 42), (call (set_status failed) p).1)

  unfoldable pub set_start_time : Action Process Halt (Unit {0})
  set_start_time p = (ok tt, record p { start_time = some p.clock })

  -- `Capture.setup`
  unfoldable pub setup : Action Process Halt (Unit {0})
  unfolding call self_destruct set_start_time catching
  setup =
      catching
        (do
          call ipc_start
          call (set_status starting)
          call (set_logging true)
          call (set_status running)
          set_start_time
          call record_start_time)
        self_destruct

  -- `Capture.teardown` up to its timer
  unfoldable pub teardown : Action Process Halt (Unit {0})
  unfolding call self_destruct catching
  teardown = catching (call (set_logging false)) self_destruct

  -- The timer's callback; nobody catches its rejection.
  unfoldable pub finish : Action Process Halt (Unit {0})
  unfolding call
  finish = do
    call build_workload_file
    call wait_for_metrics
    call build_metrics_file
    call ipc_stop
    call (set_status done)

  abbrev loop_if : Bool → Action Process Halt (Unit {0}) → Action Process Halt (Unit {0})
  loop_if true loop p = loop p
  loop_if false loop p = (ok tt, p)

  -- `Subprocess.stop`, with the round of the class; then the delay passes and the timer of the teardown
  -- fires.
  unfoldable pub stop : Bool → Action Process Halt (Unit {0}) → Action Process Halt (Unit {0})
  unfolding teardown finish
  stop extra_loop loop p =
      (loop_if extra_loop loop >>= λ u. (teardown >>= λ v. finish))
        (record p { is_done = true; looping = false })

  -- The updates of `Capture.onStop`, which go on beside `stop(true)`.
  unfoldable pub on_stop_updates : Action Process Halt (Unit {0})
  unfolding call
  on_stop_updates = do call (set_status stopping); call record_end_time
