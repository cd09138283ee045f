-- ===== src/Workload/Logger/Switch.antt =====
-- When the general log is switched and when it is read (workload-logger.ts).
use lil_bobby_tables_my_crt.Common.Tests.{
  ℕ, ◌<◌, String, ◌≡◌, ◌≢◌, true, false, some, List, [], arith,
}
use lil_bobby_tables_my_crt.Common.Exec.{ok}
use lil_bobby_tables_my_crt.Common.Action.{◌>>=◌}
use lil_bobby_tables_my_crt.Data.{Workload}
use lil_bobby_tables_my_crt.Workload.Logger.{
  LoggerMethods, Logger, outside, get_workload_fragment, set_logging,
}

module _ {World : Type 0} (methods : LoggerMethods World) where
  -- A log that is on goes off only if the other captures could be found and none of them needs it, and
  -- only by a call of `turnOffLogging` that returned.
  pub set_logging_off :
      (l : Logger World)
      → l.logging ≡ true
      → (set_logging methods false l).1.logging ≡ false
      → let asked = methods.other_captures_need_logs l.world in
        (asked.0 ≡ ok (some []))
        × ((methods.turn_off_logging asked.1).0 ≡ ok tt)
        × ((set_logging methods false l).1.world ≡ (methods.turn_off_logging asked.1).1)
  unfolding set_logging ◌>>=◌
  set_logging_off l on off = ground arith

  -- If another capture needs the log, or the captures are not known, or the question fails, a log that
  -- is on stays on and the database is not asked to switch it off.
  pub set_logging_in_use :
      (l : Logger World)
      → l.logging ≡ true
      → ((ids : List ℕ) → (methods.other_captures_need_logs l.world).0 ≡ ok (some ids) → ids ≢ [])
      → ((set_logging methods false l).1.logging ≡ true)
        × ((set_logging methods false l).1.world ≡ (methods.other_captures_need_logs l.world).1)
  unfolding set_logging ◌>>=◌
  set_logging_in_use l on h = ground (arith, h [])

  -- A fragment is read only from a log that is on and for a window with an end after its start; it then
  -- holds the commands that the log gave for that window.
  pub get_workload_fragment_ok :
      (date_string : ℕ → String) (start end : ℕ) (l : Logger World) {w : Workload}
      → (get_workload_fragment methods date_string start end l).0 ≡ ok w
      → (l.logging ≡ true)
        × (start < end)
        × ((methods.query_general_log start end l.world).0 ≡ ok w.commands)
  unfolding get_workload_fragment outside ◌>>=◌
  get_workload_fragment_ok date_string start end l h = ground arith
