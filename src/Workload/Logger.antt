-- ===== src/Workload/Logger.antt =====
-- capture/src/workload/workload-logger.ts: the switch of the database's general log, and its reading.
-- The abstract methods (mysql and RDS calls) are actions on the world outside.
pub mod Switch
use lil_bobby_tables_my_crt.Common.Tests.{
  ℕ, ◌+◌, ◌*◌, String, Bool, true, false, not, ◌||◌, Option, none, some, List, leb, if◌then◌else◌,
}
use lil_bobby_tables_my_crt.Common.Lists.{is_nil}
use lil_bobby_tables_my_crt.Common.Action.{Action, ◌>>=◌, ◌>>◌, pure, raise, modify}
use lil_bobby_tables_my_crt.Data.{Command, Workload}
use lil_bobby_tables_my_crt.Storage.Schema.{Error}

-- The abstract methods; the captures in need of logs are given by their ids.
pub record LoggerMethods (World : Type 0) : Type 0 where
  pub other_captures_need_logs : Action World Error (Option (List ℕ))
  pub turn_on_logging : Action World Error (Unit {0})
  pub turn_off_logging : Action World Error (Unit {0})
  pub query_general_log : ℕ → ℕ → Action World Error (List Command)

-- The logger's own field beside the world.
pub record Logger (World : Type 0) : Type 0 where
  pub logging : Bool
  pub world : World

abbrev pub seven_hours : ℕ
seven_hours = 7 * 60 * 60 * 1000

abbrev pub bool_eq : Bool → Bool → Bool
bool_eq true b = b
bool_eq false b = not b

-- `loggingInUse !== null && loggingInUse.length === 0`
abbrev pub no_one : Option (List ℕ) → Bool
no_one none = false
no_one (some ids) = is_nil ids

module _ {World : Type 0} where
  -- A call of a method: it changes the world and not the field.
  unfoldable pub outside : {A : Type 0} → Action World Error A → Action (Logger World) Error A
  outside m l = let r = m l.world in (r.0, record l { world = r.1 })

  module _ (methods : LoggerMethods World) where
    switch_log : Bool → Action (Logger World) Error (Unit {0})
    switch_log on = do
      (if on then outside methods.turn_on_logging else outside methods.turn_off_logging)
      modify (λ l. record l { logging = on })

    -- `getWorkloadFragment`; `date_string` is `new Date(ms).toString()`.
    unfoldable pub get_workload_fragment :
        (ℕ → String) → ℕ → ℕ → Action (Logger World) Error Workload
    get_workload_fragment date_string start end l =
        if not l.logging
        then raise "Logging must be turned on to get a workload fragment" l
        else (if leb end start
            then raise "end cannot be before start" l
            else (outside (methods.query_general_log start end) >>= λ commands.
                  let w : Workload = record {
                    start = date_string (start + seven_hours);
                    end = date_string (end + seven_hours);
                    commands = commands;
                  } in
                  pure w)
                l)

    unfoldable pub set_logging : Bool → Action (Logger World) Error (Unit {0})
    unfolding switch_log outside
    set_logging on l =
        if bool_eq on l.logging
        then raise (if on then "Logging is already on" else "Logging is already off") l
        else (outside methods.other_captures_need_logs >>= λ in_use.
              if on || no_one in_use then switch_log on else pure tt)
            l
