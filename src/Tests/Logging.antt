-- ===== src/Tests/Logging.antt =====
-- The tries at concrete inputs.
use lil_bobby_tables_my_crt.Common.Tests.{ℕ, ◌-◌, ◌≡◌, refl, some, ◌==◌, if◌then◌else◌}
use lil_bobby_tables_my_crt.Common.Exec.{ok, throw}
use lil_bobby_tables_my_crt.Common.Action.{Action}
use lil_bobby_tables_my_crt.Storage.Schema.{Error}
use lil_bobby_tables_my_crt.Process.Tries.{try_twice}

-- An action that fails while its counter is not 0, and counts down.
abbrev flaky : Action ℕ Error ℕ
flaky n = if n == 0 then (ok 5, n) else (throw "busy", n - 1)

flaky_recovers : try_twice flaky 1 ≡ (ok (some 5), 0)
unfolding try_twice
flaky_recovers = refl
