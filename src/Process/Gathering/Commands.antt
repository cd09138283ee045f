-- ===== src/Process/Gathering/Commands.antt =====
-- The commands in the fragments that the rounds of a capture send (capture/src/capture.ts, sendWorkloadToS3).
use lil_bobby_tables_my_crt.Common.Tests.{List, String, arith, ℕ, ◌+◌, ◌↔◌, ◌≡◌, ◌≤◌, refl}
use lil_bobby_tables_my_crt.Common.Lists.{In, In-select, select}
use lil_bobby_tables_my_crt.Common.Action.{Action}
use mathlib.Core.Path.{subst}
use lil_bobby_tables_my_crt.Workload.Prep.{In-prepare_workload, IsKept}
use lil_bobby_tables_my_crt.Workload.Storage.Merged.{In-commands_of, commands_of}
use lil_bobby_tables_my_crt.Process.Gathering.Windows.{
  InWindow, Paced, between, covered_any, started-le-window_start,
}
use lil_bobby_tables_my_crt.Storage.Backend.{StorageBackend}
use lil_bobby_tables_my_crt.Workload.Logger.{LoggerMethods, seven_hours}
use lil_bobby_tables_my_crt.Process.Gathering.{Config, window_start}
use lil_bobby_tables_my_crt.Process.Gathering.Rounds.{fragment, is_between}
use lil_bobby_tables_my_crt.Data.{Command, Workload}
use lil_bobby_tables_my_crt.Storage.Schema.{Error, Key}

module _ {World : Type 0} (methods : LoggerMethods World) (backend : StorageBackend Workload)
    (date_string : ℕ → String) (fake_request : Action World Error (Unit {0})) (config : Config)
    (logged_at : Command → ℕ) (log : List Command) (root : Key) where
  In-fragment :
      (end : ℕ) (c : Command)
      → In c
          (fragment methods backend date_string fake_request config logged_at log root end).commands
        ↔ (In c log
            × InWindow config.interval config.interval_overlap config.start_time (logged_at c) end
            × IsKept config.mock c)
  In-fragment end c =
      let start = window_start config.interval config.interval_overlap config.start_time end in
      let part =
        In-prepare_workload
          (record {
            start = date_string (start + seven_hours);
            end = date_string (end + seven_hours);
            commands = select (is_between logged_at start end) log;
          })
          config.mock c in
      let chosen = In-select (is_between logged_at start end) log c in
      (
        (λ i.
            let h = part.0 i in
            let d = chosen.0 h.0 in (d.0, (ground (arith, d.1), ground (arith, d.1)), h.1)),
        λ h. part.1 (chosen.1 (h.0, ground (arith, h.1)), h.2),
      )

  -- Workloads that are the fragments of rounds at these times hold the commands of the log from the
  -- start of the capture to its last round.
  pub In-fragments :
      (ends : List ℕ) (last : ℕ)
      → Paced (config.interval + config.interval_overlap) config.start_time ends last
      → ((end : ℕ) × In end ends)
      → (ws : List Workload)
      → ((w : Workload)
          → In w ws ↔ (
              (end : ℕ) × In end ends
              × (w
                  ≡ fragment methods backend date_string fake_request config logged_at log root
                      end)))
      → (c : Command)
      → In c (commands_of ws) ↔ (
          In c log
          × (config.start_time ≤ logged_at c)
          × (logged_at c ≤ last)
          × IsKept config.mock c)
  In-fragments ends last paced some_round ws fragments c =
      let started = config.start_time in
      (
        (λ i.
            let h = (In-commands_of ws c).0 i in
            let s = (fragments h.0).0 h.1 in
            let d = (In-fragment s.0 c).0 (subst (λ w. In c w.commands) s.2 h.2) in
            let time =
              between config.interval config.interval_overlap started ends started last
                (omega arith) paced s.0 s.1 in
            let early =
              started-le-window_start config.interval config.interval_overlap started s.0
                (omega (arith, time.0)) in
            (d.0, omega (arith, early, d.1), omega (arith, d.1, time.1), d.2)),
        λ h.
            let e =
              covered_any config.interval config.interval_overlap started ends last (logged_at c)
                some_round paced h.1 h.2 in
            let w =
              fragment methods backend date_string fake_request config logged_at log root e.0 in
            (In-commands_of ws c).1
              (w, (fragments w).1 (e.0, e.1, refl), (In-fragment e.0 c).1 (h.0, e.2, h.3)),
      )
