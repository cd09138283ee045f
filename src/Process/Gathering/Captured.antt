-- ===== src/Process/Gathering/Captured.antt =====
-- What a capture leaves: its rounds (capture.ts) composed with the log that they query, the files that they
-- write and the final workload file that its teardown builds (workload-storage.ts).
use lil_bobby_tables_my_crt.Common.Tests.{List, Option, String, none, true, ℕ, ◌++◌, ◌+◌, ◌<◌, ◌≡◌}
use lil_bobby_tables_my_crt.Common.Exec.{ok}
use lil_bobby_tables_my_crt.Common.Action.{Action}
use lil_bobby_tables_my_crt.Process.Gathering.Windows.{Paced}
use lil_bobby_tables_my_crt.Process.Gathering.Rounds.{Answers}
use lil_bobby_tables_my_crt.Storage.Fragmented.Listed.{ListsAll}
use lil_bobby_tables_my_crt.Storage.Backend.{IsLawful, StorageBackend}
use lil_bobby_tables_my_crt.Workload.Logger.{LoggerMethods}
use lil_bobby_tables_my_crt.Process.Gathering.{Config, Gathering, gather}
use lil_bobby_tables_my_crt.Data.{Command, Workload}
use lil_bobby_tables_my_crt.Storage.Schema.{Error, Key, root_prefix}

module _ {World : Type 0} (methods : LoggerMethods World) (backend : StorageBackend Workload)
    (date_string : ℕ → String) (fake_request : Action World Error (Unit {0})) (config : Config)
    (logged_at : Command → ℕ) (log : List Command) (root : Key)
    (answers : Answers logged_at methods log) (rooted : root_prefix config.program ≡ ok root)
    (spanned : 0 < config.interval + config.interval_overlap)
    (contents : backend.State → Key → Option Workload) (lawful : IsLawful backend contents)
    (limit : ℕ) (lists : ListsAll backend contents lawful limit) where
  module _ (ends : List ℕ) (last : ℕ)
      (paced : Paced (config.interval + config.interval_overlap) config.start_time ends last)
      (g : Gathering World backend.State) (on : g.logger.logging ≡ true)
      (fresh : (name : Key) → contents g.files (root ++ name) ≡ none) where
    abbrev files : backend.State
    files = (gather methods backend date_string fake_request config ends g).files
