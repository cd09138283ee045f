-- ===== src/Tests/Mimics.antt =====
-- The setup of a mimic with a replay that can be loaded and one whose database is not given.
use lil_bobby_tables_my_crt.Common.Tests.{◌≡◌, refl, false, none, [], ◌∷◌}
use lil_bobby_tables_my_crt.Common.Lists.{select}
use lil_bobby_tables_my_crt.Common.Exec.{ok}
use lil_bobby_tables_my_crt.Data.{starting, scheduled, failed}
use lil_bobby_tables_my_crt.Service.Tables.{join, first_row}
use lil_bobby_tables_my_crt.Service.Http.{World}
use lil_bobby_tables_my_crt.Service.ReplayDao.{replay_of}
use lil_bobby_tables_my_crt.Process.Mimics.{load_all}
use lil_bobby_tables_my_crt.Process.Mimics.Loaded.{statuses, OnlyReplays}
use lil_bobby_tables_my_crt.Process.Mimics.Setup.{load_all_lem}
use lil_bobby_tables_my_crt.Tests.Sample.{rerun, small, world}

abbrev three_replays : World
three_replays = record world {
  tables = record small {
    replays = rerun ∷ record rerun { id = 2; db_id = none } ∷ record rerun { id = 3 } ∷ [];
    next_replay = 4;
  };
}

-- Of the replays 2 and 1 the mimic keeps the second; the replay 3 is left as it is.
load_all_lem_example :
    (v : World) × (load_all (λ d. none) (2 ∷ 1 ∷ []) three_replays
      ≡ (ok (record { id = 1; has_started = false } ∷ []), v))
    × (statuses v.tables.replays ≡ (1, starting) ∷ (2, failed) ∷ (3, scheduled) ∷ [])
    × OnlyReplays v three_replays
unfolding replay_of join first_row select
load_all_lem_example = load_all_lem (λ d. none) (2 ∷ 1 ∷ []) three_replays (refl, (refl, tt))
