-- ===== src/Tests/Making.antt =====
-- What the service makes and marks in the sample database.
use lil_bobby_tables_my_crt.Common.Tests.{
  Option, ◌<◌, ◌≡◌, refl, true, false, none, some, [], ◌∷◌, ◌++◌, arith, ◌==◌, map,
}
use lil_bobby_tables_my_crt.Common.Action.{◌>>=◌}
use lil_bobby_tables_my_crt.Common.Exec.{Result, ok}
use lil_bobby_tables_my_crt.Common.Lists.{select, All}
use lil_bobby_tables_my_crt.Service.Creation.Launching.{create_capture_lem}
use lil_bobby_tables_my_crt.Service.Creation.Asked.{asked_row}
use lil_bobby_tables_my_crt.Service.CaptureDao.{row_to_capture, Capture, capture_of, NewCapture}
use lil_bobby_tables_my_crt.Service.Http.{launch_at, stop_at, World, Text, query}
use lil_bobby_tables_my_crt.Data.{stopping, ChildProgram, MetricType, replay, done, started}
use lil_bobby_tables_my_crt.Service.Management.Abandoned.{
  abandon, mark_abandoned_replays_as_failed_lem,
}
use lil_bobby_tables_my_crt.Service.Tables.{join, first_row}
use lil_bobby_tables_my_crt.Service.EnvironmentDao.{EnvironmentFull, environment_full_of}
use lil_bobby_tables_my_crt.Service.InviteDao.{membership}
use lil_bobby_tables_my_crt.Service.ReplayDao.{Replay, replay_of}
use lil_bobby_tables_my_crt.Service.CaptureRoutes.{environment_full_of?, without_details}
use lil_bobby_tables_my_crt.Service.ReplayRoutes.{capture_of?}
use lil_bobby_tables_my_crt.Service.MetricsRoutes.{
  MockSettings, BackendChoice, valid_status, choose_backend, program_of, replay_metrics,
}
use lil_bobby_tables_my_crt.Service.MetricsRoutes.Access.{replay_metrics_ok}
use lil_bobby_tables_my_crt.Tests.Sample.{
  alice, rerun, bob, small, world, staging_environment, small-environment,
}
use lil_bobby_tables_my_crt.Service.Management.{mark_abandoned_replays_as_failed}
use lil_bobby_tables_my_crt.Service.Creation.{CaptureBody, create_capture}

abbrev weekly : NewCapture
weekly = record {
  name = "weekly";
  owner_id = some 2;
  is_mimic = false;
  status = started;
  env_id = some 1;
  scheduled_start = none;
  scheduled_end = none;
}

bob_found : select (λ u. bob.id == u.id) small.users ≡ bob ∷ []
unfolding select
bob_found = refl

ids_below : All (λ r. r.id < 2) small.captures
ids_below = (omega arith, tt)

abbrev left : World
left = record world {
  tables = record small { replays = rerun ∷ (record rerun { id = 2; status = stopping }) ∷ [] };
}

mark_abandoned_replays_as_failed_lem_example :
    mark_abandoned_replays_as_failed left
    ≡ (ok tt, record left { tables = record small { replays = map abandon left.tables.replays } })
mark_abandoned_replays_as_failed_lem_example =
    mark_abandoned_replays_as_failed_lem left (((λ e. omega arith), tt), (tt, tt))

-- Bob is no member of the environment.
abbrev hour : CaptureBody
hour = record {
  name = "hour";
  env_id = 1;
  is_scheduled = true;
  scheduled_start = some 500;
  duration = some 3600;
}

create_capture_lem_example :
    let row = asked_row bob hour 1 2 500 in
    create_capture bob hour world ≡ (
      ok (row_to_capture (some bob.email) row),
      record world {
        tables = record small { captures = small.captures ++ (row ∷ []); next_capture = 3 };
        sent = launch_at 500 2 ∷ stop_at 3600500 2 ∷ [];
      },
    )
create_capture_lem_example =
    create_capture_lem bob hour world staging_environment [] refl refl small-environment bob_found
      ids_below

-- The rerun once it is over, and a reading that gives the program back.
abbrev over : World
over = record world { tables = record small { replays = (record rerun { status = done }) ∷ [] } }

abbrev no_mock : MockSettings
no_mock = record { captures = false; replays = false }

abbrev reading : BackendChoice → ChildProgram → Option MetricType → Result Text ChildProgram
reading backend program metric_type = ok program

abbrev rerun_program : ChildProgram
rerun_program = record { type = some replay; id = some 1; env_id = some 1; status = some done }

alice_reads : (replay_metrics no_mock reading alice 1 none over).0 ≡ ok rerun_program
unfolding replay_metrics ◌>>=◌ query replay_of capture_of environment_full_of membership join select
    first_row
alice_reads = refl

replay_metrics_ok_example :
    ((replay_metrics no_mock reading alice 1 none over).1 ≡ over)
    × (r : Replay) × (c : Capture) × (e : EnvironmentFull) × (replay_of 1 over.tables ≡ some r)
    × (capture_of? r.capture_id over.tables ≡ some c)
    × (environment_full_of? c.env_id over.tables ≡ some e)
    × ((membership alice (without_details e) over.tables).is_member ≡ true)
    × (valid_status r.status ≡ true)
    × (reading (choose_backend no_mock replay e) (program_of replay r.id r.status e) none
        ≡ ok rerun_program)
replay_metrics_ok_example =
    replay_metrics_ok no_mock reading alice 1 none over rerun_program alice_reads
