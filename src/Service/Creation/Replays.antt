-- ===== src/Service/Creation/Replays.antt =====
-- service/src/common/replay-creator.ts: a replay that a user asks for.
use lil_bobby_tables_my_crt.Common.Tests.{
  ℕ, String, Bool, false, Option, none, some, ◌++◌, ◌==◌, if◌then◌else◌, codes,
}
use lil_bobby_tables_my_crt.Common.Action.{◌>>=◌, ◌>>◌, pure, raise}
use lil_bobby_tables_my_crt.Common.Digits.{decimal}
use lil_bobby_tables_my_crt.Data.{scheduled, started}
use lil_bobby_tables_my_crt.Service.Tables.{User, DbReference}
use lil_bobby_tables_my_crt.Service.Http.{
  http_error, other_error, Message, launch_replay, launch_replay_at, Handler, send, required,
  fail_with,
}
use lil_bobby_tables_my_crt.Service.EnvironmentDao.Editing.{make_db_reference}
use lil_bobby_tables_my_crt.Service.CaptureDao.{get_capture}
use lil_bobby_tables_my_crt.Service.ReplayDao.{NewReplay, Replay, make_replay}
use lil_bobby_tables_my_crt.Service.ReplayRoutes.{Target, no_replays_on_target_db}
use lil_bobby_tables_my_crt.Service.Creation.{time_or}

pub record ReplayBody : Type 0 where
  pub name : String
  pub capture_id : ℕ
  -- whether the body's status is `SCHEDULED`
  pub is_scheduled : Bool
  pub scheduled_start : Option ℕ
  pub target : Target

-- `db && !db.id`; the id of no reference, `db!.id`, throws.
unfoldable pub checked_reference : Option DbReference → Handler ℕ
unfolding raise pure fail_with
checked_reference none = raise (other_error (codes "Cannot read property 'id' of null"))
checked_reference (some db) =
    if db.id == 0 then fail_with 400 (codes "DB reference was not properly created") else pure db.id

-- `createTemplate` and what `createReplayTemplate` adds
unfoldable pub replay_template : User → ReplayBody → ℕ → ℕ → NewReplay
replay_template user b input_time db_id = record {
  name = b.name;
  owner_id = some user.id;
  is_mimic = false;
  status = if b.is_scheduled then scheduled else started;
  capture_id = some b.capture_id;
  db_id = some db_id;
  scheduled_start = if b.is_scheduled then some input_time else none;
}

abbrev pub replay_launch : ReplayBody → ℕ → Replay → Message
replay_launch b input_time r =
    if b.is_scheduled then launch_replay_at input_time r.id else launch_replay r.id

-- `createReplayTemplate`, which asks for no membership
unfoldable pub create_replay_template : User → ReplayBody → ℕ → Handler Replay
unfolding get_capture make_db_reference checked_reference make_replay required send pure
create_replay_template user b input_time = do
  capture ←
      get_capture b.capture_id
      >>= required (
          http_error 400
            (some (codes "Capture " ++ (decimal b.capture_id ++ codes " does not exist"))))
  db_id ← make_db_reference b.target.db_name b.target.host >>= checked_reference
  replay ←
      make_replay (replay_template user b input_time db_id)
      >>= required (http_error 500 (some (codes "error creating capture in db")))
  send (replay_launch b input_time replay)
  pure replay

-- `POST /replays`; the start is the time of `scheduledChecks` if none is given.
unfoldable pub create_replay : User → ReplayBody → Handler Replay
unfolding create_replay_template fail_with
create_replay user b w =
    (if no_replays_on_target_db b.target w.tables
        then create_replay_template user b (time_or b.scheduled_start w.now)
        else fail_with 400 (
            codes "There is already at least 1 replay running on that database. "
            ++ codes "Either specify a different db, or wait for that replay to complete."))
      w
