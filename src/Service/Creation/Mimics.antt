-- ===== src/Service/Creation/Mimics.antt =====
-- service/src/common/mimic-creator.ts: a capture with replays that run beside it.
pub mod Inserted
pub mod Made
pub mod Asked
pub mod Launched
use lil_bobby_tables_my_crt.Common.Tests.{
  ◌++◌, ℕ, String, true, Option, none, some, List, [], ◌∷◌, if◌then◌else◌, codes,
}
use lil_bobby_tables_my_crt.Common.Action.{◌>>=◌, ◌>>◌, pure}
use lil_bobby_tables_my_crt.Data.{ChildProgramStatus, scheduled, started}
use lil_bobby_tables_my_crt.Service.Tables.{User, DbReference}
use lil_bobby_tables_my_crt.Service.Http.{
  http_error, Message, launch_mimic, launch_mimic_at, stop_at, Handler, send, required, fail_with,
  query,
}
use lil_bobby_tables_my_crt.Service.EnvironmentDao.{Environment, get_environment}
use lil_bobby_tables_my_crt.Service.EnvironmentDao.Editing.{make_db_reference}
use lil_bobby_tables_my_crt.Service.EnvironmentRoutes.{make_sure_user_is_environment_member}
use lil_bobby_tables_my_crt.Service.CaptureDao.{NewCapture, Capture, make_capture}
use lil_bobby_tables_my_crt.Service.ReplayDao.{NewReplay, Replay, make_replay}
use lil_bobby_tables_my_crt.Service.ReplayRoutes.{Target, no_mimic_replays_on_same_db}
use lil_bobby_tables_my_crt.Service.InviteRoutes.{unknown_environment}
use lil_bobby_tables_my_crt.Service.Creation.{time_or, duration_end}

pub record MimicReplay : Type 0 where
  pub name : String
  pub target : Target

-- The body of a request; its status is not read.
pub record MimicBody : Type 0 where
  pub name : String
  pub env_id : ℕ
  pub scheduled_start : Option ℕ
  pub duration : Option ℕ
  pub replays : List MimicReplay

pub record Mimic : Type 0 where
  pub capture : Capture
  pub replays : List Replay

abbrev pub mimic_status : Option ℕ → ChildProgramStatus
mimic_status none = started
mimic_status (some time) = scheduled

unfoldable pub mimic_capture : User → MimicBody → Environment → Option ℕ → NewCapture
mimic_capture user b environment end_time = record {
  name = b.name;
  owner_id = some user.id;
  is_mimic = true;
  status = mimic_status b.scheduled_start;
  env_id = some environment.id;
  scheduled_start = b.scheduled_start;
  scheduled_end = end_time;
}

unfoldable pub mimic_replay : User → MimicBody → Capture → MimicReplay → DbReference → NewReplay
mimic_replay user b capture r db = record {
  name = r.name;
  owner_id = some user.id;
  is_mimic = true;
  status = mimic_status b.scheduled_start;
  capture_id = some capture.id;
  db_id = some db.id;
  scheduled_start = none;
}

-- One turn of the loop over the replays of the body.
unfoldable pub make_mimic_replay : User → MimicBody → Capture → MimicReplay → Handler Replay
make_mimic_replay user b capture r = do
  db ←
      make_db_reference r.target.db_name r.target.host
      >>= required (http_error 500 (some (codes "DB reference could not be created")))
  make_replay (mimic_replay user b capture r db)
      >>= required (http_error 500 (some (codes "Failed to create replay in the DB")))

unfoldable pub make_mimic_replays :
    User → MimicBody → Capture → List MimicReplay → Handler (List Replay)
make_mimic_replays user b capture [] = pure []
make_mimic_replays user b capture (r ∷ rs) = do
  replay ← make_mimic_replay user b capture r
  replays ← make_mimic_replays user b capture rs
  pure (replay ∷ replays)

abbrev pub replay_ids : List Replay → List ℕ
replay_ids [] = []
replay_ids (r ∷ rs) = r.id ∷ replay_ids rs

abbrev pub mimic_launch : Option ℕ → Mimic → Message
mimic_launch none m = launch_mimic m.capture.id (replay_ids m.replays)
mimic_launch (some time) m = launch_mimic_at time m.capture.id (replay_ids m.replays)

abbrev pub mimic_stop : Option ℕ → ℕ → Handler (Unit {0})
mimic_stop none id = pure tt
mimic_stop (some time) id = send (stop_at time id)

-- `createMimicTemplate`
unfoldable pub create_mimic_template : User → MimicBody → Handler Mimic
create_mimic_template user b w =
    (let end_time = duration_end (time_or b.scheduled_start w.now) b.duration in
        do
          environment ← get_environment b.env_id >>= required (unknown_environment b.env_id)
          capture ←
              make_capture (mimic_capture user b environment end_time)
              >>= required (http_error 500 (some (codes "Failed to create capture in DB")))
          replays ← make_mimic_replays user b capture b.replays
          let mimic : Mimic = record { capture = capture; replays = replays }
          send (mimic_launch b.scheduled_start mimic)
          mimic_stop end_time capture.id
          pure mimic)
      w

abbrev targets_of : List MimicReplay → List Target
targets_of [] = []
targets_of (r ∷ rs) = r.target ∷ targets_of rs

-- `POST /captures/mimic`; what the check of the targets answers later is left out.
unfoldable pub create_mimic : User → MimicBody → Handler Mimic
unfolding make_sure_user_is_environment_member create_mimic_template fail_with
create_mimic user b = do
  _ ← make_sure_user_is_environment_member user b.env_id
  check ← query (no_mimic_replays_on_same_db (targets_of b.replays))
  (if check.calls_next
      then create_mimic_template user b
      else fail_with 400 (
          codes "Cannot replay more than one replay on the same database. "
          ++ codes "Either specify a different db, or wait for that replay to complete."))
