-- ===== src/Service/Creation.antt =====
-- service/src/common/create.ts and capture-creator.ts: a capture that a user asks for.
pub mod Asked
pub mod Launching
pub mod Replays
pub mod Mimics
use lil_bobby_tables_my_crt.Common.Tests.{
  ℕ, zero, suc, ◌+◌, ◌*◌, String, Bool, false, not, ◌&&◌, Option, none, some, ltb, if◌then◌else◌,
  is_some, codes,
}
use lil_bobby_tables_my_crt.Common.Action.{◌>>=◌, ◌>>◌, pure}
use lil_bobby_tables_my_crt.Data.{scheduled, started}
use lil_bobby_tables_my_crt.Service.Tables.{User}
use lil_bobby_tables_my_crt.Service.Http.{
  http_error, Message, launch_capture, launch_at, stop_at, Handler, send, required, fail_with,
}
use lil_bobby_tables_my_crt.Service.EnvironmentDao.{Environment, get_environment}
use lil_bobby_tables_my_crt.Service.CaptureDao.{NewCapture, Capture, make_capture}
use lil_bobby_tables_my_crt.Service.InviteRoutes.{unknown_environment}

-- The body of a request; a duration of 0 counts as none.
pub record CaptureBody : Type 0 where
  pub name : String
  pub env_id : ℕ
  -- whether the body's status is `SCHEDULED`
  pub is_scheduled : Bool
  pub scheduled_start : Option ℕ
  pub duration : Option ℕ

-- What the creator keeps after `scheduledChecks`.
pub record CaptureCreator : Type 0 where
  pub input_time : ℕ
  pub end_time : Option ℕ

abbrev pub time_or : Option ℕ → ℕ → ℕ
time_or none now = now
time_or (some time) now = time

abbrev pub duration_end : ℕ → Option ℕ → Option ℕ
duration_end start none = none
duration_end start (some zero) = none
duration_end start (some (suc n)) = some (start + suc n * 1000)

abbrev pub too_short : Option ℕ → Bool
too_short none = false
too_short (some zero) = false
too_short (some (suc n)) = ltb (suc n) 60

-- `SubProcessCreator.scheduledChecks` and `CaptureCreator.scheduledChecks`
unfoldable pub scheduled_checks : CaptureBody → Handler CaptureCreator
unfolding fail_with pure
scheduled_checks b w =
    let input_time = time_or b.scheduled_start w.now in
    if too_short b.duration
    then fail_with 400 (codes "Duration must be at least 60 seconds") w
    else pure (record { input_time = input_time; end_time = duration_end input_time b.duration }) w

-- `checkScheduledStatus`
unfoldable pub check_scheduled_status : CaptureBody → Handler (Unit {0})
unfolding fail_with pure
check_scheduled_status b =
    if b.is_scheduled && not (is_some b.scheduled_start)
    then fail_with 400 (codes "Cannot schedule without a start schedule time")
    else pure tt

-- `createTemplate`, `checkScheduledStartTime` and what `createCaptureTemplate` adds
unfoldable pub capture_template : User → CaptureBody → Environment → CaptureCreator → NewCapture
capture_template user b environment creator = record {
  name = b.name;
  owner_id = some user.id;
  is_mimic = false;
  status = if b.is_scheduled then scheduled else started;
  env_id = some environment.id;
  scheduled_start = if b.is_scheduled then some creator.input_time else none;
  scheduled_end = creator.end_time;
}

-- `checkTemplateInDB`
unfoldable pub check_template_in_db : Option Capture → Handler Capture
unfolding required
check_template_in_db = required (http_error 500 (some (codes "error creating capture in db")))

abbrev pub launch_message : CaptureBody → CaptureCreator → Capture → Message
launch_message b creator c =
    if b.is_scheduled then launch_at creator.input_time c.id else launch_capture c.id

-- `checkDuration`
unfoldable pub check_duration : CaptureCreator → Capture → Handler (Unit {0})
unfolding send pure
check_duration creator c = elim creator.end_time [
  | none ↦ pure tt
  | some time ↦ send (stop_at time c.id)
]

-- `createCaptureTemplate`, which asks for no membership
unfoldable pub create_capture_template : User → CaptureBody → CaptureCreator → Handler Capture
unfolding get_environment required check_scheduled_status make_capture check_template_in_db send
    check_duration pure
create_capture_template user b creator = do
  environment ← get_environment b.env_id >>= required (unknown_environment b.env_id)
  check_scheduled_status b
  made ← make_capture (capture_template user b environment creator)
  capture ← check_template_in_db made
  send (launch_message b creator capture)
  check_duration creator capture
  pure capture

-- `POST /captures`
unfoldable pub create_capture : User → CaptureBody → Handler Capture
unfolding scheduled_checks create_capture_template
create_capture user b = scheduled_checks b >>= create_capture_template user b
