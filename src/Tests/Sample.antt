-- ===== src/Tests/Sample.antt =====
-- A small database with two users, an environment, a capture and its replay.
use lil_bobby_tables_my_crt.Common.Tests.{◌≡◌, refl, false, none, some, [], ◌∷◌}
use lil_bobby_tables_my_crt.Common.Lists.{select}
use lil_bobby_tables_my_crt.Service.Tables.{
  first_row, join, User, EnvironmentRow, CaptureRow, ReplayRow, Tables,
}
use lil_bobby_tables_my_crt.Service.EnvironmentDao.{environment_of, Environment}
use lil_bobby_tables_my_crt.Service.ReplayDao.{replay_of, Replay}
use lil_bobby_tables_my_crt.Data.{running, scheduled}
use lil_bobby_tables_my_crt.Service.Http.{World}
use lil_bobby_tables_my_crt.Service.CaptureDao.{Capture, capture_of}

abbrev pub alice : User
alice = record {
  id = 1;
  email = "alice";
  is_admin = false;
  password_hash = "alice*";
  session_token = none;
  login_time = none;
  last_token_check = none;
  reset_token = none;
  reset_created_at = none;
  reset_used_at = none;
}

abbrev pub bob : User
bob = record {
  id = 2;
  email = "bob";
  is_admin = false;
  password_hash = "bob*";
  session_token = none;
  login_time = none;
  last_token_check = none;
  reset_token = none;
  reset_created_at = none;
  reset_used_at = none;
}

abbrev pub staging : EnvironmentRow
staging = record {
  id = 1;
  name = "staging";
  owner_id = some 1;
  aws_keys_id = some 1;
  db_id = some 1;
  s3_id = some 1;
}

-- Bob owns this capture, and is no member of its environment.
abbrev pub nightly : CaptureRow
nightly = record {
  id = 1;
  name = "nightly";
  owner_id = some 2;
  is_mimic = false;
  start = some 5;
  scheduled_start = none;
  scheduled_end = none;
  end = none;
  status = running;
  reason = none;
  env_id = some 1;
}

abbrev pub rerun : ReplayRow
rerun = record {
  id = 1;
  owner_id = some 2;
  capture_id = some 1;
  is_mimic = false;
  db_id = some 1;
  name = "rerun";
  start = none;
  scheduled_start = some 9;
  end = none;
  status = scheduled;
  reason = none;
}

abbrev pub small : Tables
small = record {
  users = alice ∷ bob ∷ [];
  environments = staging ∷ [];
  members = [];
  captures = nightly ∷ [];
  replays = rerun ∷ [];
  databases = record { id = 1; name = "shop"; host = "db1" } ∷ [];
  s3_references = record { id = 1; bucket = "logs"; prefix = "" } ∷ [];
  aws_keys = record { id = 1; name = "keys"; region = "us"; user_id = some 1 } ∷ [];
  next_user = 3;
  next_environment = 2;
  next_database = 2;
  next_s3 = 2;
  next_keys = 2;
  next_member = 1;
  next_capture = 2;
  next_replay = 2;
}

abbrev pub world : World
world = record { tables = small; now = 100; sent = [] }

abbrev pub staging_environment : Environment
staging_environment = record {
  id = 1;
  name = "staging";
  owner_id = some 1;
  aws_keys_id = some 1;
  db_id = some 1;
  s3_id = some 1;
  username = "alice";
}

abbrev pub nightly_capture : Capture
nightly_capture = record {
  id = 1;
  name = "nightly";
  username = some "bob";
  start = some 5;
  is_mimic = false;
  scheduled_start = none;
  scheduled_end = none;
  end = none;
  status = running;
  env_id = some 1;
  reason = none;
}

abbrev pub rerun_replay : Replay
rerun_replay = record {
  id = 1;
  capture_id = some 1;
  is_mimic = false;
  db_id = some 1;
  name = "rerun";
  username = some "bob";
  start = none;
  end = none;
  status = scheduled;
  reason = none;
}

pub small-capture : capture_of 1 small ≡ some nightly_capture
unfolding capture_of join select first_row
small-capture = refl

pub small-environment : environment_of 1 small ≡ some staging_environment
unfolding environment_of join select first_row
small-environment = refl

pub small-replay : replay_of 1 small ≡ some rerun_replay
unfolding replay_of join select first_row
small-replay = refl
