-- ===== src/Service/MetricsRoutes.antt =====
-- service/src/common/capture-replay-metrics.ts (getMetrics) and the metrics routes of
-- service/src/routes/capture.ts and replay.ts. The reading of the metrics from the chosen backend is an
-- argument.
pub mod Access
use lil_bobby_tables_my_crt.Common.Tests.{
  ℕ, String, Bool, false, not, ◌||◌, Option, some, if◌then◌else◌,
}
use lil_bobby_tables_my_crt.Common.Exec.{Result, ok, throw}
use lil_bobby_tables_my_crt.Common.Action.{◌>>=◌, ◌>>◌, lift}
use lil_bobby_tables_my_crt.Data.{
  ChildProgramType, capture, replay, mimic, ChildProgramStatus, running, stopping, done, status_eq,
  ChildProgram, MetricType,
}
use lil_bobby_tables_my_crt.Service.Tables.{User}
use lil_bobby_tables_my_crt.Service.Http.{
  Failure, other_error, Text, Handler, fail, required, query,
}
use lil_bobby_tables_my_crt.Service.EnvironmentDao.{EnvironmentFull}
use lil_bobby_tables_my_crt.Service.InviteDao.{get_user_membership}
use lil_bobby_tables_my_crt.Service.CaptureDao.{Capture, get_capture}
use lil_bobby_tables_my_crt.Service.ReplayDao.{Replay, get_replay}
use lil_bobby_tables_my_crt.Service.CaptureRoutes.{
  environment_full_of?, not_found, no_environment, without_details, member_only,
}
use lil_bobby_tables_my_crt.Service.ReplayRoutes.{capture_of?, no_capture}

-- `settings.captures.mock` and `settings.replays.mock`
pub record MockSettings : Type 0 where
  pub captures : Bool
  pub replays : Bool

-- `LocalBackend(getSandboxPath(), prefix)` or `S3Backend(new S3({region, ...}), bucket, prefix)`
pub data BackendChoice : Type 0 where
  local_backend : String → BackendChoice
  s3_backend : String → String → String → BackendChoice

abbrev pub valid_status : ChildProgramStatus → Bool
valid_status s = status_eq s done || (status_eq s running || status_eq s stopping)

abbrev pub mocking : MockSettings → ChildProgramType → Bool
mocking settings capture = settings.captures
mocking settings replay = settings.replays
mocking settings mimic = false

abbrev pub choose_backend : MockSettings → ChildProgramType → EnvironmentFull → BackendChoice
choose_backend settings type e =
    if mocking settings type then local_backend e.prefix else s3_backend e.region e.bucket e.prefix

abbrev pub program_of : ChildProgramType → ℕ → ChildProgramStatus → EnvironmentFull → ChildProgram
program_of type id status e = record {
  type = some type;
  id = some id;
  env_id = some e.id;
  status = some status;
}

module _ {Reply : Type 0} (settings : MockSettings)
    (read : BackendChoice → ChildProgram → Option MetricType → Result Text Reply) where
  abbrev rejection : Result Text Reply → Result Failure Reply
  rejection (ok reply) = ok reply
  rejection (throw reason) = throw (other_error reason)

  -- `getMetrics`
  unfoldable pub get_metrics :
      ChildProgramType
      → ℕ
      → ChildProgramStatus
      → EnvironmentFull
      → Option MetricType
      → Handler Reply
  unfolding fail lift
  get_metrics type id status e metric_type =
      if not (valid_status status)
      then fail 409
      else lift (
          rejection
            (read (choose_backend settings type e) (program_of type id status e) metric_type))

  -- `GET /captures/:id/metrics`
  unfoldable pub capture_metrics : User → ℕ → Option MetricType → Handler Reply
  unfolding get_capture get_user_membership member_only get_metrics required query
  capture_metrics user id metric_type = do
    found ← get_capture id >>= required not_found
    e ← query (environment_full_of? found.env_id) >>= required (no_environment "Capture " id)
    m ← get_user_membership user (without_details e)
    member_only m (get_metrics capture found.id found.status e metric_type)

  -- `GET /replays/:id/metrics`
  unfoldable pub replay_metrics : User → ℕ → Option MetricType → Handler Reply
  unfolding get_replay get_user_membership member_only get_metrics required query
  replay_metrics user id metric_type = do
    found ← get_replay id >>= required not_found
    its_capture ← query (capture_of? found.capture_id) >>= required (no_capture 400 found.id)
    e ←
        query (environment_full_of? its_capture.env_id)
        >>= required (no_environment "Replay " found.id)
    m ← get_user_membership user (without_details e)
    member_only m (get_metrics replay found.id found.status e metric_type)
