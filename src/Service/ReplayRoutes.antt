-- ===== src/Service/ReplayRoutes.antt =====
-- service/src/routes/replay.ts and service/src/middleware/replay.ts: reading, renaming and deleting
-- replays, and the checks before one is made.
pub mod Checks
use lil_bobby_tables_my_crt.Service.ReplayDao.{update_replay_name}
use lil_bobby_tables_my_crt.Common.Tests.{
  ℕ, zero, suc, ◌+◌, String, Bool, true, false, not, ◌&&◌, ◌||◌, Option, none, some, List, [], ◌∷◌,
  ◌++◌, map, str_eq, ◌==◌, if◌then◌else◌, codes,
}
use lil_bobby_tables_my_crt.Common.Lists.{select, any}
use lil_bobby_tables_my_crt.Common.Action.{◌>>=◌, ◌>>◌, pure}
use lil_bobby_tables_my_crt.Common.Digits.{decimal}
use lil_bobby_tables_my_crt.Service.Tables.{User, Tables}
use lil_bobby_tables_my_crt.Service.Http.{
  Failure, http_error, Handler, fail, fail_with, required, query,
}
use lil_bobby_tables_my_crt.Service.EnvironmentDao.{EnvironmentFull}
use lil_bobby_tables_my_crt.Service.InviteDao.{EnvironmentMember, get_user_membership}
use lil_bobby_tables_my_crt.Service.CaptureDao.{Capture, capture_of, get_capture}
use lil_bobby_tables_my_crt.Service.ReplayDao.{
  Replay, get_replay, get_all_replays, get_replays_for_capture, get_replays_for_cap_by_name,
  delete_replay, any_replays_on_db,
}
use lil_bobby_tables_my_crt.Service.CaptureRoutes.{
  environment_of?, environment_full_of?, not_found, no_environment, without_details, member_only,
  delete_logs,
}

-- `Replay ${id}'s capture does not exist`
abbrev pub no_capture : ℕ → ℕ → Failure
no_capture code id =
    http_error code (some (codes "Replay " ++ (decimal id ++ codes "'s capture does not exist")))

-- `getCapture(replay.captureId!)`
abbrev pub capture_of? : Option ℕ → Tables → Option Capture
capture_of? none t = none
capture_of? (some id) t = capture_of id t

-- `GET /replays/:id`; the capture read is the one of the replay's id.
unfoldable pub show_replay : User → ℕ → Handler Replay
unfolding get_replay get_capture get_user_membership member_only required query pure
show_replay user id = do
  replay ← get_replay id >>= required not_found
  capture ← get_capture id >>= required (no_capture 404 replay.id)
  environment ←
      query (environment_of? capture.env_id) >>= required (no_environment "Replay " replay.id)
  m ← get_user_membership user environment
  member_only m (pure replay)

unfoldable pub replays_by : ℕ → Option String → Handler (Option (List Replay))
unfolding get_replays_for_cap_by_name get_replays_for_capture pure
replays_by capture_id none = get_replays_for_capture capture_id >>= λ rs. pure (some rs)
replays_by capture_id (some name) =
    if str_eq name ""
    then (get_replays_for_capture capture_id >>= λ rs. pure (some rs))
    else get_replays_for_cap_by_name capture_id name

-- `GET /replays`; a capture id of 0 counts as none.
unfoldable pub list_replays : User → Option ℕ → Option String → Handler (Option (List Replay))
unfolding get_all_replays get_capture get_user_membership member_only replays_by required query pure
list_replays user none name = get_all_replays user >>= λ rs. pure (some rs)
list_replays user (some zero) name = get_all_replays user >>= λ rs. pure (some rs)
list_replays user (some (suc n)) name = do
  capture ←
      get_capture (suc n)
      >>= required
          (http_error 404 (some (codes "Capture " ++ (decimal (suc n) ++ codes " does not exist"))))
  environment ←
      query (environment_of? capture.env_id) >>= required (no_environment "Capture " (suc n))
  m ← get_user_membership user environment
  member_only m (replays_by (suc n) name)

-- `replayWithSameName === null`: what is compared is the promise of a query that is not awaited.
abbrev is_null_promise : Handler (Option (List Replay)) → Bool
is_null_promise promise = false

abbrev rename_unless_null : Bool → ℕ → String → Handler (Unit {0})
rename_unless_null true id name = update_replay_name id name
rename_unless_null false id name =
    fail_with 400 (codes "Replay with same name already exists for this capture")

-- `PUT /replays/:id`; the environment's id is passed as the capture's.
unfoldable pub rename_replay_route : User → ℕ → String → Handler (Unit {0})
unfolding get_replay get_replays_for_cap_by_name update_replay_name get_user_membership required
    query fail fail_with pure
rename_replay_route user id name = do
  replay ← get_replay id >>= required not_found
  capture ← query (capture_of? replay.capture_id) >>= required (no_capture 404 replay.id)
  environment ←
      query (environment_of? capture.env_id) >>= required (no_environment "Replay " replay.id)
  m ← get_user_membership user environment
  (if not m.is_admin
      then fail 401
      else let same = get_replays_for_cap_by_name environment.id name in
        rename_unless_null (is_null_promise same) replay.id name)

unfoldable pub delete_replay_logs : EnvironmentFull → Bool → ℕ → Handler (Unit {0})
unfolding delete_logs pure
delete_replay_logs environment is_delete_logs id =
    if is_delete_logs then delete_logs "replay" id (some environment) else pure tt

unfoldable pub delete_if_admin :
    EnvironmentMember → EnvironmentFull → ℕ → Bool → Handler (Option (Unit {0}))
unfolding delete_replay delete_replay_logs fail pure
delete_if_admin m environment id is_delete_logs = if not m.is_admin then fail 401 else do
  deleted ← delete_replay id
  delete_replay_logs environment is_delete_logs id
  pure deleted

-- `DELETE /replays/:id`
unfoldable pub delete_replay_route : User → ℕ → Bool → Handler (Option (Unit {0}))
unfolding get_replay get_user_membership delete_if_admin required query
delete_replay_route user id is_delete_logs = do
  replay ← get_replay id >>= required not_found
  capture ← query (capture_of? replay.capture_id) >>= required (no_capture 400 replay.id)
  environment ←
      query (environment_full_of? capture.env_id) >>= required (no_environment "Replay " replay.id)
  m ← get_user_membership user (without_details environment)
  delete_if_admin m environment id is_delete_logs

-- What a request for replays says of a target.
pub record Target : Type 0 where
  pub db_name : String
  pub host : String

abbrev pub busy : Tables → Target → Bool
busy t target = any_replays_on_db target.db_name target.host t

-- `noReplaysOnTargetDb`: whether the next handler is called.
unfoldable pub no_replays_on_target_db : Target → Tables → Bool
no_replays_on_target_db target t = not (busy t target)

-- `replay.host + replay.dbName`
abbrev pub target_key : Target → List ℕ
target_key target = codes target.host ++ codes target.db_name

abbrev pub codes_eq : List ℕ → List ℕ → Bool
codes_eq [] [] = true
codes_eq (x ∷ xs) (y ∷ ys) = x == y && codes_eq xs ys
codes_eq _ _ = false

-- `targetDbs.length !== new Set(targetDbs).size`
unfoldable pub repeated : List (List ℕ) → Bool
repeated [] = false
repeated (k ∷ ks) = any (codes_eq k) ks || repeated ks

-- What the request causes: the next handler is called or not, and later the asynchronous tests of the
-- `forEach` answer 400 once for each busy target.
pub record MimicCheck : Type 0 where
  pub calls_next : Bool
  pub late_answers : List Target

-- `noMimicReplaysOnSameDb`: `errors` is read before any asynchronous test has run.
unfoldable pub no_mimic_replays_on_same_db : List Target → Tables → MimicCheck
no_mimic_replays_on_same_db targets t = record {
  calls_next = not (repeated (map target_key targets));
  late_answers = select (busy t) targets;
}
