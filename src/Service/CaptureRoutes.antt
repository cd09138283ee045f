-- ===== src/Service/CaptureRoutes.antt =====
-- service/src/routes/capture.ts: reading, stopping, renaming and deleting captures.
-- `request.user! !== capture!.ownerId` compares an object with `undefined`, since `rowToICapture` keeps no
-- owner: it holds of every user.
pub mod Rights
pub mod Deletion
use lil_bobby_tables_my_crt.Common.Tests.{
  ℕ, zero, suc, ◌+◌, ◌/◌, String, Bool, not, ◌||◌, Option, none, some, List, [], ◌∷◌, ◌++◌, str_eq,
  if◌then◌else◌, codes,
}
use lil_bobby_tables_my_crt.Common.Exec.{ok}
use lil_bobby_tables_my_crt.Common.Action.{◌>>=◌, ◌>>◌, pure, reads}
use lil_bobby_tables_my_crt.Common.Digits.{decimal}
use lil_bobby_tables_my_crt.Data.{
  ChildProgramStatus, scheduled, started, starting, running, stopping, done, failed, status_eq,
}
use lil_bobby_tables_my_crt.Service.Tables.{User, Tables}
use lil_bobby_tables_my_crt.Service.Http.{
  Failure, http_error, Message, stop_capture, delete_prefix, Handler, Text, fail, fail_with,
  required, send, query,
}
use lil_bobby_tables_my_crt.Service.EnvironmentDao.{
  Environment, EnvironmentFull, environment_of, environment_full_of, get_environment,
}
use lil_bobby_tables_my_crt.Service.InviteDao.{EnvironmentMember, get_user_membership}
use lil_bobby_tables_my_crt.Service.CaptureDao.{
  Capture, get_capture, get_all_captures, get_captures_for_environment,
  get_captures_for_env_by_name, update_capture_status, update_capture_name, delete_capture,
}

-- `getEnvironment(capture!.envId!)`: no row has a NULL id.
abbrev pub environment_of? : Option ℕ → Tables → Option Environment
environment_of? none t = none
environment_of? (some id) t = environment_of id t

abbrev pub environment_full_of? : Option ℕ → Tables → Option EnvironmentFull
environment_full_of? none t = none
environment_full_of? (some id) t = environment_full_of id t

abbrev pub not_found : Failure
not_found = http_error 404 none

-- `Capture ${id}'s environment does not exist`
abbrev pub no_environment : String → ℕ → Failure
no_environment program id =
    http_error 404 (some (codes program ++ (decimal id ++ codes "'s environment does not exist")))

-- The membership that reading needs: of an `IEnvironmentFull` its id and owner are used.
abbrev pub without_details : EnvironmentFull → Environment
without_details e = record {
  id = e.id;
  name = e.env_name;
  owner_id = e.owner_id;
  aws_keys_id = some e.keys_id;
  db_id = none;
  s3_id = none;
  username = e.username;
}

module _ {A : Type 0} where
  unfoldable pub member_only : EnvironmentMember → Handler A → Handler A
  unfolding fail
  member_only m handler = if m.is_member then handler else fail 401

unfoldable pub captures_by : ℕ → Option String → Handler (Option (List Capture))
unfolding get_captures_for_env_by_name get_captures_for_environment pure
captures_by env_id none = get_captures_for_environment env_id >>= λ cs. pure (some cs)
captures_by env_id (some name) =
    if str_eq name ""
    then (get_captures_for_environment env_id >>= λ cs. pure (some cs))
    else get_captures_for_env_by_name env_id name

-- `GET /captures`; an environment id of 0 counts as none.
unfoldable pub list_captures : User → Option ℕ → Option String → Handler (Option (List Capture))
unfolding get_all_captures get_environment get_user_membership member_only captures_by required pure
list_captures user none name = get_all_captures (some user) >>= λ cs. pure (some cs)
list_captures user (some zero) name = get_all_captures (some user) >>= λ cs. pure (some cs)
list_captures user (some (suc n)) name = do
  environment ←
      get_environment (suc n)
      >>= required (
          http_error 404
            (some (codes "Environment " ++ (decimal (suc n) ++ codes " does not exist"))))
  m ← get_user_membership user environment
  member_only m (captures_by (suc n) name)

-- `GET /captures/:id`
unfoldable pub show_capture : User → ℕ → Handler Capture
unfolding get_capture get_user_membership member_only required query pure
show_capture user id = do
  capture ← get_capture id >>= required not_found
  environment ← query (environment_of? capture.env_id) >>= required (no_environment "Capture " id)
  m ← get_user_membership user environment
  member_only m (pure capture)

-- The start of the routes that change a capture.
unfoldable pub find_as_admin : User → ℕ → Handler Capture
unfolding get_capture get_user_membership required query fail pure
find_as_admin user id = do
  capture ← get_capture id >>= required not_found
  environment ← query (environment_of? capture.env_id) >>= required (no_environment "Capture " id)
  m ← get_user_membership user environment
  if not m.is_admin then fail 401 else pure capture

module _ (delivered : ℕ → List Message → Bool) where
  -- The capture's process answers, or it does not and the capture has failed.
  unfoldable pub send_stop : ℕ → Handler (Unit {0})
  unfolding send update_capture_status fail_with
  send_stop id = do
    send (stop_capture id)
    answered ← reads (λ w. ok (delivered id w.sent))
    (if answered
        then pure tt
        else (update_capture_status id failed (some "Failed to send the capture stop signal")
            >> fail_with 500 (codes "Failed to send the capture stop signal")))

  unfoldable pub stop_found : Capture → ChildProgramStatus → Handler (Unit {0})
  unfolding send_stop fail_with
  stop_found c running = send_stop c.id
  stop_found c scheduled =
      fail_with 501 (codes "No support for stopping scheduled captures that haven't started")
  stop_found c starting =
      fail_with 409
        (codes "Cannot stop the capture until it has started completely. Try again soon.")
  stop_found c started =
      fail_with 409
        (codes "Cannot stop the capture until it has started completely. Try again soon.")
  stop_found c stopping = fail_with 409 (codes "This capture has already been stopped.")
  stop_found c done = fail_with 409 (codes "This capture has already been stopped.")
  stop_found c failed = fail_with 409 (codes "This capture failed and is no longer running.")

  -- `POST /captures/:id/stop`
  unfoldable pub stop_route : User → ℕ → Handler (Unit {0})
  unfolding find_as_admin stop_found
  stop_route user id = find_as_admin user id >>= λ c. stop_found c c.status

abbrev rename_unless : Option (List Capture) → ℕ → String → Handler (Unit {0})
rename_unless none id name = update_capture_name id name
rename_unless (some cs) id name =
    fail_with 400 (codes "Capture with same name already exists in this environment")

-- `PUT /captures/:id`; the capture's id is passed as the environment's.
unfoldable pub rename_route : User → ℕ → String → Handler (Unit {0})
unfolding find_as_admin get_captures_for_env_by_name update_capture_name fail_with
rename_route user id name = do
  capture ← find_as_admin user id
  same ← get_captures_for_env_by_name id name
  rename_unless same capture.id name

abbrev is_stoppable : ChildProgramStatus → Bool
is_stoppable s = status_eq s started || (status_eq s starting || status_eq s running)

-- The stop signal whose answer nobody awaits.
unfoldable pub stop_first : Option Capture → Handler (Unit {0})
unfolding send pure
stop_first none = pure tt
stop_first (some c) = if is_stoppable c.status then send (stop_capture c.id) else pure tt

-- `environment${env.id}/capture${request.params.id}/`
abbrev logs_prefix : String → ℕ → ℕ → Text
logs_prefix program env_id id =
    codes "environment"
    ++ (decimal env_id ++ (b'/' ∷ (codes program ++ (decimal id ++ (b'/' ∷ [])))))

unfoldable pub delete_logs : String → ℕ → Option EnvironmentFull → Handler (Unit {0})
unfolding send pure
delete_logs program id none = pure tt
delete_logs program id (some e) = send (delete_prefix (logs_prefix program e.id id))

unfoldable pub delete_logs_of : Capture → Bool → ℕ → Handler (Unit {0})
unfolding query delete_logs pure
delete_logs_of capture is_delete_logs id =
    if is_delete_logs
    then (query (environment_full_of? capture.env_id) >>= delete_logs "capture" id)
    else pure tt

-- `DELETE /captures/:id`
unfoldable pub delete_route : User → ℕ → Bool → Handler (Option (Unit {0}))
unfolding find_as_admin get_capture stop_first delete_capture delete_logs_of pure
delete_route user id is_delete_logs = do
  capture ← find_as_admin user id
  current ← get_capture id
  stop_first current
  deleted ← delete_capture id
  delete_logs_of capture is_delete_logs id
  pure deleted
