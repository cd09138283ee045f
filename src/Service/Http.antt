-- ===== src/Service/Http.antt =====
-- service/src/http-error.ts, `handleHttpErrors` of service/src/routes/self-aware-router.ts and the world
-- of a request: the database, the clock, and what was sent to the other processes.
pub mod Keeps
use lil_bobby_tables_my_crt.Common.Tests.{ℕ, Option, none, some, List, [], ◌∷◌, ◌++◌}
use lil_bobby_tables_my_crt.Common.Exec.{Result, ok, throw}
use lil_bobby_tables_my_crt.Common.Action.{Action, pure, raise, reads, modify}
use lil_bobby_tables_my_crt.Service.Tables.{Tables}

-- A text as its code points.
abbrev pub Text : Type 0
Text = List ℕ

-- An `HttpError`, whose message may be the status text of its code, or any other thrown error.
pub data Failure : Type 0 where
  http_error : ℕ → Option Text → Failure
  other_error : Text → Failure

-- What leaves the service beside the response.
pub data Message : Type 0 where
  -- `ipcNode.stopCapture`, with the answer awaited or not
  stop_capture : ℕ → Message
  -- `deletePrefix` on the environment's bucket
  delete_prefix : Text → Message
  -- `SlackBot.postMessage` to an environment's channel
  slack : ℕ → Message
  -- `startCapture`
  launch_capture : ℕ → Message
  -- a status that was sent before the handler went on
  send_status : ℕ → Message
  -- `startReplay`
  launch_replay : ℕ → Message
  -- `startMimic`, with the ids of the replays
  launch_mimic : ℕ → List ℕ → Message
  -- `scheduleJob` at a time, which launches a capture or a replay, or stops a capture
  launch_at launch_replay_at stop_at : ℕ → ℕ → Message
  -- `scheduleJob` at a time, which launches a mimic
  launch_mimic_at : ℕ → ℕ → List ℕ → Message

pub record World : Type 0 where
  pub tables : Tables
  pub now : ℕ
  pub sent : List Message

abbrev pub Handler : Type 0 → Type 0
Handler A = Action World Failure A

module _ {A : Type 0} where
  unfoldable pub fail : ℕ → Handler A
  unfolding raise
  fail code = raise (http_error code none)

  unfoldable pub fail_with : ℕ → Text → Handler A
  unfolding raise
  fail_with code message = raise (http_error code (some message))

  -- The row that a query found, or the error of a route without it.
  unfoldable pub required : Failure → Option A → Handler A
  unfolding raise pure
  required e none = raise e
  required e (some a) = pure a

unfoldable pub send : Message → Handler (Unit {0})
unfolding modify
send m = modify (λ w. record w { sent = w.sent ++ (m ∷ []) })

-- A query that reads the tables.
unfoldable pub query : {A : Type 0} → (Tables → A) → Handler A
unfolding reads
query f = reads (λ w. ok (f w.tables))

-- A query that writes them.
unfoldable pub execute : (Tables → Tables) → Handler (Unit {0})
unfolding modify
execute f = modify (λ w. record w { tables = f w.tables })

-- The response of a handler: its result, or the code and message of what it threw.
pub data Response (A : Type 0) : Type 0 where
  json : ℕ → A → Response A
  error_item : ℕ → Option Text → Response A

module _ {A : Type 0} where
  abbrev respond : Result Failure A → Response A
  respond (ok a) = json 200 a
  respond (throw (http_error code message)) = error_item code message
  respond (throw (other_error message)) = error_item 500 (some message)

  unfoldable pub handle_http_errors : Handler A → World → Response A × World
  handle_http_errors handler w = let r = handler w in (respond r.0, r.1)
