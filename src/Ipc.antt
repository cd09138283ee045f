-- ===== src/Ipc.antt =====
-- common/src/ipc: IpcNode, its children for captures and replays, and the node of the service. Messages go
-- over sockets of the node-ipc package: of its server, the model says that it listens at the
-- path of its socket once started; whether a connection to a path is called back is an argument.
pub mod Stopping
use lil_bobby_tables_my_crt.Common.Tests.{
  ℕ, String, Bool, true, false, not, ◌&&◌, Option, none, some, List, [], ◌++◌, map, str_eq, ltb,
  if◌then◌else◌, is_some, codes,
}
use lil_bobby_tables_my_crt.Common.Lists.{head, select}
use lil_bobby_tables_my_crt.Common.Exec.{Result, ok, throw}
use Prim.Native.String.{◌++◌ as ◌then◌}
use lil_bobby_tables_my_crt.Common.Digits.{decimal}
use lil_bobby_tables_my_crt.Common.Dict.{lookup, insert}
use lil_bobby_tables_my_crt.Data.{ChildProgramType, capture, replay, mimic}
use lil_bobby_tables_my_crt.Storage.Schema.{Key, Error}
use lil_bobby_tables_my_crt.Storage.Backend.{key_eq}

-- What a handler does with a request: its promise resolves to a response so many milliseconds later, or
-- it rejects.
pub data Reaction (U : Type 0) : Type 0 where
  responds : U → ℕ → Reaction U
  fails : Reaction U

-- A promise: what it settles to, or that it never does.
pub data Outcome (U : Type 0) : Type 0 where
  resolved : U → Outcome U
  rejected : Error → Outcome U
  pending : Outcome U

-- A node, for requests `T`, responses `U` and receivers `R`; `served` are the handlers that its server has.
pub record IpcNode (T U R : Type 0) : Type 0 where
  pub id : Key
  pub is_started : Bool
  pub handlable_messages : List (String × (T → Reaction U))
  pub receivable_messages : List (String × R)
  pub served : List (String × (T → Reaction U))

abbrev pub socket_root : Key
socket_root = codes "/tmp/"

abbrev pub appspace : Key
appspace = codes "mycrt."

-- `${name}${RESPONSE_SUFFIX}`
abbrev pub response_name : String → String
response_name name = name then ".response"

abbrev pub response_timeout : ℕ
response_timeout = 5000

module _ {U : Type 0} where
  abbrev emitted : String → Reaction U → Option (String × (U × ℕ))
  emitted name (responds u time) = some (response_name name, (u, time))
  emitted name fails = none

  abbrev reply : {T : Type 0} → String → T → Option (T → Reaction U) → Option (String × (U × ℕ))
  reply name request none = none
  reply name request (some handler) = emitted name (handler request)

  -- What the request settles to, for what is emitted to its socket.
  abbrev pub settled : String → Option (String × (U × ℕ)) → Outcome U
  settled name none = rejected "socket response timeout"
  settled name (some r) =
      if str_eq r.0 (response_name name) && ltb r.1.1 response_timeout
      then resolved r.1.0
      else rejected "socket response timeout"

  abbrev pub caught : Outcome U → Outcome (Option U)
  caught (resolved u) = resolved (some u)
  caught (rejected e) = resolved none
  caught pending = pending

module _ {T U R : Type 0} where
  abbrev pub new_node : Key → IpcNode T U R
  new_node id = record {
    id = id;
    is_started = false;
    handlable_messages = [];
    receivable_messages = [];
    served = [];
  }

  unfoldable pub socket : IpcNode T U R → Key
  socket n = socket_root ++ (appspace ++ n.id)

  unfoldable pub handle : String → (T → Reaction U) → IpcNode T U R → IpcNode T U R
  handle name handler n = record n { handlable_messages = insert name handler n.handlable_messages }

  unfoldable pub handled_messages : IpcNode T U R → List String
  handled_messages n = map (λ m. m.0) n.handlable_messages

  unfoldable pub clear_handlable_ipc_messages : IpcNode T U R → IpcNode T U R
  clear_handlable_ipc_messages n = record n { handlable_messages = [] }

  unfoldable pub receive : String → R → IpcNode T U R → IpcNode T U R
  receive name receiver n = record n {
    receivable_messages = insert (response_name name) receiver n.receivable_messages;
  }

  unfoldable pub clear_receivers : IpcNode T U R → IpcNode T U R
  clear_receivers n = record n { receivable_messages = [] }

  -- Whether `sendMessage` warns that there is no receiver; the message is sent in any case.
  unfoldable pub warns_on_send : String → IpcNode T U R → Bool
  warns_on_send name n = not (is_some (lookup name n.receivable_messages))

  -- The handlers that are registered later are not served.
  unfoldable pub apply_handlers : IpcNode T U R → IpcNode T U R
  apply_handlers n = record n { served = n.handlable_messages }

  -- `IpcNode.start` and `IpcNode.stop`
  unfoldable pub start : IpcNode T U R → Result Error (IpcNode T U R)
  unfolding apply_handlers
  start n =
      if n.is_started
      then throw "IpcNode is already started"
      else ok (record (apply_handlers n) { is_started = true })

  unfoldable pub stop : IpcNode T U R → Result Error (IpcNode T U R)
  stop n =
      if n.is_started
      then ok (record n { is_started = false; served = [] })
      else throw "IpcNode is not started"

  -- What the server of a node emits on a request: the name of the response, the response, and when.
  unfoldable pub serve_request : String → T → IpcNode T U R → Option (String × (U × ℕ))
  unfolding lookup
  serve_request name request n = reply name request (lookup name n.served)

  -- The node whose server listens at a path. Ids are unique in the program, so that there is one at most.
  unfoldable pub listening : Key → List (IpcNode T U R) → Option (IpcNode T U R)
  unfolding socket key_eq
  listening path nodes = head (select (λ n. n.is_started && key_eq (socket n) path) nodes)

  abbrev pub emitted_by : String → T → Option (IpcNode T U R) → Option (String × (U × ℕ))
  emitted_by name request none = none
  emitted_by name request (some n) = serve_request name request n

  -- `connectSendDisconnect` in a network of nodes
  unfoldable pub connect_send_disconnect :
      (Key → Bool) → List (IpcNode T U R) → Key → String → T → Outcome U
  connect_send_disconnect connects nodes path name request =
      if connects path
      then settled name (emitted_by name request (listening path nodes))
      else pending

abbrev pub server_ipc_node_id : Key
server_ipc_node_id = codes "server.ipcnode"

abbrev pub server_ipc_node_path : Key
server_ipc_node_path = socket_root ++ (appspace ++ server_ipc_node_id)

abbrev pub capture_stop : String
capture_stop = "capture.stop"

abbrev type_name : ChildProgramType → Key
type_name capture = codes "capture"
type_name replay = codes "replay"
type_name mimic = codes "replay"

-- `ServerIpcNode.getChildSocketPath`
unfoldable pub get_child_socket_path : ChildProgramType → ℕ → Key
get_child_socket_path type id = socket_root ++ (appspace ++ (type_name type ++ decimal id))

module _ {U R : Type 0} where
  -- `CaptureIpcNode`, for what the `onStop` of its delegate does; its requests hold nothing.
  unfoldable pub capture_ipc_node : ℕ → Reaction U → IpcNode (Unit {0}) U R
  unfolding handle insert
  capture_ipc_node id on_stop =
      handle capture_stop (λ _. on_stop) (new_node (codes "capture" ++ decimal id))

  -- `ReplayIpcNode`, which handles nothing
  unfoldable pub replay_ipc_node : ℕ → IpcNode (Unit {0}) U R
  replay_ipc_node id = new_node (codes "replay" ++ decimal id)

  -- `ChildIpcNode.start`, which waits for a connection to the service first
  unfoldable pub start_child :
      (Key → Bool) → IpcNode (Unit {0}) U R → Outcome (IpcNode (Unit {0}) U R)
  unfolding start
  start_child connects n = if connects server_ipc_node_path then promised (start n) else pending
    where
      promised : Result Error (IpcNode (Unit {0}) U R) → Outcome (IpcNode (Unit {0}) U R)
      promised (ok m) = resolved m
      promised (throw e) = rejected e

  -- `ServerIpcNode.stopCapture`
  unfoldable pub stop_capture :
      (Key → Bool) → List (IpcNode (Unit {0}) U R) → ℕ → Outcome (Option U)
  stop_capture connects nodes id =
      caught
        (connect_send_disconnect connects nodes (get_child_socket_path capture id) capture_stop tt)
