-- ===== src/Tests/Calls.antt =====
-- Captures and replays that are stopped through their sockets.
use lil_bobby_tables_my_crt.Common.Tests.{
  ℕ, ◌+◌, String, ◌≡◌, refl, true, none, some, List, [], ◌∷◌,
}
use lil_bobby_tables_my_crt.Common.Exec.{Result, ok, throw}
use lil_bobby_tables_my_crt.Common.Dict.{lookup, insert}
use lil_bobby_tables_my_crt.Storage.Schema.{Error}
use lil_bobby_tables_my_crt.Ipc.{
  responds, fails, resolved, IpcNode, new_node, handle, receive, warns_on_send, start,
  serve_request, stop_capture,
}
use lil_bobby_tables_my_crt.Ipc.Stopping.{
  Child, capture_child, replay_child, nodes_of, stop_capture_lem,
}

abbrev children : List (Child String)
children =
    replay_child 3
    ∷ capture_child 31 (responds "late" 5000)
    ∷ capture_child 3 (responds "stopped" 200)
    ∷ capture_child 4 fails
    ∷ []

-- The capture 3 answers, not the replay 3 and not the capture 31.
stop_capture_lem_example :
    stop_capture (λ _. true) (nodes_of ℕ children) 3 ≡ resolved (some "stopped")
stop_capture_lem_example = stop_capture_lem ℕ (λ _. true) 3 children

-- An answer after five seconds is too late.
late_answer : stop_capture (λ _. true) (nodes_of ℕ children) 31 ≡ resolved none
late_answer = stop_capture_lem ℕ (λ _. true) 31 children

abbrev node : IpcNode ℕ ℕ ℕ
node = receive "double" 7 (new_node [])

-- A node warns of a message although it has a receiver for its response.
warned_with_receiver : warns_on_send "double" node ≡ true
unfolding warns_on_send receive insert lookup
warned_with_receiver = refl

-- A handler that is registered before the start is served, and one that is registered later is not.
abbrev doubling : IpcNode ℕ ℕ ℕ → IpcNode ℕ ℕ ℕ
doubling = handle "double" (λ k. responds (k + k) 1)

abbrev begun : Result Error (IpcNode ℕ ℕ ℕ) → IpcNode ℕ ℕ ℕ
begun (ok n) = n
begun (throw e) = node

served_before_start :
    (serve_request "double" 4 (begun (start (doubling node))) ≡ some ("double.response", (8, 1)))
    × (serve_request "double" 4 (doubling (begun (start node))) ≡ none)
unfolding start handle serve_request receive insert lookup
served_before_start = (refl, refl)
