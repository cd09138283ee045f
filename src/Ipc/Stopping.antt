-- ===== src/Ipc/Stopping.antt =====
-- The stop signal of the service among the nodes of the running captures and replays
-- (server-ipc-node.ts, capture-ipc-node.ts, replay-ipc-node.ts).
use lil_bobby_tables_my_crt.Common.Tests.{
  ℕ, ◌≡◌, refl, sym, ap, ◌∙◌, inl, inr, Bool, Option, none, some, List, [], ◌∷◌, ◌++◌, arith, ltb,
  ◌==◌, if◌then◌else◌, Bool-cases,
}
use lil_bobby_tables_my_crt.Common.Lists.{head, select}
use lil_bobby_tables_my_crt.Common.Exec.{Result, ok, throw}
use lil_bobby_tables_my_crt.Common.Digits.{decimal, parse_int, parse_int-decimal}
use lil_bobby_tables_my_crt.Ipc.{
  emitted_by, capture_stop, settled, caught, Reaction, responds, fails, resolved, pending, IpcNode,
  response_timeout, socket, start, serve_request, listening, connect_send_disconnect,
  get_child_socket_path, capture_ipc_node, replay_ipc_node, stop_capture,
}
use lil_bobby_tables_my_crt.Data.{capture}
use lil_bobby_tables_my_crt.Storage.Schema.{Key, Error}
use lil_bobby_tables_my_crt.Storage.Backend.{key_eq, key_eq_iff}

-- A program that runs, with what a capture does when it is stopped.
pub data Child (U : Type 0) : Type 0 where
  capture_child : ℕ → Reaction U → Child U
  replay_child : ℕ → Child U

key_eq-decimal : (m n : ℕ) → key_eq (decimal m) (decimal n) ≡ (m == n)
key_eq-decimal m n = elim (Bool-cases (m == n)) [
  | inl p ↦
      let e : m ≡ n = ground (arith, p) in
      rw p ((key_eq_iff (decimal m) (decimal n)).1 (ap decimal e))
  | inr p ↦ elim (Bool-cases (key_eq (decimal m) (decimal n))) [
    | inl q ↦
        let same = ap parse_int ((key_eq_iff (decimal m) (decimal n)).0 q) in
        let e : m ≡ n = sym (parse_int-decimal m) ∙ (same ∙ parse_int-decimal n) in
        ground (arith, p, e)
    | inr q ↦ rw p q
  ]
]

module _ {U : Type 0} (R : Type 0) where
  abbrev begun : Result Error (IpcNode (Unit {0}) U R) → List (IpcNode (Unit {0}) U R)
  begun (ok n) = n ∷ []
  begun (throw e) = []

  abbrev node_of : Child U → List (IpcNode (Unit {0}) U R)
  node_of (capture_child id on_stop) = begun (start (capture_ipc_node id on_stop))
  node_of (replay_child id) = begun (start (replay_ipc_node id))

  -- The nodes that the programs have started.
  unfoldable pub nodes_of : List (Child U) → List (IpcNode (Unit {0}) U R)
  unfolding start
  nodes_of [] = []
  nodes_of (c ∷ cs) = node_of c ++ nodes_of cs

-- What the first capture with an id does when it is stopped.
module _ {U : Type 0} where
  abbrev pub reaction_of : ℕ → List (Child U) → Option (Reaction U)
  reaction_of id [] = none
  reaction_of id (capture_child j on_stop ∷ cs) =
      if j == id then some on_stop else reaction_of id cs
  reaction_of id (replay_child j ∷ cs) = reaction_of id cs

  abbrev pub in_time : Option (Reaction U) → Option U
  in_time none = none
  in_time (some (responds u time)) = if ltb time response_timeout then some u else none
  in_time (some fails) = none

module _ {U : Type 0} (R : Type 0) where
  abbrev running : ℕ → Option (Reaction U) → List (IpcNode (Unit {0}) U R)
  running id none = []
  running id (some on_stop) = node_of R (capture_child id on_stop)

  listening-nodes_of :
      (id : ℕ) (cs : List (Child U))
      → listening (get_child_socket_path capture id) (nodes_of R cs)
        ≡ head (running id (reaction_of id cs))
  unfolding listening nodes_of get_child_socket_path socket capture_ipc_node replay_ipc_node select
  listening-nodes_of id [] = refl
  listening-nodes_of id (capture_child j on_stop ∷ cs) = elim (Bool-cases (j == id)) [
    | inl p ↦ let e : j ≡ id = ground (arith, p) in rw (key_eq-decimal j id) (rw p (rw e refl))
    | inr p ↦ rw (key_eq-decimal j id) (rw p (listening-nodes_of id cs))
  ]
  listening-nodes_of id (replay_child j ∷ cs) = listening-nodes_of id cs

  answered :
      (id : ℕ) (r : Option (Reaction U))
      → caught (settled capture_stop (emitted_by capture_stop tt (head (running id r))))
        ≡ resolved (in_time r)
  unfolding serve_request capture_ipc_node start
  answered id none = refl
  answered id (some fails) = refl
  answered id (some (responds u time)) = elim (Bool-cases (ltb time response_timeout)) [
    | inl p ↦ rw p refl
    | inr p ↦ rw p refl
  ]

  -- Where the connection to the socket of a capture is called back: of all the captures and replays that
  -- run, the service's stop reaches the first capture with that id and no other program. The
  -- promise resolves to its response if one comes within five seconds, and else to null. Without the
  -- call back it never settles.
  pub stop_capture_lem :
      (connects : Key → Bool) (id : ℕ) (cs : List (Child U))
      → stop_capture connects (nodes_of R cs) id ≡ (
          if connects (get_child_socket_path capture id)
          then resolved (in_time (reaction_of id cs))
          else pending)
  unfolding stop_capture connect_send_disconnect
  stop_capture_lem connects id cs =
      elim (Bool-cases (connects (get_child_socket_path capture id))) [
        | inl p ↦ rw p (rw (listening-nodes_of id cs) (answered id (reaction_of id cs)))
        | inr p ↦ rw p refl
      ]
