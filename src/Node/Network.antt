-- ===== src/Node/Network.antt =====
-- The calls between nodes in cpp/src/NodeServer.cpp. A network is its nodes by id. A call of a node
-- that is not there fails, as its stub (cpp/src/PeerClient.cpp) reports by `false`: here `none`.
-- The depth of nested calls is bounded by fuel; `none` outside is that it runs out.
use mini2_aaa.Base.{
  string_eq, same, ℕ, zero, suc, ◌-◌, String, Bool, true, false, if◌then◌else◌, ◌||◌, List, [], ◌∷◌,
  Option, none, some, ◌==◌, find, insert, contains,
}
use mini2_aaa.Config.{node}
use mini2_aaa.Node.{
  NodeServer, RouteState, ForwardQueryRequest, ForwardQueryAck, PushChunkRequest, PushChunkAck,
  AbortRequest, refusal, new_route, add_route, note_fanout, cancel_route, spawn, has_peer,
  receive_chunk, refused, no_upstream,
}

abbrev pub Net : Type 0 → Type 0
Net D = List (String × NodeServer D)

-- The answer of a call: the network after it, and the message unless the call failed.
abbrev pub Answer : Type 0 → Type 0 → Type 0
Answer D A = Option (Net D × Option A)

-- The answer that an internal node makes of the answer from above; a failed call leaves `fa` empty.
abbrev pub passed_ack : Option PushChunkAck → PushChunkAck
passed_ack none = no_upstream
passed_ack (some fa) = fa

module _ {D : Type 0} where
  -- A change of the state of one node.
  unfoldable pub change : String → (NodeServer D → NodeServer D) → Net D → Net D
  change me g net = elim (find me net) [ none ↦ net | some n ↦ insert me (g n) net ]

  -- The request that `ForwardQuery` hands on.
  unfoldable pub forwarded : String → RouteState D → ForwardQueryRequest D → ForwardQueryRequest D
  forwarded me route req = record req {
    from_node = me;
    visited = route.visited;
    ttl = if req.ttl == 0 then 0 else req.ttl - 1;
  }

  -- The neighbors that `ForwardQuery` leaves out.
  abbrev pub skips : RouteState D → ForwardQueryRequest D → String → Bool
  skips route req nb = same nb req.from_node || contains nb route.visited

  -- `if (... && fa.accepted()) route->fanout_to[nb] = nb`.
  unfoldable pub heard : String → String → String → Option ForwardQueryAck → Net D → Net D
  unfolding change
  heard me rid nb none net = net
  heard me rid nb (some ack) net = if ack.accepted then change me (note_fanout rid nb) net else net

  -- The loop of `ForwardQuery` over the neighbors; `call` is the call of one.
  unfoldable pub fan_out :
      (Net D → String → ForwardQueryRequest D → Answer D ForwardQueryAck)
      → String
      → RouteState D
      → ForwardQueryRequest D
      → List String
      → Net D
      → Option (Net D)
  unfolding heard forwarded
  fan_out call me route req [] net = some net
  fan_out call me route req (nb ∷ nbs) net = elim (skips route req nb) [
    | true ↦ fan_out call me route req nbs net
    | false ↦ elim (call net nb (forwarded me route req)) [
      | none ↦ none
      | some (net', ack) ↦ fan_out call me route req nbs (heard me req.request_id nb ack net')
    ]
  ]

  -- `ForwardQuery` at node `me`; `clock` is the time at which a node makes its route.
  unfoldable pub forward_query :
      (clock : String → ℕ) → ℕ → Net D → String → ForwardQueryRequest D → Answer D ForwardQueryAck
  unfolding fan_out change refusal new_route
  forward_query clock zero net me req = none
  forward_query clock (suc fuel) net me req = elim (find me net) [
    | none ↦ some (net, none)
    | some n ↦ elim (refusal me req n) [
      | some why ↦ some (net, some (record { accepted = false; node_id = me; error = why }))
      | none ↦
          let route = new_route me (clock me) req in
          elim (fan_out (forward_query clock fuel) me route req n.peer_clients
            (change me (add_route req.request_id route) net)) [
              | none ↦ none
              | some net' ↦ some (
                change me
                    (spawn (record {
                      request_id = req.request_id;
                      spec = req.spec;
                      upstream_peer = req.from_node;
                    }))
                    net',
                some (record { accepted = true; node_id = me; error = "" }),
              )
            ]
    ]
  ]

  -- `f.set_from_node(my_id_)` on a chunk that goes up.
  abbrev pub passed : String → PushChunkRequest D → PushChunkRequest D
  passed me req = record req { from_node = me }

  -- `PushChunk` at node `me`; `cfg_.node(my_id_)` throws if the topology lacks the node, and the call
  -- fails then.
  unfoldable pub push_chunk :
      (backoff : ℕ) → ℕ → Net D → String → PushChunkRequest D → Answer D PushChunkAck
  unfolding receive_chunk
  push_chunk backoff zero net me req = none
  push_chunk backoff (suc fuel) net me req = elim (find me net) [
    | none ↦ some (net, none)
    | some n ↦ elim (node me n.cfg) [
      | none ↦ some (net, none)
      | some entry ↦ elim entry.is_root [
        | true ↦ let (n', ack) = receive_chunk backoff req n in some (insert me n' net, some ack)
        | false ↦ elim (find req.request_id n.routes) [
          | none ↦ some (net, some refused)
          | some route ↦ elim (has_peer route.upstream_peer n) [
            | false ↦ some (net, some no_upstream)
            | true ↦ elim (push_chunk backoff fuel net route.upstream_peer (passed me req)) [
              | none ↦ none
              | some (net', fa) ↦ some (net', some (passed_ack fa))
            ]
          ]
        ]
      ]
    ]
  ]

  -- The loop of `Abort` over the neighbors but the sender.
  unfoldable pub abort_all :
      (Net D → String → AbortRequest → Option (Net D))
      → String
      → AbortRequest
      → List String
      → Net D
      → Option (Net D)
  abort_all call me req [] net = some net
  abort_all call me req (nb ∷ nbs) net = elim (same nb req.from_node) [
    | true ↦ abort_all call me req nbs net
    | false ↦ elim (call net nb (record req { from_node = me })) [
      | none ↦ none
      | some net' ↦ abort_all call me req nbs net'
    ]
  ]

  -- `Abort` at node `me`, if its calls end before their deadlines; nobody reads its answer. `none` is
  -- that the calls nest deeper than the fuel, and tells nothing of what their callers do then.
  unfoldable pub abort : ℕ → Net D → String → AbortRequest → Option (Net D)
  unfolding abort_all change
  abort zero net me req = none
  abort (suc fuel) net me req = elim (find me net) [
    | none ↦ some net
    | some n ↦
        abort_all (abort fuel) me req n.peer_clients (change me (cancel_route req.request_id) net)
  ]
