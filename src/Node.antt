-- ===== src/Node.antt =====
-- A node: cpp/include/NodeServer.hpp and cpp/src/NodeServer.cpp, its state and the part of each
-- handler that runs on it. The calls of other nodes are in Node/Network.
-- `my_id_` is the key under which a network has the node. A `shared_ptr` to a route or to a request
-- is what the node's map has under its id. Handlers run one after the other: a handler and the calls
-- that it makes end before the next one starts.
pub mod Portal
pub mod Peer
pub mod Network
pub mod Views
pub mod Spread
pub mod Flood
pub mod Joined
pub mod Forward
pub mod Reached
pub mod Execute
pub mod Submit
pub mod Launch
pub mod Delivery
pub mod Deposit
pub mod Collected
pub mod Threads
pub mod Interleaved
pub mod Gathered
pub mod Finished
pub mod Aimed
pub mod Settled
pub mod Started
pub mod Ways
pub mod Counted
pub mod Opened
pub mod Answered
pub mod Whole
pub mod Ending
pub mod Storm
pub mod Calmed
pub mod Aborted
pub mod Canceled
pub mod Startup
pub mod Booted
pub mod Submitted
pub mod Served
use mini2_aaa.Base.{
  Eq, string_eq, same, ℕ, zero, suc, ◌+◌, ◌-◌, ◌%◌, ◌^◌, String, Bool, true, false, if◌then◌else◌,
  ◌&&◌, ◌||◌, List, [], ◌∷◌, ◌++◌, Option, none, some, length, ltb, ◌==◌, find, insert, contains,
}
use mini2_aaa.Base.Int.{ℤ, pos, negsuc}
use mini2_aaa.Domain.{QuerySpec, Row311}
use mini2_aaa.Buffer.{Buffer, push_rows, mark_producer_done}
use mini2_aaa.Cache.{QueryCache}
use mini2_aaa.Config.{Config}
use mini2_aaa.Engine.{PartitionStore}
use mini2_aaa.Registry.{RequestState, Registry}

-- `RouteState`.
pub record RouteState (D : Type 0) : Type 0 where
  pub upstream_peer : String
  pub fanout_to : List (String × String)
  pub canceled : Bool
  pub visited : List String
  pub spec : QuerySpec D
  pub created_at : ℕ

-- A detached thread `executeLocal(request_id, spec, upstream_peer)` that has not run.
pub record Worker (D : Type 0) : Type 0 where
  pub request_id : String
  pub spec : QuerySpec D
  pub upstream_peer : String

-- The members of `NodeServer`; `peer_clients` is the list of the ids that have a stub.
pub record NodeServer (D : Type 0) : Type 0 where
  pub cfg : Config
  pub cache : QueryCache D
  pub store : PartitionStore D
  pub peer_clients : List String
  pub registry : Registry D
  pub routes : List (String × RouteState D)
  pub req_counter : ℕ
  pub total_rows_served : ℕ
  pub stop : Bool
  pub start_time : ℕ
  pub workers : List (Worker D)

-- The messages of the Overlay service.
pub record ForwardQueryRequest (D : Type 0) : Type 0 where
  pub request_id : String
  pub spec : QuerySpec D
  pub origin_node : String
  pub from_node : String
  pub visited : List String
  pub ttl : ℕ
  pub issued_at_unix_us : ℕ

pub record ForwardQueryAck : Type 0 where
  pub accepted : Bool
  pub node_id : String
  pub error : String

pub record PushChunkRequest (D : Type 0) : Type 0 where
  pub request_id : String
  pub from_node : String
  pub producer_node : String
  pub rows : List (Row311 D)
  pub done : Bool
  pub seq : ℕ
  pub produced_at_us : ℕ

pub record PushChunkAck : Type 0 where
  pub ok : Bool
  pub buffered_rows : ℕ
  pub canceled : Bool
  pub suggested_delay_ms : ℕ

pub record AbortRequest : Type 0 where
  pub request_id : String
  pub from_node : String
  pub reason : String

-- `kSelfRoute`.
abbrev pub self_route : String
self_route = "__self__"

-- `static_cast<std::uint32_t>` and `static_cast<std::size_t>` of an `int`.
abbrev pub to_u32 : ℤ → ℕ
to_u32 (pos n) = n % 2 ^ 32
to_u32 (negsuc n) = 2 ^ 32 - 1 - n % 2 ^ 32

abbrev pub to_size : ℤ → ℕ
to_size (pos n) = n % 2 ^ 64
to_size (negsuc n) = 2 ^ 64 - 1 - n % 2 ^ 64

-- Whether `peer(id)` is a stub.
abbrev pub has_peer : {D : Type 0} → String → NodeServer D → Bool
has_peer id n = contains id n.peer_clients

-- The answers of `PushChunk` to a request that is gone or cancelled, and where there is no upstream.
abbrev pub refused : PushChunkAck
refused = record { ok = false; buffered_rows = 0; canceled = true; suggested_delay_ms = 0 }

abbrev pub no_upstream : PushChunkAck
no_upstream = record { ok = false; buffered_rows = 0; canceled = false; suggested_delay_ms = 0 }

module _ {D : Type 0} where
  -- What `ForwardQuery` answers before it takes the query; `none` if it goes on.
  unfoldable pub refusal : (my_id : String) → ForwardQueryRequest D → NodeServer D → Option String
  refusal my_id req n =
      if contains my_id req.visited
      then some "loop"
      else elim (find req.request_id n.routes) [ none ↦ none | some r ↦ some "dup" ]

  -- The route that `ForwardQuery` makes.
  unfoldable pub new_route : (my_id : String) (now : ℕ) → ForwardQueryRequest D → RouteState D
  new_route my_id now req = record {
    upstream_peer = req.from_node;
    fanout_to = [];
    canceled = false;
    visited = req.visited ++ (my_id ∷ []);
    spec = req.spec;
    created_at = now;
  }

  -- `routes_[rid] = route`.
  unfoldable pub add_route : String → RouteState D → NodeServer D → NodeServer D
  add_route rid route n = record n { routes = insert rid route n.routes }

  -- A change of the route of a request, if there is one.
  unfoldable pub change_route : String → (RouteState D → RouteState D) → NodeServer D → NodeServer D
  change_route rid g n = elim (find rid n.routes) [
    | none ↦ n
    | some r ↦ record n { routes = insert rid (g r) n.routes }
  ]

  -- `route->fanout_to[nb] = nb`.
  abbrev pub note_fanout : String → String → NodeServer D → NodeServer D
  note_fanout rid nb = change_route rid (λ r. record r { fanout_to = insert nb nb r.fanout_to })

  -- `route->canceled.store(true)`.
  abbrev pub cancel_route : String → NodeServer D → NodeServer D
  cancel_route rid = change_route rid (λ r. record r { canceled = true })

  -- `std::thread(...).detach()`.
  unfoldable pub spawn : Worker D → NodeServer D → NodeServer D
  spawn w n = record n { workers = n.workers ++ (w ∷ []) }

  -- A change of the state of a request, if the registry has it.
  unfoldable pub change_request :
      String → (RequestState D → RequestState D) → NodeServer D → NodeServer D
  change_request rid g n = elim (find rid n.registry) [
    | none ↦ n
    | some st ↦ record n { registry = insert rid (g st) n.registry }
  ]

  -- `st->buffer->markProducerDone(p)`.
  abbrev pub producer_done : String → String → NodeServer D → NodeServer D
  producer_done rid p =
      change_request rid (λ st. record st { buffer = mark_producer_done p st.buffer })

  -- What a chunk does to the buffer of the portal.
  unfoldable pub deposit :
      List (Row311 D) → (done : Bool) → (producer : String) → Buffer (Row311 D) → Buffer (Row311 D)
  deposit rows done producer b =
      let b' = (push_rows rows b).0 in if done then mark_producer_done producer b' else b'

  -- `PushChunk` at the portal; `backoff` is the parameter push_backoff_ms.
  unfoldable pub receive_chunk :
      (backoff : ℕ) → PushChunkRequest D → NodeServer D → NodeServer D × PushChunkAck
  unfolding deposit change_request
  receive_chunk backoff req n = elim (find req.request_id n.registry) [
    | none ↦ (n, refused)
    | some st ↦
        if st.buffer.canceled
        then (n, refused)
        else (let b = deposit req.rows req.done req.producer_node st.buffer in
            (
              change_request req.request_id (λ st. record st { buffer = b }) n,
              record {
                ok = true;
                buffered_rows = length b.q % 2 ^ 32;
                canceled = false;
                suggested_delay_ms =
                    if ltb (push_rows req.rows st.buffer).1 (length req.rows) then backoff else 0;
              },
            ))
  ]
