-- ===== src/Node/Execute.antt =====
-- `executeLocal` of cpp/src/NodeServer.cpp: a worker runs the query on its node's rows and pushes the
-- chunks up.
use mini2_aaa.Base.{
  string_eq, same, ℕ, zero, suc, ◌+◌, ◌%◌, ◌^◌, String, Bool, true, false, if◌then◌else◌, ◌||◌,
  List, [], ◌∷◌, Option, none, some, find,
}
use mini2_aaa.Base.Int.{ℤ}
use mini2_aaa.Domain.{Floating}
use mini2_aaa.Engine.{Chunk, run}
use mini2_aaa.Node.{
  NodeServer, RouteState, Worker, PushChunkRequest, PushChunkAck, self_route, change_request,
  deposit, has_peer, no_upstream,
}
use mini2_aaa.Node.Network.{Net, Answer, change, push_chunk}
use mini2_aaa.Node.Portal.{u32_param}

module _ {D : Type 0} where
  -- The loop of at most `retries` pushes; `ack` keeps the last answer.
  unfoldable pub push_retry :
      (Net D → PushChunkRequest D → Answer D PushChunkAck)
      → (retries : ℕ) → PushChunkRequest D
      → PushChunkAck
      → Net D
      → Option (Net D)
  push_retry call zero p ack net = some net
  push_retry call (suc retries) p ack net = elim (call net p) [
    | none ↦ none
    | some (net', none) ↦ elim ack.canceled [
      | true ↦ some net'
      | false ↦ push_retry call retries p ack net'
    ]
    | some (net', some ack') ↦ elim (ack'.ok || ack'.canceled) [
      | true ↦ some net'
      | false ↦ push_retry call retries p ack' net'
    ]
  ]

  -- The request that the sink builds of a chunk; `stamp` is its `produced_at_us`.
  unfoldable pub chunk_push :
      (me : String) (stamp seq : ℕ) → Worker D → Chunk D → PushChunkRequest D
  chunk_push me stamp seq w c = record {
    request_id = w.request_id;
    from_node = me;
    producer_node = me;
    rows = c.rows;
    done = c.done;
    seq = seq;
    produced_at_us = stamp;
  }

  module _ (backoff fuel : ℕ) (stamp : ℕ → ℕ) (me : String) (w : Worker D) where
    -- One call of the sink, at node `n`.
    unfoldable pub sink_chunk : (seq : ℕ) → Chunk D → NodeServer D → Net D → Option (Net D)
    unfolding push_retry change deposit change_request chunk_push
    sink_chunk seq c n net =
        if same w.upstream_peer self_route
        then some (
            change me
              (change_request w.request_id
                (λ st. record st { buffer = deposit c.rows c.done me st.buffer }))
              net)
        else if has_peer w.upstream_peer n
        then push_retry (λ net p. push_chunk backoff fuel net w.upstream_peer p) 5
            (chunk_push me (stamp seq) seq w c) no_upstream net
        else some net

    -- The calls of the sink in order; `seq` is the number of those before.
    unfoldable pub sink_all : (seq : ℕ) → List (Chunk D) → NodeServer D → Net D → Option (Net D)
    unfolding sink_chunk
    sink_all seq [] n net = some net
    sink_all seq (c ∷ cs) n net = elim (sink_chunk ((seq + 1) % 2 ^ 32) c n net) [
      | none ↦ none
      | some net' ↦ sink_all ((seq + 1) % 2 ^ 32) cs n net'
    ]

  -- `canceled_fn`: the flag of the route, which others may set while the query runs.
  unfoldable pub canceled_fn : Option (RouteState D) → (ℕ → Bool) → ℕ → Bool
  canceled_fn none others k = false
  canceled_fn (some r) others k = r.canceled || others k

  module _ ⦃f : Floating D⦄ (atoi : String → ℤ) where
    -- `executeLocal` at node `me`; `others k` is whether the request is aborted before position `k`.
    unfoldable pub execute_local :
        (backoff fuel : ℕ) (stamp : ℕ → ℕ) (others : ℕ → Bool)
        → String
        → Worker D
        → Net D
        → Option (Net D)
    unfolding sink_all canceled_fn
    execute_local backoff fuel stamp others me w net = elim (find me net) [
      | none ↦ some net
      | some n ↦
          sink_all backoff fuel stamp me w 0
            (run n.store w.spec (u32_param atoi "initial_chunk_rows" 512 n.cfg)
              (canceled_fn (find w.request_id n.routes) others))
            n net
    ]
