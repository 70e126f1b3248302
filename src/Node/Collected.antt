-- ===== src/Node/Collected.antt =====
-- `executeLocal` of cpp/src/NodeServer.cpp with `PushChunk` and the buffer of the portal: the rows that
-- a worker finds come into the portal's buffer.
use mini2_aaa.Base.{
  string_eq, same, ℕ, ◌<◌, ◌≡◌, refl, ap, ◌∙◌, String, Bool, true, false, List, ◌++◌, some, find,
  insert, find-insert, arith, contains, indicator, not,
}
use mini2_aaa.Base.Int.{ℤ}
use mini2_aaa.Domain.{Floating, Row311}
use mini2_aaa.Buffer.{Buffer}
use mini2_aaa.Engine.{Chunk, run}
use mini2_aaa.Registry.{RequestState}
use mini2_aaa.Node.{
  NodeServer, Worker, PushChunkAck, self_route, has_peer, no_upstream, change_request, deposit,
  receive_chunk,
}
use mini2_aaa.Node.Network.{Net, change, push_chunk}
use mini2_aaa.Node.Portal.{u32_param}
use mini2_aaa.Node.Execute.{push_retry, chunk_push, sink_chunk, canceled_fn}
use mini2_aaa.Node.Views.{view-insert, wire_view, up_view, is_some, unrouted-insert, lacks}
use mini2_aaa.Node.Spread.{Extends, Uplink, Uplink-mono}
use mini2_aaa.Node.Delivery.{IsOverlay, IsOverlay-kept, push_chunk-received}

-- An overlay where the portal has a request with a buffer, and where `u`, to which a worker pushes, is
-- the portal itself or has a way up to it.
pub record Scene {D : Type 0} (rid root : String) (fuel : ℕ) (u : String) (net : Net D)
    (b : Buffer (Row311 D)) : Type 0 where
  pub overlay : IsOverlay root net
  pub top : NodeServer D
  pub found : find root net ≡ some top
  pub st : RequestState D
  pub open_ : find rid top.registry ≡ some st
  pub holds : st.buffer ≡ b
  pub hops : ℕ
  pub link : Uplink rid root net hops u
  pub near : hops < fuel

module _ {D : Type 0} (rid root : String) (net : Net D) (top top' : NodeServer D)
    (found : find root net ≡ some top) where
  module _ (wired : wire_view (some top') ≡ wire_view (some top))
      (up : up_view rid (some top') ≡ up_view rid (some top)) where
    pub insert-Extends : Extends rid net (insert root top' net)
    insert-Extends = record {
      wired = λ x. view-insert root net top top' found wire_view x wired;
      kept = λ x u e. view-insert root net top top' found (up_view rid) x up ∙ e;
      fewer =
          let t = unrouted-insert root rid top top' net found in
          let i : indicator (lacks rid top') ≡ indicator (lacks rid top) =
            ap (λ o. indicator (not (is_some o))) up in
          omega arith;
    }

    insert-IsOverlay : IsOverlay root net → IsOverlay root (insert root top' net)
    insert-IsOverlay o =
        IsOverlay-kept root net (insert root top' net)
          (λ x. view-insert root net top top' found wire_view x wired) o

-- How the chunks of a worker at node `n` go: at the portal into its own registry, elsewhere by a stub.
pub data Road {D : Type 0} (root me : String) (n : NodeServer D) (w : Worker D)
    : String → Type 0 where
  at_portal : same w.upstream_peer self_route ≡ true → me ≡ root → Road root me n w root
  by_stub :
      same w.upstream_peer self_route ≡ false
      → has_peer w.upstream_peer n ≡ true
      → Road root me n w w.upstream_peer

module _ {D : Type 0} (backoff fuel : ℕ) (stamp : ℕ → ℕ) (root me : String) (n : NodeServer D)
    (w : Worker D) where
  -- The portal after a chunk.
  abbrev pub filled : Chunk D → NodeServer D → RequestState D → NodeServer D
  filled c top st = record top {
    registry =
        insert w.request_id (record st { buffer = deposit c.rows c.done me st.buffer })
          top.registry;
  }

  filled_lem :
      (c : Chunk D) (top : NodeServer D) (st : RequestState D)
      → find w.request_id top.registry ≡ some st
      → change_request w.request_id
          (λ st. record st { buffer = deposit c.rows c.done me st.buffer })
          top
        ≡ filled c top st
  unfolding change_request
  filled_lem c top st e = rw (e, change_request) refl

  -- What the portal makes of the chunk that comes over a stub.
  received_lem :
      (seq : ℕ) (c : Chunk D) (top : NodeServer D) (st : RequestState D)
      → find w.request_id top.registry ≡ some st
      → st.buffer.canceled ≡ false
      → ((receive_chunk backoff (chunk_push me (stamp seq) seq w c) top).0 ≡ filled c top st)
        × ((receive_chunk backoff (chunk_push me (stamp seq) seq w c) top).1.ok ≡ true)
  unfolding receive_chunk chunk_push change_request
  received_lem seq c top st e live = (
    rw (e, receive_chunk) (rw (live, receive_chunk) (rw (e, change_request) refl)),
    rw (e, receive_chunk) (rw (live, receive_chunk) refl),
  )

  push_once :
      (seq : ℕ) (c : Chunk D) (net net' : Net D) (ack : PushChunkAck)
      → push_chunk backoff fuel net w.upstream_peer (chunk_push me (stamp seq) seq w c)
        ≡ some (net', some ack)
      → ack.ok ≡ true
      → push_retry
          (λ net p. push_chunk backoff fuel net w.upstream_peer p)
          5
          (chunk_push me (stamp seq) seq w c)
          no_upstream
          net
        ≡ some net'
  unfolding push_retry
  push_once seq c net net' ack e ok = rw (e, push_retry) (rw (ok, push_retry) refl)

  -- One call of the sink.
  pub sunk :
      (u : String) (seq : ℕ) (c : Chunk D) (net : Net D) (b : Buffer (Row311 D))
      → Road root me n w u
      → (s : Scene w.request_id root fuel u net b) → b.canceled ≡ false
      → sink_chunk backoff fuel stamp me w seq c n net
        ≡ some (insert root (filled c s.top s.st) net)
  unfolding sink_chunk change
  sunk u seq c net b (at_portal self here) s live =
      let f : find me net ≡ some s.top = ap (λ y. find y net) here ∙ s.found in
      rw (self, sink_chunk)
        (rw (f, change)
          (ap (λ m. some (insert me m net)) (filled_lem c s.top s.st s.open_)
            ∙ ap (λ y. some (insert y (filled c s.top s.st) net)) here))
  sunk u seq c net b (by_stub away stub) s live =
      let req = chunk_push me (stamp seq) seq w c in
      let r = received_lem seq c s.top s.st s.open_ (ap (λ b. b.canceled) s.holds ∙ live) in
      let p =
        push_chunk-received root net backoff fuel s.hops w.upstream_peer req s.top s.overlay s.found
          s.link s.near in
      rw (away, sink_chunk)
        (rw (stub, sink_chunk)
          (push_once seq c net (insert root (receive_chunk backoff req s.top).0 net)
              (receive_chunk backoff req s.top).1 p r.1
            ∙ ap (λ m. some (insert root m net)) r.0))

  pub Scene-next :
      (u : String) (c : Chunk D) (net : Net D) (b : Buffer (Row311 D))
      → (s : Scene w.request_id root fuel u net b)
      → Scene w.request_id root fuel u
          (insert root (filled c s.top s.st) net)
          (deposit c.rows c.done me b)
  Scene-next u c net b s =
      let rid = w.request_id in
      let top' = filled c s.top s.st in
      record {
        overlay = insert-IsOverlay rid root net s.top top' s.found refl refl s.overlay;
        top = top';
        found = find-insert root root top' net ∙ rw ((string_eq.beq_iff root root).1 refl) refl;
        st = record s.st { buffer = deposit c.rows c.done me s.st.buffer };
        open_ =
            find-insert rid rid (record s.st { buffer = deposit c.rows c.done me s.st.buffer })
              s.top.registry
            ∙ rw ((string_eq.beq_iff rid rid).1 refl) refl;
        holds = ap (deposit c.rows c.done me) s.holds;
        hops = s.hops;
        link = Uplink-mono rid (insert-Extends rid root net s.top top' s.found refl refl) s.link;
        near = s.near;
      }

-- What a run of a worker at `me` leaves: the rows in the portal's buffer behind those that it had, the
-- producer among the finished ones, and all as before for the next worker that pushes to `u`.
pub record IsCollected {D : Type 0} (rid root me : String) (fuel : ℕ) (u : String)
    (b : Buffer (Row311 D)) (rows : List (Row311 D)) (net' : Net D) : Type 0 where
  pub after : Buffer (Row311 D)
  pub scene : Scene rid root fuel u net' after
  pub in_order : after.q ≡ b.q ++ rows
  pub finished : contains me after.done ≡ true

-- The chunks of a worker's run.
abbrev pub run_of :
    {D : Type 0} ⦃f : Floating D⦄ (atoi : String → ℤ) (others : ℕ → Bool)
    → NodeServer D
    → Worker D
    → List (Chunk D)
run_of atoi others n w =
    run n.store w.spec (u32_param atoi "initial_chunk_rows" 512 n.cfg)
      (canceled_fn (find w.request_id n.routes) others)
