-- ===== src/Node/Delivery.antt =====
-- `PushChunk` of cpp/src/NodeServer.cpp brings a chunk to the portal over every node that has a way up.
use mini2_aaa.Base.{
  string_eq, same, ℕ, zero, suc, ◌<◌, ◌≡◌, refl, sym, ap, ◌∙◌, String, true, false, List, [], none,
  some, Bool-cases, Option-cases, inl, inr, find, insert, arith, contains,
}
use mini2_aaa.Config.{Config, NodeEntry, node}
use mini2_aaa.Node.{NodeServer, RouteState, PushChunkRequest, PushChunkAck, has_peer, receive_chunk}
use mini2_aaa.Node.Network.{Net, Answer, push_chunk, passed}
use mini2_aaa.Node.Views.{wiring, option_map, wire_view, up_view, upstream, alive, peers, is_some}
use mini2_aaa.Node.Spread.{Uplink, at_root, via}

-- What the nodes of a topology make: stubs go both ways, and every node knows itself in its topology,
-- where one of them is the root.
pub record IsOverlay {D : Type 0} (root : String) (net : Net D) : Type 0 where
  pub two_way :
      (x y : String)
      → contains y (peers x net) ≡ true
      → alive y net ≡ true
      → contains x (peers y net) ≡ true
  pub listed :
      (x : String) (cfg : Config) (ps : List String)
      → wiring x net ≡ some (cfg, ps)
      → (entry : NodeEntry) × (node x cfg ≡ some entry) × (entry.is_root ≡ same x root)

-- Where no stub changes, an overlay stays one.
pub IsOverlay-kept :
    {D : Type 0} (root : String) (net net' : Net D)
    → ((x : String) → wiring x net' ≡ wiring x net)
    → IsOverlay root net
    → IsOverlay root net'
IsOverlay-kept root net net' same_ o =
    let ps = λ (x : String).
      ap (λ w. elim w as (λ _. List String) [ none ↦ [] | some w ↦ w.1 ]) (same_ x) in
    record {
      two_way = λ x y m l.
          ap (contains x) (ps y)
          ∙ o.two_way x y (ap (contains y) (sym (ps x)) ∙ m) (ap is_some (sym (same_ y)) ∙ l);
      listed = λ x cfg qs e. o.listed x cfg qs (sym (same_ x) ∙ e);
    }

-- The node and its route, where the request has an upstream.
upstream-route :
    {D : Type 0} (rid x u : String) (net : Net D)
    → upstream rid x net ≡ some u
    → (n : NodeServer D) × (find x net ≡ some n)
      × ((r : RouteState D) × (find rid n.routes ≡ some r) × (r.upstream_peer ≡ u))
upstream-route rid x u net e = elim (Option-cases (find x net)) [
  | inl none_ ↦ absurd (let t = ap (up_view rid) none_ in cc)
  | inr (n, found) ↦ elim (Option-cases (find rid n.routes)) [
    | inl none_ ↦ absurd (
        let t = ap (up_view rid) found in
        let s = ap (option_map (λ (r : RouteState _). r.upstream_peer)) none_ in cc)
    | inr (r, found') ↦ (
      n,
      found,
      (
        r,
        found',
        (let t = ap (up_view rid) found in
            let s = ap (option_map (λ (r : RouteState _). r.upstream_peer)) found' in cc),
      ),
    )
  ]
]

module _ {D : Type 0} (rid root : String) (net : Net D) (backoff : ℕ) (o : IsOverlay root net)
    (top : NodeServer D) (found : find root net ≡ some top) where
  -- What the portal does with a chunk, and what it answers.
  abbrev pub received : PushChunkRequest D → Answer D PushChunkAck
  received req =
      some
        (insert root (receive_chunk backoff req top).0 net, some (receive_chunk backoff req top).1)

  received-passed : (x : String) (req : PushChunkRequest D) → received (passed x req) ≡ received req
  unfolding receive_chunk
  received-passed x req = refl

  push_at_root :
      (fuel : ℕ) (req : PushChunkRequest D)
      → push_chunk backoff (suc fuel) net root req ≡ received req
  unfolding push_chunk
  push_at_root fuel req =
      let (entry, e, top_is_root) = o.listed root top.cfg top.peer_clients (ap wire_view found) in
      let yes_ : entry.is_root ≡ true = top_is_root ∙ (string_eq.beq_iff root root).1 refl in
      rw (found, push_chunk) (rw (e, push_chunk) (rw (yes_, push_chunk) refl))

  push_hop :
      (fuel : ℕ) (x u : String) (req : PushChunkRequest D)
      → same x root ≡ false
      → req.request_id ≡ rid
      → upstream rid x net ≡ some u
      → contains x (peers u net) ≡ true
      → push_chunk backoff fuel net u (passed x req) ≡ received (passed x req)
      → push_chunk backoff (suc fuel) net x req ≡ received req
  unfolding push_chunk
  push_hop fuel x u req inner about up member above =
      let (n, found_x, (r, found_r, is_u)) = upstream-route rid x u net up in
      let (entry, e, x_is_root) = o.listed x n.cfg n.peer_clients (ap wire_view found_x) in
      let no_ : entry.is_root ≡ false = x_is_root ∙ inner in
      let live : alive x net ≡ true = ap (λ m. is_some (wire_view m)) found_x in
      let q : peers x net ≡ n.peer_clients =
        ap (λ m. elim (wire_view m) as (λ _. List String) [ none ↦ [] | some w ↦ w.1 ]) found_x in
      let stub : has_peer r.upstream_peer n ≡ true =
        ap (λ v. contains v n.peer_clients) is_u
        ∙ (ap (contains u) (sym q) ∙ o.two_way u x member live) in
      let p : find req.request_id n.routes ≡ some r = ap (λ k. find k n.routes) about ∙ found_r in
      let a : push_chunk backoff fuel net r.upstream_peer (passed x req) ≡ received req =
        ap (λ v. push_chunk backoff fuel net v (passed x req)) is_u
        ∙ (above ∙ received-passed x req) in
      rw (found_x, push_chunk)
        (rw (e, push_chunk)
          (rw (no_, push_chunk)
            (rw (p, push_chunk) (rw (stub, push_chunk) (rw (a, push_chunk) refl)))))

  push_up :
      {k : ℕ} {x : String} (fuel : ℕ) (req : PushChunkRequest D)
      → req.request_id ≡ rid
      → k < fuel
      → Uplink rid root net k x
      → push_chunk backoff fuel net x req ≡ received req
  push_up zero req about lt l = absurd (omega arith)
  push_up (suc fuel) req about lt at_root = push_at_root fuel req
  push_up (suc fuel) req about lt (via k x u up member l) = elim (Bool-cases (same x root)) [
    | inl eq ↦
        ap (λ y. push_chunk backoff (suc fuel) net y req) ((string_eq.beq_iff x root).0 eq)
        ∙ push_at_root fuel req
    | inr inner ↦
        push_hop fuel x u req inner about up member
          (push_up fuel (passed x req) about (omega arith) l)
  ]

-- In an overlay, a chunk that is pushed at a node with a way up of fewer hops than the fuel reaches the
-- portal as it is: the portal takes it as if it came there first, no other node changes, and the
-- producer gets the portal's answer.
pub push_chunk-received :
    {D : Type 0} (root : String) (net : Net D) (backoff fuel k : ℕ) (x : String)
    (req : PushChunkRequest D) (top : NodeServer D)
    → IsOverlay root net
    → find root net ≡ some top
    → Uplink req.request_id root net k x
    → k < fuel
    → push_chunk backoff fuel net x req
      ≡ some (
        insert root (receive_chunk backoff req top).0 net,
        some (receive_chunk backoff req top).1,
      )
push_chunk-received root net backoff fuel k x req top o found l lt =
    push_up req.request_id root net backoff o top found fuel req refl lt l
