-- ===== src/Node/Submit.antt =====
-- `SubmitQuery` of cpp/src/NodeServer.cpp, with its calls of the neighbors.
use mini2_aaa.Base.{
  string_eq, ℕ, String, Bool, true, false, if◌then◌else◌, List, [], ◌∷◌, Option, none, some, find,
  insert,
}
use mini2_aaa.Base.Int.{ℤ}
use mini2_aaa.Domain.{Floating, QuerySpec}
use mini2_aaa.Cache.{Hashing}
use mini2_aaa.Cache
use mini2_aaa.Config.{node}
use mini2_aaa.Registry.{Timing, create}
use mini2_aaa.Node.{
  NodeServer, RouteState, ForwardQueryRequest, ForwardQueryAck, self_route, add_route, note_fanout,
  producer_done, spawn,
}
use mini2_aaa.Node.Network.{Net, Answer, change, forward_query}
use mini2_aaa.Node.Portal.{SubmitRequest, SubmitAck, new_request_id, cached_request, fresh_request}

abbrev pub not_portal : SubmitAck
not_portal = record {
  accepted = false;
  request_id = "";
  error = "this node is not the portal";
  cached = false;
}

abbrev pub taken : (rid : String) (cached : Bool) → SubmitAck
taken rid cached = record { accepted = true; request_id = rid; error = ""; cached = cached }

module _ {D : Type 0} where
  -- What the portal does with the answer of a neighbor.
  unfoldable pub told : String → String → String → Option ForwardQueryAck → Net D → Net D
  unfolding change
  told me rid nb none net = change me (producer_done rid nb) net
  told me rid nb (some ack) net =
      if ack.accepted
      then change me (note_fanout rid nb) net
      else change me (producer_done rid nb) net

  -- The loop of `SubmitQuery` over the neighbors.
  unfoldable pub tell_all :
      (Net D → String → ForwardQueryRequest D → Answer D ForwardQueryAck)
      → String
      → ForwardQueryRequest D
      → List String
      → Net D
      → Option (Net D)
  unfolding told
  tell_all call me req [] net = some net
  tell_all call me req (nb ∷ nbs) net = elim (call net nb req) [
    | none ↦ none
    | some (net', ack) ↦ tell_all call me req nbs (told me req.request_id nb ack net')
  ]

  -- The portal's own route.
  unfoldable pub portal_route : (me : String) (now : ℕ) → QuerySpec D → RouteState D
  portal_route me now spec = record {
    upstream_peer = self_route;
    fanout_to = [];
    canceled = false;
    visited = me ∷ [];
    spec = spec;
    created_at = now;
  }

  -- The request that the portal sends.
  unfoldable pub first_forward :
      (me rid : String) (issued : ℕ) → QuerySpec D → ForwardQueryRequest D
  first_forward me rid issued spec = record {
    request_id = rid;
    spec = spec;
    origin_node = me;
    from_node = me;
    visited = me ∷ [];
    ttl = 16;
    issued_at_unix_us = issued;
  }

  -- The end of `SubmitQuery` once the request is in the registry: the route, the calls, the worker.
  unfoldable pub launch :
      (clock : String → ℕ) (issued fuel : ℕ) (me rid : String)
      → QuerySpec D
      → NodeServer D
      → Net D
      → Option (Net D)
  unfolding tell_all change first_forward portal_route
  launch clock issued fuel me rid spec n net =
      elim (tell_all (forward_query clock fuel) me (first_forward me rid issued spec) n.peer_clients
        (change me (add_route rid (portal_route me (clock me) spec)) net)) [
          | none ↦ none
          | some net' ↦ some (
              change me
                (spawn (record { request_id = rid; spec = spec; upstream_peer = self_route })) net')
        ]

module _ {D : Type 0} ⦃f : Floating D⦄ ⦃h : Hashing D⦄ ⦃t : Timing D⦄ (atoi : String → ℤ)
    (show : ℕ → String) where
  -- `SubmitQuery` at node `me`: `hex` is the random end of the request's id, `now` and `issued` the
  -- clocks.
  unfoldable pub submit_query :
      (clock : String → ℕ) (now issued : ℕ) (hex : String) (fuel : ℕ)
      → Net D
      → String
      → SubmitRequest D
      → Answer D SubmitAck
  unfolding launch new_request_id
  submit_query clock now issued hex fuel net me req = elim (find me net) [
    | none ↦ some (net, none)
    | some n ↦ elim (node me n.cfg) [
      | none ↦ some (net, none)
      | some entry ↦ elim entry.is_root [
        | false ↦ some (net, some not_portal)
        | true ↦
            let (cache, hit) = Cache.get req.spec n.cache in
            let (n', rid) = new_request_id show hex me (record n { cache = cache }) in
            elim hit [
              | some rows ↦ some (
                insert me
                    (record n' {
                      registry = create (cached_request atoi now rid req rows n.cfg) n'.registry;
                    })
                    net,
                some (taken rid true),
              )
              | none ↦
                  let n1 = record n' {
                    registry = create (fresh_request atoi now rid req n.cfg) n'.registry;
                  } in
                  elim (launch clock issued fuel me rid req.spec n1 (insert me n1 net)) [
                    | none ↦ none
                    | some net' ↦ some (net', some (taken rid false))
                  ]
            ]
      ]
    ]
  ]
