-- ===== src/Node/Reached.antt =====
-- `ForwardQuery` of cpp/src/NodeServer.cpp, by induction on the nodes that have no route yet.
use mathlib.Core.Path.{subst}
use mini2_aaa.Base.{
  string_eq, same, ℕ, zero, suc, ◌<◌, ◌≡◌, refl, sym, ap, ◌∙◌, String, true, false, ◌||◌, List, [],
  ◌∷◌, ◌++◌, none, some, inl, inr, Bool-cases, Option-cases, find, arith, contains,
}
use mini2_aaa.Node.{
  NodeServer, RouteState, Worker, ForwardQueryRequest, refusal, new_route, add_route, spawn,
}
use mini2_aaa.Node.Network.{Net, change, fan_out, forward_query}
use mini2_aaa.Node.Views.{wire_view, is_some, upstream, routed, unrouted, alive, peers, upstream_of}
use mini2_aaa.Node.Spread.{Extends, Extends-routed, Extends-peers, Deep}
use mini2_aaa.Node.Flood.{Outcome, Ready, Good, stay, Looping, fan_out-Looped}
use mini2_aaa.Node.Joined.{
  refusal-routed, refusal-none, joined, joined-Extends, joined-upstream, joined-unrouted,
}
use mini2_aaa.Node.Forward.{joined-Deep, accepted-Spreads, last}

contains-append :
    (x y : String) (xs : List String) → contains x (xs ++ (y ∷ [])) ≡ (contains x xs || same y x)
contains-append x y [] = ground arith
contains-append x y (z ∷ xs) = ground (arith, contains-append x y xs)

module _ {D : Type 0} (rid root : String) (n : ℕ) (clock : String → ℕ) where
  module _ (fuel : ℕ) (net : Net D) (me : String) (req : ForwardQueryRequest D)
      (r : Ready rid root n net me req) where
    abbrev route : RouteState D
    route = new_route me (clock me) req

    absent :
        find me net ≡ none → Outcome rid root n net me (forward_query clock (suc fuel) net me req)
    unfolding forward_query
    absent e = record {
      after = net;
      ack = none;
      answered = rw (e, forward_query) refl;
      spreads = stay rid root n net;
      arrived =
          λ l. absurd (let t : alive me net ≡ false = ap (λ o. is_some (wire_view o)) e in cc);
    }

    refuses :
        (m : NodeServer D) (why : String)
        → find me net ≡ some m
        → refusal me req m ≡ some why
        → Outcome rid root n net me (forward_query clock (suc fuel) net me req)
    unfolding forward_query
    refuses m why e no_ = record {
      after = net;
      ack = some (record { accepted = false; node_id = me; error = why });
      answered = rw (e, no_, forward_query) refl;
      spreads = stay rid root n net;
      arrived = λ l. refusal-routed rid me net m req why r.about r.seen e no_;
    }

    accepts_lem :
        (m : NodeServer D) (after : Net D)
        → find me net ≡ some m
        → refusal me req m ≡ none
        → fan_out
            (forward_query clock fuel)
            me
            route
            req
            m.peer_clients
            (change me (add_route req.request_id route) net)
          ≡ some after
        → forward_query clock (suc fuel) net me req
          ≡ some (
            change me
                (spawn (record {
                  request_id = req.request_id;
                  spec = req.spec;
                  upstream_peer = req.from_node;
                }))
                after,
            some (record { accepted = true; node_id = me; error = "" }),
          )
    unfolding forward_query
    accepts_lem m after found go q =
        rw (found, forward_query) (rw (go, forward_query) (rw (q, forward_query) refl))

    module _ (m : NodeServer D) (found : find me net ≡ some m) (go : refusal me req m ≡ none)
        (good : Good {D = D} rid root n fuel (forward_query clock fuel))
        (room : unrouted rid net < suc fuel) where
      fresh : upstream_of rid m ≡ none
      fresh = refusal-none rid me m req r.about go

      abbrev mid : Net D
      mid = joined rid me net m route found fresh

      grown : Extends rid net mid
      grown = joined-Extends rid me net m route found fresh

      route_upstream : route.upstream_peer ≡ req.from_node
      unfolding new_route
      route_upstream = refl

      deep : Deep rid root n mid me
      deep =
          joined-Deep rid root n me net m route found fresh
            (subst (Deep rid root n net) (sym route_upstream) r.deep)
            (ap (λ u. contains me (peers u net)) route_upstream ∙ r.neighbor)

      here_mid : routed rid me mid ≡ true
      here_mid =
          let own : same me me ≡ true = (string_eq.beq_iff me me).1 refl in
          let p : upstream rid me mid ≡ some route.upstream_peer =
            joined-upstream rid me net m route found fresh me ∙ rw own refl in
          ap is_some p

      seen_mid : (v : String) → contains v route.visited ≡ true → routed rid v mid ≡ true
      unfolding new_route
      seen_mid v e = elim (Bool-cases (same me v)) [
        | inl eq ↦ subst (λ y. routed rid y mid ≡ true) ((string_eq.beq_iff me v).0 eq) here_mid
        | inr ne ↦
            Extends-routed rid grown v
              (r.seen v (let t = contains-append v me req.visited in ground arith))
      ]

      looping :
          Looping rid root n fuel (forward_query clock fuel) good me route req m.peer_clients mid
      looping = record {
        about = r.about;
        here = here_mid;
        deep = deep;
        sender = Extends-routed rid grown req.from_node r.sender;
        seen = seen_mid;
        neighbors = λ v e.
            ap (contains v) (
              Extends-peers rid grown me
              ∙ ap (λ o. elim (wire_view o) as (λ _. List String) [ none ↦ [] | some w ↦ w.1 ])
                  found)
            ∙ e;
        room = (let t = joined-unrouted rid me net m route found fresh in omega arith);
      }

      abbrev worker : Worker D
      worker = record {
        request_id = req.request_id;
        spec = req.spec;
        upstream_peer = req.from_node;
      }

      accepts : Outcome rid root n net me (forward_query clock (suc fuel) net me req)
      accepts =
          let l =
            fan_out-Looped rid root n fuel (forward_query clock fuel) good me route req
              m.peer_clients mid looping in
          record {
            after = change me (spawn worker) l.after;
            ack = some (record { accepted = true; node_id = me; error = "" });
            answered = accepts_lem m l.after found go (
                ap
                  (λ k.
                    fan_out (forward_query clock fuel) me route req m.peer_clients
                      (change me (add_route k route) net))
                  r.about
                ∙ l.answered);
            spreads =
                accepted-Spreads rid root n me net m route found fresh worker r.about l.after deep
                  l.spreads l.arrived;
            arrived = λ k.
                last rid root n me net m route found fresh worker r.about l.after deep l.spreads
                  l.arrived me
                ∙ Extends-routed rid l.spreads.grown me here_mid;
          }

  -- With fuel for the nodes that have no route yet, a forwarded query is answered.
  pub forward_query-Outcome : (fuel : ℕ) → Good {D = D} rid root n fuel (forward_query clock fuel)
  forward_query-Outcome zero net me req r room = absurd (omega arith)
  forward_query-Outcome (suc fuel) net me req r room = elim (Option-cases (find me net)) [
    | inl e ↦ absent fuel net me req r e
    | inr (m, e) ↦ elim (Option-cases (refusal me req m)) [
      | inr (why, no_) ↦ refuses fuel net me req r m why e no_
      | inl go ↦ accepts fuel net me req r m e go (forward_query-Outcome fuel) room
    ]
  ]
