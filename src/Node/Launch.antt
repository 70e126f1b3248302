-- ===== src/Node/Launch.antt =====
-- What `SubmitQuery` of cpp/src/NodeServer.cpp starts: a worker at each node that the overlay reaches,
-- with a way back to the portal.
use mathlib.Core.Path.{subst}
use mini2_aaa.Base.{
  string_eq, same, ℕ, ◌≤◌, ◌<◌, ◌≡◌, refl, sym, ap, ◌∙◌, String, Bool, true, false, List, [], ◌∷◌,
  Option, none, some, inl, inr, Bool-cases, find, insert, indicator, arith, contains,
}
use mini2_aaa.Domain.{QuerySpec}
use mini2_aaa.Node.{
  NodeServer, RouteState, Worker, ForwardQueryRequest, ForwardQueryAck, spawn, producer_done,
  change_request, self_route,
}
use mini2_aaa.Node.Network.{Net, Answer, change, forward_query}
use mini2_aaa.Node.Submit.{told, tell_all, portal_route, first_forward, launch}
use mini2_aaa.Node.Views.{
  wire_view, up_view, jobs_view, is_some, upstream, routed, jobs, unrouted, alive, peers,
  upstream_of, view-change, unrouted-change,
}
use mini2_aaa.Node.Spread.{
  is_some-none, Extends, Extends-routed, Extends-peers, Uplink, at_root, Deep, Spreads,
  Spreads-same, Spreads-trans,
}
use mini2_aaa.Node.Flood.{
  Ready, Good, stay, Looping, Looped, Looping-next, Looped-cons, change_route-Spreads,
}
use mini2_aaa.Node.Joined.{joined, joined-Extends, joined-upstream, joined-unrouted}
use mini2_aaa.Node.Forward.{accepted-Spreads, last}
use mini2_aaa.Node.Reached.{forward_query-Outcome}

module _ {D : Type 0} (rid root : String) (n : ℕ) where
  producer_done-Spreads :
      (me k p : String) (net : Net D) → Spreads rid root n net (change me (producer_done k p) net)
  unfolding change_request
  producer_done-Spreads me k p net =
      Spreads-same rid root n net (change me (producer_done k p) net)
        (λ x. view-change me (producer_done k p) wire_view x net (λ m. ground arith))
        (λ x. view-change me (producer_done k p) (up_view rid) x net (λ m. ground arith))
        (λ x. view-change me (producer_done k p) (jobs_view rid) x net (λ m. ground arith))
        (unrouted-change me rid (producer_done k p) net (λ m. ground arith))

  told-Spreads :
      (me k nb : String) (ack : Option ForwardQueryAck) (net : Net D)
      → Spreads rid root n net (told me k nb ack net)
  unfolding told
  told-Spreads me k nb none net = producer_done-Spreads me k nb net
  told-Spreads me k nb (some ack) net = elim (Bool-cases ack.accepted) [
    | inl yes_ ↦ rw yes_ (
        change_route-Spreads rid root n me k
          (λ r. record r { fanout_to = insert nb nb r.fanout_to }) net (λ r. refl))
    | inr no_ ↦ rw no_ (producer_done-Spreads me k nb net)
  ]

  module _ (bound : ℕ) (call : Net D → String → ForwardQueryRequest D → Answer D ForwardQueryAck)
      (good : Good {D = D} rid root n bound call) (me : String) (issued now : ℕ)
      (spec : QuerySpec D) where
    abbrev req : ForwardQueryRequest D
    req = first_forward me rid issued spec

    abbrev route : RouteState D
    route = portal_route me now spec

    first-Ready :
        (nb : String) (nbs : List String) (net : Net D)
        → Looping rid root n bound call good me route req (nb ∷ nbs) net
        → Ready rid root n net nb req
    unfolding first_forward portal_route
    first-Ready nb nbs net l = record {
      about = refl;
      deep = l.deep;
      sender = l.here;
      neighbor = l.neighbors nb (ground (arith, string_eq.beq_iff nb nb));
      seen = l.seen;
    }

    tell_all-Looped :
        (nbs : List String) (net : Net D)
        → Looping rid root n bound call good me route req nbs net
        → Looped rid root n bound call good me route req nbs net (tell_all call me req nbs net)
    unfolding tell_all
    tell_all-Looped [] net l = record {
      after = net;
      answered = refl;
      spreads = stay rid root n net;
      arrived = λ v e k. absurd (cc);
    }
    tell_all-Looped (nb ∷ nbs) net l =
        let o = good net nb req (first-Ready nb nbs net l) l.room in
        let mid = told me req.request_id nb o.ack o.after in
        let h = told-Spreads me req.request_id nb o.ack o.after in
        let s = Spreads-trans rid root n net o.after mid o.spreads h in
        rw (o.answered, tell_all)
          (Looped-cons rid root n bound call good me route req nb nbs net mid _ s
            (λ k. Extends-routed rid h.grown nb (o.arrived k))
            (tell_all-Looped nbs mid
              (Looping-next rid root n bound call good me route req nb nbs net mid l s.grown)))

indicator-le : (b : Bool) → indicator b ≤ 1
indicator-le b = ground arith

indicator_one : (b : Bool) → indicator b ≡ 1 → b ≡ true
indicator_one b e = ground arith

-- The nodes that the overlay connects to `root`: by stubs, over nodes that are there.
pub data Connected {D : Type 0} (net : Net D) (root : String) : String → Type 0 where
  here : Connected net root root
  next :
      (x y : String)
      → Connected net root x
      → contains y (peers x net) ≡ true
      → alive y net ≡ true
      → Connected net root y

-- A request that nobody knows.
pub record IsNew {D : Type 0} (rid : String) (net : Net D) : Type 0 where
  pub no_route : (x : String) → routed rid x net ≡ false
  pub no_worker : (x : String) → jobs rid x net ≡ 0

-- A request that is under way: at each connected node exactly one worker, at no node two, and from
-- every node that has one a way up to the root.
pub record IsUnderWay {D : Type 0} (rid root : String) (net net' : Net D) : Type 0 where
  pub everyone : (x : String) → Connected net root x → jobs rid x net' ≡ 1
  pub once : (x : String) → jobs rid x net' ≤ 1
  pub way_up :
      (x : String)
      → jobs rid x net' ≡ 1
      → (k : ℕ) × (k < unrouted rid net) × Uplink rid root net' k x

module _ {D : Type 0} (rid me : String) (clock : String → ℕ) (issued fuel : ℕ) (spec : QuerySpec D)
    (net : Net D) (m : NodeServer D) (found : find me net ≡ some m) (new : IsNew rid net)
    (enough : unrouted rid net ≤ fuel) where
  abbrev own_route : RouteState D
  own_route = portal_route me (clock me) spec

  fresh : upstream_of rid m ≡ none
  fresh =
      is_some-none (upstream_of rid m)
        (sym (ap (λ o. is_some (up_view rid o)) found) ∙ new.no_route me)

  abbrev net1 : Net D
  net1 = joined rid me net m own_route found fresh

  abbrev n : ℕ
  n = unrouted rid net1

  grown : Extends rid net net1
  grown = joined-Extends rid me net m own_route found fresh

  own : same me me ≡ true
  own = (string_eq.beq_iff me me).1 refl

  net1-routed : routed rid me net1 ≡ true
  net1-routed =
      let p : upstream rid me net1 ≡ some own_route.upstream_peer =
        joined-upstream rid me net m own_route found fresh me ∙ rw own refl in
      ap is_some p

  net1-Deep : Deep rid me n net1 me
  net1-Deep = record { hops = 0; link = at_root; within = omega arith }

  abbrev good : Good {D = D} rid me n fuel (forward_query clock fuel)
  good = forward_query-Outcome rid me n clock fuel

  looping :
      Looping rid me n fuel
        (forward_query clock fuel)
        good
        me
        own_route
        (first_forward me rid issued spec)
        m.peer_clients
        net1
  unfolding portal_route first_forward
  looping = record {
    about = refl;
    here = net1-routed;
    deep = net1-Deep;
    sender = net1-routed;
    seen = λ v e.
        subst (λ y. routed rid y net1 ≡ true) ((string_eq.beq_iff me v).0 (ground arith))
          net1-routed;
    neighbors = λ v e.
        ap (contains v) (
          Extends-peers rid grown me
          ∙ ap (λ o. elim (wire_view o) as (λ _. List String) [ none ↦ [] | some w ↦ w.1 ]) found)
        ∙ e;
    room = (let t = joined-unrouted rid me net m own_route found fresh in omega arith);
  }

  told_all :
      Looped rid me n fuel
        (forward_query clock fuel)
        good
        me
        own_route
        (first_forward me rid issued spec)
        m.peer_clients
        net1
        (tell_all
          (forward_query clock fuel)
          me
          (first_forward me rid issued spec)
          m.peer_clients
          net1)
  told_all =
      tell_all-Looped rid me n fuel (forward_query clock fuel) good me issued (clock me) spec
        m.peer_clients net1 looping

  abbrev worker : Worker D
  worker = record { request_id = rid; spec = spec; upstream_peer = self_route }

  abbrev net3 : Net D
  net3 = change me (spawn worker) told_all.after

  launch_lem : launch clock issued fuel me rid spec m net ≡ some net3
  unfolding launch
  launch_lem = rw (told_all.answered, launch) refl

  all : Spreads rid me n net net3
  all =
      accepted-Spreads rid me n me net m own_route found fresh worker refl told_all.after net1-Deep
        told_all.spreads told_all.arrived

  arrived : routed rid me net3 ≡ true
  arrived =
      last rid me n me net m own_route found fresh worker refl told_all.after net1-Deep
        told_all.spreads told_all.arrived me
      ∙ Extends-routed rid told_all.spreads.grown me net1-routed

  Connected-routed : {x : String} → Connected net me x → routed rid x net3 ≡ true
  Connected-routed here = arrived
  Connected-routed (next x y c member live) =
      all.closed x y (new.no_route x) (Connected-routed c) member live

  jobs-routed : (x : String) → jobs rid x net3 ≡ indicator (routed rid x net3)
  jobs-routed x =
      let a = all.started x in
      let b = new.no_worker x in
      let c : indicator (routed rid x net) ≡ 0 = ap indicator (new.no_route x) in omega arith

  under_way : IsUnderWay rid me net net3
  under_way = record {
    everyone = λ x c. jobs-routed x ∙ ap indicator (Connected-routed c);
    once = λ x. (let j = jobs-routed x in let b = indicator-le (routed rid x net3) in omega arith);
    way_up = λ x j.
        let d =
          all.traced x (new.no_route x)
            (indicator_one (routed rid x net3) (sym (jobs-routed x) ∙ j)) in
        (
          d.hops,
          (let w = d.within in
              let t = joined-unrouted rid me net m own_route found fresh in omega arith),
          d.link,
        );
  }

-- A submitted query of which no node knows yet, with fuel for as many nested calls as there are nodes,
-- is launched: then each node that the overlay connects to the portal has exactly one worker for it, no
-- node has two, and every node with a worker has a way up to the portal, of fewer hops than nodes.
pub launch-IsUnderWay :
    {D : Type 0} (rid me : String) (clock : String → ℕ) (issued fuel : ℕ) (spec : QuerySpec D)
    (net : Net D) (m : NodeServer D)
    → find me net ≡ some m
    → IsNew rid net
    → unrouted rid net ≤ fuel
    → (net' : Net D) × (launch clock issued fuel me rid spec m net ≡ some net')
      × IsUnderWay rid me net net'
launch-IsUnderWay rid me clock issued fuel spec net m found new enough = (
  net3 rid me clock issued fuel spec net m found new enough,
  launch_lem rid me clock issued fuel spec net m found new enough,
  under_way rid me clock issued fuel spec net m found new enough,
)
