-- ===== src/Node/Forward.antt =====
-- One call of `ForwardQuery` of cpp/src/NodeServer.cpp, and by induction the nested ones: with fuel for
-- every node that has no route yet, the call ends.
use mathlib.Core.Path.{subst}
use mini2_aaa.Base.{
  string_eq, same, ℕ, suc, ◌+◌, ◌≡◌, refl, sym, ap, ◌∙◌, String, true, false, List, [], none, some,
  inl, inr, Bool-cases, find, indicator, arith, contains,
}
use mini2_aaa.Node.{NodeServer, RouteState, Worker, add_route, spawn}
use mini2_aaa.Node.Network.{Net, change}
use mini2_aaa.Node.Views.{wire_view, is_some, upstream, routed, jobs, alive, peers, upstream_of}
use mini2_aaa.Node.Spread.{
  Extends, Extends-trans, Extends-routed, Extends-peers, Extends-alive, via, Uplink-mono, Deep,
  Deep-mono, Spreads,
}
use mini2_aaa.Node.Joined.{
  working-upstream, working-jobs_other, working-jobs_here, upstream_here, joined-jobs,
  joined-Extends, working-Extends, joined-unrouted, joined-upstream, joined,
}

module _ {D : Type 0} (rid root : String) (n : ℕ) (me : String) where
  -- A node that joins is one hop further from the root than the node that asked it.
  pub joined-Deep :
      (net : Net D) (m : NodeServer D) (route : RouteState D) (found : find me net ≡ some m)
      (fresh : upstream_of rid m ≡ none)
      → Deep rid root n net route.upstream_peer
      → contains me (peers route.upstream_peer net) ≡ true
      → Deep rid root n (change me (add_route rid route) net) me
  joined-Deep net m route found fresh d member =
      let e = joined-Extends rid me net m route found fresh in
      let own : same me me ≡ true = (string_eq.beq_iff me me).1 refl in
      record {
        hops = suc d.hops;
        link =
            via d.hops me route.upstream_peer
              (joined-upstream rid me net m route found fresh me ∙ rw own refl)
              (ap (contains me) (Extends-peers rid e route.upstream_peer) ∙ member)
              (Uplink-mono rid e d.link);
        within =
            (let t = joined-unrouted rid me net m route found fresh in
              let w = d.within in omega arith);
      }

  -- The three parts of an accepted call, put together.
  module _ (net : Net D) (m : NodeServer D) (route : RouteState D) (found : find me net ≡ some m)
      (fresh : upstream_of rid m ≡ none) (w : Worker D) (about : w.request_id ≡ rid) (mid : Net D)
      (deep : Deep rid root n (joined rid me net m route found fresh) me)
      (s : Spreads rid root n (joined rid me net m route found fresh) mid)
      (arrived : (v : String)
        → contains v m.peer_clients ≡ true
        → alive v (joined rid me net m route found fresh) ≡ true
        → routed rid v mid ≡ true) where
    pub accepted-Extends : Extends rid net (change me (spawn w) mid)
    accepted-Extends =
        Extends-trans rid (joined-Extends rid me net m route found fresh)
          (Extends-trans rid s.grown (working-Extends rid me mid w about))

    abbrev pub before_fan_out : Net D
    before_fan_out = joined rid me net m route found fresh

    abbrev pub final : Net D
    final = change me (spawn w) mid

    -- What is known of a node by whether it is the one that was asked.
    pub other : (x : String) → same me x ≡ false → routed rid x before_fan_out ≡ routed rid x net
    other x ne =
        let p : upstream rid x before_fan_out ≡ upstream rid x net =
          joined-upstream rid me net m route found fresh x ∙ rw ne refl in
        ap is_some p

    pub here : routed rid me before_fan_out ≡ true
    here =
        let own : same me me ≡ true = (string_eq.beq_iff me me).1 refl in
        let p : upstream rid me before_fan_out ≡ some route.upstream_peer =
          joined-upstream rid me net m route found fresh me ∙ rw own refl in
        ap is_some p

    pub last : (x : String) → routed rid x final ≡ routed rid x mid
    last x = ap is_some (working-upstream rid me mid w about x)

    live_here : alive me mid ≡ true
    live_here =
        Extends-alive rid s.grown me
        ∙ (Extends-alive rid (joined-Extends rid me net m route found fresh) me
            ∙ ap (λ o. is_some (wire_view o)) found)

    closed_here :
        (p : String)
        → contains p (peers me net) ≡ true
        → alive p net ≡ true
        → routed rid p final ≡ true
    closed_here p member live =
        let q : peers me net ≡ m.peer_clients =
          ap (λ o. elim (wire_view o) as (λ _. List String) [ none ↦ [] | some w ↦ w.1 ]) found in
        last p
        ∙ arrived p (ap (contains p) (sym q) ∙ member)
            (Extends-alive rid (joined-Extends rid me net m route found fresh) p ∙ live)

    closed_other :
        (x p : String)
        → same me x ≡ false
        → routed rid x net ≡ false
        → routed rid x final ≡ true
        → contains p (peers x net) ≡ true
        → alive p net ≡ true
        → routed rid p final ≡ true
    closed_other x p ne before after member live =
        let e = joined-Extends rid me net m route found fresh in
        last p
        ∙ s.closed x p (other x ne ∙ before) (sym (last x) ∙ after)
            (ap (contains p) (Extends-peers rid e x) ∙ member) (Extends-alive rid e p ∙ live)

    started_here :
        jobs rid me final + indicator (routed rid me net)
        ≡ jobs rid me net + indicator (routed rid me final)
    started_here =
        let a = working-jobs_here rid me mid w about live_here in
        let b = s.started me in
        let c = joined-jobs rid me net m route found fresh me in
        let d : indicator (routed rid me net) ≡ 0 =
          ap (λ o. indicator (is_some o)) (upstream_here rid me net m route found fresh) in
        let f : indicator (routed rid me before_fan_out) ≡ 1 = ap indicator here in
        let g : indicator (routed rid me final) ≡ 1 =
          ap indicator (last me ∙ Extends-routed rid s.grown me here) in
        let h : indicator (routed rid me mid) ≡ 1 =
          ap indicator (Extends-routed rid s.grown me here) in
        omega arith

    started_other :
        (x : String)
        → same me x ≡ false
        → jobs rid x final + indicator (routed rid x net)
          ≡ jobs rid x net + indicator (routed rid x final)
    started_other x ne =
        let a = working-jobs_other rid me mid w about x ne in
        let b = s.started x in
        let c = joined-jobs rid me net m route found fresh x in
        let d = ap indicator (other x ne) in let g = ap indicator (last x) in omega arith

    pub accepted-Spreads : Spreads rid root n net (change me (spawn w) mid)
    accepted-Spreads = record {
      grown = accepted-Extends;
      closed = λ x p before after member live. elim (Bool-cases (same me x)) [
        | inl eq ↦
            closed_here p
              (ap (λ y. contains p (peers y net)) ((string_eq.beq_iff me x).0 eq) ∙ member) live
        | inr ne ↦ closed_other x p ne before after member live
      ];
      started = λ x. elim (Bool-cases (same me x)) [
        | inl eq ↦
            subst
              (λ y.
                jobs rid y final + indicator (routed rid y net)
                ≡ jobs rid y net + indicator (routed rid y final))
              ((string_eq.beq_iff me x).0 eq) started_here
        | inr ne ↦ started_other x ne
      ];
      traced = λ x before after. elim (Bool-cases (same me x)) [
        | inl eq ↦
            subst (λ y. Deep rid root n final y) ((string_eq.beq_iff me x).0 eq)
              (Deep-mono rid root n (Extends-trans rid s.grown (working-Extends rid me mid w about))
                me deep)
        | inr ne ↦
            Deep-mono rid root n (working-Extends rid me mid w about) x
              (s.traced x (other x ne ∙ before) (sym (last x) ∙ after))
      ];
    }
