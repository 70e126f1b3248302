-- ===== src/Node/Flood.antt =====
-- `ForwardQuery` of cpp/src/NodeServer.cpp ends, and leaves what `Spreads` says.
use mini2_aaa.Base.{
  string_eq, same, ℕ, ◌<◌, ◌≡◌, refl, sym, ap, ◌∙◌, String, true, List, [], ◌∷◌, Option, none, some,
  inl, inr, Bool-cases, insert, arith, contains,
}
use mathlib.Core.Path.{subst}
use mini2_aaa.Node.{RouteState, ForwardQueryRequest, ForwardQueryAck, change_route}
use mini2_aaa.Node.Network.{Net, Answer, change, forwarded, skips, heard, fan_out}
use mini2_aaa.Node.Views.{
  wire_view, up_view, jobs_view, routed, unrouted, alive, peers, view-change, unrouted-change,
  upstream-change_route,
}
use mini2_aaa.Node.Spread.{
  Extends, Extends-refl, Extends-routed, Extends-peers, Extends-alive, Deep, Deep-mono, Spreads,
  Spreads-same, Spreads-trans,
}

module _ {D : Type 0} (rid root : String) (n : ℕ) where
  -- An answer to a forwarded query: it comes, and the node that was asked has a route.
  pub record Outcome (net : Net D) (x : String) (answer : Answer D ForwardQueryAck) : Type 0 where
    pub after : Net D
    pub ack : Option ForwardQueryAck
    pub answered : answer ≡ some (after, ack)
    pub spreads : Spreads rid root n net after
    pub arrived : alive x net ≡ true → routed rid x after ≡ true

  -- A forwarded query that comes from a node of the tree.
  pub record Ready (net : Net D) (x : String) (req : ForwardQueryRequest D) : Type 0 where
    pub about : req.request_id ≡ rid
    pub deep : Deep rid root n net req.from_node
    pub sender : routed rid req.from_node net ≡ true
    pub neighbor : contains x (peers req.from_node net) ≡ true
    pub seen : (v : String) → contains v req.visited ≡ true → routed rid v net ≡ true

  pub stay : (net : Net D) → Spreads rid root n net net
  stay net = Spreads-same rid root n net net (λ x. refl) (λ x. refl) (λ x. refl) refl

  pub change_route-Spreads :
      (me k : String) (g : RouteState D → RouteState D) (net : Net D)
      → ((r : RouteState D) → (g r).upstream_peer ≡ r.upstream_peer)
      → Spreads rid root n net (change me (change_route k g) net)
  unfolding change_route
  change_route-Spreads me k g net h =
      Spreads-same rid root n net (change me (change_route k g) net)
        (λ x. view-change me (change_route k g) wire_view x net (λ m. ground arith))
        (λ x.
          view-change me (change_route k g) (up_view rid) x net
            (λ m. upstream-change_route rid k g m h))
        (λ x. view-change me (change_route k g) (jobs_view rid) x net (λ m. ground arith))
        (unrouted-change me rid (change_route k g) net (λ m. upstream-change_route rid k g m h))

  pub heard-Spreads :
      (me k nb : String) (ack : Option ForwardQueryAck) (net : Net D)
      → Spreads rid root n net (heard me k nb ack net)
  unfolding heard
  heard-Spreads me k nb none net =
      Spreads-same rid root n net net (λ x. refl) (λ x. refl) (λ x. refl) refl
  heard-Spreads me k nb (some ack) net = elim (Bool-cases ack.accepted) [
    | inl yes_ ↦ rw yes_ (
        change_route-Spreads me k (λ r. record r { fanout_to = insert nb nb r.fanout_to }) net
          (λ r. refl))
    | inr no_ ↦ rw no_ (Spreads-same rid root n net net (λ x. refl) (λ x. refl) (λ x. refl) refl)
  ]

  module _ (bound : ℕ)
      (call : Net D → String → ForwardQueryRequest D → Answer D ForwardQueryAck) where
    -- What the recursive calls do on networks with fewer nodes to go.
    abbrev pub Good : Type 0
    Good =
        (net : Net D) (x : String) (req : ForwardQueryRequest D)
        → Ready net x req
        → unrouted rid net < bound
        → Outcome net x (call net x req)

    module _ (good : Good) (me : String) (route : RouteState D) (req : ForwardQueryRequest D) where
      -- What the loop of `ForwardQuery` needs.
      pub record Looping (nbs : List String) (net : Net D) : Type 0 where
        pub about : req.request_id ≡ rid
        pub here : routed rid me net ≡ true
        pub deep : Deep rid root n net me
        pub sender : routed rid req.from_node net ≡ true
        pub seen : (v : String) → contains v route.visited ≡ true → routed rid v net ≡ true
        pub neighbors : (v : String) → contains v nbs ≡ true → contains v (peers me net) ≡ true
        pub room : unrouted rid net < bound

      pub record Looped (nbs : List String) (net : Net D) (answer : Option (Net D)) : Type 0 where
        pub after : Net D
        pub answered : answer ≡ some after
        pub spreads : Spreads rid root n net after
        pub arrived :
            (v : String) → contains v nbs ≡ true → alive v net ≡ true → routed rid v after ≡ true

      pub Looping-next :
          (nb : String) (nbs : List String) (net net' : Net D)
          → Looping (nb ∷ nbs) net
          → Extends rid net net'
          → Looping nbs net'
      Looping-next nb nbs net net' l s = record {
        about = l.about;
        here = Extends-routed rid s me l.here;
        deep = Deep-mono rid root n s me l.deep;
        sender = Extends-routed rid s req.from_node l.sender;
        seen = λ v e. Extends-routed rid s v (l.seen v e);
        neighbors = λ v e. ap (contains v) (Extends-peers rid s me) ∙ l.neighbors v (ground arith);
        room = (let f = s.fewer in let r = l.room in omega arith);
      }

      pub Looped-cons :
          (nb : String) (nbs : List String) (net mid : Net D) (answer : Option (Net D))
          → Spreads rid root n net mid
          → (alive nb net ≡ true → routed rid nb mid ≡ true)
          → Looped nbs mid answer
          → Looped (nb ∷ nbs) net answer
      Looped-cons nb nbs net mid answer s first rest = record {
        after = rest.after;
        answered = rest.answered;
        spreads = Spreads-trans rid root n net mid rest.after s rest.spreads;
        arrived = λ v e l. elim (Bool-cases (same nb v)) [
          | inl eq ↦
              let t = (string_eq.beq_iff nb v).0 eq in
              Extends-routed rid rest.spreads.grown v (
                subst (λ y. routed rid y mid ≡ true) t
                  (first (subst (λ y. alive y net ≡ true) (sym t) l)))
          | inr ne ↦ rest.arrived v (ground arith) (Extends-alive rid s.grown v ∙ l)
        ];
      }

      forwarded-Ready :
          (nb : String) (nbs : List String) (net : Net D)
          → Looping (nb ∷ nbs) net
          → Ready net nb (forwarded me route req)
      unfolding forwarded
      forwarded-Ready nb nbs net l = record {
        about = l.about;
        deep = l.deep;
        sender = l.here;
        neighbor = l.neighbors nb (ground (arith, string_eq.beq_iff nb nb));
        seen = l.seen;
      }

      skipped :
          (nb : String) (net : Net D) (nbs : List String)
          → Looping (nb ∷ nbs) net
          → skips route req nb ≡ true
          → routed rid nb net ≡ true
      skipped nb net nbs l e = elim (Bool-cases (same nb req.from_node)) [
        | inl eq ↦
            subst (λ y. routed rid y net ≡ true) (sym ((string_eq.beq_iff nb req.from_node).0 eq))
              l.sender
        | inr ne ↦ l.seen nb (ground arith)
      ]

      pub fan_out-Looped :
          (nbs : List String) (net : Net D)
          → Looping nbs net
          → Looped nbs net (fan_out call me route req nbs net)
      unfolding fan_out
      fan_out-Looped [] net l = record {
        after = net;
        answered = refl;
        spreads = stay net;
        arrived = λ v e k. absurd (cc);
      }
      fan_out-Looped (nb ∷ nbs) net l = elim (Bool-cases (skips route req nb)) [
        | inl skip ↦
            rw (skip, fan_out)
              (Looped-cons nb nbs net net _ (stay net) (λ k. skipped nb net nbs l skip)
                (fan_out-Looped nbs net (Looping-next nb nbs net net l (Extends-refl rid net))))
        | inr ask ↦
            let o = good net nb (forwarded me route req) (forwarded-Ready nb nbs net l) l.room in
            let mid = heard me req.request_id nb o.ack o.after in
            let h = heard-Spreads me req.request_id nb o.ack o.after in
            let s = Spreads-trans rid root n net o.after mid o.spreads h in
            rw (ask, o.answered, fan_out)
              (Looped-cons nb nbs net mid _ s (λ k. Extends-routed rid h.grown nb (o.arrived k))
                (fan_out-Looped nbs mid (Looping-next nb nbs net mid l s.grown)))
      ]
