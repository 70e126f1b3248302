-- ===== src/Node/Joined.antt =====
-- What `ForwardQuery` of cpp/src/NodeServer.cpp answers, and how a node that takes a query changes:
-- it gets a route, and at the end a worker.
use mini2_aaa.Base.{
  string_eq, same, suc, ◌≡◌, refl, sym, ap, ◌∙◌, String, true, false, not, if◌then◌else◌, List, [],
  ◌∷◌, ◌++◌, none, some, inl, inr, Bool-cases, Option-cases, find, indicator, arith, contains,
}
use mini2_aaa.Node.{NodeServer, RouteState, Worker, ForwardQueryRequest, refusal, add_route, spawn}
use mini2_aaa.Node.Network.{Net, change}
use mini2_aaa.Node.Views.{
  wire_view, up_view, jobs_view, option_map, is_some, count_workers, upstream, routed, jobs,
  unrouted, wiring, alive, view-change, unrouted-change, unrouted-insert, upstream-add_route,
  find-change, upstream_of, lacks,
}
use mini2_aaa.Node.Spread.{Extends}

count_workers-append :
    {D : Type 0} (rid : String) (ws : List (Worker D)) (w : Worker D)
    → w.request_id ≡ rid
    → count_workers rid (ws ++ (w ∷ [])) ≡ suc (count_workers rid ws)
count_workers-append rid [] w e = ground (arith, string_eq.beq_iff w.request_id rid)
count_workers-append rid (v ∷ ws) w e = omega (arith, count_workers-append rid ws w e)

module _ {D : Type 0} (rid me : String) where
  refusal_loop :
      (m : NodeServer D) (req : ForwardQueryRequest D)
      → contains me req.visited ≡ true
      → refusal me req m ≡ some "loop"
  unfolding refusal
  refusal_loop m req e = rw (e, refusal) refl

  refusal_dup :
      (m : NodeServer D) (req : ForwardQueryRequest D) (r : RouteState D)
      → contains me req.visited ≡ false
      → find req.request_id m.routes ≡ some r
      → refusal me req m ≡ some "dup"
  unfolding refusal
  refusal_dup m req r e k = rw (e, k, refusal) refl

  refusal_go :
      (m : NodeServer D) (req : ForwardQueryRequest D)
      → contains me req.visited ≡ false
      → find req.request_id m.routes ≡ none
      → refusal me req m ≡ none
  unfolding refusal
  refusal_go m req e k = rw (e, k, refusal) refl

  -- A refusal is that of a node that has a route.
  pub refusal-routed :
      (net : Net D) (m : NodeServer D) (req : ForwardQueryRequest D) (why : String)
      → req.request_id ≡ rid
      → ((v : String) → contains v req.visited ≡ true → routed rid v net ≡ true)
      → find me net ≡ some m
      → refusal me req m ≡ some why
      → routed rid me net ≡ true
  refusal-routed net m req why about seen found e = elim (Bool-cases (contains me req.visited)) [
    | inl loop ↦ seen me loop
    | inr new ↦ elim (Option-cases (find req.request_id m.routes)) [
      | inl absent ↦ absurd (let t = refusal_go m req new absent in cc)
      | inr (r, present) ↦
          ap (λ o. is_some (up_view rid o)) found
          ∙ ap (λ o. is_some (option_map (λ (r : RouteState D). r.upstream_peer) o))
              (ap (λ k. find k m.routes) (sym about) ∙ present)
    ]
  ]

  pub refusal-none :
      (m : NodeServer D) (req : ForwardQueryRequest D)
      → req.request_id ≡ rid
      → refusal me req m ≡ none
      → upstream_of rid m ≡ none
  refusal-none m req about e = elim (Bool-cases (contains me req.visited)) [
    | inl loop ↦ absurd (let t = refusal_loop m req loop in cc)
    | inr new ↦ elim (Option-cases (find req.request_id m.routes)) [
      | inl absent ↦
          ap (option_map (λ (r : RouteState D). r.upstream_peer))
            (ap (λ k. find k m.routes) (sym about) ∙ absent)
      | inr (r, present) ↦ absurd (let t = refusal_dup m req r new present in cc)
    ]
  ]

  -- The network after a node made its route.
  module _ (net : Net D) (m : NodeServer D) (route : RouteState D) (found : find me net ≡ some m)
      (fresh : upstream_of rid m ≡ none) where
    abbrev pub joined : Net D
    joined = change me (add_route rid route) net

    pub upstream_here : upstream rid me net ≡ none
    upstream_here = ap (up_view rid) found ∙ fresh

    joined-find :
        (x : String)
        → find x joined ≡ (if same me x then some (add_route rid route m) else find x net)
    joined-find x = find-change me x (add_route rid route) net ∙ rw found refl

    pub joined-upstream :
        (x : String)
        → upstream rid x joined
          ≡ (if same me x then some route.upstream_peer else upstream rid x net)
    joined-upstream x = elim (Bool-cases (same me x)) [
      | inl eq ↦
          let p : find x joined ≡ some (add_route rid route m) = joined-find x ∙ rw eq refl in
          ap (up_view rid) p ∙ (upstream-add_route rid route m ∙ rw eq refl)
      | inr ne ↦
          let p : find x joined ≡ find x net = joined-find x ∙ rw ne refl in
          ap (up_view rid) p ∙ rw ne refl
    ]

    pub joined-wiring : (x : String) → wiring x joined ≡ wiring x net
    unfolding add_route
    joined-wiring x = view-change me (add_route rid route) wire_view x net (λ m. refl)

    pub joined-jobs : (x : String) → jobs rid x joined ≡ jobs rid x net
    unfolding add_route
    joined-jobs x = view-change me (add_route rid route) (jobs_view rid) x net (λ m. refl)

    pub joined-unrouted : suc (unrouted rid joined) ≡ unrouted rid net
    unfolding change
    joined-unrouted =
        rw (found, change)
          (let t = unrouted-insert me rid m (add_route rid route m) net found in
            let u : indicator (lacks rid m) ≡ 1 = ap (λ o. indicator (not (is_some o))) fresh in
            let w : indicator (lacks rid (add_route rid route m)) ≡ 0 =
              ap (λ o. indicator (not (is_some o))) (upstream-add_route rid route m) in
            omega arith)

    pub joined-Extends : Extends rid net joined
    joined-Extends = record {
      wired = joined-wiring;
      kept = λ x u e. elim (Bool-cases (same me x)) [
        | inl eq ↦ absurd (
            let t = ap (λ y. upstream rid y net) ((string_eq.beq_iff me x).0 eq) in
            let h = upstream_here in cc)
        | inr ne ↦ joined-upstream x ∙ (rw ne e)
      ];
      fewer = (let t = joined-unrouted in omega arith);
    }

  -- The network after a node started its worker.
  module _ (net : Net D) (w : Worker D) (about : w.request_id ≡ rid) where
    abbrev pub working : Net D
    working = change me (spawn w) net

    pub working-wiring : (x : String) → wiring x working ≡ wiring x net
    unfolding spawn
    working-wiring x = view-change me (spawn w) wire_view x net (λ m. refl)

    pub working-upstream : (x : String) → upstream rid x working ≡ upstream rid x net
    unfolding spawn
    working-upstream x = view-change me (spawn w) (up_view rid) x net (λ m. refl)

    pub working-unrouted : unrouted rid working ≡ unrouted rid net
    unfolding spawn
    working-unrouted = unrouted-change me rid (spawn w) net (λ m. refl)

    pub working-jobs_other : (x : String) → same me x ≡ false → jobs rid x working ≡ jobs rid x net
    working-jobs_other x ne =
        let p : find x working ≡ find x net = find-change me x (spawn w) net ∙ rw ne refl in
        ap (jobs_view rid) p

    pub working-jobs_here : alive me net ≡ true → jobs rid me working ≡ suc (jobs rid me net)
    unfolding spawn
    working-jobs_here l = elim (Option-cases (find me net)) [
      | inl e ↦ absurd (let t : alive me net ≡ false = ap (λ o. is_some (wire_view o)) e in cc)
      | inr (m, e) ↦
          let own : same me me ≡ true = (string_eq.beq_iff me me).1 refl in
          let p : find me working ≡ some (spawn w m) =
            find-change me me (spawn w) net ∙ (rw own (ap (option_map (spawn w)) e)) in
          ap (jobs_view rid) p
          ∙ (count_workers-append rid m.workers w about ∙ sym (ap (λ o. suc (jobs_view rid o)) e))
    ]

    pub working-Extends : Extends rid net working
    working-Extends = record {
      wired = working-wiring;
      kept = λ x u e. working-upstream x ∙ e;
      fewer = (let t = working-unrouted in omega arith);
    }
