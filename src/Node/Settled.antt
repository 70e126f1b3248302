-- ===== src/Node/Settled.antt =====
-- `ForwardQuery` and the end of `SubmitQuery` of cpp/src/NodeServer.cpp leave rows, requests and made
-- routes as they are, and start workers that push where the route of their node leads.
use mathlib.Core.Path.{subst}
use mini2_aaa.Base.{
  string_eq, ℕ, zero, suc, ◌≡◌, refl, sym, ap, ◌∙◌, String, false, List, [], ◌∷◌, Option, none,
  some, inl, inr, Bool-cases, Option-cases, find, insert, find-insert, arith, some_inj,
}
use mini2_aaa.Domain.{QuerySpec}
use mini2_aaa.Buffer.{mark_producer_done}
use mini2_aaa.Node.{
  NodeServer, RouteState, Worker, ForwardQueryRequest, ForwardQueryAck, refusal, new_route,
  add_route, spawn, self_route,
}
use mini2_aaa.Node.Network.{Net, Answer, change, forwarded, skips, heard, fan_out, forward_query}
use mini2_aaa.Node.Submit.{told, tell_all, portal_route, first_forward, launch}
use mini2_aaa.Node.Views.{option_map, find-change, view-change, upstream_of}
use mini2_aaa.Node.Joined.{refusal-none}
use mini2_aaa.Node.Aimed.{
  aim_of, aim_view, route_aim, Settles, Settles-refl, Settles-trans, change_route-Settles,
  change_request-Settles, add_route-Settles, spawn-Settles,
}

module _ {D : Type 0} (rid : String) (spec : QuerySpec D) where
  -- A network that comes of a call settles what was before.
  abbrev To : Net D → Option (Net D) → Type 0
  To net none = Unit
  To net (some net') = Settles rid spec net net'

  abbrev Answered : {A : Type 0} → Net D → Answer D A → Type 0
  Answered net none = Unit
  Answered net (some (net', ack)) = Settles rid spec net net'

  To-from : (net mid : Net D) (o : Option (Net D)) → Settles rid spec net mid → To mid o → To net o
  To-from net mid none s t = tt
  To-from net mid (some net') s t = Settles-trans rid spec net mid net' s t

  heard-Settles :
      (me k nb : String) (ack : Option ForwardQueryAck) (net : Net D)
      → Settles rid spec net (heard me k nb ack net)
  unfolding heard
  heard-Settles me k nb none net = Settles-refl rid spec net
  heard-Settles me k nb (some ack) net = elim (Bool-cases ack.accepted) [
    | inl yes_ ↦ rw yes_ (
        change_route-Settles rid spec me k (λ r. record r { fanout_to = insert nb nb r.fanout_to })
          net (λ r. refl))
    | inr no_ ↦ rw no_ (Settles-refl rid spec net)
  ]

  told-Settles :
      (me k nb : String) (ack : Option ForwardQueryAck) (net : Net D)
      → Settles rid spec net (told me k nb ack net)
  unfolding told mark_producer_done
  told-Settles me k nb none net =
      change_request-Settles rid spec me k
        (λ st. record st { buffer = mark_producer_done nb st.buffer }) net (λ st. refl)
  told-Settles me k nb (some ack) net = elim (Bool-cases ack.accepted) [
    | inl yes_ ↦ rw yes_ (
        change_route-Settles rid spec me k (λ r. record r { fanout_to = insert nb nb r.fanout_to })
          net (λ r. refl))
    | inr no_ ↦ rw no_ (
        change_request-Settles rid spec me k
          (λ st. record st { buffer = mark_producer_done nb st.buffer }) net (λ st. refl))
  ]

  -- The requests about the query.
  record IsAbout (req : ForwardQueryRequest D) : Type 0 where
    named : req.request_id ≡ rid
    asks : req.spec ≡ spec

  module _ (call : Net D → String → ForwardQueryRequest D → Answer D ForwardQueryAck)
      (good : (net : Net D) (x : String) (req : ForwardQueryRequest D)
        → IsAbout req
        → Answered net (call net x req)) where
    fan_out-To :
        (me : String) (route : RouteState D) (req : ForwardQueryRequest D)
        → IsAbout req
        → (nbs : List String) (net : Net D) → To net (fan_out call me route req nbs net)
    unfolding fan_out forwarded
    fan_out-To me route req about [] net = Settles-refl rid spec net
    fan_out-To me route req about (nb ∷ nbs) net = elim (Bool-cases (skips route req nb)) [
      | inl skip ↦ rw (skip, fan_out) (fan_out-To me route req about nbs net)
      | inr ask ↦
          let next = forwarded me route req in
          let s = good net nb next (record { named = about.named; asks = about.asks }) in
          elim (Option-cases (call net nb next)) [
            | inl out ↦ rw (ask, fan_out) (rw (out, fan_out) tt)
            | inr ((mid, ack), e) ↦
                rw (ask, fan_out)
                  (rw (e, fan_out)
                    (To-from net (heard me req.request_id nb ack mid) _
                      (Settles-trans rid spec net mid _ (subst (Answered net) e s)
                        (heard-Settles me req.request_id nb ack mid))
                      (fan_out-To me route req about nbs (heard me req.request_id nb ack mid))))
          ]
    ]

    tell_all-To :
        (me : String) (req : ForwardQueryRequest D)
        → IsAbout req
        → (nbs : List String) (net : Net D) → To net (tell_all call me req nbs net)
    unfolding tell_all
    tell_all-To me req about [] net = Settles-refl rid spec net
    tell_all-To me req about (nb ∷ nbs) net =
        let s = good net nb req about in
        elim (Option-cases (call net nb req)) [
          | inl out ↦ rw (out, tell_all) tt
          | inr ((mid, ack), e) ↦
              rw (e, tell_all)
                (To-from net (told me req.request_id nb ack mid) _
                  (Settles-trans rid spec net mid _ (subst (Answered net) e s)
                    (told-Settles me req.request_id nb ack mid))
                  (tell_all-To me req about nbs (told me req.request_id nb ack mid)))
        ]

  -- The route that a node makes leads to the upstream.
  aim-add_route :
      (me : String) (route : RouteState D) (net : Net D) (n : NodeServer D)
      → find me net ≡ some n
      → aim_view rid (find me (change me (add_route rid route) net)) ≡ some (route_aim route)
  unfolding add_route
  aim-add_route me route net n e =
      let p : find me (change me (add_route rid route) net)
          ≡ option_map (add_route rid route) (find me net) =
        find-change me me (add_route rid route) net ∙ rw ((string_eq.beq_iff me me).1 refl) refl in
      let q : find rid (insert rid route n.routes) ≡ some route =
        find-insert rid rid route n.routes ∙ rw ((string_eq.beq_iff rid rid).1 refl) refl in
      ap (aim_view rid) (p ∙ ap (option_map (add_route rid route)) e) ∙ ap (option_map route_aim) q

  aim_none : (n : NodeServer D) → upstream_of rid n ≡ none → aim_of rid n ≡ none
  aim_none n e = elim (Option-cases (find rid n.routes)) [
    | inl none_ ↦ ap (option_map route_aim) none_
    | inr (r, some_) ↦
        absurd (let t = ap (option_map (λ (r : RouteState D). r.upstream_peer)) some_ in cc)
  ]

  -- A route, the calls of the neighbors, and a worker that pushes where the route leads.
  working :
      (me k : String) (route : RouteState D) (net net' : Net D) (n : NodeServer D) (w : Worker D)
      → k ≡ rid
      → find me net ≡ some n
      → aim_of rid n ≡ none
      → (route.upstream_peer ≡ w.upstream_peer) × (route.canceled ≡ false) × (w.spec ≡ spec)
      → Settles rid spec (change me (add_route k route) net) net'
      → Settles rid spec net (change me (spawn w) net')
        × (aim_view rid (find me (change me (spawn w) net')) ≡ some (route_aim route))
  unfolding spawn
  working me k route net net' n w named found fresh r t =
      let mid = change me (add_route rid route) net in
      let t' : Settles rid spec mid net' =
        subst (λ k. Settles rid spec (change me (add_route k route) net) net') named t in
      let first = add_route-Settles rid spec me route net (ap (aim_view rid) found ∙ fresh) in
      let aim = t'.kept me (route_aim route) (aim-add_route me route net n found) in
      (
        Settles-trans rid spec net mid _ first (
            Settles-trans rid spec mid net' _ t'
              (spawn-Settles rid spec me w net' r.2 (ground arith))),
        view-change me (spawn w) (aim_view rid) me net' (λ n. refl) ∙ aim,
      )

  forward_query-Answered :
      (clock : String → ℕ) (fuel : ℕ) (net : Net D) (me : String) (req : ForwardQueryRequest D)
      → IsAbout req
      → Answered net (forward_query clock fuel net me req)
  unfolding forward_query new_route
  forward_query-Answered clock zero net me req about = tt
  forward_query-Answered clock (suc fuel) net me req about = elim (Option-cases (find me net)) [
    | inl gone ↦ rw (gone, forward_query) (Settles-refl rid spec net)
    | inr (n, e) ↦ elim (Option-cases (refusal me req n)) [
      | inr (why, no_) ↦ rw (e, forward_query) (rw (no_, forward_query) (Settles-refl rid spec net))
      | inl go ↦
          let route = new_route me (clock me) req in
          let w : Worker D = record {
            request_id = req.request_id;
            spec = req.spec;
            upstream_peer = req.from_node;
          } in
          let start = change me (add_route req.request_id route) net in
          let t =
            fan_out-To (forward_query clock fuel) (forward_query-Answered clock fuel) me route req
              about n.peer_clients start in
          elim (Option-cases
            (fan_out (forward_query clock fuel) me route req n.peer_clients start)) [
              | inl out ↦
                  rw (e, forward_query) (rw (go, forward_query) (rw (out, forward_query) tt))
              | inr (net', e') ↦
                  rw (e, forward_query)
                    (rw (go, forward_query)
                      (rw (e', forward_query)
                        (working me req.request_id route net net' n w about.named e
                          (aim_none n (refusal-none rid me n req about.named go))
                          (refl, refl, about.asks) (subst (To start) e' t)).0))
            ]
    ]
  ]

  -- What a launched query leaves as it was; and its worker at the portal pushes to the portal itself.
  pub launch-Settles :
      (clock : String → ℕ) (issued fuel : ℕ) (me : String) (n : NodeServer D) (net net' : Net D)
      → find me net ≡ some n
      → upstream_of rid n ≡ none
      → launch clock issued fuel me rid spec n net ≡ some net'
      → Settles rid spec net net' × (aim_view rid (find me net') ≡ some (self_route, false))
  unfolding launch portal_route first_forward
  launch-Settles clock issued fuel me n net net' found fresh e =
      let route = portal_route me (clock me) spec in
      let w : Worker D = record { request_id = rid; spec = spec; upstream_peer = self_route } in
      let start = change me (add_route rid route) net in
      let req = first_forward me rid issued spec in
      let t =
        tell_all-To (forward_query clock fuel) (forward_query-Answered clock fuel) me req
          (record { named = refl; asks = refl }) n.peer_clients start in
      elim (Option-cases (tell_all (forward_query clock fuel) me req n.peer_clients start)) [
        | inl out ↦ absurd (let k : none ≡ some net' = sym (rw (out, launch) refl) ∙ e in cc)
        | inr (mid, e') ↦
            let r =
              working me rid route net mid n w refl found (aim_none n fresh) (refl, refl, refl)
                (subst (To start) e' t) in
            let q : change me (spawn w) mid ≡ net' = some_inj (sym (rw (e', launch) refl) ∙ e) in
            subst
              (λ k. Settles rid spec net k × (aim_view rid (find me k) ≡ some (self_route, false)))
              q r
      ]
