-- ===== src/Node/Views.antt =====
-- What the calls of cpp/src/NodeServer.cpp change in a network, and what they leave: the stubs of a
-- node, the upstream of a request at a node, its workers, and how many nodes have no route yet.
use mini2_aaa.Base.{
  string_eq, same, ℕ, ◌+◌, ◌≡◌, refl, sym, ap, ◌∙◌, String, Bool, true, false, not, if◌then◌else◌,
  List, [], ◌∷◌, Option, none, some, inl, inr, Bool-cases, Option-cases, find, insert, find-insert,
  indicator, arith, some_inj,
}
use mini2_aaa.Config.{Config}
use mini2_aaa.Node.{NodeServer, RouteState, Worker, add_route, change_route}
use mini2_aaa.Node.Network.{Net, change}

abbrev pub option_map {ℓ κ} : {A : Type ℓ} {B : Type κ} → (A → B) → Option A → Option B
option_map g none = none
option_map g (some a) = some (g a)

abbrev pub is_some {ℓ} : {A : Type ℓ} → Option A → Bool
is_some none = false
is_some (some a) = true

-- How many workers have a request.
abbrev pub count_workers : {D : Type 0} → String → List (Worker D) → ℕ
count_workers rid [] = 0
count_workers rid (w ∷ ws) = indicator (same w.request_id rid) + count_workers rid ws

module _ {D : Type 0} (rid : String) where
  -- The upstream of the request at a node.
  abbrev pub upstream_of : NodeServer D → Option String
  upstream_of n = option_map (λ r. r.upstream_peer) (find rid n.routes)

  abbrev pub lacks : NodeServer D → Bool
  lacks n = not (is_some (upstream_of n))

  abbrev pub jobs_of : NodeServer D → ℕ
  jobs_of n = count_workers rid n.workers

  -- The same of the node with an id, if the network has one.
  abbrev pub up_view : Option (NodeServer D) → Option String
  up_view none = none
  up_view (some n) = upstream_of n

  abbrev pub upstream : String → Net D → Option String
  upstream x net = up_view (find x net)

  abbrev pub routed : String → Net D → Bool
  routed x net = is_some (upstream x net)

  abbrev pub jobs_view : Option (NodeServer D) → ℕ
  jobs_view none = 0
  jobs_view (some n) = jobs_of n

  abbrev pub jobs : String → Net D → ℕ
  jobs x net = jobs_view (find x net)

  -- The nodes without a route.
  abbrev pub unrouted : Net D → ℕ
  unrouted [] = 0
  unrouted ((x, n) ∷ net) = indicator (lacks n) + unrouted net

-- The topology and the stubs of a node.
abbrev pub wire_view : {D : Type 0} → Option (NodeServer D) → Option (Config × List String)
wire_view = option_map (λ n. (n.cfg, n.peer_clients))

abbrev pub wiring : {D : Type 0} → String → Net D → Option (Config × List String)
wiring x net = wire_view (find x net)

abbrev pub alive : {D : Type 0} → String → Net D → Bool
alive x net = is_some (wiring x net)

abbrev pub peers : {D : Type 0} → String → Net D → List String
peers x net = elim (wiring x net) [ none ↦ [] | some w ↦ w.1 ]

module _ {D : Type 0} where
  pub find-change :
      (me x : String) (g : NodeServer D → NodeServer D) (net : Net D)
      → find x (change me g net) ≡ (if same me x then option_map g (find me net) else find x net)
  unfolding change
  find-change me x g net = elim (Option-cases (find me net)) [
    | inr (n, e) ↦ rw (e, change) (rw (find-insert me x (g n) net) refl)
    | inl e ↦
        rw (e, change)
          (elim (Bool-cases (same me x)) [
            | inl eq ↦ rw eq (sym (ap (λ y. find y net) ((string_eq.beq_iff me x).0 eq)) ∙ e)
            | inr ne ↦ rw ne refl
          ])
  ]

module _ {D : Type 0} (me : String) (g : NodeServer D → NodeServer D) where
  -- A view that the change keeps is kept everywhere.
  option_kept {ℓ} :
      {A : Type ℓ} (v : Option (NodeServer D) → A) (o : Option (NodeServer D))
      → ((n : NodeServer D) → v (some (g n)) ≡ v (some n))
      → v (option_map g o) ≡ v o
  option_kept v none h = refl
  option_kept v (some n) h = h n

  pub view-change {ℓ} :
      {A : Type ℓ} (v : Option (NodeServer D) → A) (x : String) (net : Net D)
      → ((n : NodeServer D) → v (some (g n)) ≡ v (some n))
      → v (find x (change me g net)) ≡ v (find x net)
  view-change v x net all =
      let h = option_kept v (find me net) all in
      elim (Bool-cases (same me x)) [
        | inl eq ↦
            ap v (find-change me x g net)
            ∙ rw eq (h ∙ ap (λ y. v (find y net)) ((string_eq.beq_iff me x).0 eq))
        | inr ne ↦ ap v (find-change me x g net) ∙ rw ne refl
      ]

module _ {D : Type 0} (root : String) (net : Net D) (top top' : NodeServer D)
    (found : find root net ≡ some top) where
  -- A view that does not tell two states of the root apart.
  pub view-insert {ℓ} :
      {A : Type ℓ} (v : Option (NodeServer D) → A) (x : String)
      → v (some top') ≡ v (some top)
      → v (find x (insert root top' net)) ≡ v (find x net)
  view-insert v x e = elim (Bool-cases (same root x)) [
    | inl eq ↦
        ap v (find-insert root x top' net)
        ∙ rw eq
            (e ∙ (ap v (sym found) ∙ ap (λ y. v (find y net)) ((string_eq.beq_iff root x).0 eq)))
    | inr ne ↦ ap v (find-insert root x top' net) ∙ rw ne refl
  ]

module _ {D : Type 0} (me rid : String) where
  pub unrouted-insert :
      (n n' : NodeServer D) (net : Net D)
      → find me net ≡ some n
      → unrouted rid (insert me n' net) + indicator (lacks rid n)
        ≡ unrouted rid net + indicator (lacks rid n')
  unfolding insert find
  unrouted-insert n n' [] e = cc
  unrouted-insert n n' ((y, m) ∷ net) e = elim (Bool-cases (same y me)) [
    | inl eq ↦ let here : m ≡ n = some_inj (sym (rw eq refl) ∙ e) in rw eq (rw here (omega arith))
    | inr ne ↦ rw ne (let ih = unrouted-insert n n' net (sym (rw ne refl) ∙ e) in omega arith)
  ]

  -- A change that keeps whether the node has a route keeps their number.
  pub unrouted-change :
      (g : NodeServer D → NodeServer D) (net : Net D)
      → ((n : NodeServer D) → upstream_of rid (g n) ≡ upstream_of rid n)
      → unrouted rid (change me g net) ≡ unrouted rid net
  unfolding change
  unrouted-change g net h = elim (Option-cases (find me net)) [
    | inl e ↦ rw (e, change) refl
    | inr (n, e) ↦
        rw (e, change)
          (let t = unrouted-insert n (g n) net e in
            let u : indicator (lacks rid (g n)) ≡ indicator (lacks rid n) =
              ap (λ o. indicator (not (is_some o))) (h n) in
            omega arith)
  ]

-- The changes of routes, requests and workers at one node.
module _ {D : Type 0} (rid : String) where
  pub upstream-add_route :
      (route : RouteState D) (n : NodeServer D)
      → upstream_of rid (add_route rid route n) ≡ some route.upstream_peer
  unfolding add_route
  upstream-add_route route n =
      rw (find-insert rid rid route n.routes) (ground (arith, string_eq.beq_iff rid rid))

  -- What a change of a route leaves of it.
  pub find-change_route {ℓ} :
      {A : Type ℓ} (v : RouteState D → A) (k : String) (g : RouteState D → RouteState D)
      (n : NodeServer D)
      → ((r : RouteState D) → v (g r) ≡ v r)
      → option_map v (find rid (change_route k g n).routes) ≡ option_map v (find rid n.routes)
  unfolding change_route
  find-change_route v k g n h = elim (Option-cases (find k n.routes)) [
    | inl e ↦ rw (e, change_route) refl
    | inr (r, e) ↦
        rw (e, change_route)
          (elim (Bool-cases (same k rid)) [
            | inr ne ↦ rw (find-insert k rid (g r) n.routes) (rw ne refl)
            | inl eq ↦ rw (find-insert k rid (g r) n.routes) (
                rw eq (
                  ap some (h r)
                  ∙ ap (option_map v)
                      (sym e ∙ ap (λ y. find y n.routes) ((string_eq.beq_iff k rid).0 eq))))
          ])
  ]

  pub upstream-change_route :
      (k : String) (g : RouteState D → RouteState D) (n : NodeServer D)
      → ((r : RouteState D) → (g r).upstream_peer ≡ r.upstream_peer)
      → upstream_of rid (change_route k g n) ≡ upstream_of rid n
  upstream-change_route k g n h = find-change_route (λ r. r.upstream_peer) k g n h
