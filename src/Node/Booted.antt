-- ===== src/Node/Booted.antt =====
-- The network of the nodes that cpp/src/server_main.cpp starts from one topology.
use mini2_aaa.Base.{
  string_eq, same, ℕ, ◌≡◌, refl, sym, ap, ◌∙◌, String, Bool, true, false, ◌||◌, List, [], ◌∷◌,
  Option, none, some, Option-cases, inl, inr, find, contains, insert_set, arith,
}
use mini2_aaa.Base.Int.{ℤ}
use mini2_aaa.Domain.{Floating}
use mini2_aaa.Config.{Config, NodeEntry, node, neighbors_of, partition_path}
use mini2_aaa.Config.Symmetric.{IsTopology, linked, contains-insert_set}
use mini2_aaa.Store.Load.{Parsing}
use mini2_aaa.Node.{NodeServer}
use mini2_aaa.Node.Network.{Net}
use mini2_aaa.Node.Views.{wire_view, alive, peers, is_some}
use mini2_aaa.Node.Delivery.{IsOverlay}
use mini2_aaa.Node.Startup.{new_server, stubs, load_partition, run_node}

some_inj {ℓ} : {A : Type ℓ} {a b : A} → some a ≡ some b → a ≡ b
some_inj e = cc

or_swap : (a b c : Bool) → (a || (b || c)) ≡ ((b || a) || c)
or_swap a b c = ground arith

or_false : (a : Bool) → (a || false) ≡ a
or_false a = ground arith

stubs-contains :
    (cfg : Config) (y : String) (nbs made all : List String)
    → stubs cfg nbs made ≡ some all
    → contains y all ≡ (contains y nbs || contains y made)
unfolding stubs
stubs-contains cfg y [] made all e =
    let same_ : made ≡ all = some_inj e in ap (contains y) (sym same_)
stubs-contains cfg y (nb ∷ nbs) made all e = elim (Option-cases (node nb cfg)) [
  | inl lost ↦ absurd (let bad : none ≡ some all = sym (rw (lost, stubs) refl) ∙ e in cc)
  | inr (entry, found) ↦
      let rest : stubs cfg nbs (insert_set nb made) ≡ some all = sym (rw (found, stubs) refl) ∙ e in
      stubs-contains cfg y nbs (insert_set nb made) all rest
      ∙ (ap (λ b. contains y nbs || b) (contains-insert_set y nb made)
          ∙ or_swap (contains y nbs) (same nb y) (contains y made))
]

-- What `run` makes of a new node: the topology stays, the stubs are those of the neighbors, and the
-- topology has the node.
record IsRun {D : Type 0} (cfg : Config) (x : String) (n : NodeServer D) : Type 0 where
  keeps : n.cfg ≡ cfg
  wires : (y : String) → contains y n.peer_clients ≡ contains y (neighbors_of x cfg)
  entry : NodeEntry
  named : node x cfg ≡ some entry

module _ {D : Type 0} ⦃f : Floating D⦄ ⦃p : Parsing D⦄ (atoi : String → ℤ)
    (files : String → Option (List String)) where
  run_node-IsRun :
      (now : ℕ) (cfg : Config) (x : String) (n : NodeServer D)
      → run_node atoi files now x (new_server atoi cfg) ≡ some n
      → IsRun cfg x n
  unfolding run_node new_server
  run_node-IsRun now cfg x n e =
      elim (Option-cases
        (load_partition atoi files (partition_path x cfg) (new_server {D = D} atoi cfg).store)) [
          | inl lost ↦ absurd (let bad : none ≡ some n = sym (rw (lost, run_node) refl) ∙ e in cc)
          | inr (store, s) ↦ elim (Option-cases (stubs cfg (neighbors_of x cfg) [])) [
            | inl lost ↦ absurd (
                let bad : none ≡ some n = sym (rw (s, run_node) (rw (lost, run_node) refl)) ∙ e in
                cc)
            | inr (made, m) ↦ elim (Option-cases (node x cfg)) [
              | inl lost ↦ absurd (
                  let bad : none ≡ some n =
                    sym (rw (s, run_node) (rw (m, run_node) (rw (lost, run_node) refl))) ∙ e in
                  cc)
              | inr (entry, k) ↦
                  let up : record (new_server {D = D} atoi cfg) {
                    start_time = now;
                    store = store;
                    peer_clients = made;
                  }
                      ≡ n =
                    some_inj
                      (sym (rw (s, run_node) (rw (m, run_node) (rw (k, run_node) refl))) ∙ e) in
                  record {
                    keeps = ap (λ n. n.cfg) (sym up);
                    wires = λ y.
                        ap (λ n. contains y n.peer_clients) (sym up)
                        ∙ (stubs-contains cfg y (neighbors_of x cfg) [] made m
                            ∙ or_false (contains y (neighbors_of x cfg)));
                    entry = entry;
                    named = k;
                  }
            ]
          ]
        ]

module _ {D : Type 0} (cfg : Config) (root : String) (net : Net D) (topology : IsTopology cfg)
    (one_root : (x : String) (e : NodeEntry) → find x cfg.nodes ≡ some e → e.is_root ≡ same x root)
    (runs : (x : String) (n : NodeServer D) → find x net ≡ some n → IsRun cfg x n) where
  alive-find : (x : String) → alive x net ≡ true → (n : NodeServer D) × (find x net ≡ some n)
  alive-find x e = elim (Option-cases (find x net)) [
    | inl lost ↦ absurd (let t = ap (λ o. is_some (wire_view o)) lost in cc)
    | inr found ↦ found
  ]

  member-alive : (x y : String) → contains y (peers x net) ≡ true → alive x net ≡ true
  member-alive x y m = elim (Option-cases (find x net)) [
    | inl lost ↦ absurd (
        let t : peers x net ≡ [] =
          ap (λ o. elim (wire_view o) as (λ _. List String) [ none ↦ [] | some w ↦ w.1 ]) lost in
        let u = ap (contains y) t in cc)
    | inr (n, found) ↦ ap (λ o. is_some (wire_view o)) found
  ]

  peers-linked :
      (x y : String) (n : NodeServer D)
      → find x net ≡ some n
      → contains y (peers x net) ≡ linked x y cfg.peers
  unfolding neighbors_of
  peers-linked x y n found =
      ap (λ o. contains y (elim (wire_view o) as (λ _. List String) [ none ↦ [] | some w ↦ w.1 ]))
        found
      ∙ (runs x n found).wires y

  overlay : IsOverlay root net
  unfolding node
  overlay = record {
    two_way = λ x y m l.
        let (n, found) = alive-find x (member-alive x y m) in
        let (n', found') = alive-find y l in
        peers-linked y x n' found'
        ∙ (topology.symmetric y x ∙ (sym (peers-linked x y n found) ∙ m));
    listed = λ x cfg' ps e.
        let (n, found) = alive-find x (ap is_some e) in
        let r = runs x n found in
        let w : (n.cfg, n.peer_clients) ≡ (cfg', ps) = some_inj (sym (ap wire_view found) ∙ e) in
        let c : cfg' ≡ cfg = ap (λ w. w.0) (sym w) ∙ r.keeps in
        (r.entry, ap (node x) c ∙ r.named, one_root x r.entry r.named);
  }

-- Nodes that come up from one topology that has just one root make an overlay.
pub run_node-IsOverlay :
    {D : Type 0} ⦃f : Floating D⦄ ⦃p : Parsing D⦄ (atoi : String → ℤ)
    (files : String → Option (List String)) (clock : String → ℕ) (cfg : Config) (root : String)
    (net : Net D)
    → IsTopology cfg
    → ((x : String) (e : NodeEntry) → find x cfg.nodes ≡ some e → e.is_root ≡ same x root)
    → ((x : String) (n : NodeServer D)
        → find x net ≡ some n
        → run_node atoi files (clock x) x (new_server atoi cfg) ≡ some n)
    → IsOverlay root net
run_node-IsOverlay atoi files clock cfg root net topology one_root booted =
    overlay cfg root net topology one_root
      (λ x n found. run_node-IsRun atoi files (clock x) cfg x n (booted x n found))
