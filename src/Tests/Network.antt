-- ===== src/Tests/Network.antt =====
-- The theorems on a query in flight at the network of two nodes.
use mini2_aaa.Base.{
  string_eq, same, ℕ, ◌≡◌, refl, sym, ap, ◌∙◌, String, Bool, true, false, List, [], ◌∷◌, Option,
  none, some, ◌⊎◌, inl, inr, Bool-cases, Option-cases, find, insert, arith, contains, length,
}
use mini2_aaa.Domain.{QuerySpec, Row311}
use mini2_aaa.Buffer.{Buffer}
use mini2_aaa.Engine.{run}
use mini2_aaa.Engine.Emit.{rows_of}
use mini2_aaa.Registry.{RequestState, new_request}
use mini2_aaa.Node.{NodeServer, Worker, PushChunkRequest, receive_chunk}
use mini2_aaa.Node.Network.{Net, push_chunk}
use mini2_aaa.Node.Execute.{canceled_fn}
use mini2_aaa.Config.{param_int}
use mini2_aaa.Node.Submit.{launch}
use mini2_aaa.Node.Views.{is_some, up_view, jobs_view}
use mini2_aaa.Node.Spread.{Uplink, at_root, via}
use mini2_aaa.Node.Delivery.{IsOverlay, IsOverlay-kept, push_chunk-received}
use mini2_aaa.Node.Collected.{run_of}
use mini2_aaa.Node.Launch.{IsNew, IsUnderWay, launch-IsUnderWay}
use mini2_aaa.Node.Storm.{IsCyclic, circles, abort_turns, handle_cancel, cancel_query-circles}
use mini2_aaa.Client.{Turn}
use mini2_aaa.Tests.{whole_doubles, noise}
use mini2_aaa.Tests.Parts.{lengths, whole_millis, a_row}
use mini2_aaa.Tests.Overlay.{number, node_a, node_b, net, pair-find, net-IsOverlay}

-- A view of a node of the network.
pub by_node {ℓ} :
    {A : Type ℓ} (v : Option (NodeServer ℕ) → A) (c : A)
    → v none ≡ c
    → v (some node_a) ≡ c
    → v (some node_b) ≡ c
    → (x : String) → v (find x net) ≡ c
by_node v c at_none at_a at_b x = elim (Option-cases (find x net)) [
  | inl lost ↦ ap v lost ∙ at_none
  | inr (n, found) ↦ elim (pair-find "A" "B" x node_a node_b n found) [
    | inl (a, e) ↦ ap v found ∙ (ap (λ n. v (some n)) (sym e) ∙ at_a)
    | inr (b, e) ↦ ap v found ∙ (ap (λ n. v (some n)) (sym e) ∙ at_b)
  ]
]

net-IsNew : IsNew "q" net
unfolding find
net-IsNew = record {
  no_route = by_node (λ o. is_some (up_view "q" o)) false refl refl refl;
  no_worker = by_node (jobs_view "q") 0 refl refl refl;
}

launch-IsUnderWay_example :
    (net' : Net ℕ) × (launch (λ x. 7) 8 2 "A" "q" noise node_a net ≡ some net')
    × IsUnderWay "q" "A" net net'
unfolding find
launch-IsUnderWay_example =
    launch-IsUnderWay "q" "A" (λ x. 7) 8 2 noise net node_a refl net-IsNew (omega arith)

abbrev pub open_buffer : Buffer (Row311 ℕ)
open_buffer = record {
  q = a_row ∷ [];
  capacity = 1000;
  expected_producers = 2;
  started = [];
  done = [];
  rows_served = 0;
  canceled = false;
}

-- The nodes while the query `q` is under way.
abbrev pub opened : RequestState ℕ
opened = record (new_request 0 "q" "client" noise 1000 2 256 64 4096) { buffer = open_buffer }

abbrev pub top : NodeServer ℕ
top = record node_a { registry = ("q", opened) ∷ [] }

abbrev pub leaf : NodeServer ℕ
leaf = record node_b {
  routes =
      (
        "q",
        record {
          upstream_peer = "A";
          fanout_to = [];
          canceled = false;
          visited = "A" ∷ "B" ∷ [];
          spec = noise;
          created_at = 7;
        },
      )
      ∷ [];
}

abbrev pub busy : Net ℕ
busy = ("A", top) ∷ ("B", leaf) ∷ []

pub busy-IsOverlay : IsOverlay "A" busy
unfolding find
busy-IsOverlay = IsOverlay-kept "A" net busy (λ x. ground arith) net-IsOverlay

leaf-Uplink : Uplink "q" "A" busy 1 "B"
unfolding find
leaf-Uplink = via 0 "B" "A" refl refl at_root

abbrev chunk : PushChunkRequest ℕ
chunk = record {
  request_id = "q";
  from_node = "C";
  producer_node = "C";
  rows = a_row ∷ [];
  done = true;
  seq = 1;
  produced_at_us = 9;
}

push_chunk-received_example :
    push_chunk 25 2 busy "B" chunk
    ≡ some (insert "A" (receive_chunk 25 chunk top).0 busy, some (receive_chunk 25 chunk top).1)
unfolding find
push_chunk-received_example =
    push_chunk-received "A" busy 25 2 1 "B" chunk top busy-IsOverlay refl leaf-Uplink (omega arith)

abbrev pub everything : QuerySpec ℕ
everything = record noise { borough = 0; complaint_type = ""; date_to = 0 }

abbrev pub worker_b : Worker ℕ
worker_b = record { request_id = "q"; spec = everything; upstream_peer = "A" }

abbrev pub found_rows : List (Row311 ℕ)
found_rows = rows_of (run_of number (λ k. false) leaf worker_b)

pub found_one : length found_rows ≡ 1
unfolding run canceled_fn find param_int
found_one = refl

abbrev pub wired : List String → NodeServer ℕ
wired ps = record node_a { peer_clients = ps }

-- The cycle B, E, D of the topology that the repository comes with, and its root.
abbrev ring : Net ℕ
ring =
    ("A", wired ("B" ∷ []))
    ∷ ("B", wired ("A" ∷ "D" ∷ "E" ∷ []))
    ∷ ("D", wired ("B" ∷ "E" ∷ []))
    ∷ ("E", wired ("D" ∷ "B" ∷ []))
    ∷ []

abbrev cycle : String → Bool
cycle x = contains x ("B" ∷ "D" ∷ "E" ∷ [])

cycle-cases : (x : String) → cycle x ≡ true → (x ≡ "B") ⊎ ((x ≡ "D") ⊎ (x ≡ "E"))
cycle-cases x e =
    ground (arith, string_eq.beq_iff "B" x, string_eq.beq_iff "D" x, string_eq.beq_iff "E" x)

-- Of two nodes, one is not the sender.
one_of :
    (a b s : String) (ps : List String)
    → same a b ≡ false
    → contains a ps ≡ true
    → contains b ps ≡ true
    → cycle a ≡ true
    → cycle b ≡ true
    → (y : String) × (contains y ps ≡ true) × (same y s ≡ false) × (cycle y ≡ true)
one_of a b s ps ne in_a in_b c_a c_b = elim (Bool-cases (same a s)) [
  | inr other ↦ (a, in_a, other, c_a)
  | inl eq ↦ (
    b,
    in_b,
    ground (arith, string_eq.beq_iff a b, string_eq.beq_iff a s, string_eq.beq_iff b s),
    c_b,
  )
]

ring-IsCyclic : IsCyclic ring cycle
unfolding find
ring-IsCyclic = record {
  there = λ x e. elim (cycle-cases x e) [
    | inl b ↦ rw b refl
    | inr (inl d) ↦ rw d refl
    | inr (inr i) ↦ rw i refl
  ];
  onward = λ x s e. elim (cycle-cases x e) [
    | inl b ↦ rw b (one_of "D" "E" s ("A" ∷ "D" ∷ "E" ∷ []) refl refl refl refl refl)
    | inr (inl d) ↦ rw d (one_of "B" "E" s ("B" ∷ "E" ∷ []) refl refl refl refl refl)
    | inr (inr i) ↦ rw i (one_of "D" "B" s ("D" ∷ "B" ∷ []) refl refl refl refl refl)
  ];
}

-- The only call is handled, then the first and the last of those that wait.
cancel_query-circles_example :
    circles cycle (abort_turns (0 ∷ 0 ∷ 1 ∷ []) (handle_cancel "A" "q" "user" ring)).1 ≡ true
unfolding find
cancel_query-circles_example =
    cancel_query-circles ring cycle "A" "q" "user" "B" (0 ∷ 0 ∷ 1 ∷ []) ring-IsCyclic refl refl refl

-- A round in which B's last chunk comes while the call waits, and one in which A's does before.
abbrev pub quiet : Turn ℕ
quiet = record { interrupted = false; fails = false; now = 5; before = λ b. b; during = λ b. b }

abbrev pub last_turn : Turn ℕ
last_turn = record quiet { before = λ b. record b { done = "A" ∷ "B" ∷ [] } }
