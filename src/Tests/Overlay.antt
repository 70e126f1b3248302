-- ===== src/Tests/Overlay.antt =====
-- The theorems on nodes and the client at a network of two nodes: A is the root, B has the rows.
use mathlib.Core.Path.{subst}
use mini2_aaa.Base.{
  string_eq, same, ℕ, ◌≡◌, refl, sym, ap, ◌∙◌, String, true, false, List, [], ◌∷◌, Option, none,
  some, ◌⊎◌, inl, inr, Bool-cases, find, insert, insert_set,
}
use mini2_aaa.Base.Int.{ℤ, pos}
use mini2_aaa.Config.{Config, NodeEntry, Result, node}
use mini2_aaa.Config
use mini2_aaa.Config.Symmetric.{IsTopology, Sound, load-Sound}
use mini2_aaa.Domain.{Borough}
use mini2_aaa.Cache.{new_cache}
use mini2_aaa.Engine.Answer.{loaded}
use mini2_aaa.Engine.{PartitionStore}
use mini2_aaa.Store.Csv.{split_csv}
use mini2_aaa.Store.Load
use mini2_aaa.Store.Load.{no_rows, no_indices}
use mini2_aaa.Node.{NodeServer}
use mini2_aaa.Node.Network.{Net}
use mini2_aaa.Node.Delivery.{IsOverlay}
use mini2_aaa.Node.Startup.{new_server, run_node}
use mini2_aaa.Node.Booted.{run_node-IsOverlay}
use mini2_aaa.Tests.{whole_doubles}
use mini2_aaa.Tests.Parts.{no_numbers, lengths, whole_millis, header}

abbrev pub number : String → ℤ
number s = pos 5

abbrev pub lines : List String
lines =
    "node A host=h port=5 root=true" ∷ "node B host=h port=5" ∷ "edge A B" ∷ "partition B b.csv"
    ∷ []

abbrev pub entry_a : NodeEntry
entry_a = record { id = "A"; host = "h"; port = 5; lang = ""; is_root = true }

abbrev entry_b : NodeEntry
entry_b = record { id = "B"; host = "h"; port = 5; lang = ""; is_root = false }

abbrev pub two : Config
two = record {
  nodes = ("A", entry_a) ∷ ("B", entry_b) ∷ [];
  peers = ("A", "B" ∷ []) ∷ ("B", "A" ∷ []) ∷ [];
  partitions = ("B", "b.csv") ∷ [];
  params = [];
}

two-loaded : Config.load number (some lines) ≡ Result.ok two
unfolding Config.load insert insert_set find
two-loaded = refl

pub two-IsTopology : IsTopology two
two-IsTopology = subst Sound two-loaded (load-Sound number (some lines))

abbrev files : String → Option (List String)
files path = some (header ∷ "11,20240101" ∷ [])

-- A node of the topology that is up, with the stubs and the store given.
abbrev pub up_node : List String → PartitionStore ℕ → NodeServer ℕ
up_node ps store = record {
  cfg = two;
  cache = record {
    capacity = 256;
    max_rows = 50000;
    lru = [];
    index = [];
    next = 0;
    hits = 0;
    misses = 0;
  };
  store = store;
  peer_clients = ps;
  registry = [];
  routes = [];
  req_counter = 0;
  total_rows_served = 0;
  stop = false;
  start_time = 7;
  workers = [];
}

abbrev pub row_store : PartitionStore ℕ
row_store = loaded (record {
  unique_keys = 9 ∷ [];
  created_ymds = 20240101 ∷ [];
  boroughs = Borough.unspecified ∷ [];
  latitudes = 0 ∷ [];
  longitudes = 0 ∷ [];
  complaint_types = "" ∷ [];
})

abbrev pub node_a : NodeServer ℕ
node_a = up_node ("B" ∷ []) (record { columns = no_rows; indices = no_indices })

abbrev pub node_b : NodeServer ℕ
node_b = up_node ("A" ∷ []) row_store

abbrev pub net : Net ℕ
net = ("A", node_a) ∷ ("B", node_b) ∷ []

-- What is in a map of two keys.
pub pair-find {ℓ} :
    {V : Type ℓ} (a b x : String) (v w u : V)
    → find x ((a, v) ∷ (b, w) ∷ []) ≡ some u
    → ((a ≡ x) × (v ≡ u)) ⊎ ((b ≡ x) × (w ≡ u))
unfolding find
pair-find a b x v w u e = elim (Bool-cases (same a x)) [
  | inl first ↦
      inl
        ((string_eq.beq_iff a x).0 first, (let t : some v ≡ some u = sym (rw first refl) ∙ e in cc))
  | inr other ↦ elim (Bool-cases (same b x)) [
    | inl second ↦ inr (
      (string_eq.beq_iff b x).0 second,
      (let t : some w ≡ some u = sym (rw other (rw second refl)) ∙ e in cc),
    )
    | inr neither ↦ absurd (let t : none ≡ some u = sym (rw other (rw neither refl)) ∙ e in cc)
  ]
]

booted_a : run_node number files 7 "A" (new_server number two) ≡ some node_a
unfolding run_node Config.partition_path find new_server new_cache Config.neighbors_of node
    insert_set Config.param_int
booted_a = refl

booted_b : run_node number files 7 "B" (new_server number two) ≡ some node_b
unfolding run_node Config.partition_path find new_server new_cache Load.load Load.detect split_csv
    Config.neighbors_of node Load.load_lines insert_set Load.parse_row Config.param_int
booted_b = refl

booted :
    (x : String) (n : NodeServer ℕ)
    → find x net ≡ some n
    → run_node number files 7 x (new_server number two) ≡ some n
booted x n e = elim (pair-find "A" "B" x node_a node_b n e) [
  | inl (a, v) ↦
      subst (λ x. run_node number files 7 x (new_server number two) ≡ some n) a
        (booted_a ∙ ap some v)
  | inr (b, w) ↦
      subst (λ x. run_node number files 7 x (new_server number two) ≡ some n) b
        (booted_b ∙ ap some w)
]

one_root : (x : String) (e : NodeEntry) → find x two.nodes ≡ some e → e.is_root ≡ same x "A"
one_root x e found = elim (pair-find "A" "B" x entry_a entry_b e found) [
  | inl (a, v) ↦ ap (λ e. e.is_root) (sym v) ∙ ap (λ x. same x "A") a
  | inr (b, w) ↦ ap (λ e. e.is_root) (sym w) ∙ ap (λ x. same x "A") b
]

pub net-IsOverlay : IsOverlay "A" net
net-IsOverlay = run_node-IsOverlay number files (λ x. 7) two "A" net two-IsTopology one_root booted

run_node-IsOverlay_example : IsOverlay "A" net
run_node-IsOverlay_example =
    run_node-IsOverlay number files (λ x. 7) two "A" net two-IsTopology one_root booted
