-- ===== src/Node/Startup.antt =====
-- How a node comes up: the constructor and `run` of cpp/src/NodeServer.cpp, and cpp/src/server_main.cpp.
-- `files` is what the file system holds; whether the gRPC server can listen at an address is an
-- argument. The janitor's thread and the output change no state that is modelled here.
use mini2_aaa.Base.{
  string_eq, same, ℕ, String, Bool, false, if◌then◌else◌, ◌||◌, List, [], ◌∷◌, Option, none, some,
  find, insert_set,
}
use mini2_aaa.Base.Int.{ℤ}
use mini2_aaa.Domain.{Floating}
use mini2_aaa.Cache.{new_cache}
use mini2_aaa.Config.{Config, NodeEntry, Result, node, neighbors_of, partition_path}
use mini2_aaa.Config
use mini2_aaa.Engine.{PartitionStore}
use mini2_aaa.Store.Load.{Parsing, Loaded, ok, header_missing, no_rows, no_indices}
use mini2_aaa.Store.Load
use mini2_aaa.Node.{NodeServer}
use mini2_aaa.Node.Portal.{size_param}
use mini2_aaa.Node.Peer.{address}

-- The constructor.
unfoldable pub new_server : {D : Type 0} (atoi : String → ℤ) → Config → NodeServer D
new_server atoi cfg = record {
  cfg = cfg;
  cache =
      new_cache (size_param atoi "cache_capacity" 256 cfg)
        (size_param atoi "cache_max_rows" 50000 cfg);
  store = record { columns = no_rows; indices = no_indices };
  peer_clients = [];
  registry = [];
  routes = [];
  req_counter = 0;
  total_rows_served = 0;
  stop = false;
  start_time = 0;
  workers = [];
}

-- The stubs of the neighbors; `cfg_.node(nb)` throws where the topology lacks a neighbor.
unfoldable pub stubs : Config → List String → List String → Option (List String)
stubs cfg [] made = some made
stubs cfg (nb ∷ nbs) made = elim (node nb cfg) [
  | none ↦ none
  | some e ↦ stubs cfg nbs (insert_set nb made)
]

-- The arguments of the program: an id and a path; `none` prints the usage.
unfoldable pub server_args : List String → (id cfg_path : String) → Option (String × String)
server_args [] id cfg_path = if same id "" || same cfg_path "" then none else some (id, cfg_path)
server_args (a ∷ []) id cfg_path = none
server_args (a ∷ (v ∷ args)) id cfg_path =
    let as_id = server_args args v cfg_path in
    let as_path = server_args args id v in
    if same a "--id" then as_id else if same a "--config" then as_path else none

-- How the program ends, or the node that it runs.
pub data Ended (D : Type 0) : Type 0 where
  bad_usage : Ended D
  bad_config : Ended D
  unknown_id : Ended D
  failed_run : Ended D
  running : String → NodeServer D → Ended D

module _ {D : Type 0} ⦃f : Floating D⦄ ⦃p : Parsing D⦄ (atoi : String → ℤ)
    (files : String → Option (List String)) where
  -- The store after `run` has loaded the node's partition, if it has one; the header may be missing.
  unfoldable pub load_partition : String → PartitionStore D → Option (PartitionStore D)
  load_partition part store =
      if same part ""
      then some store
      else (elim (Load.load (files part)) [ ok s ↦ some s | header_missing ↦ none ])

  -- `run` up to the wait, at time `now`; `none` is an exception.
  unfoldable pub run_node : (now : ℕ) → String → NodeServer D → Option (NodeServer D)
  unfolding load_partition stubs
  run_node now me n = elim (load_partition (partition_path me n.cfg) n.store) [
    | none ↦ none
    | some store ↦ elim (stubs n.cfg (neighbors_of me n.cfg) n.peer_clients) [
      | none ↦ none
      | some made ↦ elim (node me n.cfg) [
        | none ↦ none
        | some entry ↦ some (record n { start_time = now; store = store; peer_clients = made })
      ]
    ]
  ]

  -- The whole of `run` up to the wait: `binds` tells whether the gRPC server can listen at an address.
  unfoldable pub run_server :
      (show : ℕ → String) (binds : String → Bool) (now : ℕ)
      → String
      → NodeServer D
      → Option (NodeServer D)
  unfolding run_node address
  run_server show binds now me n = elim (run_node now me n) [
    | none ↦ none
    | some n' ↦ elim (node me n.cfg) [
      | none ↦ none
      | some entry ↦ if binds (address show entry) then some n' else none
    ]
  ]

  -- `main`.
  unfoldable pub server_main :
      (show : ℕ → String) (binds : String → Bool) (now : ℕ) → List String → Ended D
  unfolding server_args run_server new_server
  server_main show binds now args = elim (server_args args "" "") [
    | none ↦ Ended.bad_usage
    | some (id, path) ↦ elim (Config.load atoi (files path)) [
      | Result.failed x ↦ Ended.bad_config
      | Result.ok cfg ↦ elim (find id cfg.nodes) [
        | none ↦ Ended.unknown_id
        | some e ↦ elim (run_server show binds now id (new_server atoi cfg)) [
          | none ↦ Ended.failed_run
          | some n ↦ Ended.running id n
        ]
      ]
    ]
  ]

-- The exit code; a node that runs ends with 0 when its server does.
unfoldable pub exit_code : {D : Type 0} → Ended D → ℕ
exit_code Ended.bad_usage = 2
exit_code Ended.bad_config = 1
exit_code Ended.unknown_id = 2
exit_code Ended.failed_run = 1
exit_code (Ended.running id n) = 0
