-- ===== src/Config.antt =====
-- The topology file: cpp/include/Config.hpp and cpp/src/Config.cpp.
-- A hash map is an association list and a hash set a list; the order in which a hash map is traversed
-- is open in C++, and is the list's here.
pub mod Symmetric
use Prim.Native.Char.{Char, code}
use Prim.Native.String.{◌++◌ as ◌+++◌}
use mini2_aaa.Base.{
  ℕ, zero, suc, ◌+◌, ◌*◌, ◌-◌, ◌^◌, ◌%◌, String, Bool, true, false, not, if◌then◌else◌, ◌&&◌, ◌||◌,
  List, [], ◌∷◌, ◌++◌, Option, none, some, leb, ◌==◌, same, string_eq, find, insert, insert_set,
}
use mini2_aaa.Base.Int.{ℤ, pos, negsuc}

-- `NodeEntry`.
pub record NodeEntry : Type 0 where
  pub id : String
  pub host : String
  pub port : ℕ
  pub lang : String
  pub is_root : Bool

-- `Config`.
pub record Config : Type 0 where
  pub nodes : List (String × NodeEntry)
  pub peers : List (String × List String)
  pub partitions : List (String × String)
  pub params : List (String × String)

-- The exceptions that `load` throws.
pub data Failure : Type 0 where
  cannot_open : Failure
  bad_node bad_edge bad_partition bad_param : (lineno : ℕ) → Failure
  missing_host_or_port : (id : String) → Failure
  unknown_directive : (keyword : String) → (lineno : ℕ) → Failure

pub data Result : Type 0 where
  ok : Config → Result
  failed : Failure → Result

-- `std::isspace` in the C locale.
abbrev pub is_space : Char → Bool
is_space c = code c == b' ' || (leb 9 (code c) && leb (code c) 13)

-- `raw_line.erase(raw_line.find('#'))`, and what comes before a character in general.
unfoldable pub before : ℕ → String → String
before x String.[] = ""
before x (String.◌∷◌ c s) = let rest = before x s in if code c == x then "" else String.◌∷◌ c rest

-- The two loops of `trim`.
unfoldable pub trim_left : String → String
trim_left String.[] = ""
trim_left (String.◌∷◌ c s) = let rest = trim_left s in if is_space c then rest else String.◌∷◌ c s

unfoldable pub trim_right : String → String
trim_right String.[] = ""
trim_right (String.◌∷◌ c s) =
    let rest = trim_right s in if is_space c && same rest "" then "" else String.◌∷◌ c rest

unfoldable pub trim : String → String
unfolding trim_left trim_right
trim s = trim_right (trim_left s)

-- `while (is >> tok) out.push_back(tok)`, with the token read so far.
unfoldable pub tokens_from : String → (tok : String) → List String
tokens_from String.[] tok = if same tok "" then [] else tok ∷ []
tokens_from (String.◌∷◌ c s) tok =
    let ended = tokens_from s "" in
    let longer = tokens_from s (◌+++◌ tok (String.◌∷◌ c "")) in
    if is_space c then (if same tok "" then ended else tok ∷ ended) else longer

-- `splitWhitespace`.
unfoldable pub split_whitespace : String → List String
unfolding tokens_from
split_whitespace s = tokens_from s ""

-- `tok.substr(eq + 1)`, if there is an `=`.
unfoldable pub after_eq : String → Option String
after_eq String.[] = none
after_eq (String.◌∷◌ c s) = let rest = after_eq s in if code c == b'=' then some s else rest

-- `parseKv`.
unfoldable pub parse_kv : String → Option (String × String)
unfolding before after_eq
parse_kv tok = elim (after_eq tok) [ none ↦ none | some v ↦ some (before b'=' tok, v) ]

-- `static_cast<uint16_t>`.
abbrev pub to_port : ℤ → ℕ
to_port (pos n) = n % 2 ^ 16
to_port (negsuc n) = 2 ^ 16 - 1 - n % 2 ^ 16

-- The maps of a `Config` that is empty.
abbrev pub empty_config : Config
empty_config = record { nodes = []; peers = []; partitions = []; params = [] }

-- `peers[id]`, which makes the entry.
unfoldable pub peers_at : String → List (String × List String) → List String
peers_at id ps = elim (find id ps) [ none ↦ [] | some s ↦ s ]

-- `cfg.peers[a].insert(b)`.
unfoldable pub add_peer :
    String → String → List (String × List String) → List (String × List String)
unfolding peers_at
add_peer a b ps = insert a (insert_set b (peers_at a ps)) ps

-- `cfg.peers[id];`
unfoldable pub touch : String → List (String × List String) → List (String × List String)
unfolding peers_at
touch id ps = insert id (peers_at id ps) ps

-- `std::atoi` of <cstdlib> is `atoi`.
module _ (atoi : String → ℤ) where
  -- The body of the loop over the fields of a node line.
  unfoldable pub set_field : String → NodeEntry → NodeEntry
  unfolding parse_kv
  set_field tok e = elim (parse_kv tok) [
    | none ↦ e
    | some (k, v) ↦
        if same k "host"
        then record e { host = v }
        else if same k "port"
        then record e { port = to_port (atoi v) }
        else if same k "lang"
        then record e { lang = v }
        else if same k "root"
        then record e { is_root = same v "true" || same v "1" || same v "yes" }
        else e
  ]

  unfoldable pub set_fields : List String → NodeEntry → NodeEntry
  unfolding set_field
  set_fields [] e = e
  set_fields (tok ∷ toks) e = set_fields toks (set_field tok e)

  -- `node <id> <field>...`
  unfoldable pub node_line : ℕ → List String → Config → Result
  unfolding set_fields touch
  node_line lineno [] cfg = Result.failed (Failure.bad_node lineno)
  node_line lineno (id ∷ fields) cfg =
      let e =
        set_fields fields (record { id = id; host = ""; port = 0; lang = ""; is_root = false }) in
      if same e.host "" || e.port == 0
      then Result.failed (Failure.missing_host_or_port e.id)
      else Result.ok (record cfg { nodes = insert e.id e cfg.nodes; peers = touch e.id cfg.peers })

  -- `edge <a> <b>`
  unfoldable pub edge_line : ℕ → List String → Config → Result
  unfolding add_peer
  edge_line lineno (a ∷ (b ∷ [])) cfg =
      Result.ok (record cfg { peers = add_peer b a (add_peer a b cfg.peers) })
  edge_line lineno _ cfg = Result.failed (Failure.bad_edge lineno)

  -- `partition <id> <path>`
  unfoldable pub partition_line : ℕ → List String → Config → Result
  partition_line lineno (id ∷ (path ∷ [])) cfg =
      Result.ok (record cfg { partitions = insert id path cfg.partitions })
  partition_line lineno _ cfg = Result.failed (Failure.bad_partition lineno)

  -- `param <key> <value>`
  unfoldable pub param_line : ℕ → List String → Config → Result
  param_line lineno (key ∷ (value ∷ [])) cfg =
      Result.ok (record cfg { params = insert key value cfg.params })
  param_line lineno _ cfg = Result.failed (Failure.bad_param lineno)

  -- The chain of tests on the keyword.
  unfoldable pub directive : ℕ → List String → Config → Result
  unfolding node_line edge_line partition_line param_line
  directive lineno [] cfg = Result.ok cfg
  directive lineno (kw ∷ toks) cfg =
      if same kw "node"
      then node_line lineno toks cfg
      else if same kw "edge"
      then edge_line lineno toks cfg
      else if same kw "partition"
      then partition_line lineno toks cfg
      else if same kw "param"
      then param_line lineno toks cfg
      else Result.failed (Failure.unknown_directive kw lineno)

  -- The body of the loop: a line without its comment, trimmed.
  unfoldable pub load_line : ℕ → String → Config → Result
  unfolding directive trim before split_whitespace
  load_line lineno raw_line cfg =
      let line = trim (before b'#' raw_line) in
      if same line "" then Result.ok cfg else directive lineno (split_whitespace line) cfg

  -- The loop over the lines; `lineno` is the number of the lines before.
  unfoldable pub load_lines : ℕ → List String → Config → Result
  unfolding load_line
  load_lines lineno [] cfg = Result.ok cfg
  load_lines lineno (line ∷ lines) cfg = elim (load_line (suc lineno) line cfg) [
    | Result.ok cfg' ↦ load_lines (suc lineno) lines cfg'
    | Result.failed x ↦ Result.failed x
  ]

  -- `Config::load`, on the lines of the file, if it opens.
  unfoldable pub load : Option (List String) → Result
  unfolding load_lines
  load none = Result.failed Failure.cannot_open
  load (some lines) = load_lines 0 lines empty_config

  -- `paramInt`.
  unfoldable pub param_int : String → ℤ → Config → ℤ
  param_int key default cfg = elim (find key cfg.params) [ none ↦ default | some v ↦ atoi v ]

-- `paramDouble`; `atof` is std::atof.
unfoldable pub param_double : {D : Type 0} (atof : String → D) → String → D → Config → D
param_double atof key default cfg = elim (find key cfg.params) [ none ↦ default | some v ↦ atof v ]

-- `node`, which throws when the id is unknown.
unfoldable pub node : String → Config → Option NodeEntry
node id cfg = find id cfg.nodes

-- `neighborsOf`.
unfoldable pub neighbors_of : String → Config → List String
unfolding peers_at
neighbors_of id cfg = peers_at id cfg.peers

-- `partitionPath`.
unfoldable pub partition_path : String → Config → String
partition_path id cfg = elim (find id cfg.partitions) [ none ↦ "" | some path ↦ path ]

-- The loop of `rootId`, which throws at the end.
unfoldable pub first_root : List (String × NodeEntry) → Option String
first_root [] = none
first_root ((id, e) ∷ nodes) = let rest = first_root nodes in if e.is_root then some id else rest

unfoldable pub root_id : Config → Option String
unfolding first_root
root_id cfg = first_root cfg.nodes

-- `allNodeIds`.
abbrev pub ids : List (String × NodeEntry) → List String
ids [] = []
ids ((id, e) ∷ nodes) = id ∷ ids nodes

unfoldable pub all_node_ids : Config → List String
all_node_ids cfg = ids cfg.nodes
