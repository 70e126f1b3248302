-- ===== src/Cache.antt =====
-- The result cache of the portal: cpp/include/QueryCache.hpp and cpp/src/QueryCache.cpp.
-- A list iterator is the number of its node: `lru_` holds the nodes with their numbers, and `index_`
-- is the list of its (hash, node) pairs. A method holds the mutex, so it is one step.
pub mod Lru
pub mod Linked
pub mod Laws
pub mod Kept
use Prim.Native.Nat.{bit_xor}
use mini2_aaa.Base.{
  Eq, nat_eq, string_eq, same, ℕ, zero, suc, ◌+◌, ◌*◌, ◌/◌, ◌%◌, ◌^◌, String, Bool, true, false,
  not, if◌then◌else◌, ◌&&◌, ◌||◌, List, [], ◌∷◌, ◌++◌, Option, none, some, length, leb, ltb, ◌==◌,
  find, erase,
}
use mini2_aaa.Domain.{Floating, QuerySpec, Row311}

-- `std::hash` at the types that `hashSpec` uses.
pub record Hashing (D : Type 0) : Type 0 where
  pub hash_number : ℕ → ℕ
  pub hash_bool : Bool → ℕ
  pub hash_string : String → ℕ
  pub hash_double : D → ℕ

-- `hc`, on 64-bit words.
abbrev pub hash_combine : ℕ → ℕ → ℕ
hash_combine seed v =
    bit_xor seed ((v + 0x9e3779b9 + (seed * 2 ^ 6) % 2 ^ 64 + seed / 2 ^ 2) % 2 ^ 64)

abbrev pub same_bool : Bool → Bool → Bool
same_bool true b = b
same_bool false b = not b

-- `Entry`.
pub record Entry (D : Type 0) : Type 0 where
  pub hash : ℕ
  pub spec : QuerySpec D
  pub rows : List (Row311 D)

-- The members of `QueryCache`; `next` is the number of the next node.
pub record QueryCache (D : Type 0) : Type 0 where
  pub capacity : ℕ
  pub max_rows : ℕ
  pub lru : List (ℕ × Entry D)
  pub index : List (ℕ × ℕ)
  pub next : ℕ
  pub hits : ℕ
  pub misses : ℕ

module _ {D : Type 0} where
  -- The constructor.
  unfoldable pub new_cache : (capacity max_rows_per_entry : ℕ) → QueryCache D
  new_cache capacity max_rows_per_entry = record {
    capacity = capacity;
    max_rows = max_rows_per_entry;
    lru = [];
    index = [];
    next = 0;
    hits = 0;
    misses = 0;
  }

  -- `lru_.splice(lru_.begin(), lru_, it)`, with the node's entry.
  unfoldable pub to_front : ℕ → Entry D → List (ℕ × Entry D) → List (ℕ × Entry D)
  to_front n e lru = (n, e) ∷ erase n lru

  -- The last node, `std::prev(lru_.end())`.
  unfoldable pub last_node : List (ℕ × Entry D) → Option (ℕ × Entry D)
  last_node [] = none
  last_node (e ∷ []) = some e
  last_node (e ∷ (e' ∷ es)) = last_node (e' ∷ es)

  -- `lru_.pop_back()`.
  unfoldable pub pop_back : List (ℕ × Entry D) → List (ℕ × Entry D)
  pop_back [] = []
  pop_back (e ∷ []) = []
  pop_back (e ∷ (e' ∷ es)) = e ∷ pop_back (e' ∷ es)

-- `index_.erase(it)` at the first pair of the hash that is the node.
unfoldable pub unindex : (hash node : ℕ) → List (ℕ × ℕ) → List (ℕ × ℕ)
unindex h n [] = []
unindex h n ((h', n') ∷ ix) = if h' == h && n' == n then ix else (h', n') ∷ unindex h n ix

module _ {D : Type 0} where
  -- The eviction in `put`, when the list is full.
  unfoldable pub evict : QueryCache D → QueryCache D
  evict c =
      if leb c.capacity (length c.lru)
      then (elim (last_node c.lru) [
        | none ↦ c
        | some (n, e) ↦ record c { lru = pop_back c.lru; index = unindex e.hash n c.index }
      ])
      else c

  -- The end of `put`: a new node at the front.
  unfoldable pub push_front : Entry D → QueryCache D → QueryCache D
  push_front e c = record c {
    lru = (c.next, e) ∷ c.lru;
    index = c.index ++ ((e.hash, c.next) ∷ []);
    next = suc c.next;
  }

module _ {D : Type 0} ⦃f : Floating D⦄ where
  -- `specEqual`.
  unfoldable pub spec_equal : QuerySpec D → QuerySpec D → Bool
  spec_equal a b =
      if not (a.borough == b.borough)
      then false
      else if not (same a.complaint_type b.complaint_type)
      then false
      else if not (a.date_from == b.date_from)
      then false
      else if not (a.date_to == b.date_to)
      then false
      else if not (same_bool a.use_geo_box b.use_geo_box)
      then false
      else if not (a.max_rows == b.max_rows)
      then false
      else if a.use_geo_box
      then (if not (f.eq a.min_lat b.min_lat)
          then false
          else if not (f.eq a.max_lat b.max_lat)
          then false
          else if not (f.eq a.min_lon b.min_lon)
          then false
          else if not (f.eq a.max_lon b.max_lon)
          then false
          else true)
      else true

  -- The test of one pair of `index_.equal_range(h)`: its node, if its entry has the spec. A pair whose
  -- node is gone is an iterator that dangles; the code would follow it, and here it does not pass.
  unfoldable pub node_match : ℕ → QuerySpec D → ℕ × ℕ → List (ℕ × Entry D) → Option (ℕ × Entry D)
  node_match h spec (h', n) lru =
      if h' == h
      then (elim (find n lru) [
        | none ↦ none
        | some e ↦ if spec_equal e.spec spec then some (n, e) else none
      ])
      else none

  -- The loop over the range: the first node that passes.
  unfoldable pub find_node :
      ℕ → QuerySpec D → List (ℕ × ℕ) → List (ℕ × Entry D) → Option (ℕ × Entry D)
  unfolding spec_equal node_match
  find_node h spec [] lru = none
  find_node h spec (p ∷ ix) lru = elim (node_match h spec p lru) [
    | none ↦ find_node h spec ix lru
    | some r ↦ some r
  ]

module _ {D : Type 0} ⦃f : Floating D⦄ ⦃s : Hashing D⦄ where
  -- `hashSpec`.
  unfoldable pub hash_spec : QuerySpec D → ℕ
  hash_spec q =
      let h = hash_combine 0 (s.hash_number q.borough) in
      let h = hash_combine h (s.hash_string q.complaint_type) in
      let h = hash_combine h (s.hash_number q.date_from) in
      let h = hash_combine h (s.hash_number q.date_to) in
      let h = hash_combine h (s.hash_bool q.use_geo_box) in
      let h =
        if q.use_geo_box
        then hash_combine
            (hash_combine
              (hash_combine (hash_combine h (s.hash_double q.min_lat)) (s.hash_double q.max_lat))
              (s.hash_double q.min_lon))
            (s.hash_double q.max_lon)
        else h in
      hash_combine h (s.hash_number q.max_rows)

  -- `get`.
  unfoldable pub get : QuerySpec D → QueryCache D → QueryCache D × Option (List (Row311 D))
  unfolding find_node
  get spec c =
      if c.capacity == 0
      then (record c { misses = (c.misses + 1) % 2 ^ 64 }, none)
      else (elim (find_node (hash_spec spec) spec c.index c.lru) [
        | none ↦ (record c { misses = (c.misses + 1) % 2 ^ 64 }, none)
        | some (n, e) ↦
            (record c { lru = to_front n e c.lru; hits = (c.hits + 1) % 2 ^ 64 }, some e.rows)
      ])

  -- `put`.
  unfoldable pub put : QuerySpec D → List (Row311 D) → QueryCache D → QueryCache D
  unfolding find_node evict push_front
  put spec rows c =
      if c.capacity == 0 || ltb c.max_rows (length rows)
      then c
      else (elim (find_node (hash_spec spec) spec c.index c.lru) [
        | some (n, e) ↦ record c { lru = to_front n (record e { rows = rows }) c.lru }
        | none ↦ push_front (record { hash = hash_spec spec; spec = spec; rows = rows }) (evict c)
      ])
