-- ===== src/Cache/Kept.antt =====
-- What `get` and `put` of cpp/src/QueryCache.cpp do to the list and to the index.
use mini2_aaa.Base.{
  take, take_of_length-le, ◌-◌, ◌≢◌, ltb, leb, length, sym, ◌+◌, ◌%◌, ◌^◌, false, Option, none,
  nat_eq, ap, ℕ, suc, ◌≤◌, ◌≡◌, refl, ◌∙◌, true, ◌||◌, List, [], ◌∷◌, some, ◌==◌, find, erase,
  arith, Bool-cases, Option-cases, inl, inr,
}
use mini2_aaa.Domain.{Floating, QuerySpec, Row311}
use mini2_aaa.Cache.{
  pop_back, Entry, evict, QueryCache, to_front, spec_equal, find_node, push_front, get, put,
  hash_spec, Hashing,
}
use mini2_aaa.Cache.Linked.{to_front-IsLinked, push_front-IsLinked}
use mini2_aaa.Cache.Lru.{Misses-has, has, Misses-find_node, find_node-facts}
use mini2_aaa.Cache.Laws.{
  room_at_back, Below-mono, Below-append, Below-Absent, IsValid, evict-facts, length-to_front,
  put_entry,
}

pop_back-take : {D : Type 0} (lru : List (ℕ × Entry D)) → pop_back lru ≡ take (length lru - 1) lru
unfolding pop_back
pop_back-take [] = refl
pop_back-take (x ∷ []) = refl
pop_back-take (x ∷ (y ∷ ys)) =
    let one : suc (suc (length ys)) - 1 ≡ suc (suc (length ys) - 1) = omega arith in
    rw one (ap (◌∷◌ x) (pop_back-take (y ∷ ys)))

evict-lru :
    {D : Type 0} (c : QueryCache D)
    → c.capacity ≢ 0
    → IsValid c
    → (evict c).lru ≡ take (c.capacity - 1) c.lru
unfolding evict
evict-lru c some_room v = elim (Bool-cases (leb c.capacity (length c.lru))) [
  | inr room ↦ rw room (sym (take_of_length-le (c.capacity - 1) c.lru (ground arith)))
  | inl full ↦
      let t = room_at_back c.lru c.capacity some_room v.bounded (ground arith) in
      let same_length : c.capacity ≡ length c.lru = (let b = v.bounded in ground arith) in
      rw full (rw t.1 (pop_back-take c.lru ∙ ap (λ k. take (k - 1) c.lru) (sym same_length)))
]

module _ {D : Type 0} ⦃f : Floating D⦄ ⦃s : Hashing D⦄ where
  -- `put` keeps a valid cache valid: the list is no longer than the capacity, and the index has each
  -- node of the list once, under the hash of its entry, and no node that is not in the list.
  pub put-IsValid :
      (spec : QuerySpec D) (rows : List (Row311 D)) (c : QueryCache D)
      → IsValid c
      → IsValid (put spec rows c)
  unfolding put push_front
  put-IsValid spec rows c v = elim (Bool-cases (c.capacity == 0 || ltb c.max_rows (length rows))) [
    | inl refused ↦ rw refused v
    | inr ok ↦ elim (Option-cases (find_node (hash_spec spec) spec c.index c.lru)) [
      | inl miss ↦
          let t = evict-facts c (ground arith) v in
          rw ok (
            rw miss (record {
              made =
                  Below-append (suc (evict c).next) (evict c).index
                    ((hash_spec spec, (evict c).next) ∷ [])
                    (Below-mono c.next (suc (evict c).next) (evict c).index
                      (let e = t.2 in ground arith) t.0)
                    (ground arith, tt);
              bounded = (let e = t.1 in let e' = t.3 in ground arith);
              linked =
                  push_front-IsLinked (put_entry spec rows) (evict c).lru (evict c).index
                    (evict c).next t.4 (Below-Absent (evict c).next (evict c).index (rw t.2 t.0));
            }))
      | inr ((n, e), hit) ↦
          let t = find_node-facts (hash_spec spec) spec c.index c.lru n e hit in
          let le = length-to_front n e (record e { rows = rows }) c.lru t.0 in
          rw ok (
            rw hit (record {
              made = v.made;
              bounded = (let b = v.bounded in ground arith);
              linked =
                  to_front-IsLinked c.lru c.index n e (record e { rows = rows }) v.linked t.0 refl;
            }))
    ]
  ]

  -- In a valid cache with a capacity other than 0, a `put` within the bound on the rows, of a query that
  -- the index does not find, has the new entry at the front of the list, with the most recent ones of the
  -- others behind it, as many as the capacity lets in: only the last goes, and only if the list is full.
  pub put-lru :
      (spec : QuerySpec D) (rows : List (Row311 D)) (c : QueryCache D)
      → IsValid c
      → c.capacity ≢ 0
      → length rows ≤ c.max_rows
      → find_node (hash_spec spec) spec c.index c.lru ≡ none
      → (put spec rows c).lru
        ≡ (c.next, record { hash = hash_spec spec; spec = spec; rows = rows })
          ∷ take (c.capacity - 1) c.lru
  unfolding put push_front
  put-lru spec rows c v some_room few miss =
      let ok : (c.capacity == 0 || ltb c.max_rows (length rows)) ≡ false = ground arith in
      let next_same = (evict-facts c some_room v).2 in
      rw ok (
        rw miss (
          ap (λ k. (k, put_entry spec rows) ∷ (evict c).lru) next_same
          ∙ ap (λ l. (c.next, put_entry spec rows) ∷ l) (evict-lru c some_room v)))

  -- What `get` answers and leaves: it hands out the rows of an entry of the list whose query is equal,
  -- moves this entry to the front, and counts a hit; or no entry with the query's hash has an equal
  -- query, the list stays, and a miss is counted. The index stays.
  abbrev pub Looked : QuerySpec D → QueryCache D → QueryCache D × Option (List (Row311 D)) → Type 0
  Looked spec c (c', none) =
      (c'.lru ≡ c.lru)
      × (c'.index ≡ c.index)
      × (c'.misses ≡ (c.misses + 1) % 2 ^ 64)
      × (c'.hits ≡ c.hits)
      × ((n : ℕ) (e : Entry D)
          → find n c.lru ≡ some e
          → e.hash ≡ hash_spec spec
          → spec_equal e.spec spec ≡ false)
  Looked spec c (c', some rows) =
      (n : ℕ) × (e : Entry D) × (find n c.lru ≡ some e)
      × (spec_equal e.spec spec ≡ true)
      × (rows ≡ e.rows)
      × (c'.lru ≡ (n, e) ∷ erase n c.lru)
      × (c'.index ≡ c.index)
      × (c'.hits ≡ (c.hits + 1) % 2 ^ 64)
      × (c'.misses ≡ c.misses)

  empty_of :
      (lru : List (ℕ × Entry D)) (n : ℕ) (e : Entry D) → length lru ≤ 0 → find n lru ≡ some e → ⊥
  unfolding find
  empty_of [] n e le r = cc
  empty_of (x ∷ lru) n e le r = ground arith

  missed :
      (spec : QuerySpec D) (c : QueryCache D) (n : ℕ) (e : Entry D)
      → IsValid c
      → find_node (hash_spec spec) spec c.index c.lru ≡ none
      → find n c.lru ≡ some e
      → e.hash ≡ hash_spec spec
      → spec_equal e.spec spec ≡ false
  missed spec c n e v miss found same_hash =
      Misses-has (hash_spec spec) spec n e c.index c.lru
        (Misses-find_node (hash_spec spec) spec c.index c.lru miss)
        (ap (λ k. has k n c.index) (sym same_hash) ∙ v.linked.filed n e found) found

  -- A lookup in a valid cache leaves it valid, in the same sense. If it answers, it is with the rows of
  -- an entry whose query is equal, which is first in the list then, with the others behind it as before,
  -- and a hit is counted; if it does not, no entry with the hash of the query has an equal query, the
  -- list is as before, and a miss is counted. The index stays.
  pub get-IsValid :
      (spec : QuerySpec D) (c : QueryCache D)
      → IsValid c
      → IsValid (get spec c).0 × Looked spec c (get spec c)
  unfolding get to_front
  get-IsValid spec c v = elim (Bool-cases (c.capacity == 0)) [
    | inl off ↦ rw off (
      record { made = v.made; bounded = v.bounded; linked = v.linked },
      (
        refl,
        refl,
        refl,
        refl,
        λ n e found same_hash.
            absurd (empty_of c.lru n e (let b = v.bounded in ground arith) found),
      ),
    )
    | inr on ↦ elim (Option-cases (find_node (hash_spec spec) spec c.index c.lru)) [
      | inl miss ↦ rw on (
          rw miss (
            record { made = v.made; bounded = v.bounded; linked = v.linked },
            (refl, refl, refl, refl, λ n e. missed spec c n e v miss),
          ))
      | inr ((n, e), hit) ↦
          let t = find_node-facts (hash_spec spec) spec c.index c.lru n e hit in
          let le = length-to_front n e e c.lru t.0 in
          rw on (
            rw hit (
              record {
                made = v.made;
                bounded = (let b = v.bounded in ground arith);
                linked = to_front-IsLinked c.lru c.index n e e v.linked t.0 refl;
              },
              (n, e, t.0, t.1, refl, refl, refl, refl, refl),
            ))
    ]
  ]
