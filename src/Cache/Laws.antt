-- ===== src/Cache/Laws.antt =====
-- What cpp/src/QueryCache.cpp promises: `get` after `put`, and the bound on the entries.
use mini2_aaa.Base.{
  nat_eq, ap, ℕ, suc, ◌≤◌, ◌<◌, ◌≡◌, ◌≢◌, refl, sym, ◌∙◌, true, ◌&&◌, ◌||◌, List, [], ◌∷◌, ◌++◌,
  some, length, leb, ltb, ◌==◌, find, erase, arith, Bool-cases, Option-cases, inl, inr,
}
use mini2_aaa.Domain.{Floating, QuerySpec, Row311}
use mini2_aaa.Cache.{
  QueryCache, Entry, to_front, last_node, pop_back, unindex, spec_equal, find_node, evict,
  push_front, get, put, hash_spec, Hashing,
}
use mini2_aaa.Cache.Linked.{Absent, IsLinked, pop_back-IsLinked}
use mini2_aaa.Cache.Lru.{
  Misses, Misses-find_node, find_node-append, find_node-to_front, find_node-facts, find_node_hit,
  node_match_hit, node_match-weaken, find-pop_back,
}

-- The nodes of the index have numbers below `n`.
abbrev pub Below : ℕ → List (ℕ × ℕ) → Type 0
Below n [] = Unit
Below n ((h, m) ∷ ix) = (m < n) × Below n ix

pub Below-mono : (n k : ℕ) (ix : List (ℕ × ℕ)) → n ≤ k → Below n ix → Below k ix
Below-mono n k [] le b = tt
Below-mono n k ((h, m) ∷ ix) le (lt, b) = (ground arith, Below-mono n k ix le b)

pub Below-append : (n : ℕ) (ix jx : List (ℕ × ℕ)) → Below n ix → Below n jx → Below n (ix ++ jx)
Below-append n [] jx b c = c
Below-append n ((h, m) ∷ ix) jx (lt, b) c = (lt, Below-append n ix jx b c)

Below-unindex : (h m n : ℕ) (ix : List (ℕ × ℕ)) → Below n ix → Below n (unindex h m ix)
unfolding unindex
Below-unindex h m n [] b = tt
Below-unindex h m n ((h', m') ∷ ix) (lt, b) = elim (Bool-cases (h' == h && m' == m)) [
  | inl e ↦ rw e b
  | inr e ↦ rw e (lt, Below-unindex h m n ix b)
]

pub Below-Absent : (n : ℕ) (ix : List (ℕ × ℕ)) → Below n ix → Absent n ix
Below-Absent n [] b = tt
Below-Absent n ((h, m) ∷ ix) (lt, b) = (ground arith, Below-Absent n ix b)

-- What the methods keep: the list is no longer than the capacity, and the index has each node of the
-- list once, under the hash of its entry, and no other; a new node gets a number of its own.
pub record IsValid {D : Type 0} (c : QueryCache D) : Type 0 where
  pub made : Below c.next c.index
  pub bounded : length c.lru ≤ c.capacity
  pub linked : IsLinked c.lru c.index

module _ {D : Type 0} where
  length-erase : (n : ℕ) (lru : List (ℕ × Entry D)) → length (erase n lru) ≤ length lru
  unfolding erase
  length-erase n [] = ground arith
  length-erase n ((m, e) ∷ lru) = ground (arith, length-erase n lru)

  pub length-to_front :
      (n : ℕ) (e e' : Entry D) (lru : List (ℕ × Entry D))
      → find n lru ≡ some e
      → length (to_front n e' lru) ≤ length lru
  unfolding to_front erase find
  length-to_front n e e' [] r = cc
  length-to_front n e e' ((m, x) ∷ lru) r =
      ground (arith, length-erase n lru, length-to_front n e e' lru)

  last_node-cons :
      (x : ℕ × Entry D) (xs : List (ℕ × Entry D))
      → (y : ℕ × Entry D) × (last_node (x ∷ xs) ≡ some y)
  unfolding last_node
  last_node-cons x [] = (x, refl)
  last_node-cons x (y ∷ ys) = last_node-cons y ys

  length-pop_back :
      (x : ℕ × Entry D) (xs : List (ℕ × Entry D))
      → suc (length (pop_back (x ∷ xs))) ≡ length (x ∷ xs)
  unfolding pop_back
  length-pop_back x [] = refl
  length-pop_back x (y ∷ ys) = ap suc (length-pop_back y ys)

  pub room_at_back :
      (lru : List (ℕ × Entry D)) (capacity : ℕ)
      → capacity ≢ 0
      → length lru ≤ capacity
      → capacity ≤ length lru
      → (y : ℕ × Entry D) × (last_node lru ≡ some y) × (length (pop_back lru) < capacity)
  room_at_back [] capacity some_room le ge = absurd (some_room (ground arith))
  room_at_back (x ∷ xs) capacity some_room le ge =
      let t = last_node-cons x xs in (t.0, t.1, (let e = length-pop_back x xs in ground arith))

  pub evict-facts :
      (c : QueryCache D)
      → c.capacity ≢ 0
      → IsValid c
      → (Below c.next (evict c).index)
        × (length (evict c).lru < c.capacity)
        × ((evict c).next ≡ c.next)
        × ((evict c).capacity ≡ c.capacity)
        × IsLinked (evict c).lru (evict c).index
  unfolding evict
  evict-facts c some_room v = elim (Bool-cases (leb c.capacity (length c.lru))) [
    | inl full ↦
        let t = room_at_back c.lru c.capacity some_room v.bounded (ground arith) in
        rw full (
          rw t.1 (
            Below-unindex t.0.1.hash t.0.0 c.next c.index v.made,
            t.2,
            refl,
            refl,
            pop_back-IsLinked c.lru c.index t.0.0 t.0.1 v.linked t.1,
          ))
    | inr room ↦ rw room (v.made, ground arith, refl, refl, v.linked)
  ]

module _ {D : Type 0} ⦃f : Floating D⦄ (h : ℕ) (spec : QuerySpec D) where
  Misses-unindex :
      (k m : ℕ) (ix : List (ℕ × ℕ)) (lru : List (ℕ × Entry D))
      → Misses h spec ix lru
      → Misses h spec (unindex k m ix) lru
  unfolding unindex
  Misses-unindex k m [] lru e = tt
  Misses-unindex k m ((h', m') ∷ ix) lru (e, es) = elim (Bool-cases (h' == k && m' == m)) [
    | inl b ↦ rw b es
    | inr b ↦ rw b (e, Misses-unindex k m ix lru es)
  ]

  Misses-pop_back :
      (ix : List (ℕ × ℕ)) (lru : List (ℕ × Entry D))
      → Misses h spec ix lru
      → Misses h spec ix (pop_back lru)
  Misses-pop_back [] lru e = tt
  Misses-pop_back (p ∷ ix) lru (e, es) = (
    node_match-weaken h spec p lru (pop_back lru) (find-pop_back p.1 lru) e,
    Misses-pop_back ix lru es,
  )

  Misses-push_front :
      (ix : List (ℕ × ℕ)) (n : ℕ) (e : Entry D) (lru : List (ℕ × Entry D))
      → Below n ix
      → Misses h spec ix lru
      → Misses h spec ix ((n, e) ∷ lru)
  unfolding find
  Misses-push_front [] n e lru b m = tt
  Misses-push_front ((h', k) ∷ ix) n e lru (lt, b) (m, ms) = (
    node_match-weaken h spec (h', k) lru ((n, e) ∷ lru) (λ x r. ground arith) m,
    Misses-push_front ix n e lru b ms,
  )

  Misses-evict :
      (c : QueryCache D) → Misses h spec c.index c.lru → Misses h spec (evict c).index (evict c).lru
  unfolding evict
  Misses-evict c m = elim (Bool-cases (leb c.capacity (length c.lru))) [
    | inl full ↦ rw full (elim (Option-cases (last_node c.lru)) [
      | inl e ↦ rw e m
      | inr ((n, x), e) ↦ rw e (
          Misses-pop_back (unindex x.hash n c.index) c.lru
            (Misses-unindex x.hash n c.index c.lru m))
    ])
    | inr room ↦ rw room m
  ]

  -- A new entry of the spec is found when no other was.
  find_node-push_front :
      (c : QueryCache D) (e : Entry D)
      → Below c.next c.index
      → Misses h spec c.index c.lru
      → e.hash ≡ h
      → spec_equal e.spec spec ≡ true
      → find_node h spec (push_front e c).index (push_front e c).lru ≡ some (c.next, e)
  unfolding push_front find
  find_node-push_front c e b m same_hash same_spec =
      find_node-append h spec c.index ((e.hash, c.next) ∷ []) ((c.next, e) ∷ c.lru)
        (Misses-push_front c.index c.next e c.lru b m)
      ∙ find_node_hit h spec (e.hash, c.next) [] ((c.next, e) ∷ c.lru) (c.next, e)
          (node_match_hit h spec (e.hash, c.next) ((c.next, e) ∷ c.lru) e same_hash (ground arith)
            same_spec)

module _ {D : Type 0} ⦃f : Floating D⦄ ⦃s : Hashing D⦄ where
  get_hit :
      (spec : QuerySpec D) (c : QueryCache D) (n : ℕ) (e : Entry D)
      → c.capacity ≢ 0
      → find_node (hash_spec spec) spec c.index c.lru ≡ some (n, e)
      → (get spec c).1 ≡ some e.rows
  unfolding get
  get_hit spec c n e some_room r = elim (Bool-cases (c.capacity == 0)) [
    | inl none_ ↦ absurd (some_room (ground arith))
    | inr some_ ↦ rw some_ (rw r refl)
  ]

  abbrev pub put_entry : QuerySpec D → List (Row311 D) → Entry D
  put_entry spec rows = record { hash = hash_spec spec; spec = spec; rows = rows }

  -- After rows are put under a query that equals itself, in a valid cache with a capacity other than 0
  -- and within the bound on the rows of an entry, `get` returns exactly these rows.
  pub get-put :
      (spec : QuerySpec D) (rows : List (Row311 D)) (c : QueryCache D)
      → IsValid c
      → c.capacity ≢ 0
      → length rows ≤ c.max_rows
      → spec_equal spec spec ≡ true
      → (get spec (put spec rows c)).1 ≡ some rows
  unfolding put
  get-put spec rows c v some_room few reflexive =
      elim (Bool-cases (c.capacity == 0 || ltb c.max_rows (length rows))) [
        | inl refused ↦ absurd (some_room (ground arith))
        | inr ok ↦ elim (Option-cases (find_node (hash_spec spec) spec c.index c.lru)) [
          | inl miss ↦
              let t = evict-facts c some_room v in
              rw ok (
                rw miss (
                  get_hit spec (push_front (put_entry spec rows) (evict c)) (evict c).next
                    (put_entry spec rows) (λ z. some_room (sym t.3 ∙ z))
                    (find_node-push_front (hash_spec spec) spec (evict c) (put_entry spec rows)
                      (rw t.2 t.0)
                      (Misses-evict (hash_spec spec) spec c
                        (Misses-find_node (hash_spec spec) spec c.index c.lru miss))
                      refl reflexive)))
          | inr ((n, e), hit) ↦
              let t = find_node-facts (hash_spec spec) spec c.index c.lru n e hit in
              rw ok (
                rw hit (
                  get_hit spec (record c { lru = to_front n (record e { rows = rows }) c.lru }) n
                    (record e { rows = rows }) some_room
                    (find_node-to_front (hash_spec spec) spec c.index c.lru n e
                      (record e { rows = rows }) hit t.1)))
        ]
      ]
