-- ===== src/Cache/Lru.antt =====
-- A cache of cpp/src/QueryCache.cpp answers with what was put: `find_node` through the moves of `get`
-- and `put`.
use mini2_aaa.Base.{
  Bool, ◌&&◌, ◌||◌, nat_eq, ℕ, ◌≡◌, refl, sym, ◌∙◌, true, false, if◌then◌else◌, List, [], ◌∷◌, ◌++◌,
  none, some, ◌==◌, ==_iff, find, find-erase, arith, Bool-cases, Option-cases, inl, inr,
}
use mini2_aaa.Domain.{Floating, QuerySpec}
use mini2_aaa.Cache.{Entry, to_front, pop_back, spec_equal, find_node, node_match}

-- Whether the index has a pair of a hash and a node.
abbrev pub has : (h n : ℕ) → List (ℕ × ℕ) → Bool
has h n [] = false
has h n ((h', n') ∷ ix) = (h' == h && n' == n) || has h n ix

module _ {D : Type 0} where
  pub find-to_front :
      (n m : ℕ) (e : Entry D) (lru : List (ℕ × Entry D))
      → find m (to_front n e lru) ≡ (if n == m then some e else find m lru)
  unfolding to_front find
  find-to_front n m e lru = ground (arith, find-erase n m lru)

  -- What is still found after the last node is gone was found before.
  pub find-pop_back :
      (m : ℕ) (lru : List (ℕ × Entry D)) (e : Entry D)
      → find m (pop_back lru) ≡ some e
      → find m lru ≡ some e
  unfolding pop_back find
  find-pop_back m [] e h = h
  find-pop_back m (x ∷ []) e h = cc
  find-pop_back m ((k, x) ∷ (y ∷ ys)) e h = ground (arith, find-pop_back m (y ∷ ys) e)

module _ {D : Type 0} ⦃f : Floating D⦄ (h : ℕ) (spec : QuerySpec D) where
  node_match-facts :
      (p : ℕ × ℕ) (lru : List (ℕ × Entry D)) (n : ℕ) (e : Entry D)
      → node_match h spec p lru ≡ some (n, e)
      → (p.1 ≡ n) × (p.0 ≡ h) × (find n lru ≡ some e) × (spec_equal e.spec spec ≡ true)
  unfolding node_match
  node_match-facts (h', m) lru n e r = ground arith

  pub node_match_hit :
      (p : ℕ × ℕ) (lru : List (ℕ × Entry D)) (e : Entry D)
      → p.0 ≡ h
      → find p.1 lru ≡ some e
      → spec_equal e.spec spec ≡ true
      → node_match h spec p lru ≡ some (p.1, e)
  unfolding node_match
  node_match_hit (h', m) lru e a b c = ground arith

  node_match_other :
      (p : ℕ × ℕ) (lru : List (ℕ × Entry D)) → (p.0 == h) ≡ false → node_match h spec p lru ≡ none
  unfolding node_match
  node_match_other (h', m) lru e = rw (e, node_match)

  -- A pair that does not pass does not pass where its node is gone or as before.
  pub node_match-weaken :
      (p : ℕ × ℕ) (lru lru' : List (ℕ × Entry D))
      → ((e : Entry D) → find p.1 lru' ≡ some e → find p.1 lru ≡ some e)
      → node_match h spec p lru ≡ none
      → node_match h spec p lru' ≡ none
  unfolding node_match
  node_match-weaken (h', m) lru lru' keep miss = elim (Option-cases (find m lru')) [
    | inl gone ↦ ground arith
    | inr (e, found) ↦ ground (arith, keep e found)
  ]

  -- No node of the range passes.
  abbrev pub Misses : List (ℕ × ℕ) → List (ℕ × Entry D) → Type 0
  Misses [] lru = Unit
  Misses (p ∷ ix) lru = (node_match h spec p lru ≡ none) × Misses ix lru

  -- A node of the index that has the hash, and that did not pass, has another query.
  pub Misses-has :
      (n : ℕ) (e : Entry D) (ix : List (ℕ × ℕ)) (lru : List (ℕ × Entry D))
      → Misses ix lru
      → has h n ix ≡ true
      → find n lru ≡ some e
      → spec_equal e.spec spec ≡ false
  unfolding node_match
  Misses-has n e [] lru m there found = absurd (cc)
  Misses-has n e ((h', k) ∷ ix) lru (m, ms) there found = elim (Bool-cases (h' == h && k == n)) [
    | inl this ↦ elim (Bool-cases (spec_equal e.spec spec)) [
      | inr other ↦ other
      | inl good ↦ absurd (
          let hit =
            node_match_hit (h', k) lru e (ground arith) (rw ((==_iff k n).0 (ground arith)) found)
              good in
          cc)
    ]
    | inr not_this ↦ Misses-has n e ix lru ms (ground arith) found
  ]

  pub find_node_miss :
      (p : ℕ × ℕ) (ix : List (ℕ × ℕ)) (lru : List (ℕ × Entry D))
      → node_match h spec p lru ≡ none
      → find_node h spec (p ∷ ix) lru ≡ find_node h spec ix lru
  unfolding find_node
  find_node_miss p ix lru e = rw (e, find_node)

  pub find_node_hit :
      (p : ℕ × ℕ) (ix : List (ℕ × ℕ)) (lru : List (ℕ × Entry D)) (r : ℕ × Entry D)
      → node_match h spec p lru ≡ some r
      → find_node h spec (p ∷ ix) lru ≡ some r
  unfolding find_node
  find_node_hit p ix lru r e = rw (e, find_node)

  pub Misses-find_node :
      (ix : List (ℕ × ℕ)) (lru : List (ℕ × Entry D))
      → find_node h spec ix lru ≡ none
      → Misses ix lru
  Misses-find_node [] lru e = tt
  Misses-find_node (p ∷ ix) lru e = elim (Option-cases (node_match h spec p lru)) [
    | inl miss ↦ (miss, Misses-find_node ix lru (sym (find_node_miss p ix lru miss) ∙ e))
    | inr (r, hit) ↦ absurd (let bad = sym (find_node_hit p ix lru r hit) ∙ e in cc)
  ]

  pub find_node-append :
      (ix jx : List (ℕ × ℕ)) (lru : List (ℕ × Entry D))
      → Misses ix lru
      → find_node h spec (ix ++ jx) lru ≡ find_node h spec jx lru
  find_node-append [] jx lru m = refl
  find_node-append (p ∷ ix) jx lru m =
      find_node_miss p (ix ++ jx) lru m.0 ∙ find_node-append ix jx lru m.1

  pub find_node-facts :
      (ix : List (ℕ × ℕ)) (lru : List (ℕ × Entry D)) (n : ℕ) (e : Entry D)
      → find_node h spec ix lru ≡ some (n, e)
      → (find n lru ≡ some e) × (spec_equal e.spec spec ≡ true)
  unfolding find_node
  find_node-facts [] lru n e r = cc
  find_node-facts (p ∷ ix) lru n e r = elim (Option-cases (node_match h spec p lru)) [
    | inl miss ↦ find_node-facts ix lru n e (sym (find_node_miss p ix lru miss) ∙ r)
    | inr (x, hit) ↦
        let t = node_match-facts p lru n e (hit ∙ (sym (find_node_hit p ix lru x hit) ∙ r)) in
        (t.2, t.3)
  ]

  -- When a node that has the spec moves to the front, the pairs that did not pass still do not.
  node_match-to_front :
      (p : ℕ × ℕ) (lru : List (ℕ × Entry D)) (n : ℕ) (e e' : Entry D)
      → find n lru ≡ some e
      → spec_equal e.spec spec ≡ true
      → node_match h spec p lru ≡ none
      → node_match h spec p (to_front n e' lru) ≡ none
  node_match-to_front p lru n e e' found good miss = elim (Bool-cases (n == p.1)) [
    | inl same_node ↦ absurd_hash same_node
    | inr other ↦
        node_match-weaken p lru (to_front n e' lru)
          (λ x r. let t = find-to_front n p.1 e' lru in ground arith) miss
  ]
    where
      absurd_hash : (n == p.1) ≡ true → node_match h spec p (to_front n e' lru) ≡ none
      absurd_hash eq = elim (Bool-cases (p.0 == h)) [
        | inl same_hash ↦ absurd (
            let hit =
              node_match_hit p lru e (ground arith) (rw (← (==_iff n p.1).0 eq) found) good in
            cc)
        | inr other_hash ↦ node_match_other p (to_front n e' lru) other_hash
      ]

  -- The node that is found stays the one that is found when it moves to the front, with what
  -- rows it may have then.
  pub find_node-to_front :
      (ix : List (ℕ × ℕ)) (lru : List (ℕ × Entry D)) (n : ℕ) (e e' : Entry D)
      → find_node h spec ix lru ≡ some (n, e)
      → spec_equal e'.spec spec ≡ true
      → find_node h spec ix (to_front n e' lru) ≡ some (n, e')
  unfolding find_node
  find_node-to_front [] lru n e e' r same_spec = cc
  find_node-to_front (p ∷ ix) lru n e e' r same_spec =
      elim (Option-cases (node_match h spec p lru)) [
        | inr (x, hit) ↦
            let t = node_match-facts p lru n e (hit ∙ (sym (find_node_hit p ix lru x hit) ∙ r)) in
            find_node_hit p ix (to_front n e' lru) (n, e')
              (rw (← t.0) (
                node_match_hit p (to_front p.1 e' lru) e' t.1
                  (rw (find-to_front p.1 p.1 e' lru) (ground arith)) same_spec))
        | inl miss ↦
            let r = sym (find_node_miss p ix lru miss) ∙ r in
            let t = find_node-facts ix lru n e r in
            find_node_miss p ix (to_front n e' lru) (node_match-to_front p lru n e e' t.0 t.1 miss)
            ∙ find_node-to_front ix lru n e e' r same_spec
      ]
