-- ===== src/Cache/Linked.antt =====
-- The list and the index of cpp/src/QueryCache.cpp as they belong together: each pair of the index is a
-- node of the list, and each node is in the index once.
use mini2_aaa.Base.{
  nat_eq, ap, ℕ, ◌≡◌, refl, sym, ◌∙◌, true, false, ◌&&◌, ◌||◌, List, [], ◌∷◌, ◌++◌, none, some,
  ◌==◌, ==_iff, find, erase, find-erase, arith, Bool-cases, Option-cases, inl, inr, some_inj,
}
use mini2_aaa.Cache.Lru.{has, find-to_front}
use mini2_aaa.Cache.{Entry, to_front, last_node, pop_back, unindex}

-- No pair of the index has the node.
abbrev pub Absent : ℕ → List (ℕ × ℕ) → Type 0
Absent n [] = Unit
Absent n ((h, m) ∷ ix) = ((m == n) ≡ false) × Absent n ix

-- No two pairs have the same node.
abbrev pub Once : List (ℕ × ℕ) → Type 0
Once [] = Unit
Once ((h, n) ∷ ix) = Absent n ix × Once ix

Absent-has : (h n : ℕ) (ix : List (ℕ × ℕ)) → Absent n ix → has h n ix ≡ false
Absent-has h n [] a = refl
Absent-has h n ((h', m) ∷ ix) (ne, a) = ground (arith, Absent-has h n ix a)

Absent-unindex : (h n m : ℕ) (ix : List (ℕ × ℕ)) → Absent m ix → Absent m (unindex h n ix)
unfolding unindex
Absent-unindex h n m [] a = tt
Absent-unindex h n m ((h', n') ∷ ix) (ne, a) = elim (Bool-cases (h' == h && n' == n)) [
  | inl e ↦ rw e a
  | inr e ↦ rw e (ne, Absent-unindex h n m ix a)
]

pub Once-unindex : (h n : ℕ) (ix : List (ℕ × ℕ)) → Once ix → Once (unindex h n ix)
unfolding unindex
Once-unindex h n [] o = tt
Once-unindex h n ((h', n') ∷ ix) (a, o) = elim (Bool-cases (h' == h && n' == n)) [
  | inl e ↦ rw e o
  | inr e ↦ rw e (Absent-unindex h n n' ix a, Once-unindex h n ix o)
]

-- The pair that is erased is gone, and the others stay.
pub has-unindex_same : (h n : ℕ) (ix : List (ℕ × ℕ)) → Once ix → has h n (unindex h n ix) ≡ false
unfolding unindex
has-unindex_same h n [] o = refl
has-unindex_same h n ((h', n') ∷ ix) (a, o) = elim (Bool-cases (h' == h && n' == n)) [
  | inl e ↦ rw e (Absent-has h n ix (rw (sym ((==_iff n' n).0 (ground arith))) a))
  | inr e ↦ rw e (ground (arith, has-unindex_same h n ix o))
]

pub has-unindex_other :
    (h n h' m : ℕ) (ix : List (ℕ × ℕ)) → (n == m) ≡ false → has h' m (unindex h n ix) ≡ has h' m ix
unfolding unindex
has-unindex_other h n h' m [] ne = refl
has-unindex_other h n h' m ((k, j) ∷ ix) ne = ground (arith, has-unindex_other h n h' m ix ne)

pub has-unindex_sub :
    (h n h' m : ℕ) (ix : List (ℕ × ℕ)) → has h' m (unindex h n ix) ≡ true → has h' m ix ≡ true
unfolding unindex
has-unindex_sub h n h' m [] e = e
has-unindex_sub h n h' m ((k, j) ∷ ix) e = ground (arith, has-unindex_sub h n h' m ix)

pub has-append : (h n : ℕ) (ix jx : List (ℕ × ℕ)) → has h n (ix ++ jx) ≡ (has h n ix || has h n jx)
has-append h n [] jx = refl
has-append h n ((k, j) ∷ ix) jx = ground (arith, has-append h n ix jx)

Absent-append : (n : ℕ) (ix jx : List (ℕ × ℕ)) → Absent n ix → Absent n jx → Absent n (ix ++ jx)
Absent-append n [] jx a b = b
Absent-append n ((h, m) ∷ ix) jx (ne, a) b = (ne, Absent-append n ix jx a b)

pub Once-append : (h n : ℕ) (ix : List (ℕ × ℕ)) → Absent n ix → Once ix → Once (ix ++ ((h, n) ∷ []))
Once-append h n [] a o = (tt, tt)
Once-append h n ((k, j) ∷ ix) (ne, a) (b, o) =
    (Absent-append j ix ((h, n) ∷ []) b (ground arith, tt), Once-append h n ix a o)

module _ {D : Type 0} where
  -- No two nodes have the same number.
  abbrev pub Distinct : List (ℕ × Entry D) → Type 0
  Distinct [] = Unit
  Distinct ((n, e) ∷ lru) = (find n lru ≡ none) × Distinct lru

  -- The list and the index have the same nodes, with the hashes of their entries.
  pub record IsLinked (lru : List (ℕ × Entry D)) (ix : List (ℕ × ℕ)) : Type 0 where
    pub distinct : Distinct lru
    pub once : Once ix
    pub live : (h n : ℕ) → has h n ix ≡ true → (e : Entry D) × (find n lru ≡ some e) × (e.hash ≡ h)
    pub filed : (n : ℕ) (e : Entry D) → find n lru ≡ some e → has e.hash n ix ≡ true

  erase_gone :
      (n m : ℕ) (lru : List (ℕ × Entry D)) → find m lru ≡ none → find m (erase n lru) ≡ none
  erase_gone n m lru e = ground (arith, find-erase n m lru)

  Distinct-erase : (n : ℕ) (lru : List (ℕ × Entry D)) → Distinct lru → Distinct (erase n lru)
  unfolding erase
  Distinct-erase n [] d = tt
  Distinct-erase n ((m, e) ∷ lru) (a, d) = elim (Bool-cases (m == n)) [
    | inl eq ↦ rw eq (Distinct-erase n lru d)
    | inr ne ↦ rw ne (erase_gone n m lru a, Distinct-erase n lru d)
  ]

  find-pop_back-none :
      (m : ℕ) (lru : List (ℕ × Entry D)) → find m lru ≡ none → find m (pop_back lru) ≡ none
  unfolding pop_back find
  find-pop_back-none m [] e = e
  find-pop_back-none m (x ∷ []) e = refl
  find-pop_back-none m ((k, x) ∷ (y ∷ ys)) e = ground (arith, find-pop_back-none m (y ∷ ys))

  Distinct-pop_back : (lru : List (ℕ × Entry D)) → Distinct lru → Distinct (pop_back lru)
  unfolding pop_back
  Distinct-pop_back [] d = tt
  Distinct-pop_back (x ∷ []) d = tt
  Distinct-pop_back ((k, x) ∷ (y ∷ ys)) (a, d) =
      (find-pop_back-none k (y ∷ ys) a, Distinct-pop_back (y ∷ ys) d)

  found_absent :
      (k n : ℕ) (lru : List (ℕ × Entry D)) (e : Entry D)
      → (k == n) ≡ true
      → find k lru ≡ none
      → find n lru ≡ some e
      → ⊥
  found_absent k n lru e eq a r =
      let bad : none ≡ some e = sym a ∙ (ap (λ j. find j lru) ((==_iff k n).0 eq) ∙ r) in cc

  -- The last node is found under its number.
  find-last_node :
      (lru : List (ℕ × Entry D)) (n : ℕ) (e : Entry D)
      → Distinct lru
      → last_node lru ≡ some (n, e)
      → find n lru ≡ some e
  unfolding last_node find
  find-last_node [] n e d l = cc
  find-last_node ((k, x) ∷ []) n e d l = ground arith
  find-last_node ((k, x) ∷ (y ∷ ys)) n e (a, d) l =
      let r = find-last_node (y ∷ ys) n e d l in
      elim (Bool-cases (k == n)) [
        | inl eq ↦ absurd (found_absent k n (y ∷ ys) e eq a r)
        | inr ne ↦ rw ne r
      ]

  -- Without it, the other nodes are found as before, and it is not.
  find-pop_back_other :
      (lru : List (ℕ × Entry D)) (n m : ℕ) (e : Entry D)
      → last_node lru ≡ some (n, e)
      → (n == m) ≡ false
      → find m (pop_back lru) ≡ find m lru
  unfolding last_node pop_back find
  find-pop_back_other [] n m e l ne = refl
  find-pop_back_other ((k, x) ∷ []) n m e l ne = ground arith
  find-pop_back_other ((k, x) ∷ (y ∷ ys)) n m e l ne =
      ground (arith, find-pop_back_other (y ∷ ys) n m e l ne)

  find-pop_back_same :
      (lru : List (ℕ × Entry D)) (n : ℕ) (e : Entry D)
      → Distinct lru
      → last_node lru ≡ some (n, e)
      → find n (pop_back lru) ≡ none
  unfolding last_node pop_back find
  find-pop_back_same [] n e d l = refl
  find-pop_back_same (x ∷ []) n e d l = refl
  find-pop_back_same ((k, x) ∷ (y ∷ ys)) n e (a, d) l =
      let r = find-last_node (y ∷ ys) n e d l in
      let s = find-pop_back_same (y ∷ ys) n e d l in
      elim (Bool-cases (k == n)) [
        | inl eq ↦ absurd (found_absent k n (y ∷ ys) e eq a r)
        | inr ne ↦ rw ne s
      ]

  -- The last node goes from the list, and its pair from the index.
  pub pop_back-IsLinked :
      (lru : List (ℕ × Entry D)) (ix : List (ℕ × ℕ)) (n : ℕ) (e : Entry D)
      → IsLinked lru ix
      → last_node lru ≡ some (n, e)
      → IsLinked (pop_back lru) (unindex e.hash n ix)
  pop_back-IsLinked lru ix n e l last =
      let here = find-last_node lru n e l.distinct last in
      record {
        distinct = Distinct-pop_back lru l.distinct;
        once = Once-unindex e.hash n ix l.once;
        live = λ h m there.
            let (x, found, hash) = l.live h m (has-unindex_sub e.hash n h m ix there) in
            elim (Bool-cases (n == m)) [
              | inr other ↦ (x, find-pop_back_other lru n m e last other ∙ found, hash)
              | inl same_node ↦
                  let same_m : n ≡ m = (==_iff n m).0 same_node in
                  let same_e : some x ≡ some e =
                    sym found ∙ (ap (λ j. find j lru) (sym same_m) ∙ here) in
                  let same_h : e.hash ≡ h = ap (λ y. y.hash) (sym (some_inj same_e)) ∙ hash in
                  absurd (
                    let bad : false ≡ true =
                      sym (has-unindex_same e.hash n ix l.once)
                      ∙ (ap (λ j. has e.hash j (unindex e.hash n ix)) same_m
                          ∙ (ap (λ j. has j m (unindex e.hash n ix)) same_h ∙ there)) in
                    cc)
            ];
        filed = λ m x found. elim (Bool-cases (n == m)) [
          | inr other ↦
              has-unindex_other e.hash n x.hash m ix other
              ∙ l.filed m x (sym (find-pop_back_other lru n m e last other) ∙ found)
          | inl same_node ↦ absurd (
              found_absent n m (pop_back lru) x same_node
                (find-pop_back_same lru n e l.distinct last) found)
        ];
      }

  -- A node moves to the front, with an entry of the same hash.
  pub to_front-IsLinked :
      (lru : List (ℕ × Entry D)) (ix : List (ℕ × ℕ)) (n : ℕ) (e e' : Entry D)
      → IsLinked lru ix
      → find n lru ≡ some e
      → e'.hash ≡ e.hash
      → IsLinked (to_front n e' lru) ix
  unfolding to_front
  to_front-IsLinked lru ix n e e' l found same_hash = record {
    distinct = (find-erase n n lru ∙ ground arith, Distinct-erase n lru l.distinct);
    once = l.once;
    live = λ h m there. elim (Bool-cases (n == m)) [
      | inl same_node ↦
          let (x, found', hash) = l.live h m there in
          let k : some x ≡ some e =
            sym found' ∙ (ap (λ j. find j lru) (sym ((==_iff n m).0 same_node)) ∙ found) in
          (
            e',
            find-to_front n m e' lru ∙ rw same_node refl,
            same_hash ∙ (ap (λ y. y.hash) (sym (some_inj k)) ∙ hash),
          )
      | inr other ↦
          let (x, found', hash) = l.live h m there in
          (x, find-to_front n m e' lru ∙ (rw other found'), hash)
    ];
    filed = λ m x found'. elim (Bool-cases (n == m)) [
      | inl same_node ↦
          let k : some e' ≡ some x = sym (find-to_front n m e' lru ∙ rw same_node refl) ∙ found' in
          let s : x.hash ≡ e.hash = ap (λ y. y.hash) (sym (some_inj k)) ∙ same_hash in
          rw s (rw (sym ((==_iff n m).0 same_node)) (l.filed n e found))
      | inr other ↦ l.filed m x (sym (find-to_front n m e' lru ∙ rw other refl) ∙ found')
    ];
  }

  -- A new node at the front, of a number that is above those of the index.
  pub push_front-IsLinked :
      (e : Entry D) (lru : List (ℕ × Entry D)) (ix : List (ℕ × ℕ)) (k : ℕ)
      → IsLinked lru ix
      → Absent k ix
      → IsLinked ((k, e) ∷ lru) (ix ++ ((e.hash, k) ∷ []))
  unfolding find
  push_front-IsLinked e lru ix k l new_ =
      let fresh : find k lru ≡ none = elim (Option-cases (find k lru)) [
        | inl gone ↦ gone
        | inr (x, found) ↦
            absurd (let bad = sym (Absent-has x.hash k ix new_) ∙ l.filed k x found in cc)
      ] in
      record {
        distinct = (fresh, l.distinct);
        once = Once-append e.hash k ix new_ l.once;
        live = λ h m there. elim (Bool-cases (has h m ix)) [
          | inl old ↦
              let (x, found, hash) = l.live h m old in
              elim (Bool-cases (k == m)) [
                | inl eq ↦ absurd (found_absent k m lru x eq fresh found)
                | inr ne ↦ (x, rw ne found, hash)
              ]
          | inr not_old ↦
              let is_new : (e.hash == h && k == m) ≡ true =
                ground (arith, has-append h m ix ((e.hash, k) ∷ [])) in
              let this : (k == m) ≡ true = ground arith in (e, rw this refl, ground arith)
        ];
        filed = λ m x found.
            has-append x.hash m ix ((e.hash, k) ∷ []) ∙ elim (Bool-cases (k == m)) [
              | inr ne ↦
                  let there : find m lru ≡ some x = sym (rw ne refl) ∙ found in
                  rw (l.filed m x there) refl
              | inl eq ↦
                  let this : some e ≡ some x = sym (rw eq refl) ∙ found in
                  let same_h : (e.hash == x.hash) ≡ true =
                    (==_iff e.hash x.hash).1 (ap (λ y. y.hash) (some_inj this)) in
                  rw (same_h, eq) (ground arith)
            ];
      }
