-- ===== src/Node/Interleaved.antt =====
-- What the threads of cpp/src/NodeServer.cpp hand over under a schedule, and what a buffer makes of
-- it, apart from the network.
use mini2_aaa.Base.{
  string_eq, same, ℕ, zero, suc, ◌+◌, ◌≡◌, refl, sym, ap, ◌∙◌, String, true, false, List, [], ◌∷◌,
  ◌++◌, inl, inr, Bool-cases, List-cases, arith, contains, length, length-append, append_assoc,
  append-nil,
}
use mini2_aaa.Engine.{Chunk}
use mini2_aaa.Engine.Emit.{rows_of}
use mini2_aaa.Domain.{Row311}
use mini2_aaa.Buffer.{Buffer}
use mini2_aaa.Node.{deposit}
use mini2_aaa.Node.Deposit.{Accepts, deposit-Accepts, deposit-q}
use mini2_aaa.Node.Threads.{
  deposit_each, Thread, handed, advanced, handed_at, advanced_at, handed_over, left_over,
  chunks_from, all_rows, names, Distinct, chunks_at, rows_left, AllEnded,
}

module _ {D : Type 0} where
  pub chunks_from-append :
      (p : String) (xs ys : List (String × Chunk D))
      → chunks_from p (xs ++ ys) ≡ chunks_from p xs ++ chunks_from p ys
  chunks_from-append p [] ys = refl
  chunks_from-append p ((q, c) ∷ xs) ys = ground (arith, chunks_from-append p xs ys)

  pub all_rows-append :
      (xs ys : List (String × Chunk D)) → all_rows (xs ++ ys) ≡ all_rows xs ++ all_rows ys
  all_rows-append [] ys = refl
  all_rows-append ((q, c) ∷ xs) ys =
      ap (c.rows ++◌) (all_rows-append xs ys)
      ∙ sym (append_assoc c.rows (all_rows xs) (all_rows ys))

  names-advanced_at : (i : ℕ) (ts : List (Thread D)) → names (advanced_at i ts) ≡ names ts
  names-advanced_at i [] = refl
  names-advanced_at zero (t ∷ ts) = ground arith
  names-advanced_at (suc i) (t ∷ ts) = ap (t.me ∷◌) (names-advanced_at i ts)

  pub Distinct-advanced_at :
      (i : ℕ) (ts : List (Thread D)) → Distinct ts → Distinct (advanced_at i ts)
  Distinct-advanced_at i [] d = d
  Distinct-advanced_at zero (t ∷ ts) d = ground arith
  Distinct-advanced_at (suc i) (t ∷ ts) d =
      (ap (contains t.me) (names-advanced_at i ts) ∙ d.0, Distinct-advanced_at i ts d.1)

  rows_handed :
      (t : Thread D)
      → length (all_rows (handed t)) + length (rows_of (advanced t).chunks)
        ≡ length (rows_of t.chunks)
  rows_handed t = elim (List-cases t.chunks) [
    | inl e ↦ ground arith
    | inr (c, cs, e) ↦ ground (arith, length-append c.rows [], length-append c.rows (rows_of cs))
  ]

  pub rows_left-advanced_at :
      (i : ℕ) (ts : List (Thread D))
      → length (all_rows (handed_at i ts)) + rows_left (advanced_at i ts) ≡ rows_left ts
  rows_left-advanced_at i [] = omega arith
  rows_left-advanced_at zero (t ∷ ts) = ground (arith, rows_handed t)
  rows_left-advanced_at (suc i) (t ∷ ts) = omega (arith, rows_left-advanced_at i ts)

  handed_other : (p : String) (t : Thread D) → same t.me p ≡ false → chunks_from p (handed t) ≡ []
  handed_other p t ne = ground arith

  handed_own :
      (p : String) (t : Thread D)
      → same t.me p ≡ true
      → chunks_from p (handed t) ++ (advanced t).chunks ≡ t.chunks
  handed_own p t eq = ground arith

  absent :
      (p : String) (i : ℕ) (ts : List (Thread D))
      → contains p (names ts) ≡ false
      → chunks_from p (handed_at i ts) ≡ []
  absent p i [] h = refl
  absent p zero (t ∷ ts) h = handed_other p t (ground arith)
  absent p (suc i) (t ∷ ts) h = absent p i ts (ground arith)

  -- A turn takes the first chunk of a thread.
  pub chunks_at-turn :
      (p : String) (i : ℕ) (ts : List (Thread D))
      → Distinct ts
      → chunks_from p (handed_at i ts) ++ chunks_at p (advanced_at i ts) ≡ chunks_at p ts
  chunks_at-turn p i [] d = refl
  chunks_at-turn p zero (t ∷ ts) d = elim (Bool-cases (same t.me p)) [
    | inl eq ↦ ground (arith, handed_own p t eq)
    | inr ne ↦ ground (arith, handed_other p t ne)
  ]
  chunks_at-turn p (suc i) (t ∷ ts) d = elim (Bool-cases (same t.me p)) [
    | inl eq ↦
        let gone : contains p (names ts) ≡ false =
          ap (λ q. contains q (names ts)) (sym ((string_eq.beq_iff t.me p).0 eq)) ∙ d.0 in
        rw (eq, absent p i ts gone) refl
    | inr ne ↦ rw ne (chunks_at-turn p i ts d.1)
  ]

  -- Under a schedule, what a thread has handed over and what it has left are its chunks.
  pub chunks_at-schedule :
      (p : String) (is : List ℕ) (ts : List (Thread D))
      → Distinct ts
      → chunks_from p (handed_over is ts) ++ chunks_at p (left_over is ts) ≡ chunks_at p ts
  chunks_at-schedule p [] ts d = refl
  chunks_at-schedule p (i ∷ is) ts d =
      let ts' = advanced_at i ts in
      ap (λ cs. cs ++ chunks_at p (left_over is ts'))
        (chunks_from-append p (handed_at i ts) (handed_over is ts'))
      ∙ (append_assoc (chunks_from p (handed_at i ts)) (chunks_from p (handed_over is ts'))
            (chunks_at p (left_over is ts'))
          ∙ (ap (chunks_from p (handed_at i ts) ++◌)
                (chunks_at-schedule p is ts' (Distinct-advanced_at i ts d))
              ∙ chunks_at-turn p i ts d))

  chunks_at-ended : (p : String) (ts : List (Thread D)) → AllEnded ts → chunks_at p ts ≡ []
  chunks_at-ended p [] e = refl
  chunks_at-ended p (t ∷ ts) e = ground (arith, chunks_at-ended p ts e.1)

  -- When all threads have ended, each has handed over its chunks, in order.
  pub handed_over_complete :
      (p : String) (is : List ℕ) (ts : List (Thread D))
      → Distinct ts
      → AllEnded (left_over is ts)
      → chunks_from p (handed_over is ts) ≡ chunks_at p ts
  handed_over_complete p is ts d e =
      sym (append-nil (chunks_from p (handed_over is ts)))
      ∙ (ap (chunks_from p (handed_over is ts) ++◌) (sym (chunks_at-ended p (left_over is ts) e))
          ∙ chunks_at-schedule p is ts d)

  pub rows_left-schedule :
      (is : List ℕ) (ts : List (Thread D))
      → length (all_rows (handed_over is ts)) + rows_left (left_over is ts) ≡ rows_left ts
  rows_left-schedule [] ts = omega arith
  rows_left-schedule (i ∷ is) ts =
      let ts' = advanced_at i ts in
      let k =
        ap length (all_rows-append (handed_at i ts) (handed_over is ts'))
        ∙ length-append (all_rows (handed_at i ts)) (all_rows (handed_over is ts')) in
      omega (arith, rows_left-schedule is ts', rows_left-advanced_at i ts)

-- What the buffer of the portal makes of it.
module _ {D : Type 0} where
  pub deposit_each-append :
      (xs ys : List (String × Chunk D)) (b : Buffer (Row311 D))
      → deposit_each (xs ++ ys) b ≡ deposit_each ys (deposit_each xs b)
  deposit_each-append [] ys b = refl
  deposit_each-append ((p, c) ∷ xs) ys b = deposit_each-append xs ys (deposit c.rows c.done p b)

  pub deposit_each-Accepts :
      (out : List (String × Chunk D)) (k : ℕ) (b : Buffer (Row311 D))
      → Accepts (length (all_rows out) + k) b
      → Accepts k (deposit_each out b)
  deposit_each-Accepts [] k b a = record { live = a.live; fits = (let f = a.fits in omega arith) }
  deposit_each-Accepts ((p, c) ∷ out) k b a =
      deposit_each-Accepts out k (deposit c.rows c.done p b) (
        deposit-Accepts p c (length (all_rows out) + k) b (record {
          live = a.live;
          fits = (let f = a.fits in let n = length-append c.rows (all_rows out) in omega arith);
        }))

  -- A buffer that accepts all rows has them behind its own, in the order of the calls.
  pub deposit_each-q :
      (out : List (String × Chunk D)) (b : Buffer (Row311 D))
      → Accepts (length (all_rows out)) b
      → (deposit_each out b).q ≡ b.q ++ all_rows out
  deposit_each-q [] b a = sym (append-nil b.q)
  deposit_each-q ((p, c) ∷ out) b a =
      let n = length-append c.rows (all_rows out) in
      let f = a.fits in
      let next =
        deposit-Accepts p c (length (all_rows out)) b
          (record { live = a.live; fits = omega arith }) in
      deposit_each-q out (deposit c.rows c.done p b) next
      ∙ (ap (λ q. q ++ all_rows out)
            (deposit-q p c b (record { live = a.live; fits = omega arith }))
          ∙ append_assoc b.q c.rows (all_rows out))
