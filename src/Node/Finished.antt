-- ===== src/Node/Finished.antt =====
-- The end of the threads of cpp/src/NodeServer.cpp: every row is at the portal, and every producer is
-- known to be done.
use mathlib.Core.Path.{subst}
use mini2_aaa.Base.{
  string_eq, same, ℕ, ◌≡◌, refl, ap, ◌∙◌, String, Bool, true, false, ◌||◌, ◌&&◌, List, [], ◌∷◌,
  ◌++◌, some, inl, inr, Bool-cases, arith, contains,
}
use mini2_aaa.Domain.{Row311}
use mini2_aaa.Buffer.{Buffer, mark_producer_done, push_rows}
use mini2_aaa.Config.Symmetric.{contains-insert_set}
use mini2_aaa.Engine.{Chunk}
use mini2_aaa.Node.{deposit}
use mini2_aaa.Node.Network.{Net}
use mini2_aaa.Node.Deposit.{Accepts, deposit-kept}
use mini2_aaa.Node.Threads.{
  Thread, handed_over, left_over, chunks_from, all_rows, Distinct, chunks_at, rows_left, AllEnded,
  interleave, deposit_each,
}
use mini2_aaa.Node.Interleaved.{deposit_each-q, handed_over_complete, rows_left-schedule}
use mini2_aaa.Node.Gathered.{Stage, Ways, interleaved}

module _ {D : Type 0} where
  abbrev pub any_done : List (Chunk D) → Bool
  any_done [] = false
  any_done (c ∷ cs) = c.done || any_done cs

  pub any_done-last :
      (cs : List (Chunk D)) (c : Chunk D) → c.done ≡ true → any_done (cs ++ (c ∷ [])) ≡ true
  any_done-last [] c e = ground arith
  any_done-last (d ∷ cs) c e = ground (arith, any_done-last cs c e)

  push_rows-done :
      (rows : List (Row311 D)) (b : Buffer (Row311 D)) → (push_rows rows b).0.done ≡ b.done
  unfolding push_rows
  push_rows-done [] b = refl
  push_rows-done (r ∷ rows) b = ground arith

  -- The finished producers after a chunk.
  contains-deposit :
      (p q : String) (c : Chunk D) (b : Buffer (Row311 D))
      → contains p (deposit c.rows c.done q b).done ≡ ((c.done && same q p) || contains p b.done)
  unfolding deposit mark_producer_done
  contains-deposit p q c b =
      let k = push_rows-done c.rows b in
      elim (Bool-cases c.done) [
        | inl e ↦ rw (e, deposit) (contains-insert_set p q (push_rows c.rows b).0.done ∙ rw k refl)
        | inr e ↦ rw (e, deposit) (ap (contains p) k)
      ]

  done_kept :
      (p q : String) (c : Chunk D) (b : Buffer (Row311 D))
      → contains p b.done ≡ true
      → contains p (deposit c.rows c.done q b).done ≡ true
  done_kept p q c b e = ground (arith, contains-deposit p q c b)

  done_now :
      (p : String) (c : Chunk D) (b : Buffer (Row311 D))
      → c.done ≡ true
      → contains p (deposit c.rows c.done p b).done ≡ true
  done_now p c b e = ground (arith, contains-deposit p p c b, string_eq.beq_iff p p)

  kept_done :
      (p : String) (out : List (String × Chunk D)) (b : Buffer (Row311 D))
      → contains p b.done ≡ true
      → contains p (deposit_each out b).done ≡ true
  kept_done p [] b e = e
  kept_done p ((q, c) ∷ out) b e = kept_done p out (deposit c.rows c.done q b) (done_kept p q c b e)

  -- A producer of which a `done` chunk came is finished.
  deposit_each-done :
      (p : String) (out : List (String × Chunk D)) (b : Buffer (Row311 D))
      → any_done (chunks_from p out) ≡ true
      → contains p (deposit_each out b).done ≡ true
  deposit_each-done p [] b e = absurd (cc)
  deposit_each-done p ((q, c) ∷ out) b e = elim (Bool-cases (same q p)) [
    | inr ne ↦ deposit_each-done p out (deposit c.rows c.done q b) (ground arith)
    | inl eq ↦ elim (Bool-cases c.done) [
      | inr go ↦ deposit_each-done p out (deposit c.rows c.done q b) (ground arith)
      | inl end ↦ kept_done p out (deposit c.rows c.done q b) (
          subst (λ r. contains r (deposit c.rows c.done q b).done ≡ true)
            ((string_eq.beq_iff q p).0 eq) (done_now q c b end))
    ]
  ]

module _ {D : Type 0} where
  push_rows-expected :
      (rows : List (Row311 D)) (b : Buffer (Row311 D))
      → (push_rows rows b).0.expected_producers ≡ b.expected_producers
  unfolding push_rows
  push_rows-expected [] b = refl
  push_rows-expected (r ∷ rows) b = ground arith

  deposit_each-expected :
      (out : List (String × Chunk D)) (b : Buffer (Row311 D))
      → (deposit_each out b).expected_producers ≡ b.expected_producers
  unfolding mark_producer_done
  deposit_each-expected [] b = refl
  deposit_each-expected ((p, c) ∷ out) b =
      deposit_each-expected out (deposit c.rows c.done p b)
      ∙ (deposit-kept p (λ b. b.expected_producers) c b (λ b. refl) ∙ push_rows-expected c.rows b)

-- What the threads leave when all have ended: behind the rows that the buffer had, the rows of `out`,
-- which has the chunks of each thread in their order and no other; a thread that handed over a `done`
-- chunk is among the finished producers.
pub record IsGathered {D : Type 0} (rid root : String) (ts : List (Thread D))
    (b : Buffer (Row311 D)) (after : Net D) : Type 0 where
  pub buffer : Buffer (Row311 D)
  pub stage : Stage rid root after buffer
  pub out : List (String × Chunk D)
  pub expected : buffer.expected_producers ≡ b.expected_producers
  pub in_order : buffer.q ≡ b.q ++ all_rows out
  pub each : (p : String) → chunks_from p out ≡ chunks_at p ts
  pub finished : (p : String) → any_done (chunks_at p ts) ≡ true → contains p buffer.done ≡ true

-- In an overlay where the portal has the request, with a live buffer that has room for all rows: the
-- threads of different nodes, each with a way to the portal of fewer hops than the fuel, can take their
-- turns in any order; no call fails, and when all have ended, the portal's buffer has every chunk of
-- every thread, each thread's in their order, and no other, behind the rows that it had, and every
-- thread with a `done` chunk is among the finished producers.
pub interleave-IsGathered :
    {D : Type 0} (backoff fuel : ℕ) (stamp : ℕ → ℕ) (rid root : String) (schedule : List ℕ)
    (ts : List (Thread D)) (net : Net D) (b : Buffer (Row311 D))
    → Distinct ts
    → Ways root fuel rid net ts
    → Stage rid root net b
    → Accepts (rows_left ts) b
    → AllEnded (left_over schedule ts)
    → (after : Net D) × (interleave backoff fuel stamp schedule ts net
        ≡ some (left_over schedule ts, after))
      × IsGathered rid root ts b after
interleave-IsGathered backoff fuel stamp rid root schedule ts net b d ys s a ended =
    let (after, e, s') = interleaved backoff fuel stamp root rid schedule ts net b ys s a in
    let whole = λ (p : String). handed_over_complete p schedule ts d ended in
    (
      after,
      e,
      record {
        buffer = deposit_each (handed_over schedule ts) b;
        stage = s';
        out = handed_over schedule ts;
        expected = deposit_each-expected (handed_over schedule ts) b;
        in_order = deposit_each-q (handed_over schedule ts) b (record {
          live = a.live;
          fits = (let f = a.fits in let k = rows_left-schedule schedule ts in omega arith);
        });
        each = whole;
        finished = λ p done.
            deposit_each-done p (handed_over schedule ts) b (ap any_done (whole p) ∙ done);
      },
    )
