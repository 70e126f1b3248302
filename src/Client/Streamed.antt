-- ===== src/Client/Streamed.antt =====
-- The buffer of cpp/src/ChunkBuffer.cpp as a stream: what `popUpTo` takes out while producers bring the
-- rows of one sequence.
use mini2_aaa.Base.{
  ℕ, ◌%◌, ◌^◌, ◌≤◌, ◌≡◌, sym, ap, ◌∙◌, true, false, List, [], ◌++◌, length, take, drop, ◌==◌,
  Bool-cases, inl, inr, append-nil, append_assoc, length-append, take-append-drop, arith,
}
use mini2_aaa.Buffer.{Buffer, pop_up_to, drain, waits, is_final}
use mini2_aaa.Buffer.Final.{is_final-cases}

-- A live buffer in which the rows of `all` are on their way to a client that has those of `out`: the
-- rest has not come yet, and there is none when all producers are done.
pub record Streams {Row : Type 0} (all out : List Row) (b : Buffer Row) : Type 0 where
  pub rest : List Row
  pub whole : out ++ (b.q ++ rest) ≡ all
  pub live : b.canceled ≡ false
  pub closed : b.expected_producers ≤ length b.done → rest ≡ []
  pub counts : b.rows_served ≡ length out % 2 ^ 64

-- What other threads do to the buffer keeps the stream, wherever the client is.
abbrev pub Follows : {Row : Type 0} → List Row → (Buffer Row → Buffer Row) → Type 0
Follows {Row} all g = (out : List Row) (b : Buffer Row) → Streams all out b → Streams all out (g b)

module _ {Row : Type 0} (all out : List Row) where
  drain-Streams :
      (n : ℕ) (b : Buffer Row)
      → Streams all out b
      → Streams all (out ++ (drain n b).1) (drain n b).0
  unfolding drain
  drain-Streams n b s = record {
    rest = s.rest;
    whole =
        append_assoc out (take n b.q) (drop n b.q ++ s.rest)
        ∙ (ap (◌++◌ out) (
              sym (append_assoc (take n b.q) (drop n b.q) s.rest)
              ∙ ap (λ q. q ++ s.rest) (take-append-drop n b.q))
            ∙ s.whole);
    live = s.live;
    closed = s.closed;
    counts = omega (arith, length-append out (take n b.q), s.counts);
  }

  pub pop_up_to-Streams :
      (n ms : ℕ) (during : Buffer Row → Buffer Row) (b : Buffer Row)
      → Follows all during
      → Streams all out b
      → Streams all (out ++ (pop_up_to n ms during b).1) (pop_up_to n ms during b).0
  unfolding pop_up_to
  pop_up_to-Streams n ms during b follows s = elim (Bool-cases (n == 0)) [
    | inl none_ ↦ rw none_ (rw (append-nil out) s)
    | inr some_ ↦ rw some_ (elim (Bool-cases (waits ms b)) [
      | inl w ↦ rw w (drain-Streams n (during b) (follows out b s))
      | inr w ↦ rw w (drain-Streams n b s)
    ])
  ]

  -- Nothing is left of a stream when its buffer is final.
  pub Streams-end : (b : Buffer Row) → Streams all out b → is_final b ≡ true → out ≡ all
  Streams-end b s e = elim (is_final-cases b e) [
    | inl dead ↦ absurd (let bad = sym s.live ∙ dead in cc)
    | inr d ↦
        sym (ap (λ q. out ++ (q ++ s.rest)) d.1 ∙ (ap (◌++◌ out) (s.closed d.2) ∙ append-nil out))
        ∙ s.whole
  ]
