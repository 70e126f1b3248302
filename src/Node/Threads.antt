-- ===== src/Node/Threads.antt =====
-- The detached threads of `executeLocal` of cpp/src/NodeServer.cpp side by side: each goes on from one
-- call of the sink to the next, and a schedule says whose turn it is.
use mini2_aaa.Base.{
  ◌≡◌, string_eq, ℕ, zero, suc, ◌+◌, ◌%◌, ◌^◌, String, Bool, false, same, if◌then◌else◌, List, [],
  ◌∷◌, ◌++◌, Option, none, some, map, contains, length,
}
use mini2_aaa.Base.Int.{ℤ}
use mini2_aaa.Domain.{Floating, Row311}
use mini2_aaa.Buffer.{Buffer}
use mini2_aaa.Engine.{Chunk}
use mini2_aaa.Engine.Emit.{rows_of}
use mini2_aaa.Node.{NodeServer, Worker, deposit}
use mini2_aaa.Node.Network.{Net}
use mini2_aaa.Node.Execute.{sink_chunk}
use mini2_aaa.Node.Collected.{run_of}

-- A thread of `executeLocal` at a node between two calls of the sink: `seq` counts the calls made, and
-- `chunks` are the calls to come.
pub record Thread (D : Type 0) : Type 0 where
  pub me : String
  pub work : Worker D
  pub node : NodeServer D
  pub seq : ℕ
  pub chunks : List (Chunk D)

-- A thread at its start, at node `n` with the id `me`.
unfoldable pub start_thread :
    {D : Type 0} ⦃f : Floating D⦄ (atoi : String → ℤ) (others : ℕ → Bool) (me : String)
    → NodeServer D
    → Worker D
    → Thread D
start_thread atoi others me n w = record {
  me = me;
  work = w;
  node = n;
  seq = 0;
  chunks = run_of atoi others n w;
}

module _ {D : Type 0} where
  -- What a thread hands over next, and the thread after that.
  abbrev pub handed : Thread D → List (String × Chunk D)
  handed t = elim t.chunks [ [] ↦ [] | c ∷ cs ↦ (t.me, c) ∷ [] ]

  abbrev pub advanced : Thread D → Thread D
  advanced t = record t {
    seq = elim t.chunks [ [] ↦ t.seq | c ∷ cs ↦ (t.seq + 1) % 2 ^ 32 ];
    chunks = elim t.chunks [ [] ↦ [] | c ∷ cs ↦ cs ];
  }

  module _ (backoff fuel : ℕ) (stamp : ℕ → ℕ) where
    -- A thread makes its next call of the sink; one that has ended does nothing.
    unfoldable pub thread_step : Thread D → Net D → Option (Thread D × Net D)
    unfolding sink_chunk
    thread_step t net = elim t.chunks [
      | [] ↦ some (t, net)
      | c ∷ cs ↦
          elim (sink_chunk backoff fuel stamp t.me t.work ((t.seq + 1) % 2 ^ 32) c t.node net) [
            | none ↦ none
            | some net' ↦ some (record t { seq = (t.seq + 1) % 2 ^ 32; chunks = cs }, net')
          ]
    ]

    -- The turn of the thread at a position.
    unfoldable pub turn : ℕ → List (Thread D) → Net D → Option (List (Thread D) × Net D)
    unfolding thread_step
    turn i [] net = some ([], net)
    turn zero (t ∷ ts) net = elim (thread_step t net) [
      | none ↦ none
      | some (t', net') ↦ some (t' ∷ ts, net')
    ]
    turn (suc i) (t ∷ ts) net = elim (turn i ts net) [
      | none ↦ none
      | some (ts', net') ↦ some (t ∷ ts', net')
    ]

    -- The threads under a schedule.
    unfoldable pub interleave : List ℕ → List (Thread D) → Net D → Option (List (Thread D) × Net D)
    unfolding turn
    interleave [] ts net = some (ts, net)
    interleave (i ∷ is) ts net = elim (turn i ts net) [
      | none ↦ none
      | some (ts', net') ↦ interleave is ts' net'
    ]

  -- What a turn hands over, and what a schedule does, in order.
  abbrev pub handed_at : ℕ → List (Thread D) → List (String × Chunk D)
  handed_at i [] = []
  handed_at zero (t ∷ ts) = handed t
  handed_at (suc i) (t ∷ ts) = handed_at i ts

  abbrev pub advanced_at : ℕ → List (Thread D) → List (Thread D)
  advanced_at i [] = []
  advanced_at zero (t ∷ ts) = advanced t ∷ ts
  advanced_at (suc i) (t ∷ ts) = t ∷ advanced_at i ts

  abbrev pub handed_over : List ℕ → List (Thread D) → List (String × Chunk D)
  handed_over [] ts = []
  handed_over (i ∷ is) ts = handed_at i ts ++ handed_over is (advanced_at i ts)

  abbrev pub left_over : List ℕ → List (Thread D) → List (Thread D)
  left_over [] ts = ts
  left_over (i ∷ is) ts = left_over is (advanced_at i ts)

  -- The chunks of one producer, in order.
  abbrev pub chunks_from : String → List (String × Chunk D) → List (Chunk D)
  chunks_from p [] = []
  chunks_from p ((q, c) ∷ out) = let rest = chunks_from p out in if same q p then c ∷ rest else rest

  abbrev pub all_rows : List (String × Chunk D) → List (Row311 D)
  all_rows [] = []
  all_rows ((p, c) ∷ out) = c.rows ++ all_rows out

  abbrev pub deposit_each : List (String × Chunk D) → Buffer (Row311 D) → Buffer (Row311 D)
  deposit_each [] b = b
  deposit_each ((p, c) ∷ out) b = deposit_each out (deposit c.rows c.done p b)

  -- The threads of different nodes, and the chunks that the thread of a node has left.
  abbrev pub names : List (Thread D) → List String
  names ts = map (λ t. t.me) ts

  abbrev pub Distinct : List (Thread D) → Type 0
  Distinct [] = Unit
  Distinct (t ∷ ts) = (contains t.me (names ts) ≡ false) × Distinct ts

  abbrev pub chunks_at : String → List (Thread D) → List (Chunk D)
  chunks_at p [] = []
  chunks_at p (t ∷ ts) = if same t.me p then t.chunks else chunks_at p ts

  -- The rows that the threads have left.
  abbrev pub rows_left : List (Thread D) → ℕ
  rows_left [] = 0
  rows_left (t ∷ ts) = length (rows_of t.chunks) + rows_left ts

  abbrev pub AllEnded : List (Thread D) → Type 0
  AllEnded [] = Unit
  AllEnded (t ∷ ts) = (t.chunks ≡ []) × AllEnded ts
