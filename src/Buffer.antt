-- ===== src/Buffer.antt =====
-- The row buffer between producers and a client: cpp/include/ChunkBuffer.hpp and
-- cpp/src/ChunkBuffer.cpp. Each method holds the mutex, so it is one step on the state; the wait in
-- `popUpTo` lets go of it, and what other threads do meanwhile is an argument. Notifications and
-- `reserve` change no state.
pub mod Fifo
pub mod Final
use mini2_aaa.Base.{
  Eq, string_eq, same, ℕ, ◌+◌, ◌-◌, ◌%◌, ◌^◌, min, String, Bool, true, false, not, if◌then◌else◌,
  ◌&&◌, ◌||◌, List, [], ◌∷◌, ◌++◌, length, take, drop, leb, ltb, ◌==◌, insert_set,
}

pub record Buffer {ℓ} (Row : Type ℓ) : Type ℓ where
  pub q : List Row
  pub capacity : ℕ
  pub expected_producers : ℕ
  pub started : List String
  pub done : List String
  pub rows_served : ℕ
  pub canceled : Bool

module _ {ℓ} {Row : Type ℓ} where
  -- The constructor.
  unfoldable pub new_buffer : (capacity expected : ℕ) → Buffer Row
  new_buffer capacity expected = record {
    q = [];
    capacity = capacity;
    expected_producers = expected;
    started = [];
    done = [];
    rows_served = 0;
    canceled = false;
  }

  -- The room that is left.
  abbrev pub avail : Buffer Row → ℕ
  avail b = if leb b.capacity (length b.q) then 0 else b.capacity - length b.q

  -- `pushRows`: the new state, and how many rows were accepted.
  unfoldable pub push_rows : List Row → Buffer Row → Buffer Row × ℕ
  push_rows [] b = (b, 0)
  push_rows (r ∷ rows) b =
      if b.canceled
      then (b, length (r ∷ rows))
      else (let taken = min (length (r ∷ rows)) (avail b) in
          (record b { q = b.q ++ take taken (r ∷ rows) }, taken))

  abbrev pub all_done : Buffer Row → Bool
  all_done b = leb b.expected_producers (length b.done)

  -- Whether `popUpTo` waits.
  abbrev pub waits : (block_ms : ℕ) → Buffer Row → Bool
  waits block_ms b = elim b.q [
    | [] ↦ not b.canceled && not (all_done b) && ltb 0 block_ms
    | x ∷ xs ↦ false
  ]

  -- The loop that moves rows out, and the count of them; a `uint64_t` wraps.
  unfoldable pub drain : ℕ → Buffer Row → Buffer Row × List Row
  drain max_rows b =
      let out = take max_rows b.q in
      (record b { q = drop max_rows b.q; rows_served = (b.rows_served + length out) % 2 ^ 64 }, out)

  -- `popUpTo`; `meanwhile` is what other threads do to the buffer while the caller waits.
  unfoldable pub pop_up_to :
      (max_rows block_ms : ℕ) → (Buffer Row → Buffer Row) → Buffer Row → Buffer Row × List Row
  unfolding drain
  pop_up_to max_rows block_ms meanwhile b =
      if max_rows == 0
      then (b, [])
      else drain max_rows (if waits block_ms b then meanwhile b else b)

  unfoldable pub mark_producer_started : String → Buffer Row → Buffer Row
  unfolding insert_set
  mark_producer_started p b = record b { started = insert_set p b.started }

  unfoldable pub mark_producer_done : String → Buffer Row → Buffer Row
  unfolding insert_set
  mark_producer_done p b = record b { done = insert_set p b.done }

  unfoldable pub cancel : Buffer Row → Buffer Row
  cancel b = record b { canceled = true; q = [] }

  unfoldable pub is_final : Buffer Row → Bool
  is_final b = if b.canceled then true else (elim b.q [ [] ↦ all_done b | x ∷ xs ↦ false ])

  abbrev pub buffered_rows : Buffer Row → ℕ
  buffered_rows b = length b.q

  unfoldable pub pending_producers : Buffer Row → ℕ
  pending_producers b = if all_done b then 0 else b.expected_producers - length b.done
