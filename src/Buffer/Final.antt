-- ===== src/Buffer/Final.antt =====
-- When a buffer of cpp/src/ChunkBuffer.cpp is final, and what can change that.
use mini2_aaa.Base.{
  insert_set, ap, string_eq, ℕ, zero, suc, ◌==◌, ◌-◌, ◌≤◌, ◌<◌, min, ◌≡◌, ◌⊎◌, refl, ◌∙◌, String,
  Bool, true, false, if◌then◌else◌, List, [], ◌∷◌, ◌++◌, length, take, drop, arith, inl, inr,
}
use mini2_aaa.Buffer.Fifo.{push_rows-canceled, push_rows-q}
use mini2_aaa.Buffer.{
  Buffer, push_rows, drain, pop_up_to, mark_producer_started, mark_producer_done, cancel, is_final,
  pending_producers,
}

insert_set-grows : (p : String) (s : List String) → length s ≤ length (insert_set p s)
unfolding insert_set
insert_set-grows p s = ground arith

module _ {Row : Type 0} where
  drop-nil : (n : ℕ) → drop {A = Row} n [] ≡ []
  drop-nil zero = refl
  drop-nil (suc n) = refl

  take-nil : (n : ℕ) → take {A = Row} n [] ≡ []
  take-nil zero = refl
  take-nil (suc n) = refl

  -- A live buffer that is empty and has seen all its producers.
  abbrev pub Drained : Buffer Row → Type 0
  Drained b = (b.canceled ≡ false) × (b.q ≡ []) × (b.expected_producers ≤ length b.done)

  pub is_final-cases : (b : Buffer Row) → is_final b ≡ true → (b.canceled ≡ true) ⊎ Drained b
  unfolding is_final
  is_final-cases b h = ground arith

  is_final_canceled : (b : Buffer Row) → b.canceled ≡ true → is_final b ≡ true
  unfolding is_final
  is_final_canceled b h = ground arith

  Drained-is_final : (b : Buffer Row) → Drained b → is_final b ≡ true
  unfolding is_final
  Drained-is_final b h = ground arith

  drain-is_final : (b : Buffer Row) (n : ℕ) → is_final b ≡ true → is_final (drain n b).0 ≡ true
  unfolding drain
  drain-is_final b n h = elim (is_final-cases b h) [
    | inl dead ↦ is_final_canceled (drain n b).0 dead
    | inr d ↦ Drained-is_final (drain n b).0 (d.0, ap (drop n) d.1 ∙ drop-nil n, d.2)
  ]

  started-is_final :
      (b : Buffer Row) (p : String)
      → is_final b ≡ true
      → is_final (mark_producer_started p b) ≡ true
  unfolding mark_producer_started
  started-is_final b p h = elim (is_final-cases b h) [
    | inl dead ↦ is_final_canceled (mark_producer_started p b) dead
    | inr d ↦ Drained-is_final (mark_producer_started p b) d
  ]

  done-is_final :
      (b : Buffer Row) (p : String) → is_final b ≡ true → is_final (mark_producer_done p b) ≡ true
  unfolding mark_producer_done
  done-is_final b p h = elim (is_final-cases b h) [
    | inl dead ↦ is_final_canceled (mark_producer_done p b) dead
    | inr d ↦
        Drained-is_final (mark_producer_done p b)
          (d.0, d.1, omega (arith, insert_set-grows p b.done, d.2))
  ]

  -- A final buffer stays final under every method but `pushRows`.
  pub is_final-stable :
      (b : Buffer Row) (p : String) (max_rows : ℕ)
      → is_final b ≡ true
      → (is_final (drain max_rows b).0 ≡ true)
        × (is_final (mark_producer_started p b) ≡ true)
        × (is_final (mark_producer_done p b) ≡ true)
        × (is_final (cancel b) ≡ true)
  unfolding cancel
  is_final-stable b p max_rows h = (
    drain-is_final b max_rows h,
    started-is_final b p h,
    done-is_final b p h,
    is_final_canceled (cancel b) refl,
  )

  not_final :
      (b : Buffer Row) (r : Row) (rows : List Row)
      → b.canceled ≡ false
      → b.q ≡ r ∷ rows
      → is_final b ≡ false
  unfolding is_final
  not_final b r rows live e = ground arith

  taken :
      (b : Buffer Row) (r : Row) (rows : List Row)
      → b.canceled ≡ false
      → b.q ≡ []
      → 0 < b.capacity
      → (push_rows (r ∷ rows) b).1 ≡ suc (min (length rows) (b.capacity - 1))
  unfolding push_rows
  taken b r rows live e pos = ground arith

  -- A push of one row or more makes a live final buffer, of a capacity other than 0, not final again.
  pub push-not_final :
      (b : Buffer Row) (r : Row) (rows : List Row)
      → b.canceled ≡ false
      → is_final b ≡ true
      → 0 < b.capacity
      → is_final (push_rows (r ∷ rows) b).0 ≡ false
  push-not_final b r rows live h pos = elim (is_final-cases b h) [
    | inl dead ↦ absurd (cc)
    | inr d ↦ not_final (push_rows (r ∷ rows) b).0 r _ (push_rows-canceled (r ∷ rows) b ∙ live) (
        push_rows-q (r ∷ rows) b live
        ∙ (ap (λ q. q ++ take (push_rows (r ∷ rows) b).1 (r ∷ rows)) d.1
            ∙ ap (λ n. take n (r ∷ rows)) (taken b r rows live d.1 pos)))
  ]

  drain-nil : (b : Buffer Row) (n : ℕ) → b.q ≡ [] → (drain n b).1 ≡ []
  unfolding drain
  drain-nil b n h = ap (take n) h ∙ take-nil n

  no_wait :
      (b : Buffer Row) (max_rows block_ms : ℕ) (meanwhile : Buffer Row → Buffer Row)
      → Drained b
      → (pop_up_to max_rows block_ms meanwhile b).1
        ≡ (if max_rows == 0 then [] else (drain max_rows b).1)
  unfolding pop_up_to
  no_wait b max_rows block_ms meanwhile d = ground arith

  if_nil : (t : Bool) (xs : List Row) → xs ≡ [] → (if t then [] else xs) ≡ []
  if_nil true xs h = refl
  if_nil false xs h = h

  -- A buffer that is final and not cancelled is empty, no producer is pending, and a fetch from
  -- it returns at once with no row.
  pub is_final-drained :
      (b : Buffer Row) (max_rows block_ms : ℕ) (meanwhile : Buffer Row → Buffer Row)
      → is_final b ≡ true
      → b.canceled ≡ false
      → (b.q ≡ []) × (pending_producers b ≡ 0) × ((pop_up_to max_rows block_ms meanwhile b).1 ≡ [])
  unfolding pending_producers
  is_final-drained b max_rows block_ms meanwhile h live = elim (is_final-cases b h) [
    | inl dead ↦ absurd (cc)
    | inr d ↦ (
      d.1,
      ground arith,
      no_wait b max_rows block_ms meanwhile d
          ∙ if_nil (max_rows == 0) (drain max_rows b).1 (drain-nil b max_rows d.1),
    )
  ]
