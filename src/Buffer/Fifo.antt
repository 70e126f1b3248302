-- ===== src/Buffer/Fifo.antt =====
-- cpp/src/ChunkBuffer.cpp as a bounded queue: any interleaving of the methods keeps the bound, and
-- hands on the accepted rows in order, each once.
use mini2_aaa.Base.{
  ap, ℕ, zero, suc, ◌+◌, ◌%◌, ◌^◌, ◌≤◌, ◌≡◌, refl, sym, ◌∙◌, String, Bool, true, false,
  if◌then◌else◌, List, [], ◌∷◌, ◌++◌, length, take, drop, length-append, length-take, length-drop,
  take-append-drop, append_assoc, append-nil, arith, Bool-cases, inl, inr,
}
use mini2_aaa.Buffer.{
  Buffer, push_rows, drain, mark_producer_started, mark_producer_done, cancel, new_buffer,
}

-- One step of some thread on the buffer.
pub data Op {ℓ} (Row : Type ℓ) : Type ℓ where
  push : List Row → Op Row
  pop : ℕ → Op Row
  starts : String → Op Row
  finishes : String → Op Row
  aborts : Op Row

-- A buffer with the rows that it ever accepted, and those that it ever served.
pub record Logged {ℓ} (Row : Type ℓ) : Type ℓ where
  pub buffer : Buffer Row
  pub accepted : List Row
  pub served : List Row

if_false {κ} : {A : Type κ} (b : Bool) (x y : A) → b ≡ false → (if b then x else y) ≡ y
if_false b x y h = rw h

module _ {ℓ} {Row : Type ℓ} where
  pub step : Logged Row → Op Row → Logged Row
  step s (push rows) =
      let (b, n) = push_rows rows s.buffer in
      record {
        buffer = b;
        accepted = s.accepted ++ (if s.buffer.canceled then [] else take n rows);
        served = s.served;
      }
  step s (pop n) =
      let (b, out) = drain n s.buffer in
      record { buffer = b; accepted = s.accepted; served = s.served ++ out }
  step s (starts p) = record s { buffer = mark_producer_started p s.buffer }
  step s (finishes p) = record s { buffer = mark_producer_done p s.buffer }
  step s aborts = record s { buffer = cancel s.buffer }

  pub steps : Logged Row → List (Op Row) → Logged Row
  unfolding step
  steps s [] = s
  steps s (o ∷ os) = steps (step s o) os

  pub record Sound (s : Logged Row) : Type ℓ where
    pub bounded : length s.buffer.q ≤ s.buffer.capacity
    pub in_order : s.buffer.canceled ≡ false → s.served ++ s.buffer.q ≡ s.accepted
    pub emptied : s.buffer.canceled ≡ true → s.buffer.q ≡ []
    pub counted : s.buffer.rows_served ≡ length s.served % 2 ^ 64

  drop-nil : (n : ℕ) → drop {A = Row} n [] ≡ []
  drop-nil zero = refl
  drop-nil (suc n) = refl

  pub push_rows-canceled :
      (rows : List Row) (b : Buffer Row) → (push_rows rows b).0.canceled ≡ b.canceled
  unfolding push_rows
  push_rows-canceled [] b = refl
  push_rows-canceled (r ∷ rows) b = ground arith

  pub push_rows-capacity :
      (rows : List Row) (b : Buffer Row) → (push_rows rows b).0.capacity ≡ b.capacity
  unfolding push_rows
  push_rows-capacity [] b = refl
  push_rows-capacity (r ∷ rows) b = ground arith

  push_rows-served :
      (rows : List Row) (b : Buffer Row) → (push_rows rows b).0.rows_served ≡ b.rows_served
  unfolding push_rows
  push_rows-served [] b = refl
  push_rows-served (r ∷ rows) b = ground arith

  pub push_rows-q :
      (rows : List Row) (b : Buffer Row)
      → b.canceled ≡ false
      → (push_rows rows b).0.q ≡ b.q ++ take (push_rows rows b).1 rows
  unfolding push_rows
  push_rows-q [] b h = sym (append-nil b.q)
  push_rows-q (r ∷ rows) b h = ground arith

  push_rows_dead :
      (rows : List Row) (b : Buffer Row) → b.canceled ≡ true → (push_rows rows b).0.q ≡ b.q
  unfolding push_rows
  push_rows_dead [] b h = refl
  push_rows_dead (r ∷ rows) b h = ground arith

  -- What is accepted fits.
  push_rows-fits :
      (rows : List Row) (b : Buffer Row)
      → length b.q ≤ b.capacity
      → b.canceled ≡ false
      → length b.q + (push_rows rows b).1 ≤ b.capacity
  unfolding push_rows
  push_rows-fits [] b h live = omega arith
  push_rows-fits (r ∷ rows) b h live = ground arith

  push_rows-bounded :
      (rows : List Row) (b : Buffer Row)
      → length b.q ≤ b.capacity
      → length (push_rows rows b).0.q ≤ (push_rows rows b).0.capacity
  push_rows-bounded rows b h = elim (Bool-cases b.canceled) [
    | inl dead ↦ rw (push_rows_dead rows b dead, push_rows-capacity rows b) h
    | inr live ↦
        rw (push_rows-q rows b live, push_rows-capacity rows b)
          (omega (
            arith,
            length-append b.q (take (push_rows rows b).1 rows),
            length-take (push_rows rows b).1 rows,
            push_rows-fits rows b h live,
          ))
  ]

  push-Sound : (s : Logged Row) (rows : List Row) → Sound s → Sound (step s (push rows))
  unfolding step
  push-Sound s rows h = record {
    bounded = push_rows-bounded rows s.buffer h.bounded;
    in_order = λ e.
        let live = sym (push_rows-canceled rows s.buffer) ∙ e in
        ap (◌++◌ s.served) (push_rows-q rows s.buffer live)
        ∙ (sym (append_assoc s.served s.buffer.q _)
            ∙ (ap (λ t. t ++ take (push_rows rows s.buffer).1 rows) (h.in_order live)
                ∙ ap (◌++◌ s.accepted) (sym (if_false _ _ _ live))));
    emptied = λ e.
        let dead = sym (push_rows-canceled rows s.buffer) ∙ e in
        push_rows_dead rows s.buffer dead ∙ h.emptied dead;
    counted = push_rows-served rows s.buffer ∙ h.counted;
  }

  pop-Sound : (s : Logged Row) (n : ℕ) → Sound s → Sound (step s (pop n))
  unfolding step drain
  pop-Sound s n h = record {
    bounded = omega (arith, length-drop n s.buffer.q, h.bounded);
    in_order = λ e.
        append_assoc s.served (take n s.buffer.q) (drop n s.buffer.q)
        ∙ (ap (◌++◌ s.served) (take-append-drop n s.buffer.q) ∙ h.in_order e);
    emptied = λ e. rw (h.emptied e) (drop-nil n);
    counted = omega (arith, length-append s.served (take n s.buffer.q), h.counted);
  }

  step-Sound : (s : Logged Row) (o : Op Row) → Sound s → Sound (step s o)
  unfolding step mark_producer_started mark_producer_done cancel
  step-Sound s (push rows) h = push-Sound s rows h
  step-Sound s (pop n) h = pop-Sound s n h
  step-Sound s (starts p) h = record {
    bounded = h.bounded;
    in_order = h.in_order;
    emptied = h.emptied;
    counted = h.counted;
  }
  step-Sound s (finishes p) h = record {
    bounded = h.bounded;
    in_order = h.in_order;
    emptied = h.emptied;
    counted = h.counted;
  }
  step-Sound s aborts h = record {
    bounded = omega arith;
    in_order = λ e. cc;
    emptied = λ e. refl;
    counted = h.counted;
  }

  -- A fresh buffer.
  abbrev pub fresh : (capacity expected : ℕ) → Logged Row
  fresh capacity expected = record {
    buffer = new_buffer capacity expected;
    accepted = [];
    served = [];
  }

  fresh-Sound : (capacity expected : ℕ) → Sound (fresh capacity expected)
  unfolding new_buffer
  fresh-Sound capacity expected = record {
    bounded = omega arith;
    in_order = λ e. refl;
    emptied = λ e. refl;
    counted = omega arith;
  }

  steps_keep : (os : List (Op Row)) (s : Logged Row) → Sound s → Sound (steps s os)
  unfolding steps
  steps_keep [] s h = h
  steps_keep (o ∷ os) s h = steps_keep os (step s o) (step-Sound s o h)

  -- After any interleaving of pushes, pops, marks and cancels on a fresh buffer: no more rows are
  -- buffered than the capacity; unless it is cancelled, the rows served so far and those still
  -- buffered are the accepted rows, in order, each once; a cancelled buffer is empty; and
  -- `rows_served` is the number of rows served, modulo 2 ^ 64.
  pub steps-Sound :
      (capacity expected : ℕ) (os : List (Op Row)) → Sound (steps (fresh capacity expected) os)
  steps-Sound capacity expected os = steps_keep os _ (fresh-Sound capacity expected)
