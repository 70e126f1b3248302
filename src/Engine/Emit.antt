-- ===== src/Engine/Emit.antt =====
-- The emit loop of `QueryEngine::run` (cpp/src/QueryEngine.cpp): which rows reach `sink`, and in
-- what chunks.
use mini2_aaa.Base.{
  ℕ, zero, suc, ◌+◌, ◌-◌, ◌%◌, ◌^◌, ◌<◌, ◌≡◌, refl, sym, ap, ◌∙◌, ◌⊎◌, inl, inr, Bool, true, false,
  ◌&&◌, ◌||◌, if◌then◌else◌, List, [], ◌∷◌, ◌++◌, map, length, length-append, take, take_while, ltb,
  leb, ◌==◌, arith, Bool-cases, leb→le, append_assoc, append-nil,
}
use mini2_aaa.Domain.{Floating, Row311, QuerySpec}
use mini2_aaa.Indices.Build.{Columns}
use mini2_aaa.Engine.{Chunk, Emitter, fits, row_at, push_row, emit_one, emit_loop, emit_all}

-- The rows of a sequence of calls of `sink`, in order.
abbrev pub rows_of : {D : Type 0} → List (Chunk D) → List (Row311 D)
rows_of [] = []
rows_of (c ∷ cs) = c.rows ++ rows_of cs

-- What `max_rows` leaves of a list when `produced` rows are out; 0 is no bound.
abbrev pub room {ℓ} : {A : Type ℓ} → (cap produced : ℕ) → List A → List A
room cap produced xs = if cap == 0 then xs else take (cap - produced) xs

module _ {D : Type 0} where
  pub rows_of-append : (cs ds : List (Chunk D)) → rows_of (cs ++ ds) ≡ rows_of cs ++ rows_of ds
  rows_of-append [] ds = refl
  rows_of-append (c ∷ cs) ds =
      rw (rows_of-append cs ds) (sym (append_assoc c.rows (rows_of cs) (rows_of ds)))

  unfoldable pub delivered : Emitter D → List (Row311 D)
  delivered st = rows_of st.sunk ++ st.chunk

  -- Chunks before the last are full and not `done`.
  abbrev pub Full : ℕ → List (Chunk D) → Type 0
  Full n [] = Unit
  Full n (c ∷ cs) = (length c.rows ≡ n) × (c.done ≡ false) × Full n cs

  Full-append :
      (n : ℕ) (cs : List (Chunk D)) (c : Chunk D)
      → Full n cs
      → length c.rows ≡ n
      → c.done ≡ false
      → Full n (cs ++ (c ∷ []))
  Full-append n [] c h l d = (l, d, tt)
  Full-append n (b ∷ cs) c h l d = (h.0, h.1, Full-append n cs c h.2 l d)

  pub delivered-push_row :
      (n : ℕ) (r : Row311 D) (st : Emitter D)
      → delivered (push_row n r st) ≡ delivered st ++ (r ∷ [])
  unfolding push_row delivered
  delivered-push_row n r st = elim (Bool-cases (leb n (length (st.chunk ++ (r ∷ []))))) [
    | inl full ↦ rw full (simp (rows_of-append, append-nil, append_assoc, delivered))
    | inr open_ ↦ rw open_ (sym (append_assoc (rows_of st.sunk) st.chunk (r ∷ [])))
  ]

  produced-push_row :
      (n : ℕ) (r : Row311 D) (st : Emitter D)
      → (push_row n r st).produced ≡ (st.produced + 1) % 2 ^ 32
  unfolding push_row
  produced-push_row n r st = ground arith

  record Chunked (n : ℕ) (st : Emitter D) : Type 0 where
    open_chunk : length st.chunk < n
    full : Full n st.sunk

  push_row-Chunked :
      (n : ℕ) (r : Row311 D) (st : Emitter D) → Chunked n st → 0 < n → Chunked n (push_row n r st)
  unfolding push_row
  push_row-Chunked n r st h pos = elim (Bool-cases (leb n (length (st.chunk ++ (r ∷ []))))) [
    | inl full ↦ rw full (record {
      open_chunk = pos;
      full =
          Full-append n st.sunk _ h.full
            (omega (arith, length-append st.chunk (r ∷ []), leb→le _ _ full, h.open_chunk)) refl;
    })
    | inr room_left ↦ rw room_left (record { open_chunk = ground arith; full = h.full })
  ]

-- How a round of the loop ends.
module _ {D : Type 0} ⦃f : Floating D⦄ (canceled : ℕ → Bool) (c : Columns D)
    (spec : QuerySpec D) where
  module _ (n i : ℕ) (is : List ℕ) (k : ℕ) (st : Emitter D) where
    abbrev polled : Bool
    polled = k % 1024 == 0 && canceled k

    abbrev pushed : Emitter D
    pushed = push_row n (row_at c i) st

    abbrev goes_on : Bool
    goes_on = spec.max_rows == 0 || ltb pushed.produced spec.max_rows

    emit_one_fit : fits c spec i ≡ true → emit_one c spec n i st ≡ (pushed, goes_on)
    unfolding emit_one
    emit_one_fit g = rw (g, emit_one)

    emit_one_misfit : fits c spec i ≡ false → emit_one c spec n i st ≡ (st, false)
    unfolding emit_one
    emit_one_misfit g = rw (g, emit_one)

    pub round_canceled : polled ≡ true → emit_loop canceled c spec n (i ∷ is) k st ≡ st
    unfolding emit_loop
    round_canceled h = rw (h, emit_loop)

    pub round_misfit :
        polled ≡ false → fits c spec i ≡ false → emit_loop canceled c spec n (i ∷ is) k st ≡ st
    unfolding emit_loop
    round_misfit h g =
        rw (h, emit_loop) (rw (emit_one_misfit g) (ap (λ t. t.0) (emit_one_misfit g)))

    pub round_last :
        polled ≡ false
        → fits c spec i ≡ true
        → goes_on ≡ false
        → emit_loop canceled c spec n (i ∷ is) k st ≡ pushed
    unfolding emit_loop
    round_last h g e =
        rw (h, emit_loop) (rw (emit_one_fit g) (rw e (ap (λ t. t.0) (emit_one_fit g))))

    pub round_next :
        polled ≡ false
        → fits c spec i ≡ true
        → goes_on ≡ true
        → emit_loop canceled c spec n (i ∷ is) k st ≡ emit_loop canceled c spec n is (suc k) pushed
    unfolding emit_loop
    round_next h g e =
        rw (h, emit_loop)
          (rw (emit_one_fit g)
            (rw e (ap (λ t. emit_loop canceled c spec n is (suc k) t.0) (emit_one_fit g))))

pub and_quiet : (a b : Bool) → b ≡ false → (a && b) ≡ false
and_quiet true b h = h
and_quiet false b h = refl

abbrev Below : ℕ → ℕ → Type 0
Below cap produced = (cap ≡ 0) ⊎ (produced < cap)

Below-start : (m : ℕ) → Below m 0
Below-start zero = inl refl
Below-start (suc m) = inr (omega arith)

Below-next :
    (cap p p' : ℕ)
    → cap < 2 ^ 32
    → p' ≡ (p + 1) % 2 ^ 32
    → (cap == 0 || ltb p' cap) ≡ true
    → Below cap p'
Below-next cap p p' small e h = ground arith

module _ {ℓ} {A : Type ℓ} where
  take-nil : (n : ℕ) → take {A = A} n [] ≡ []
  take-nil zero = refl
  take-nil (suc n) = refl

  room_next :
      (cap p p' : ℕ) (x : A) (xs : List A)
      → cap < 2 ^ 32
      → Below cap p
      → p' ≡ (p + 1) % 2 ^ 32
      → (cap == 0 || ltb p' cap) ≡ true
      → room cap p (x ∷ xs) ≡ x ∷ room cap p' xs
  room_next cap p p' x xs small (inl none_) e h = rw none_
  room_next cap p p' x xs small (inr lt) e h =
      let bounded : (cap == 0) ≡ false = ground arith in
      let steps : cap - p ≡ suc (cap - p') = ground arith in rw (bounded, steps)

  room_last :
      (cap p p' : ℕ) (x : A) (xs : List A)
      → cap < 2 ^ 32
      → Below cap p
      → p' ≡ (p + 1) % 2 ^ 32
      → (cap == 0 || ltb p' cap) ≡ false
      → room cap p (x ∷ xs) ≡ x ∷ []
  room_last cap p p' x xs small b e h =
      let bounded : (cap == 0) ≡ false = ground arith in
      let steps : cap - p ≡ 1 = ground arith in rw (bounded, steps)

  pub room-nil : (cap p : ℕ) → room {A = A} cap p [] ≡ []
  room-nil zero p = refl
  room-nil (suc m) p =
      let bounded : (suc m == 0) ≡ false = ground arith in rw bounded (take-nil (suc m - p))

module _ {D : Type 0} ⦃f : Floating D⦄ where
  module _ (c : Columns D) (spec : QuerySpec D) (n : ℕ) (canceled : ℕ → Bool) where
    -- Without a cancellation the loop delivers the rows of the longest prefix of the work list
    -- that fits, as far as `max_rows` allows.
    delivered-emit_loop :
        (is : List ℕ) (k : ℕ) (st : Emitter D)
        → ((i : ℕ) → canceled i ≡ false)
        → spec.max_rows < 2 ^ 32
        → Below spec.max_rows st.produced
        → delivered (emit_loop canceled c spec n is k st)
          ≡ delivered st
            ++ map (row_at c) (room spec.max_rows st.produced (take_while (fits c spec) is))
    unfolding emit_loop
    delivered-emit_loop [] k st quiet small left =
        rw (room-nil spec.max_rows st.produced) (sym (append-nil (delivered st)))
    delivered-emit_loop (i ∷ is) k st quiet small left =
        let poll = and_quiet (k % 1024 == 0) (canceled k) (quiet k) in
        let st' = push_row n (row_at c i) st in
        elim (Bool-cases (fits c spec i)) [
          | inr no_fit ↦
              rw
                (
                  round_misfit canceled c spec n i is k st poll no_fit,
                  no_fit,
                  room-nil spec.max_rows st.produced,
                )
                (sym (append-nil (delivered st)))
          | inl fit ↦
              rw fit (elim (Bool-cases (spec.max_rows == 0 || ltb st'.produced spec.max_rows)) [
                | inr stop ↦
                    rw
                      (
                        round_last canceled c spec n i is k st poll fit stop,
                        room_last spec.max_rows st.produced st'.produced i _ small left
                            (produced-push_row n _ st) stop,
                      )
                      (delivered-push_row n (row_at c i) st)
                | inl more ↦
                    rw
                      (
                        round_next canceled c spec n i is k st poll fit more,
                        room_next spec.max_rows st.produced st'.produced i
                            (take_while (fits c spec) is) small left (produced-push_row n _ st)
                            more,
                        delivered-emit_loop is (suc k) st' quiet small (
                            Below-next spec.max_rows st.produced st'.produced small
                              (produced-push_row n _ st) more),
                        delivered-push_row n (row_at c i) st,
                      )
                      (append_assoc (delivered st) (row_at c i ∷ []) _)
              ])
        ]

    -- Cancelled or not, the loop hands over full chunks only and keeps a partial one back.
    emit_loop-Chunked :
        (is : List ℕ) (k : ℕ) (st : Emitter D)
        → 0 < n
        → Chunked n st
        → Chunked n (emit_loop canceled c spec n is k st)
    unfolding emit_loop
    emit_loop-Chunked [] k st pos h = h
    emit_loop-Chunked (i ∷ is) k st pos h =
        let st' = push_row n (row_at c i) st in
        let h' = push_row-Chunked n (row_at c i) st h pos in
        elim (Bool-cases (k % 1024 == 0 && canceled k)) [
          | inl stop ↦ rw (round_canceled canceled c spec n i is k st stop) h
          | inr poll ↦ elim (Bool-cases (fits c spec i)) [
            | inr no_fit ↦ rw (round_misfit canceled c spec n i is k st poll no_fit) h
            | inl fit ↦ elim (Bool-cases (spec.max_rows == 0 || ltb st'.produced spec.max_rows)) [
              | inr stop ↦ rw (round_last canceled c spec n i is k st poll fit stop) h'
              | inl more ↦
                  rw (round_next canceled c spec n i is k st poll fit more)
                    (emit_loop-Chunked is (suc k) st' pos h')
            ]
          ]
        ]

  -- Calls of `sink` as the header of the engine promises them: full chunks that are not done, and
  -- then one call that is done, with a chunk that is not full.
  pub record WellChunked (n : ℕ) (calls : List (Chunk D)) : Type 0 where
    pub before : List (Chunk D)
    pub last : Chunk D
    pub split : calls ≡ before ++ (last ∷ [])
    pub full : Full n before
    pub finished : last.done ≡ true
    pub partial : length last.rows < n

  abbrev start : Emitter D
  start = record { chunk = []; produced = 0; sunk = [] }

  pub emit_all-WellChunked :
      (c : Columns D) (spec : QuerySpec D) (n : ℕ) (canceled : ℕ → Bool) (work : List ℕ)
      → 0 < n
      → WellChunked n (emit_all canceled c spec n work)
  unfolding emit_all
  emit_all-WellChunked c spec n canceled work pos =
      let st = emit_loop canceled c spec n work 0 start in
      let h : Chunked n st =
        emit_loop-Chunked c spec n canceled work 0 start pos
          (record { open_chunk = pos; full = tt }) in
      record {
        before = st.sunk;
        last = record { rows = st.chunk; done = true };
        split = refl;
        full = h.full;
        finished = refl;
        partial = h.open_chunk;
      }

  pub rows_of-emit_all :
      (c : Columns D) (spec : QuerySpec D) (n : ℕ) (canceled : ℕ → Bool) (work : List ℕ)
      → ((i : ℕ) → canceled i ≡ false)
      → spec.max_rows < 2 ^ 32
      → rows_of (emit_all canceled c spec n work)
        ≡ map (row_at c) (room spec.max_rows 0 (take_while (fits c spec) work))
  unfolding emit_all delivered
  rows_of-emit_all c spec n canceled work quiet small =
      let st = emit_loop canceled c spec n work 0 start in
      rows_of-append st.sunk (record { rows = st.chunk; done = true } ∷ [])
      ∙ (rw (append-nil st.chunk) (
          delivered-emit_loop c spec n canceled work 0 start quiet small
            (Below-start spec.max_rows)))
