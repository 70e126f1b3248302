-- ===== src/Engine/Cancel.antt =====
-- What a cancelled run of `QueryEngine::run` (cpp/src/QueryEngine.cpp) delivers.
use mini2_aaa.Base.{
  ℕ, suc, ◌%◌, ◌≡◌, refl, sym, ap, ◌∙◌, Bool, true, false, ◌==◌, ◌||◌, ◌&&◌, ltb, List, [], ◌∷◌,
  ◌++◌, append-nil, append_assoc, Bool-cases, inl, inr, Option, none, some, if◌then◌else◌,
}
use mini2_aaa.Domain.{Floating, Row311, QuerySpec}
use mini2_aaa.Indices.Build.{Columns, size}
use mini2_aaa.Engine.{
  Emitter, PartitionStore, fits, row_at, push_row, emit_loop, emit_all, run, after_gather, gather,
  work_list,
}
use mini2_aaa.Engine.Emit.{
  rows_of, rows_of-append, delivered, delivered-push_row, round_canceled, round_misfit, round_last,
  round_next, and_quiet,
}

-- A list that starts with another.
abbrev pub StartsWith {ℓ} : {A : Type ℓ} → List A → List A → Type ℓ
StartsWith {A = A} ys xs = (rest : List A) × (ys ≡ xs ++ rest)

module _ {D : Type 0} ⦃f : Floating D⦄ (c : Columns D) (spec : QuerySpec D) (n : ℕ) where
  abbrev goes_on : ℕ → Emitter D → Bool
  goes_on i st = spec.max_rows == 0 || ltb (push_row n (row_at c i) st).produced spec.max_rows

  then_starts :
      (x : List (Row311 D)) (i : ℕ) (st : Emitter D)
      → StartsWith x (delivered (push_row n (row_at c i) st))
      → StartsWith x (delivered st)
  then_starts x i st (rest, e) = (
    row_at c i ∷ rest,
    e
        ∙ (ap (λ t. t ++ rest) (delivered-push_row n (row_at c i) st)
            ∙ append_assoc (delivered st) (row_at c i ∷ []) rest),
  )

  -- The loop only adds to what is delivered.
  emit_loop-grows :
      (canceled : ℕ → Bool) (is : List ℕ) (k : ℕ) (st : Emitter D)
      → StartsWith (delivered (emit_loop canceled c spec n is k st)) (delivered st)
  unfolding emit_loop
  emit_loop-grows canceled [] k st = ([], sym (append-nil (delivered st)))
  emit_loop-grows canceled (i ∷ is) k st = elim (Bool-cases (k % 1024 == 0 && canceled k)) [
    | inl stop ↦
        rw (round_canceled canceled c spec n i is k st stop) ([], sym (append-nil (delivered st)))
    | inr go ↦ elim (Bool-cases (fits c spec i)) [
      | inr no_fit ↦
          rw (round_misfit canceled c spec n i is k st go no_fit)
            ([], sym (append-nil (delivered st)))
      | inl fit ↦ elim (Bool-cases (goes_on i st)) [
        | inr last ↦
            rw (round_last canceled c spec n i is k st go fit last)
              (then_starts _ i st ([], sym (append-nil _)))
        | inl on ↦
            rw (round_next canceled c spec n i is k st go fit on) (
              then_starts _ i st (emit_loop-grows canceled is (suc k) (push_row n (row_at c i) st)))
      ]
    ]
  ]

  emit_loop-StartsWith :
      (canceled : ℕ → Bool) (is : List ℕ) (k : ℕ) (st : Emitter D)
      → StartsWith
          (delivered (emit_loop (λ j. false) c spec n is k st))
          (delivered (emit_loop canceled c spec n is k st))
  unfolding emit_loop
  emit_loop-StartsWith canceled [] k st = ([], sym (append-nil (delivered st)))
  emit_loop-StartsWith canceled (i ∷ is) k st = elim (Bool-cases (k % 1024 == 0 && canceled k)) [
    | inl stop ↦
        rw (round_canceled canceled c spec n i is k st stop)
          (emit_loop-grows (λ j. false) (i ∷ is) k st)
    | inr go ↦
        let quiet = and_quiet (k % 1024 == 0) false refl in
        elim (Bool-cases (fits c spec i)) [
          | inr no_fit ↦
              rw
                (
                  round_misfit canceled c spec n i is k st go no_fit,
                  round_misfit (λ j. false) c spec n i is k st quiet no_fit,
                )
                ([], sym (append-nil (delivered st)))
          | inl fit ↦ elim (Bool-cases (goes_on i st)) [
            | inr last ↦
                rw
                  (
                    round_last canceled c spec n i is k st go fit last,
                    round_last (λ j. false) c spec n i is k st quiet fit last,
                  )
                  ([], sym (append-nil _))
            | inl on ↦
                rw
                  (
                    round_next canceled c spec n i is k st go fit on,
                    round_next (λ j. false) c spec n i is k st quiet fit on,
                  )
                  (emit_loop-StartsWith canceled is (suc k) (push_row n (row_at c i) st))
          ]
        ]
  ]

  delivered-emit_all :
      (canceled : ℕ → Bool) (work : List ℕ)
      → rows_of (emit_all canceled c spec n work)
        ≡ delivered
            (emit_loop canceled c spec n work 0 (record { chunk = []; produced = 0; sunk = [] }))
  unfolding emit_all delivered
  delivered-emit_all canceled work =
      let st =
        emit_loop canceled c spec n work 0 (record { chunk = []; produced = 0; sunk = [] }) in
      rows_of-append st.sunk (record { rows = st.chunk; done = true } ∷ [])
      ∙ rw (append-nil st.chunk) refl

  after_gather-StartsWith :
      (canceled : ℕ → Bool) (r : Option (List (List ℕ)))
      → StartsWith
          (rows_of (after_gather c spec n (λ j. false) r))
          (rows_of (after_gather c spec n canceled r))
  unfolding after_gather
  after_gather-StartsWith canceled none = ([], refl)
  after_gather-StartsWith canceled (some cands) =
      rw
        (
          delivered-emit_all (λ j. false) (work_list (size c) cands),
          delivered-emit_all canceled (work_list (size c) cands),
        )
        (emit_loop-StartsWith canceled (work_list (size c) cands) 0
          (record { chunk = []; produced = 0; sunk = [] }))

-- Whenever it is cancelled, a run delivers an initial part of what it delivers uncancelled.
pub run-StartsWith :
    {D : Type 0} ⦃f : Floating D⦄ (store : PartitionStore D) (spec : QuerySpec D) (chunk_rows : ℕ)
    (canceled : ℕ → Bool)
    → StartsWith
        (rows_of (run store spec chunk_rows (λ j. false)))
        (rows_of (run store spec chunk_rows canceled))
unfolding run
run-StartsWith store spec chunk_rows canceled =
    after_gather-StartsWith store.columns spec (if chunk_rows == 0 then 512 else chunk_rows)
      canceled (gather store.indices spec)
