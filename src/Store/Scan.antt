-- ===== src/Store/Scan.antt =====
-- `PartitionStore::scan` of cpp/include/PartitionStore.hpp: the loop over a range of the rows, a template
-- that no code of the repository calls. `emit` is what the callback does to the state of the caller.
use mini2_aaa.Base.{
  ℕ, zero, suc, ◌+◌, ◌-◌, ◌^◌, ◌≤◌, ◌<◌, ◌≡◌, refl, sym, ap, ◌∙◌, Bool, false, if◌then◌else◌, List,
  [], ◌∷◌, ◌++◌, ltb, map, min, Bool-cases, inl, inr, append-nil, append_assoc, arith,
}
use mini2_aaa.Base.Select.{select}
use mini2_aaa.Domain.{Floating, QuerySpec}
use mini2_aaa.Indices.Build.{Columns, size}
use mini2_aaa.Engine.{run, row_at}
use mini2_aaa.Engine.Emit.{rows_of, room}
use mini2_aaa.Engine.Answer.{loaded, matches, rows_of-run_scan}

module _ {ℓ} {S : Type ℓ} (pred : ℕ → Bool) (emit : ℕ → S → S) where
  -- The rounds of the loop from row `i` on.
  unfoldable pub scan_rounds : (rounds i : ℕ) → S → S
  scan_rounds zero i s = s
  scan_rounds (suc k) i s = scan_rounds k (suc i) (if pred i then emit i s else s)

  -- `scan(begin, end, pred, emit)`, for a partition of `n` rows.
  unfoldable pub scan : (n begin end : ℕ) → S → S
  unfolding scan_rounds
  scan n begin end s =
      let first = if ltb n begin then n else begin in
      let past = if ltb n end then n else end in scan_rounds (past - first) first s

  scan_rounds-twice :
      (j k i rounds mid : ℕ) (s : S)
      → rounds ≡ j + k
      → mid ≡ j + i
      → scan_rounds k mid (scan_rounds j i s) ≡ scan_rounds rounds i s
  unfolding scan_rounds
  scan_rounds-twice zero k i rounds mid s r m =
      let same_rounds : rounds ≡ k = omega arith in
      let same_start : mid ≡ i = omega arith in rw (same_rounds, same_start) refl
  scan_rounds-twice (suc j) k i rounds mid s r m =
      let more : rounds ≡ suc (j + k) = omega arith in
      rw more (
        scan_rounds-twice j k (suc i) (j + k) mid (if pred i then emit i s else s) refl
          (omega arith))

  clipped : (n x : ℕ) → (if ltb n x then n else x) ≡ min n x
  clipped n x = ground arith

  scan_lem :
      (n begin end : ℕ) (s : S)
      → scan n begin end s ≡ scan_rounds (min n end - min n begin) (min n begin) s
  unfolding scan
  scan_lem n begin end s = rw (clipped n end, clipped n begin) refl

  -- Two scans of `[a, m)` and `[m, e)`, one after the other, do what one of `[a, e)` does.
  pub scan-split : (n a m e : ℕ) (s : S) → a ≤ m → m ≤ e → scan n m e (scan n a m s) ≡ scan n a e s
  scan-split n a m e s h k =
      scan_lem n m e (scan n a m s)
      ∙ (ap (scan_rounds (min n e - min n m) (min n m)) (scan_lem n a m s)
          ∙ (scan_rounds-twice (min n m - min n a) (min n e - min n m) (min n a) (min n e - min n a)
                (min n m) s (ground arith) (ground arith)
              ∙ sym (scan_lem n a e s)))

abbrev pub collect : ℕ → List ℕ → List ℕ
collect i is = is ++ (i ∷ [])

scan_rounds-select :
    (p : ℕ → Bool) (k i : ℕ) (is : List ℕ) → scan_rounds p collect k i is ≡ is ++ select p k i
unfolding scan_rounds select
scan_rounds-select p zero i is = sym (append-nil is)
scan_rounds-select p (suc k) i is = elim (Bool-cases (p i)) [
  | inl hit ↦ rw hit (
      scan_rounds-select p k (suc i) (is ++ (i ∷ []))
      ∙ append_assoc is (i ∷ []) (select p k (suc i)))
  | inr miss ↦ rw miss (scan_rounds-select p k (suc i) is)
]

-- A scan to the end of the rows emits those that pass, in row order.
scan-select : (p : ℕ → Bool) (n e : ℕ) → n ≤ e → scan p collect n 0 e [] ≡ select p n 0
scan-select p n e all =
    let upto : min n e ≡ n = ground arith in
    let from : min n 0 ≡ 0 = ground arith in
    let rounds : n - 0 ≡ n = omega arith in
    scan_lem p collect n 0 e [] ∙ rw (upto, from, rounds) (scan_rounds-select p n 0 [])

-- An uncancelled run of a query without a box delivers exactly the rows that two scans emit, one after
-- the other, cut off at `max_rows` (0 is no bound): those of `scan(0, m)`, then those of `scan(m, e)`, for
-- an `e` that is below neither `m` nor the number of rows.
pub rows_of-run-scan :
    {D : Type 0} ⦃f : Floating D⦄ (c : Columns D) (spec : QuerySpec D) (chunk_rows : ℕ)
    (canceled : ℕ → Bool) (m e : ℕ)
    → spec.use_geo_box ≡ false
    → ((i : ℕ) → canceled i ≡ false)
    → spec.max_rows < 2 ^ 32
    → m ≤ e
    → size c ≤ e
    → rows_of (run (loaded c) spec chunk_rows canceled)
      ≡ map (row_at c) (
          room spec.max_rows 0 (
            scan
              (matches c spec)
              collect
              (size c)
              m
              e
              (scan (matches c spec) collect (size c) 0 m [])))
rows_of-run-scan c spec chunk_rows canceled m e plain quiet small within all =
    rows_of-run_scan c spec chunk_rows canceled plain quiet small
    ∙ ap (λ is. map (row_at c) (room spec.max_rows 0 is))
        (sym (
          scan-split (matches c spec) collect (size c) 0 m e [] (omega arith) within
          ∙ scan-select (matches c spec) (size c) e all))
