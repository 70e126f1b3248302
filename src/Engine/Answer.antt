-- ===== src/Engine/Answer.antt =====
-- What `QueryEngine::run` (cpp/src/QueryEngine.cpp) delivers, against a scan of all rows.
use mini2_aaa.Base.{
  string_eq, same, ℕ, ◌%◌, ◌^◌, ◌<◌, ◌≡◌, refl, sym, ap, ◌∙◌, Bool, true, false, not, if◌then◌else◌,
  ◌&&◌, List, [], ◌∷◌, ◌++◌, Option, none, some, ltb, ◌==◌, map, take_while, arith, append-nil,
}
use mini2_aaa.Base.Select.{select}
use mini2_aaa.Domain.{Floating, QuerySpec}
use mini2_aaa.Indices.Dates.{in_dates}
use mini2_aaa.Indices.Grid.{grid_hit}
use mini2_aaa.Indices.Grid.Box.{BoxInGrid}
use mini2_aaa.Indices.Build.{
  Columns, size, borough_at, complaint_at, date_at, lat_at, lon_at, build, RowsInGrid,
  borough_rows-build, complaint_rows-build, date_range-build, geo_box-build,
}
use mini2_aaa.Engine.{
  PartitionStore, candidate, gather, work_list, fits, row_at, run, ◌>>=◌, after_gather,
}
use mini2_aaa.Engine.Plan.{IsRowSet-eq_select}
use mini2_aaa.Engine.Emit.{
  rows_of, room, rows_of-emit_all, WellChunked, emit_all-WellChunked, room-nil,
}
use mini2_aaa.Engine.Gather.{
  Part, all_pass, gather_part, gather_list, Gathered, over, sets, gathered, work_list-select,
}

take_while_all : (p : ℕ → Bool) (is : List ℕ) → ((i : ℕ) → p i ≡ true) → take_while p is ≡ is
take_while_all p [] h = refl
take_while_all p (i ∷ is) h = rw (h i) (ap (◌∷◌ i) (take_while_all p is h))

select_none : (n : ℕ) (q : ℕ → Bool) → ((j : ℕ) → (ltb j n && q j) ≡ false) → [] ≡ select q n 0
select_none n q h =
    IsRowSet-eq_select n q [] (record { sorted = tt; once = λ j. omega arith }) (λ j. sym (h j))

abbrev Sets : Type 0
Sets = Option (List (List ℕ))

-- Four steps in the nesting of `gather`, and in that of `gather_list`.
abbrev chain : Sets → Sets → Sets → Sets → Sets
chain x y z w = do a ← x; b ← y; c ← z; d ← w; some (a ++ (b ++ (c ++ d)))

abbrev then_rest : Sets → Sets → Sets
then_rest x y = do a ← x; rest ← y; some (a ++ rest)

chain-then_rest :
    (x y z w : Sets)
    → chain x y z w ≡ then_rest x (then_rest y (then_rest z (then_rest w (some []))))
chain-then_rest none y z w = refl
chain-then_rest (some a) none z w = refl
chain-then_rest (some a) (some b) none w = refl
chain-then_rest (some a) (some b) (some c) none = refl
chain-then_rest (some a) (some b) (some c) (some d) = rw (append-nil d)

flip_part :
    (b : Bool) (v w : List ℕ)
    → (b ≡ true → v ≡ w)
    → (if b then candidate v else some []) ≡ (if not b then some [] else candidate w)
flip_part true v w e = ap candidate (e refl)
flip_part false v w e = refl

module _ {D : Type 0} ⦃f : Floating D⦄ where
  -- The predicates of a query, as the indices read them.
  abbrev pub parts : Columns D → QuerySpec D → List Part
  parts c spec =
      (spec.borough == 0, λ i. borough_at c i == spec.borough % 2 ^ 8)
      ∷ (same spec.complaint_type "", λ i. same (complaint_at c i) spec.complaint_type)
      ∷ (
        spec.date_from == 0 && spec.date_to == 0,
        λ i. in_dates spec.date_from spec.date_to (date_at c i),
      )
      ∷ (
        not spec.use_geo_box,
        λ i. grid_hit spec.min_lat spec.max_lat spec.min_lon spec.max_lon (lat_at c i) (lon_at c i),
      )
      ∷ []

  -- Whether row `i` passes every predicate that the query carries, the box up to whole cells.
  abbrev pub matches : Columns D → QuerySpec D → ℕ → Bool
  matches c spec = all_pass (parts c spec)

  -- The cell indices that a box query takes neither overflow nor wrap.
  abbrev pub GeoInRange : Columns D → QuerySpec D → Type 0
  GeoInRange c spec =
      spec.use_geo_box ≡ true
      → RowsInGrid c × BoxInGrid spec.min_lat spec.max_lat spec.min_lon spec.max_lon

  gather-gather_list :
      (c : Columns D) (spec : QuerySpec D)
      → GeoInRange c spec
      → gather (build c) spec ≡ gather_list (size c) (parts c spec)
  unfolding gather gather_list gather_part
  gather-gather_list c spec geo =
      rw
        (
          borough_rows-build c (spec.borough % 2 ^ 8),
          complaint_rows-build c spec.complaint_type,
          date_range-build c spec.date_from spec.date_to,
          flip_part spec.use_geo_box _ _ (λ used.
              geo_box-build c spec.min_lat spec.max_lat spec.min_lon spec.max_lon (geo used).0
                (geo used).1),
        )
        (chain-then_rest _ _ _ _)

  -- The store that `load` leaves: columns with the indices built of them.
  abbrev pub loaded : Columns D → PartitionStore D
  loaded c = record { columns = c; indices = build c }

  module _ (c : Columns D) (spec : QuerySpec D) (chunk_rows : ℕ) (canceled : ℕ → Bool) where
    abbrev chunk_size : ℕ
    chunk_size = if chunk_rows == 0 then 512 else chunk_rows

    answer_of :
        {r : Sets}
        → Gathered (size c) (parts c spec) r
        → gather (build c) spec ≡ r
        → ((i : ℕ) → canceled i ≡ false)
        → spec.max_rows < 2 ^ 32
        → rows_of (run (loaded c) spec chunk_rows canceled)
          ≡ map
              (row_at c)
              (room spec.max_rows 0 (take_while (fits c spec) (select (matches c spec) (size c) 0)))
    unfolding run after_gather
    answer_of (over e none_pass) g quiet small =
        ap (λ t. rows_of (after_gather c spec chunk_size canceled t)) (g ∙ e)
        ∙ sym (
            rw (sym (select_none (size c) (matches c spec) none_pass))
              (ap (map (row_at c)) (room-nil spec.max_rows 0)))
    answer_of (sets cs e rs ws h) g quiet small =
        ap (λ t. rows_of (after_gather c spec chunk_size canceled t)) (g ∙ e)
        ∙ (rows_of-emit_all c spec chunk_size canceled (work_list (size c) cs) quiet small
            ∙ rw (work_list-select (size c) (matches c spec) cs rs ws h))

    -- A run that is not cancelled delivers, in row order, the rows of the longest prefix of the
    -- matching rows that lie in the box, cut off at `max_rows` (0 is no bound).
    pub rows_of-run :
        GeoInRange c spec
        → ((i : ℕ) → canceled i ≡ false)
        → spec.max_rows < 2 ^ 32
        → rows_of (run (loaded c) spec chunk_rows canceled)
          ≡ map
              (row_at c)
              (room spec.max_rows 0 (take_while (fits c spec) (select (matches c spec) (size c) 0)))
    rows_of-run geo quiet small =
        answer_of (gathered (size c) (parts c spec)) (gather-gather_list c spec geo) quiet small

    -- A query without a box gets exactly the matching rows, in row order, up to `max_rows`:
    -- the indexed plan answers as a scan of all rows does.
    pub rows_of-run_scan :
        spec.use_geo_box ≡ false
        → ((i : ℕ) → canceled i ≡ false)
        → spec.max_rows < 2 ^ 32
        → rows_of (run (loaded c) spec chunk_rows canceled)
          ≡ map (row_at c) (room spec.max_rows 0 (select (matches c spec) (size c) 0))
    rows_of-run_scan plain quiet small =
        rows_of-run (λ used. cc) quiet small
        ∙ ap (λ is. map (row_at c) (room spec.max_rows 0 is))
            (take_while_all (fits c spec) _ (λ i. rw plain))

    -- A box query stops at the first matching row that its cell lets through and the exact box
    -- does not: if that is the first matching row, nothing at all is delivered.
    pub rows_of-run_misfit :
        (i : ℕ) (rest : List ℕ)
        → GeoInRange c spec
        → ((k : ℕ) → canceled k ≡ false)
        → spec.max_rows < 2 ^ 32
        → select (matches c spec) (size c) 0 ≡ i ∷ rest
        → fits c spec i ≡ false
        → rows_of (run (loaded c) spec chunk_rows canceled) ≡ []
    rows_of-run_misfit i rest geo quiet small first out =
        rows_of-run geo quiet small
        ∙ rw first (rw out (ap (map (row_at c)) (room-nil spec.max_rows 0)))

  after_gather-WellChunked :
      (c : Columns D) (spec : QuerySpec D) (n : ℕ) (canceled : ℕ → Bool) (r : Sets)
      → 0 < n
      → WellChunked n (after_gather c spec n canceled r)
  unfolding after_gather
  after_gather-WellChunked c spec n canceled none pos = record {
    before = [];
    last = record { rows = []; done = true };
    split = refl;
    full = tt;
    finished = refl;
    partial = pos;
  }
  after_gather-WellChunked c spec n canceled (some cs) pos =
      emit_all-WellChunked c spec n canceled (work_list (size c) cs) pos

  -- Cancelled or not, `sink` gets full chunks and at the end one chunk that is not full, with
  -- `done`; a chunk size of 0 stands for 512.
  pub run-WellChunked :
      (store : PartitionStore D) (spec : QuerySpec D) (chunk_rows : ℕ) (canceled : ℕ → Bool)
      → WellChunked
          (if chunk_rows == 0 then 512 else chunk_rows)
          (run store spec chunk_rows canceled)
  unfolding run
  run-WellChunked store spec chunk_rows canceled =
      after_gather-WellChunked store.columns spec (if chunk_rows == 0 then 512 else chunk_rows)
        canceled (gather store.indices spec) (ground arith)
