-- ===== src/Engine.antt =====
-- The query engine: cpp/src/QueryEngine.cpp over a store (cpp/include/PartitionStore.hpp).
-- `sink` is the list of the calls made of it, in order. `is_canceled` is asked at the rows whose
-- position in the work list is a multiple of 1024, and is a function of that position. Candidate
-- sets of equal size keep their order in the sort by size.
pub mod Plan
pub mod Emit
pub mod Gather
pub mod Answer
pub mod Complete
pub mod Cancel
use mini2_aaa.Base.{
  Eq, string_eq, same, ℕ, zero, suc, ◌+◌, ◌%◌, ◌^◌, ◌≤◌, ◌<◌, ◌≡◌, refl, Bool, true, false, not,
  if◌then◌else◌, ◌&&◌, ◌||◌, List, [], ◌∷◌, ◌++◌, Option, none, some, compare, Ordering, length,
  get_or, leb, ltb, ◌==◌, map,
}
use mini2_aaa.Domain.{Floating, Row311, QuerySpec}
use mini2_aaa.Indices.Buckets.{rows_or_empty}
use mini2_aaa.Indices.Dates.{date_range}
use mini2_aaa.Indices.Grid.{geo_box}
use mini2_aaa.Indices.Build.{
  Columns, Indices, size, borough_at, complaint_at, date_at, lat_at, lon_at, borough_rows,
  complaint_rows,
}

-- `PartitionStore`: the columns, and the indices that `load` builds of them.
pub record PartitionStore (D : Type 0) : Type 0 where
  pub columns : Columns D
  pub indices : Indices

-- One call `sink(rows, done)`.
pub record Chunk (D : Type 0) : Type 0 where
  pub rows : List (Row311 D)
  pub done : Bool

-- The state of the emit loop: the current chunk, `produced`, and the calls of `sink` so far.
pub record Emitter (D : Type 0) : Type 0 where
  pub chunk : List (Row311 D)
  pub produced : ℕ
  pub sunk : List (Chunk D)

-- `std::set_intersection` of two ascending vectors, as `intersectInto` calls it.
intersect : List ℕ → List ℕ → List ℕ
intersect [] b = []
intersect (x ∷ a) [] = []
intersect (x ∷ a) (y ∷ b) = elim (compare x y) [
  | Ordering.lt ↦ intersect a (y ∷ b)
  | Ordering.gt ↦ intersect (x ∷ a) b
  | Ordering.eq ↦ x ∷ intersect a b
]

-- `std::sort(cands)` by size.
insert_by_size : List ℕ → List (List ℕ) → List (List ℕ)
insert_by_size c [] = c ∷ []
insert_by_size c (d ∷ ds) =
    if leb (length c) (length d) then c ∷ d ∷ ds else d ∷ insert_by_size c ds

sort_by_size : List (List ℕ) → List (List ℕ)
unfolding insert_by_size
sort_by_size [] = []
sort_by_size (c ∷ cs) = insert_by_size c (sort_by_size cs)

-- The loop that intersects the working set with one candidate after the other.
narrow : List ℕ → List (List ℕ) → List ℕ
unfolding intersect
narrow work [] = work
narrow [] (c ∷ cs) = []
narrow (i ∷ work) (c ∷ cs) = narrow (intersect (i ∷ work) c) cs

-- The seed is the smallest candidate.
seed_and_narrow : List (List ℕ) → List ℕ
unfolding narrow
seed_and_narrow [] = []
seed_and_narrow (c ∷ cs) = narrow c cs

-- A candidate of one predicate: none if it is empty, when the query is over.
pub candidate : List ℕ → Option (List (List ℕ))
candidate [] = none
candidate (i ∷ is) = some ((i ∷ is) ∷ [])

infixl 5 ◌>>=◌
abbrev ◌>>=◌ : {A B : Type 0} → Option A → (A → Option B) → Option B
none >>= f = none
some a >>= f = f a

-- The rows `i`, …, `i + n - 1` of the linear scan.
rows_from : (n i : ℕ) → List ℕ
rows_from zero i = []
rows_from (suc n) i = i ∷ rows_from n (suc i)

-- The rows that the emit loop goes through: all of them if no predicate has an index.
pub work_list : (n : ℕ) → List (List ℕ) → List ℕ
unfolding sort_by_size seed_and_narrow rows_from
work_list n [] = rows_from n 0
work_list n (c ∷ cs) = seed_and_narrow (sort_by_size (c ∷ cs))

module _ {D : Type 0} where
  -- `chunk.emplace_back(r)`, and the hand-over of a full chunk.
  pub push_row : ℕ → Row311 D → Emitter D → Emitter D
  push_row chunk_rows r st =
      let chunk = st.chunk ++ (r ∷ []) in
      let produced = (st.produced + 1) % 2 ^ 32 in
      if leb chunk_rows (length chunk)
      then record {
        chunk = [];
        produced = produced;
        sunk = st.sunk ++ (record { rows = chunk; done = false } ∷ []);
      }
      else record { chunk = chunk; produced = produced; sunk = st.sunk }

module _ {D : Type 0} ⦃f : Floating D⦄ where
  -- Step 1 of `run`: one candidate for each predicate that the query carries.
  pub gather : Indices → QuerySpec D → Option (List (List ℕ))
  unfolding candidate
  gather ix spec = do
    a ←
        if spec.borough == 0
        then some []
        else candidate (rows_or_empty (borough_rows ix (spec.borough % 2 ^ 8)))
    b ←
        if same spec.complaint_type ""
        then some []
        else candidate (rows_or_empty (complaint_rows ix spec.complaint_type))
    c ←
        if spec.date_from == 0 && spec.date_to == 0
        then some []
        else candidate (date_range ix.by_date spec.date_from spec.date_to)
    d ←
        if spec.use_geo_box
        then candidate (geo_box ix.by_cell spec.min_lat spec.max_lat spec.min_lon spec.max_lon)
        else some []
    some (a ++ (b ++ (c ++ d)))

  -- The exact test of the box: the negation of the test in `emit_one`.
  abbrev pub in_box : QuerySpec D → D → D → Bool
  in_box spec la lo =
      not (
        f.lt la spec.min_lat
        || f.lt spec.max_lat la
        || f.lt lo spec.min_lon
        || f.lt spec.max_lon lo)

  -- Whether `emit_one` keeps row `i`.
  abbrev pub fits : Columns D → QuerySpec D → ℕ → Bool
  fits c spec i = if spec.use_geo_box then in_box spec (lat_at c i) (lon_at c i) else true

  -- The message that `emit_one` makes of row `i`.
  abbrev pub row_at : Columns D → ℕ → Row311 D
  row_at c i = record {
    unique_key = get_or c.unique_keys i 0;
    created_ymd = date_at c i;
    borough = borough_at c i;
    latitude = lat_at c i;
    longitude = lon_at c i;
    complaint_type = complaint_at c i;
  }

  -- `emit_one`: the new state, and whether to go on.
  emit_one : Columns D → QuerySpec D → ℕ → ℕ → Emitter D → Emitter D × Bool
  unfolding push_row
  emit_one c spec chunk_rows i st =
      if fits c spec i
      then (let st' = push_row chunk_rows (row_at c i) st in
          (st', spec.max_rows == 0 || ltb st'.produced spec.max_rows))
      else (st, false)

  module _ (canceled : ℕ → Bool) (c : Columns D) (spec : QuerySpec D) (chunk_rows : ℕ) where
    -- The emit loop over the work list from position `k` on.
    pub emit_loop : List ℕ → (k : ℕ) → Emitter D → Emitter D
    emit_loop [] k st = st
    emit_loop (i ∷ is) k st = elim (k % 1024 == 0 && canceled k) [
      | true ↦ st
      | false ↦
          let (st', go_on) = emit_one c spec chunk_rows i st in
          elim go_on [ true ↦ emit_loop is (suc k) st' | false ↦ st' ]
    ]

  -- The loop from the initial state, and the last call of `sink`.
  pub emit_all : (ℕ → Bool) → Columns D → QuerySpec D → ℕ → List ℕ → List (Chunk D)
  unfolding emit_loop emit_one
  emit_all canceled c spec chunk_rows work =
      let st =
        emit_loop canceled c spec chunk_rows work 0
          (record { chunk = []; produced = 0; sunk = [] }) in
      st.sunk ++ (record { rows = st.chunk; done = true } ∷ [])

  -- What `run` does with the gathered candidates; `none` is the early return.
  pub after_gather :
      Columns D
      → QuerySpec D
      → (chunk_rows : ℕ) → (ℕ → Bool)
      → Option (List (List ℕ))
      → List (Chunk D)
  unfolding work_list emit_all
  after_gather c spec chunk_rows canceled none = record { rows = []; done = true } ∷ []
  after_gather c spec chunk_rows canceled (some cands) =
      emit_all canceled c spec chunk_rows (work_list (size c) cands)

  -- `QueryEngine::run`: the calls of `sink`.
  unfoldable pub run : PartitionStore D → QuerySpec D → ℕ → (ℕ → Bool) → List (Chunk D)
  unfolding gather after_gather
  run store spec chunk_rows canceled =
      after_gather store.columns spec (if chunk_rows == 0 then 512 else chunk_rows) canceled
        (gather store.indices spec)
