-- ===== src/Indices/Grid.antt =====
-- The spatial grid index of cpp/src/Indices.cpp. `Floating.grid_floor` is the cell index of a
-- coordinate, an `int32_t`; a cell key packs two of them.
pub mod Scan
pub mod Box
use mini2_aaa.Base.{
  length, ◌/◌, ap, nat_eq, ℕ, zero, suc, ◌+◌, ◌-◌, ◌*◌, ◌%◌, ◌^◌, ◌≤◌, ◌<◌, ◌≡◌, refl, sym, ◌∙◌,
  Bool, true, false, not, if◌then◌else◌, ◌&&◌, ◌||◌, List, [], ◌∷◌, ◌++◌, Option, none, some, find,
  leb, ltb, ◌==◌, arith, indicator, inl, inr, Bool-cases,
}
use mini2_aaa.Base.Counts.{count, IsSorted, sort, count-sort, sort-IsSorted, count-append}
use mini2_aaa.Base.Select.{select, count-select}
use mini2_aaa.Base.Int.{ℤ, pos_part, neg_part, suc_ℤ, suc_ℤ_parts, leb_ℤ, pos, negsuc}
use mini2_aaa.Domain.{Floating}
use mini2_aaa.Indices.Buckets.{fill, has_key, rows_or_empty, fill-select}

-- `static_cast<std::uint32_t>(la + (1 << 30))`.
unfoldable pub bias : ℤ → ℕ
bias z = (2 ^ 32 + 2 ^ 30 + pos_part z - neg_part z) % 2 ^ 32

-- `(hi << 32) | lw`: `lw` is below 2 ^ 32, so `|` adds.
unfoldable pub pack : ℤ → ℤ → ℕ
unfolding bias
pack la lo = bias la * 2 ^ 32 + bias lo

-- The inner loop of `geoBox`: `n` cells of one grid row from `lo` on.
unfoldable pub scan_row : List (ℕ × List ℕ) → ℤ → (n : ℕ) → ℤ → List ℕ
scan_row m la zero lo = []
scan_row m la (suc n) lo = rows_or_empty (find (pack la lo) m) ++ scan_row m la n (suc_ℤ lo)

-- The outer loop: `h` grid rows from `la` on.
unfoldable pub scan_grid : List (ℕ × List ℕ) → (h : ℕ) → ℤ → (w : ℕ) → ℤ → List ℕ
unfolding scan_row
scan_grid m zero la w lo = []
scan_grid m (suc h) la w lo = scan_row m la w lo ++ scan_grid m h (suc_ℤ la) w lo

-- The rounds of `for (i = a; i <= b; ++i)`.
abbrev pub rounds : ℤ → ℤ → ℕ
rounds a b = pos_part b + neg_part a + 1 - (pos_part a + neg_part b)

module _ {D : Type 0} ⦃f : Floating D⦄ where
  -- `Indices::cellKey`.
  unfoldable pub cell_key : D → D → ℕ
  unfolding pack
  cell_key lat lon = pack (f.grid_floor lat) (f.grid_floor lon)

  -- What `geoBox` reserves before its loop, for a partition of `total` rows. `reserve` throws where there
  -- is no memory for so many row ids.
  unfoldable pub reserve_hint :
      (total : ℕ) → List (ℕ × List ℕ) → (min_lat max_lat min_lon max_lon : D) → ℕ
  reserve_hint total by_cell min_lat max_lat min_lon max_lon =
      let avg_per_cell = if length by_cell == 0 then 0 else total / length by_cell + 1 in
      let cells_in_box =
        rounds (f.grid_floor min_lat) (f.grid_floor max_lat)
        * rounds (f.grid_floor min_lon) (f.grid_floor max_lon) in
      (avg_per_cell * cells_in_box) % 2 ^ 64

  -- `Indices::geoBox`, where the memory that it reserves is there.
  unfoldable pub geo_box : List (ℕ × List ℕ) → (min_lat max_lat min_lon max_lon : D) → List ℕ
  unfolding scan_grid
  geo_box [] min_lat max_lat min_lon max_lon = []
  geo_box (b ∷ by_cell) min_lat max_lat min_lon max_lon =
      if f.lt max_lat min_lat || f.lt max_lon min_lon
      then []
      else sort (
          scan_grid (b ∷ by_cell) (rounds (f.grid_floor min_lat) (f.grid_floor max_lat))
            (f.grid_floor min_lat) (rounds (f.grid_floor min_lon) (f.grid_floor max_lon))
            (f.grid_floor min_lon))

  -- Rows at (0, 0) are left out of the grid.
  abbrev pub junk : D → D → Bool
  junk la lo = f.eq la f.nil && f.eq lo f.nil

  -- The key under which `build` files a row.
  abbrev pub grid_key : D → D → Option ℕ
  grid_key la lo = if junk la lo then none else some (cell_key la lo)

-- A cell index that `la + (1 << 30)` neither overflows nor wraps.
abbrev pub InGrid : ℤ → Type 0
InGrid z = (neg_part z ≤ 2 ^ 30) × (pos_part z < 2 ^ 30)

-- Whether a cell lies in the rectangle of cells from (la0, lo0) to (la1, lo1).
abbrev pub in_cells : ℤ → ℤ → ℤ → ℤ → ℤ → ℤ → Bool
in_cells la0 la1 lo0 lo1 a b = leb_ℤ la0 a && leb_ℤ a la1 && (leb_ℤ lo0 b && leb_ℤ b lo1)

module _ {D : Type 0} ⦃f : Floating D⦄ where
  -- Whether the grid has the row in a cell that overlaps the box.
  abbrev pub grid_hit : (min_lat max_lat min_lon max_lon la lo : D) → Bool
  grid_hit min_lat max_lat min_lon max_lon la lo =
      not (junk la lo)
      && not (f.lt max_lat min_lat || f.lt max_lon min_lon)
      && in_cells (f.grid_floor min_lat) (f.grid_floor max_lat) (f.grid_floor min_lon)
          (f.grid_floor max_lon) (f.grid_floor la) (f.grid_floor lo)
