-- ===== src/Engine/Complete.antt =====
-- The grid of cpp/src/Indices.cpp loses no row of the exact box that `QueryEngine::run`
-- (cpp/src/QueryEngine.cpp) tests.
use mini2_aaa.Base.{refl, ℕ, ◌<◌, ◌≡◌, ◌∙◌, true, false, ap, arith}
use mini2_aaa.Base.Int.{leb_ℤ}
use mini2_aaa.Base.Counts.{count}
use mini2_aaa.Base.Select.{count-select_all}
use mini2_aaa.Domain.{Floating, QuerySpec}
use mini2_aaa.Indices.Grid.{geo_box, grid_hit, junk}
use mini2_aaa.Indices.Grid.Box.{BoxInGrid}
use mini2_aaa.Indices.Build.{Columns, size, lat_at, lon_at, build, RowsInGrid, geo_box-build}
use mini2_aaa.Engine.{in_box}

-- What holds of doubles that are not NaN: the order is total, and the cell index is monotone.
pub record IsOrdered {D : Type 0} (f : Floating D) : Type 0 where
  pub trans : (a b c : D) → f.lt b a ≡ false → f.lt c b ≡ false → f.lt c a ≡ false
  pub floor_mono : (a b : D) → f.lt b a ≡ false → leb_ℤ (f.grid_floor a) (f.grid_floor b) ≡ true

module _ {D : Type 0} ⦃f : Floating D⦄ (law : IsOrdered f) (spec : QuerySpec D) where
  in_box-bounds :
      (la lo : D)
      → in_box spec la lo ≡ true
      → (f.lt la spec.min_lat ≡ false)
        × (f.lt spec.max_lat la ≡ false)
        × (f.lt lo spec.min_lon ≡ false)
        × (f.lt spec.max_lon lo ≡ false)
  in_box-bounds la lo inside = ground arith

  in_box-grid_hit :
      (la lo : D)
      → in_box spec la lo ≡ true
      → junk la lo ≡ false
      → grid_hit spec.min_lat spec.max_lat spec.min_lon spec.max_lon la lo ≡ true
  in_box-grid_hit la lo inside real =
      let b = in_box-bounds la lo inside in
      rw
        (
          real,
          law.trans spec.min_lat la spec.max_lat b.0 b.1,
          law.trans spec.min_lon lo spec.max_lon b.2 b.3,
          law.floor_mono spec.min_lat la b.0,
          law.floor_mono la spec.max_lat b.1,
          law.floor_mono spec.min_lon lo b.2,
          law.floor_mono lo spec.max_lon b.3,
        )
        refl

  -- Where the order of the coordinates is total and the cell index monotone, and rows and box are in
  -- the range of the grid, every row of the exact box that is not at (0, 0) is among the candidates
  -- of the grid, once.
  pub geo_box_complete :
      (c : Columns D) (i : ℕ)
      → RowsInGrid c
      → BoxInGrid spec.min_lat spec.max_lat spec.min_lon spec.max_lon
      → i < size c
      → in_box spec (lat_at c i) (lon_at c i) ≡ true
      → junk (lat_at c i) (lon_at c i) ≡ false
      → count i (geo_box (build c).by_cell spec.min_lat spec.max_lat spec.min_lon spec.max_lon) ≡ 1
  geo_box_complete c i rows box within inside real =
      let hit = in_box-grid_hit (lat_at c i) (lon_at c i) inside real in
      ap (count i) (geo_box-build c spec.min_lat spec.max_lat spec.min_lon spec.max_lon rows box)
      ∙ (count-select_all _ (size c) i ∙ rw hit (ground arith))
