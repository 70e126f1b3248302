-- ===== src/Tests.antt =====
-- The theorems at concrete inputs: doubles are whole numbers, with cells of the grid ten wide.
mod Parts
mod Overlay
mod Network
mod Sessions
mod Whole
mod Calls
mod Streams
use mini2_aaa.Base.{
  ℕ, zero, suc, ◌+◌, ◌*◌, ◌/◌, ◌-◌, ◌^◌, ◌≤◌, ◌<◌, ◌≡◌, ◌≢◌, refl, String, Bool, true, false, List,
  [], ◌∷◌, Option, none, some, ltb, ◌==◌, map, take_while, arith, same, string_eq, find, indicator,
}
use mini2_aaa.Base.Int.{ℤ, pos}
use mini2_aaa.Base.Select.{select}
use mini2_aaa.Domain.{Floating, Borough, Row311, QuerySpec}
use mini2_aaa.Indices.Grid.{InGrid, geo_box, grid_hit}
use mini2_aaa.Indices.Grid.Box.{BoxInGrid}
use mini2_aaa.Indices.Build.{Columns, size, lat_at, lon_at, build, RowsInGrid, geo_box-build}
use mini2_aaa.Engine.{run, fits, row_at}
use mini2_aaa.Store.Scan.{scan, collect, rows_of-run-scan}
use mini2_aaa.Engine.Emit.{rows_of, room}
use mini2_aaa.Base.Counts.{count}
use mini2_aaa.Engine.Complete.{IsOrdered, geo_box_complete}
use mini2_aaa.Engine.Answer.{loaded, matches, rows_of-run, rows_of-run_misfit}

instance abbrev whole_doubles : Floating ℕ
whole_doubles = record { lt = ltb; eq = ◌==◌; nil = 0; grid_floor = λ x. pos (x / 10) }

abbrev sample : Columns ℕ
sample = record {
  unique_keys = 11 ∷ 12 ∷ 13 ∷ [];
  created_ymds = 20240101 ∷ 20240102 ∷ 20240103 ∷ [];
  boroughs = Borough.manhattan ∷ Borough.brooklyn ∷ Borough.manhattan ∷ [];
  latitudes = 15 ∷ 25 ∷ 12 ∷ [];
  longitudes = 15 ∷ 25 ∷ 17 ∷ [];
  complaint_types = "Noise" ∷ "Heat" ∷ "Noise" ∷ [];
}

abbrev noise : QuerySpec ℕ
noise = record {
  borough = 1;
  complaint_type = "Noise";
  date_from = 0;
  date_to = 20240102;
  min_lat = 0;
  max_lat = 0;
  min_lon = 0;
  max_lon = 0;
  use_geo_box = false;
  max_rows = 5;
}

-- A box in the cell of the rows 0 and 2 that holds row 2 only.
abbrev small_box : QuerySpec ℕ
small_box = record noise {
  date_to = 0;
  min_lat = 11;
  max_lat = 13;
  min_lon = 16;
  max_lon = 18;
  use_geo_box = true;
}

sample-lats : (i : ℕ) → InGrid (whole_doubles.grid_floor (lat_at sample i))
sample-lats zero = (omega arith, omega arith)
sample-lats (suc zero) = (omega arith, omega arith)
sample-lats (suc (suc zero)) = (omega arith, omega arith)
sample-lats (suc (suc (suc i))) = (omega arith, omega arith)

sample-lons : (i : ℕ) → InGrid (whole_doubles.grid_floor (lon_at sample i))
sample-lons zero = (omega arith, omega arith)
sample-lons (suc zero) = (omega arith, omega arith)
sample-lons (suc (suc zero)) = (omega arith, omega arith)
sample-lons (suc (suc (suc i))) = (omega arith, omega arith)

sample-RowsInGrid : RowsInGrid sample
sample-RowsInGrid = record { lats = sample-lats; lons = sample-lons }

small_box-BoxInGrid : BoxInGrid {D = ℕ} 11 13 16 18
small_box-BoxInGrid = record {
  south = (omega arith, omega arith);
  north = (omega arith, omega arith);
  west = (omega arith, omega arith);
  east = (omega arith, omega arith);
}

rows_of-run_example :
    rows_of (run (loaded sample) small_box 2 (λ k. false))
    ≡ map
        (row_at sample)
        (room 5 0 (take_while (fits sample small_box) (select (matches sample small_box) 3 0)))
rows_of-run_example =
    rows_of-run sample small_box 2 (λ k. false) (λ used. (sample-RowsInGrid, small_box-BoxInGrid))
      (λ k. refl) (omega arith)

rows_of-run-scan_example :
    rows_of (run (loaded sample) noise 2 (λ k. false))
    ≡ map (row_at sample) (
        room 5 0 (
          scan (matches sample noise) collect 3 1 7 (scan (matches sample noise) collect 3 0 1 [])))
rows_of-run-scan_example =
    rows_of-run-scan sample noise 2 (λ k. false) 1 7 refl (λ k. refl) (omega arith) (omega arith)
      (omega arith)

rows_of-run_misfit_example : rows_of (run (loaded sample) small_box 2 (λ k. false)) ≡ []
unfolding select
rows_of-run_misfit_example =
    rows_of-run_misfit sample small_box 2 (λ k. false) 0 (2 ∷ [])
      (λ used. (sample-RowsInGrid, small_box-BoxInGrid)) (λ k. refl) (omega arith) refl refl

geo_box-build_example :
    geo_box {D = ℕ} (build sample).by_cell 11 13 16 18
    ≡ select (λ i. grid_hit {D = ℕ} 11 13 16 18 (lat_at sample i) (lon_at sample i)) 3 0
geo_box-build_example = geo_box-build sample 11 13 16 18 sample-RowsInGrid small_box-BoxInGrid

whole-IsOrdered : IsOrdered whole_doubles
whole-IsOrdered = record { trans = λ a b c h k. ground arith; floor_mono = λ a b h. ground arith }

geo_box_complete_example : count 2 (geo_box {D = ℕ} (build sample).by_cell 11 13 16 18) ≡ 1
geo_box_complete_example =
    geo_box_complete whole-IsOrdered small_box sample 2 sample-RowsInGrid small_box-BoxInGrid
      (omega arith) refl refl
