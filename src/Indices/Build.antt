-- ===== src/Indices/Build.antt =====
-- `Indices::build` and the accessors of cpp/src/Indices.cpp, over the columns of
-- cpp/include/PartitionStore.hpp: what each index answers, against a scan of the columns.
use mini2_aaa.Base.{
  nat_eq, string_eq, same, ℕ, ◌≡◌, ◌∙◌, sym, String, List, [], Option, some, get_or, length, find,
  ◌==◌,
}
use mini2_aaa.Base.Counts.{IsSorted-eq_of_counts}
use mini2_aaa.Base.Select.{select, count-select_all, select-IsSorted}
use mini2_aaa.Domain.{Floating, Borough, borough_code}
use mini2_aaa.Indices.Buckets.{fill, rows_or_empty, fill-select}
use mini2_aaa.Indices.Dates.{
  Entry, entries, sort_entries, date_range, in_dates, count-date_range, date_range-IsSorted,
}
use mini2_aaa.Indices.Grid.{geo_box, grid_key, grid_hit, InGrid}
use mini2_aaa.Indices.Grid.Box.{BoxInGrid, count-geo_box, geo_box-IsSorted}

-- The six column vectors of `PartitionStore`.
pub record Columns (D : Type 0) : Type 0 where
  pub unique_keys : List ℕ
  pub created_ymds : List ℕ
  pub boroughs : List Borough
  pub latitudes : List D
  pub longitudes : List D
  pub complaint_types : List String

-- The members of `Indices`.
pub record Indices : Type 0 where
  pub total_rows : ℕ
  pub by_borough : List (ℕ × List ℕ)
  pub by_complaint : List (String × List ℕ)
  pub by_date : List Entry
  pub by_cell : List (ℕ × List ℕ)

module _ {D : Type 0} where
  -- `PartitionStore::size()`.
  abbrev pub size : Columns D → ℕ
  size c = length c.unique_keys

  -- `boros[i]`, as its number; what the columns hold at a row.
  abbrev pub borough_at : Columns D → ℕ → ℕ
  borough_at c i = borough_code (get_or c.boroughs i Borough.unspecified)

  abbrev pub complaint_at : Columns D → ℕ → String
  complaint_at c i = get_or c.complaint_types i ""

  abbrev pub date_at : Columns D → ℕ → ℕ
  date_at c i = get_or c.created_ymds i 0

-- `Indices::boroughRows`, given the number of the borough.
unfoldable pub borough_rows : Indices → ℕ → Option (List ℕ)
borough_rows ix b = find b ix.by_borough

-- `Indices::complaintRows`.
unfoldable pub complaint_rows : Indices → String → Option (List ℕ)
complaint_rows ix s = find s ix.by_complaint

module _ {D : Type 0} ⦃f : Floating D⦄ where
  abbrev pub lat_at : Columns D → ℕ → D
  lat_at c i = get_or c.latitudes i f.nil

  abbrev pub lon_at : Columns D → ℕ → D
  lon_at c i = get_or c.longitudes i f.nil

  -- `Indices::build`.
  unfoldable pub build : Columns D → Indices
  build c = record {
    total_rows = size c;
    by_borough = fill (λ i. some (borough_at c i)) (size c) 0 [];
    by_complaint = fill (λ i. some (complaint_at c i)) (size c) 0 [];
    by_date = sort_entries (entries (date_at c) (size c) 0);
    by_cell = fill (λ i. grid_key (lat_at c i) (lon_at c i)) (size c) 0 [];
  }

  module _ (c : Columns D) where
    -- The borough index answers with exactly the rows of the borough, ascending; no vector is
    -- an empty one.
    pub borough_rows-build :
        (b : ℕ)
        → rows_or_empty (borough_rows (build c) b) ≡ select (λ i. borough_at c i == b) (size c) 0
    unfolding build borough_rows find
    borough_rows-build b = fill-select (λ i. some (borough_at c i)) b (size c) 0 []

    -- The complaint index answers with exactly the rows of the complaint type, ascending.
    pub complaint_rows-build :
        (s : String)
        → rows_or_empty (complaint_rows (build c) s)
          ≡ select (λ i. same (complaint_at c i) s) (size c) 0
    unfolding build complaint_rows find
    complaint_rows-build s = fill-select (λ i. some (complaint_at c i)) s (size c) 0 []

    -- The date index, searched by bisection, answers with exactly the rows of the window, where
    -- a bound of 0 is no bound, ascending by row id.
    pub date_range-build :
        (from to : ℕ)
        → date_range (build c).by_date from to
          ≡ select (λ i. in_dates from to (date_at c i)) (size c) 0
    unfolding build
    date_range-build from to =
        IsSorted-eq_of_counts _ _ (date_range-IsSorted _ from to) (select-IsSorted _ (size c) 0)
          (λ j. count-date_range (date_at c) (size c) from to j)

    -- The coordinates of every row have cell indices that `la + (1 << 30)` does not overflow.
    pub record RowsInGrid : Type 0 where
      pub lats : (i : ℕ) → InGrid (f.grid_floor (lat_at c i))
      pub lons : (i : ℕ) → InGrid (f.grid_floor (lon_at c i))

    -- The grid answers with exactly the rows that are not at (0, 0) and lie in a cell that
    -- overlaps the box, each once, ascending by row id.
    pub geo_box-build :
        (min_lat max_lat min_lon max_lon : D)
        → RowsInGrid
        → BoxInGrid min_lat max_lat min_lon max_lon
        → geo_box (build c).by_cell min_lat max_lat min_lon max_lon
          ≡ select
              (λ i. grid_hit min_lat max_lat min_lon max_lon (lat_at c i) (lon_at c i))
              (size c)
              0
    unfolding build
    geo_box-build min_lat max_lat min_lon max_lon rows box =
        IsSorted-eq_of_counts _ _ (geo_box-IsSorted min_lat max_lat min_lon max_lon _)
          (select-IsSorted _ (size c) 0)
          (λ j.
            count-geo_box min_lat max_lat min_lon max_lon (lat_at c) (lon_at c) (size c) box j
              (rows.lats j) (rows.lons j)
            ∙ sym (count-select_all _ (size c) j))
