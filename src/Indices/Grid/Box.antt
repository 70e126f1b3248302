-- ===== src/Indices/Grid/Box.antt =====
-- A box query of `Indices::geoBox` (cpp/src/Indices.cpp) on the grid that `build` fills.
use mini2_aaa.Base.{
  nat_eq, ℕ, zero, suc, ◌≡◌, refl, sym, ◌∙◌, Bool, true, false, not, if◌then◌else◌, ◌&&◌, ◌||◌,
  List, [], ◌∷◌, Option, find, ltb, arith, indicator, inl, inr, Bool-cases,
}
use mini2_aaa.Base.Counts.{count, IsSorted, sort, count-sort, sort-IsSorted}
use mini2_aaa.Base.Int.{ℤ, suc_ℤ}
use mini2_aaa.Domain.{Floating}
use mini2_aaa.Indices.Buckets.{fill}
use mini2_aaa.Indices.Grid.{
  pack, scan_row, scan_grid, rounds, cell_key, geo_box, junk, grid_key, InGrid, in_cells, grid_hit,
}
use mini2_aaa.Indices.Grid.Scan.{
  InGrid-Near, never, never_hit, and_swap, side, rounds_fit, count-scan_grid, count-scan_grid_skip,
}

scan_row-nil : (la : ℤ) (w : ℕ) (lo : ℤ) → scan_row [] la w lo ≡ []
unfolding scan_row find
scan_row-nil la zero lo = refl
scan_row-nil la (suc w) lo = scan_row-nil la w (suc_ℤ lo)

scan_grid-nil : (h : ℕ) (la : ℤ) (w : ℕ) (lo : ℤ) → scan_grid [] h la w lo ≡ []
unfolding scan_grid
scan_grid-nil zero la w lo = refl
scan_grid-nil (suc h) la w lo = rw (scan_row-nil la w lo) (scan_grid-nil h (suc_ℤ la) w lo)

IsSorted-if : (b : Bool) (xs : List ℕ) → IsSorted (if b then [] else sort xs)
IsSorted-if true xs = tt
IsSorted-if false xs = sort-IsSorted xs

module _ {D : Type 0} ⦃f : Floating D⦄ where
  module _ (min_lat max_lat min_lon max_lon : D) where
    scanned : List (ℕ × List ℕ) → List ℕ
    scanned m =
        scan_grid m (rounds (f.grid_floor min_lat) (f.grid_floor max_lat)) (f.grid_floor min_lat)
          (rounds (f.grid_floor min_lon) (f.grid_floor max_lon)) (f.grid_floor min_lon)

    geo_box_lem :
        (m : List (ℕ × List ℕ))
        → geo_box m min_lat max_lat min_lon max_lon
          ≡ (if f.lt max_lat min_lat || f.lt max_lon min_lon then [] else sort (scanned m))
    unfolding geo_box scanned sort
    geo_box_lem [] = rw scan_grid-nil (ground arith)
    geo_box_lem (b ∷ m) = refl

    pub geo_box-IsSorted :
        (m : List (ℕ × List ℕ)) → IsSorted (geo_box m min_lat max_lat min_lon max_lon)
    geo_box-IsSorted m =
        rw (geo_box_lem m) (IsSorted-if (f.lt max_lat min_lat || f.lt max_lon min_lon) _)

    pub record BoxInGrid : Type 0 where
      pub south : InGrid (f.grid_floor min_lat)
      pub north : InGrid (f.grid_floor max_lat)
      pub west : InGrid (f.grid_floor min_lon)
      pub east : InGrid (f.grid_floor max_lon)

    module _ (lat lon : ℕ → D) (n : ℕ) (box : BoxInGrid) (j : ℕ) where
      abbrev pub filed : ℕ → Option ℕ
      filed i = grid_key (lat i) (lon i)

      count-scanned :
          InGrid (f.grid_floor (lat j))
          → InGrid (f.grid_floor (lon j))
          → junk (lat j) (lon j) ≡ false
          → count j (scanned (fill filed n 0 []))
            ≡ indicator (
                ltb j n
                && in_cells
                    (f.grid_floor min_lat)
                    (f.grid_floor max_lat)
                    (f.grid_floor min_lon)
                    (f.grid_floor max_lon)
                    (f.grid_floor (lat j))
                    (f.grid_floor (lon j)))
      unfolding scanned cell_key pack
      count-scanned a b real =
          let la = f.grid_floor (lat j) in
          let lo = f.grid_floor (lon j) in
          rw
            (count-scan_grid filed n j la lo (rw real)
              (rounds (f.grid_floor min_lat) (f.grid_floor max_lat))
              (rounds (f.grid_floor min_lon) (f.grid_floor max_lon)) (f.grid_floor min_lat)
              (f.grid_floor min_lon) (InGrid-Near _ box.south) (InGrid-Near _ box.west)
              (rounds_fit _ _ box.south box.north) (rounds_fit _ _ box.west box.east))
            (rw
              (
                side (f.grid_floor min_lat) (f.grid_floor max_lat) la box.south box.north a,
                side (f.grid_floor min_lon) (f.grid_floor max_lon) lo box.west box.east b,
              )
              (and_swap (ltb j n) _ _))

      count-junk : junk (lat j) (lon j) ≡ true → count j (scanned (fill filed n 0 [])) ≡ 0
      unfolding scanned
      count-junk skip = count-scan_grid_skip filed n j (rw skip) _ _ _ _

      -- A box query on the grid counts once each row that is not at (0, 0) and whose cell overlaps
      -- the box.
      pub count-geo_box :
          InGrid (f.grid_floor (lat j))
          → InGrid (f.grid_floor (lon j))
          → count j (geo_box (fill filed n 0 []) min_lat max_lat min_lon max_lon)
            ≡ indicator (ltb j n && grid_hit min_lat max_lat min_lon max_lon (lat j) (lon j))
      count-geo_box a b =
          rw (geo_box_lem (fill filed n 0 []))
            (elim (Bool-cases (f.lt max_lat min_lat || f.lt max_lon min_lon)) [
              | inl inverted ↦ rw inverted (sym (never (ltb j n) (not (junk (lat j) (lon j))) _))
              | inr proper ↦
                  rw (proper, count-sort j (scanned (fill filed n 0 [])))
                    (elim (Bool-cases (junk (lat j) (lon j))) [
                      | inl skip ↦ rw skip (count-junk skip ∙ sym (never_hit (ltb j n)))
                      | inr real ↦ rw real (count-scanned a b real)
                    ])
            ])
