-- ===== src/Indices/Grid/Scan.antt =====
-- What the scan of grid cells in `Indices::geoBox` (cpp/src/Indices.cpp) finds of one row.
use mini2_aaa.Base.{
  nat_eq, ℕ, zero, suc, ◌+◌, ◌*◌, ◌^◌, ◌≤◌, ◌<◌, ◌≡◌, refl, Bool, true, false, ◌&&◌, [], Option,
  none, some, find, leb, ltb, ◌==◌, arith, indicator,
}
use mini2_aaa.Base.Counts.{count, count-append}
use mini2_aaa.Base.Select.{count-select}
use mini2_aaa.Base.Int.{ℤ, pos_part, neg_part, suc_ℤ, leb_ℤ, pos, negsuc}
use mini2_aaa.Indices.Buckets.{fill, has_key, rows_or_empty, fill-select}
use mini2_aaa.Indices.Grid.{bias, pack, scan_row, scan_grid, rounds, InGrid}

-- A cell index that the scan reaches, the one past the last of the box included.
pub Near : ℤ → Type 0
Near z = (neg_part z ≤ 2 ^ 30) × (pos_part z ≤ 2 ^ 30)

bias-Near : (z : ℤ) → Near z → bias z + neg_part z ≡ 2 ^ 30 + pos_part z
unfolding bias Near
bias-Near z h = omega arith

pub InGrid-Near : (z : ℤ) → InGrid z → Near z
unfolding Near
InGrid-Near z h = omega arith

suc_ℤ-Near : (z : ℤ) → Near z → bias z < 2 ^ 31 → Near (suc_ℤ z)
unfolding bias Near
suc_ℤ-Near (pos n) h lt = omega arith
suc_ℤ-Near (negsuc zero) h lt = omega arith
suc_ℤ-Near (negsuc (suc n)) h lt = omega arith

bias-suc_ℤ : (z : ℤ) → Near z → bias z < 2 ^ 31 → bias (suc_ℤ z) ≡ suc (bias z)
unfolding bias Near
bias-suc_ℤ (pos n) h lt = omega arith
bias-suc_ℤ (negsuc zero) h lt = omega arith
bias-suc_ℤ (negsuc (suc n)) h lt = omega arith

bias-lt : (z : ℤ) → bias z < 2 ^ 32
unfolding bias
bias-lt z = omega arith

pack_test :
    (a b c d : ℕ)
    → b < 2 ^ 32
    → d < 2 ^ 32
    → (a * 2 ^ 32 + b == c * 2 ^ 32 + d) ≡ (a == c && b == d)
pack_test a b c d h k = ground arith

and_assoc : (a b c : Bool) → indicator (a && (b && c)) ≡ indicator (a && b && c)
and_assoc true b c = refl
and_assoc false b c = refl

widen :
    (j a : Bool) (lo b w : ℕ)
    → indicator (j && a && b == lo) + indicator (j && a && (leb (suc lo) b && ltb b (suc lo + w)))
      ≡ indicator (j && a && (leb lo b && ltb b (lo + suc w)))
widen false a lo b w = refl
widen true false lo b w = refl
widen true true lo b w = ground arith

widen_row :
    (j c : Bool) (la a h : ℕ)
    → indicator (j && a == la && c) + indicator (j && c && (leb (suc la) a && ltb a (suc la + h)))
      ≡ indicator (j && c && (leb la a && ltb a (la + suc h)))
widen_row false c la a h = refl
widen_row true c la a h = ground arith

module _ (key : ℕ → Option ℕ) (n j : ℕ) where
  count-bucket :
      (k : ℕ)
      → count j (rows_or_empty (find k (fill key n 0 []))) ≡ indicator (ltb j n && has_key key k j)
  unfolding find
  count-bucket k = rw (fill-select key k n 0 [], count-select (has_key key k) n 0 j) (ground arith)

  -- A row that is in no cell is found nowhere.
  module _ (skip : key j ≡ none) where
    count-bucket_skip : (k : ℕ) → count j (rows_or_empty (find k (fill key n 0 []))) ≡ 0
    count-bucket_skip k = rw (count-bucket k) (rw (skip, has_key) (ground arith))

    count-scan_row_skip : (w : ℕ) (la lo : ℤ) → count j (scan_row (fill key n 0 []) la w lo) ≡ 0
    unfolding scan_row
    count-scan_row_skip zero la lo = refl
    count-scan_row_skip (suc w) la lo =
        rw (count-append j (rows_or_empty (find (pack la lo) (fill key n 0 []))))
          (omega (arith, count-bucket_skip (pack la lo), count-scan_row_skip w la (suc_ℤ lo)))

    pub count-scan_grid_skip :
        (h w : ℕ) (la lo : ℤ) → count j (scan_grid (fill key n 0 []) h la w lo) ≡ 0
    unfolding scan_grid
    count-scan_grid_skip zero w la lo = refl
    count-scan_grid_skip (suc h) w la lo =
        rw (count-append j (scan_row (fill key n 0 []) la w lo))
          (omega (arith, count-scan_row_skip w la lo, count-scan_grid_skip h w (suc_ℤ la) lo))

  -- A row that is filed under the cell (a, b) is found once, in that cell.
  module _ (a b : ℤ) (filed : key j ≡ some (pack a b)) where
    count-bucket_filed :
        (la lo : ℤ)
        → count j (rows_or_empty (find (pack la lo) (fill key n 0 [])))
          ≡ indicator (ltb j n && (bias a == bias la) && (bias b == bias lo))
    unfolding pack
    count-bucket_filed la lo = rw (count-bucket (pack la lo)) (
        rw (filed, has_key)
          (rw (pack_test (bias a) (bias b) (bias la) (bias lo) (bias-lt b) (bias-lt lo))
            (and_assoc (ltb j n) (bias a == bias la) (bias b == bias lo))))

    count-scan_row :
        (w : ℕ) (la lo : ℤ)
        → Near lo
        → bias lo + w ≤ 2 ^ 31
        → count j (scan_row (fill key n 0 []) la w lo)
          ≡ indicator (
              ltb j n
              && (bias a == bias la)
              && (leb (bias lo) (bias b) && ltb (bias b) (bias lo + w)))
    unfolding scan_row
    count-scan_row zero la lo ho fits = ground arith
    count-scan_row (suc w) la lo ho fits =
        rw
          (
            count-append j (rows_or_empty (find (pack la lo) (fill key n 0 []))),
            count-bucket_filed la lo,
            count-scan_row w la (suc_ℤ lo) (suc_ℤ-Near lo ho (omega arith))
                (omega (arith, bias-suc_ℤ lo ho)),
            bias-suc_ℤ lo ho (omega arith),
          )
          (widen (ltb j n) (bias a == bias la) (bias lo) (bias b) w)

    pub count-scan_grid :
        (h w : ℕ) (la lo : ℤ)
        → Near la
        → Near lo
        → bias la + h ≤ 2 ^ 31
        → bias lo + w ≤ 2 ^ 31
        → count j (scan_grid (fill key n 0 []) h la w lo)
          ≡ indicator (
              ltb j n
              && (leb (bias lo) (bias b) && ltb (bias b) (bias lo + w))
              && (leb (bias la) (bias a) && ltb (bias a) (bias la + h)))
    unfolding scan_grid
    count-scan_grid zero w la lo ha ho fits wide = ground arith
    count-scan_grid (suc h) w la lo ha ho fits wide =
        rw
          (
            count-append j (scan_row (fill key n 0 []) la w lo),
            count-scan_row w la lo ho wide,
            count-scan_grid h w (suc_ℤ la) lo (suc_ℤ-Near la ha (omega arith)) ho
                (omega (arith, bias-suc_ℤ la ha)) wide,
            bias-suc_ℤ la ha (omega arith),
          )
          (widen_row (ltb j n) (leb (bias lo) (bias b) && ltb (bias b) (bias lo + w)) (bias la)
            (bias a) h)

pub never : (a b c : Bool) → indicator (a && (b && false && c)) ≡ 0
never true true c = refl
never true false c = refl
never false b c = refl

pub never_hit : (a : Bool) → indicator (a && false) ≡ 0
never_hit true = refl
never_hit false = refl

pub and_swap : (j r c : Bool) → indicator (j && c && r) ≡ indicator (j && (r && c))
and_swap true true true = refl
and_swap true true false = refl
and_swap true false c = ground arith
and_swap false r c = refl

pub side :
    (z0 z1 z : ℤ)
    → InGrid z0
    → InGrid z1
    → InGrid z
    → (leb (bias z0) (bias z) && ltb (bias z) (bias z0 + rounds z0 z1)) ≡ (leb_ℤ z0 z && leb_ℤ z z1)
unfolding Near
side z0 z1 z h0 h1 h = ground (
  arith,
  bias-Near z0 (InGrid-Near z0 h0),
  bias-Near z1 (InGrid-Near z1 h1),
  bias-Near z (InGrid-Near z h),
)

pub rounds_fit : (z0 z1 : ℤ) → InGrid z0 → InGrid z1 → bias z0 + rounds z0 z1 ≤ 2 ^ 31
unfolding Near
rounds_fit z0 z1 h0 h1 =
    omega (arith, bias-Near z0 (InGrid-Near z0 h0), bias-Near z1 (InGrid-Near z1 h1))
