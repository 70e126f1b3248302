-- ===== src/Base/Select.antt =====
-- The indices of a counted loop that pass a test: `for (i = first; i < first + n; ++i)`.
use mini2_aaa.Base.Tests.{if◌then◌else◌, leb, ltb, indicator}
use mini2_aaa.Base.Counts.{count, IsSorted, Starts}
use Prim.Native.Nat.{ℕ, zero, suc, ◌+◌, ◌≤◌}
use mathlib.Core.Bool.{Bool, ◌&&◌}
use mathlib.Core.Path.{◌≡◌}
use mathlib.Core.List.{List, [], ◌∷◌}
use native.Mathlib.Omega.{arith}

unfoldable pub select : (ℕ → Bool) → (n first : ℕ) → List ℕ
select p zero i = []
select p (suc n) i = let rest = select p n (suc i) in if p i then i ∷ rest else rest

pub count-select :
    (p : ℕ → Bool) (n i j : ℕ)
    → count j (select p n i) ≡ indicator (leb i j && ltb j (i + n) && p j)
unfolding select
count-select p zero i j = ground arith
count-select p (suc n) i j = ground (arith, count-select p n (suc i) j)

Starts-select : (p : ℕ → Bool) (n i j : ℕ) → j ≤ i → Starts j (select p n i)
unfolding select
Starts-select p zero i j h = ground arith
Starts-select p (suc n) i j h = ground (arith, Starts-select p n (suc i) j)

pub select-IsSorted : (p : ℕ → Bool) (n i : ℕ) → IsSorted (select p n i)
unfolding select
select-IsSorted p zero i = ground arith
select-IsSorted p (suc n) i =
    ground (arith, select-IsSorted p n (suc i), Starts-select p n (suc i) i)

-- A scan from row 0 finds each row below `n` that passes, once.
pub count-select_all :
    (p : ℕ → Bool) (n j : ℕ) → count j (select p n 0) ≡ indicator (ltb j n && p j)
count-select_all p n j = rw (count-select p n 0 j) (ground arith)
