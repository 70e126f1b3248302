-- ===== src/Base/Counts.antt =====
-- Ascending lists of row ids, which their counts determine; sorting.
use mini2_aaa.Base.Tests.{if◌then◌else◌, leb, indicator, ◌==◌}
use Prim.Native.Nat.{ℕ, ◌+◌, ◌≤◌, ◌<◌}
use mathlib.Core.Path.{◌≡◌, refl, sym, ap₂}
use mathlib.Core.List.{List, [], ◌∷◌, ◌++◌}
use native.Mathlib.Omega.{arith}
use native.Mathlib.Decide.{dec_lt}
use native.Mathlib.Nat.{le_refl}

abbrev pub count : ℕ → List ℕ → ℕ
count i [] = 0
count i (x ∷ xs) = indicator (x == i) + count i xs

-- The head, if there is one, is at least `a`.
abbrev pub Starts : ℕ → List ℕ → Type 0
Starts a [] = Unit
Starts a (x ∷ xs) = a ≤ x

abbrev pub IsSorted : List ℕ → Type 0
IsSorted [] = Unit
IsSorted (x ∷ xs) = Starts x xs × IsSorted xs

pub count-append : (i : ℕ) (xs ys : List ℕ) → count i (xs ++ ys) ≡ count i xs + count i ys
count-append i [] ys = omega arith
count-append i (x ∷ xs) ys = omega (arith, count-append i xs ys)

-- What is below the head of an ascending list is not in it.
pub count_below : (i : ℕ) (xs : List ℕ) {a : ℕ} → i < a → Starts a xs → IsSorted xs → count i xs ≡ 0
count_below i [] h s t = refl
count_below i (x ∷ xs) h s t = ground (arith, count_below i xs {a = x})

head_le :
    (x y : ℕ) (xs ys : List ℕ) → IsSorted (y ∷ ys) → count x (x ∷ xs) ≡ count x (y ∷ ys) → y ≤ x
head_le x y xs ys t h = elim (dec_lt x y) [
  | yes lt ↦ absurd (ground (arith, h, count_below x (y ∷ ys) {a = y} lt (le_refl y) t))
  | no ge ↦ omega arith
]

pub IsSorted-eq_of_counts :
    (xs ys : List ℕ) → IsSorted xs → IsSorted ys → ((i : ℕ) → count i xs ≡ count i ys) → xs ≡ ys
IsSorted-eq_of_counts [] [] s t h = refl
IsSorted-eq_of_counts [] (y ∷ ys) s t h = absurd (ground (arith, h y))
IsSorted-eq_of_counts (x ∷ xs) [] s t h = absurd (ground (arith, h x))
IsSorted-eq_of_counts (x ∷ xs) (y ∷ ys) s t h =
    let heads : x ≡ y = omega (arith, head_le x y xs ys t (h x), head_le y x ys xs s (sym (h y))) in
    ap₂ ◌∷◌ heads (IsSorted-eq_of_counts xs ys s.1 t.1 (λ i. ground (arith, h i)))

-- `std::sort` on numbers.
unfoldable pub insert_sorted : ℕ → List ℕ → List ℕ
insert_sorted x [] = x ∷ []
insert_sorted x (y ∷ ys) = if leb x y then x ∷ y ∷ ys else y ∷ insert_sorted x ys

unfoldable pub sort : List ℕ → List ℕ
unfolding insert_sorted
sort [] = []
sort (x ∷ xs) = insert_sorted x (sort xs)

count-insert_sorted :
    (i x : ℕ) (xs : List ℕ) → count i (insert_sorted x xs) ≡ indicator (x == i) + count i xs
unfolding insert_sorted
count-insert_sorted i x [] = refl
count-insert_sorted i x (y ∷ ys) = ground (arith, count-insert_sorted i x ys)

pub count-sort : (i : ℕ) (xs : List ℕ) → count i (sort xs) ≡ count i xs
unfolding sort
count-sort i [] = refl
count-sort i (x ∷ xs) = omega (arith, count-insert_sorted i x (sort xs), count-sort i xs)

Starts-insert_sorted : (a x : ℕ) (xs : List ℕ) → a ≤ x → Starts a xs → Starts a (insert_sorted x xs)
unfolding insert_sorted
Starts-insert_sorted a x [] h s = h
Starts-insert_sorted a x (y ∷ ys) h s = ground arith

insert_sorted-IsSorted : (x : ℕ) (xs : List ℕ) → IsSorted xs → IsSorted (insert_sorted x xs)
unfolding insert_sorted
insert_sorted-IsSorted x [] s = (tt, tt)
insert_sorted-IsSorted x (y ∷ ys) s =
    ground (arith, insert_sorted-IsSorted x ys, Starts-insert_sorted y x ys)

pub sort-IsSorted : (xs : List ℕ) → IsSorted (sort xs)
unfolding sort
sort-IsSorted [] = tt
sort-IsSorted (x ∷ xs) = insert_sorted-IsSorted x (sort xs) (sort-IsSorted xs)
