-- ===== src/Engine/Plan.antt =====
-- The plan of `QueryEngine::run` (cpp/src/QueryEngine.cpp): the intersection of the candidate sets,
-- smallest first, is the rows that are in all of them.
use mini2_aaa.Base.{
  ℕ, zero, suc, ◌+◌, ◌≤◌, ◌≡◌, refl, sym, ap, ◌∙◌, Bool, true, false, ◌&&◌, List, [], ◌∷◌, ltb, leb,
  ◌==◌, length, arith, indicator, min, Bool-cases, compared, less, equal, greater, inl, inr,
}
use native.Mathlib.Decide.{ℕ_discrete}
use mathlib.Core.Path.{subst}
use native.Mathlib.Nat.{le_refl}
use mini2_aaa.Base.Counts.{count, count_below, IsSorted, Starts, IsSorted-eq_of_counts}
use mini2_aaa.Base.Select.{select, count-select_all, select-IsSorted}
use mini2_aaa.Engine.{
  intersect, insert_by_size, sort_by_size, narrow, seed_and_narrow, rows_from, work_list,
}

-- Ascending, with no row twice.
pub record IsRowSet (c : List ℕ) : Type 0 where
  pub sorted : IsSorted c
  pub once : (j : ℕ) → count j c ≤ 1

abbrev pub All : (List ℕ → Type 0) → List (List ℕ) → Type 0
All P [] = Unit
All P (c ∷ cs) = P c × All P cs

-- Whether a row is in a set, and in all of some sets.
abbrev pub has : ℕ → List ℕ → Bool
has j c = ltb 0 (count j c)

abbrev pub in_all : ℕ → List (List ℕ) → Bool
in_all j [] = true
in_all j (c ∷ cs) = has j c && in_all j cs

min_comm : (a b : ℕ) → min a b ≡ min b a
min_comm a b = omega arith

-- A head that the other list does not have adds nothing.
skip_head : (j x a r : ℕ) → (j ≡ x → r ≡ 0) → min a r ≡ min (indicator (x == j) + a) r
skip_head j x a r absent = elim (ℕ_discrete j x) [
  | yes h ↦ omega (arith, absent h)
  | no h ↦ ground arith
]

both_heads :
    (j x a b : ℕ) {c : ℕ}
    → c ≡ min a b
    → indicator (x == j) + c ≡ min (indicator (x == j) + a) (indicator (x == j) + b)
both_heads j x a b h = omega arith

and_true : (a : Bool) → a ≡ (a && true)
and_true true = refl
and_true false = refl

and_assoc : (a b c : Bool) → (a && b && c) ≡ (a && (b && c))
and_assoc true b c = refl
and_assoc false b c = refl

and_swap : (a b c : Bool) → (a && (b && c)) ≡ (b && (a && c))
and_swap true true c = refl
and_swap true false c = refl
and_swap false true c = refl
and_swap false false c = refl

has_min : (a b : ℕ) → ltb 0 (min a b) ≡ (ltb 0 a && ltb 0 b)
has_min a b = ground arith

count_has : (a : ℕ) → a ≤ 1 → a ≡ indicator (ltb 0 a)
count_has a h = ground arith

has_indicator : (b : Bool) → ltb 0 (indicator b) ≡ b
has_indicator true = refl
has_indicator false = refl

count-intersect :
    (j : ℕ) (a b : List ℕ)
    → IsSorted a
    → IsSorted b
    → count j (intersect a b) ≡ min (count j a) (count j b)
unfolding intersect
count-intersect j [] b sa sb = omega arith
count-intersect j (x ∷ a) [] sa sb = omega arith
count-intersect j (x ∷ a) (y ∷ b) sa sb = elim (compared x y) [
  | less e lt ↦
      rw (e, intersect)
        (count-intersect j a (y ∷ b) sa.1 sb
          ∙ skip_head j x (count j a) (count j (y ∷ b))
              (λ h. count_below j (y ∷ b) (rw h lt) (le_refl y) sb))
  | greater e gt ↦
      rw (e, intersect)
        (count-intersect j (x ∷ a) b sa sb.1
          ∙ min_comm (count j (x ∷ a)) (count j b)
          ∙ skip_head j y (count j b) (count j (x ∷ a))
              (λ h. count_below j (x ∷ a) (rw h gt) (le_refl x) sa)
          ∙ min_comm (count j (y ∷ b)) (count j (x ∷ a)))
  | equal e eq ↦
      rw (e, intersect)
        (rw (← eq) (both_heads j x (count j a) (count j b) (count-intersect j a b sa.1 sb.1)))
]

Starts-mono : {x y : ℕ} (a : List ℕ) → x ≤ y → Starts y a → Starts x a
Starts-mono [] h s = tt
Starts-mono (z ∷ a) h s = omega arith

intersect-Starts : (z : ℕ) (a b : List ℕ) → Starts z a → IsSorted a → Starts z (intersect a b)
unfolding intersect
intersect-Starts z [] b h s = tt
intersect-Starts z (x ∷ a) [] h s = tt
intersect-Starts z (x ∷ a) (y ∷ b) h s = elim (compared x y) [
  | less e lt ↦ rw (e, intersect) (intersect-Starts z a (y ∷ b) (Starts-mono a h s.0) s.1)
  | greater e gt ↦ rw (e, intersect) (intersect-Starts z (x ∷ a) b h s)
  | equal e eq ↦ rw (e, intersect) h
]

intersect-IsSorted : (a b : List ℕ) → IsSorted a → IsSorted (intersect a b)
unfolding intersect
intersect-IsSorted [] b s = tt
intersect-IsSorted (x ∷ a) [] s = tt
intersect-IsSorted (x ∷ a) (y ∷ b) s = elim (compared x y) [
  | less e lt ↦ rw (e, intersect) (intersect-IsSorted a (y ∷ b) s.1)
  | greater e gt ↦ rw (e, intersect) (intersect-IsSorted (x ∷ a) b s)
  | equal e eq ↦ rw (e, intersect) (intersect-Starts x a b s.0 s.1, intersect-IsSorted a b s.1)
]

intersect-IsRowSet : (a b : List ℕ) → IsRowSet a → IsRowSet b → IsRowSet (intersect a b)
intersect-IsRowSet a b ra rb = record {
  sorted = intersect-IsSorted a b ra.sorted;
  once = λ j. omega (arith, count-intersect j a b ra.sorted rb.sorted, ra.once j);
}

has-intersect :
    (j : ℕ) (a b : List ℕ) → IsRowSet a → IsRowSet b → has j (intersect a b) ≡ (has j a && has j b)
has-intersect j a b ra rb =
    rw (count-intersect j a b ra.sorted rb.sorted) (has_min (count j a) (count j b))

narrow-IsRowSet :
    (work : List ℕ) (cs : List (List ℕ))
    → IsRowSet work
    → All IsRowSet cs
    → IsRowSet (narrow work cs)
unfolding narrow
narrow-IsRowSet work [] r rs = r
narrow-IsRowSet [] (c ∷ cs) r rs = r
narrow-IsRowSet (i ∷ work) (c ∷ cs) r rs =
    narrow-IsRowSet (intersect (i ∷ work) c) cs (intersect-IsRowSet (i ∷ work) c r rs.0) rs.1

-- The narrowed set has a row exactly if the seed and every other candidate have it.
has-narrow :
    (j : ℕ) (work : List ℕ) (cs : List (List ℕ))
    → IsRowSet work
    → All IsRowSet cs
    → has j (narrow work cs) ≡ (has j work && in_all j cs)
unfolding narrow
has-narrow j work [] r rs = and_true (has j work)
has-narrow j [] (c ∷ cs) r rs = refl
has-narrow j (i ∷ work) (c ∷ cs) r rs =
    has-narrow j (intersect (i ∷ work) c) cs (intersect-IsRowSet (i ∷ work) c r rs.0) rs.1
    ∙ rw (has-intersect j (i ∷ work) c r rs.0)
        (and_assoc (has j (i ∷ work)) (has j c) (in_all j cs))

-- Sorting by size changes neither the candidates nor what is in all of them.
in_all-insert_by_size :
    (j : ℕ) (c : List ℕ) (cs : List (List ℕ))
    → in_all j (insert_by_size c cs) ≡ (has j c && in_all j cs)
unfolding insert_by_size
in_all-insert_by_size j c [] = refl
in_all-insert_by_size j c (d ∷ ds) = elim (Bool-cases (leb (length c) (length d))) [
  | inl small ↦ rw small
  | inr big ↦
      rw big (rw (in_all-insert_by_size j c ds) (and_swap (has j d) (has j c) (in_all j ds)))
]

in_all-sort_by_size : (j : ℕ) (cs : List (List ℕ)) → in_all j (sort_by_size cs) ≡ in_all j cs
unfolding sort_by_size
in_all-sort_by_size j [] = refl
in_all-sort_by_size j (c ∷ cs) =
    in_all-insert_by_size j c (sort_by_size cs) ∙ rw (in_all-sort_by_size j cs)

insert_by_size-All :
    (c : List ℕ) (cs : List (List ℕ))
    → IsRowSet c
    → All IsRowSet cs
    → All IsRowSet (insert_by_size c cs)
unfolding insert_by_size
insert_by_size-All c [] r rs = (r, tt)
insert_by_size-All c (d ∷ ds) r rs = elim (Bool-cases (leb (length c) (length d))) [
  | inl small ↦ rw small (r, rs)
  | inr big ↦ rw big (rs.0, insert_by_size-All c ds r rs.1)
]

sort_by_size-All : (cs : List (List ℕ)) → All IsRowSet cs → All IsRowSet (sort_by_size cs)
unfolding sort_by_size
sort_by_size-All [] rs = tt
sort_by_size-All (c ∷ cs) rs =
    insert_by_size-All c (sort_by_size cs) rs.0 (sort_by_size-All cs rs.1)

count-has : (j : ℕ) (c : List ℕ) → IsRowSet c → count j c ≡ indicator (has j c)
count-has j c r = count_has (count j c) (r.once j)

-- A row set is the rows that it has: the scan of the rows below `n` that are in it.
pub IsRowSet-eq_select :
    (n : ℕ) (p : ℕ → Bool) (c : List ℕ)
    → IsRowSet c
    → ((j : ℕ) → has j c ≡ (ltb j n && p j))
    → c ≡ select p n 0
IsRowSet-eq_select n p c r h =
    IsSorted-eq_of_counts c (select p n 0) r.sorted (select-IsSorted p n 0)
      λ j. count-has j c r ∙ (ap indicator (h j) ∙ sym (count-select_all p n j))

pub select-IsRowSet : (p : ℕ → Bool) (n : ℕ) → IsRowSet (select p n 0)
select-IsRowSet p n = record {
  sorted = select-IsSorted p n 0;
  once = λ j. ground (arith, count-select_all p n j);
}

pub has-select : (p : ℕ → Bool) (n j : ℕ) → has j (select p n 0) ≡ (ltb j n && p j)
has-select p n j = rw (count-select_all p n j) (has_indicator (ltb j n && p j))

seed_and_narrow-IsRowSet :
    (c : List ℕ) (cs : List (List ℕ)) → All IsRowSet (c ∷ cs) → IsRowSet (seed_and_narrow (c ∷ cs))
unfolding seed_and_narrow
seed_and_narrow-IsRowSet c cs rs = narrow-IsRowSet c cs rs.0 rs.1

insert_by_size-cons :
    (c : List ℕ) (ds : List (List ℕ))
    → (d : List ℕ) × (ds' : List (List ℕ)) × (insert_by_size c ds ≡ d ∷ ds')
unfolding insert_by_size
insert_by_size-cons c [] = (c, [], refl)
insert_by_size-cons c (d ∷ ds) = elim (Bool-cases (leb (length c) (length d))) [
  | inl small ↦ (c, d ∷ ds, rw small)
  | inr big ↦ (d, insert_by_size c ds, rw big)
]

SeedIs : ℕ → List (List ℕ) → Type 0
SeedIs j cs = IsRowSet (seed_and_narrow cs) × (has j (seed_and_narrow cs) ≡ in_all j cs)

seed_at : (j : ℕ) (d : List ℕ) (ds cs : List (List ℕ)) → cs ≡ d ∷ ds → All IsRowSet cs → SeedIs j cs
unfolding SeedIs seed_and_narrow
seed_at j d ds cs e rs =
    let rs' : All IsRowSet (d ∷ ds) = subst (All IsRowSet) e rs in
    rw e (narrow-IsRowSet d ds rs'.0 rs'.1, has-narrow j d ds rs'.0 rs'.1)

-- The smallest candidate, intersected with the others, is a row set with exactly the rows that
-- are in all candidates: the order that the sort gives does not matter.
pub work_list-in_all :
    (n : ℕ) (c : List ℕ) (cs : List (List ℕ)) (j : ℕ)
    → All IsRowSet (c ∷ cs)
    → IsRowSet (work_list n (c ∷ cs)) × (has j (work_list n (c ∷ cs)) ≡ in_all j (c ∷ cs))
unfolding work_list SeedIs sort_by_size
work_list-in_all n c cs j rs =
    let (d, ds, e) = insert_by_size-cons c (sort_by_size cs) in
    let s = seed_at j d ds (insert_by_size c (sort_by_size cs)) e (sort_by_size-All (c ∷ cs) rs) in
    (s.0, s.1 ∙ in_all-sort_by_size j (c ∷ cs))

rows_from-select : (n i : ℕ) → rows_from n i ≡ select (λ _. true) n i
unfolding rows_from select
rows_from-select zero i = refl
rows_from-select (suc n) i = ap (◌∷◌ i) (rows_from-select n (suc i))

-- With no candidate every row is in the work list.
pub work_list-nil : (n : ℕ) → work_list n [] ≡ select (λ _. true) n 0
unfolding work_list
work_list-nil n = rows_from-select n 0
