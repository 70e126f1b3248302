-- ===== src/Indices/Dates.antt =====
-- The date index of cpp/src/Indices.cpp: (date, row id) pairs sorted by date, then by row id.
use mini2_aaa.Base.{
  sym, ltb→lt, true, refl, inl, inr, Bool-cases, ◌∙◌, ℕ, zero, suc, ◌-◌, ◌≤◌, Bool, if◌then◌else◌,
  ◌&&◌, List, [], ◌∷◌, map, take, drop, ltb, leb, ◌==◌, ◌≡◌, arith, Bool-cases, filter, inl, inr,
  false, ◌<◌, ap,
}
use native.Mathlib.Nat.{sub-zero}
use mini2_aaa.Base.Select.{select}
use mini2_aaa.Base.Counts.{sort, count, IsSorted, count-sort, sort-IsSorted}

abbrev pub Entry : Type 0
Entry = ℕ × ℕ

-- The comparison that `std::sort` is given.
abbrev pub entry_before : Entry → Entry → Bool
entry_before a b = if a.0 == b.0 then ltb a.1 b.1 else ltb a.0 b.0

insert_entry : Entry → List Entry → List Entry
insert_entry e [] = e ∷ []
insert_entry e (x ∷ xs) = if entry_before x e then x ∷ insert_entry e xs else e ∷ x ∷ xs

-- `std::sort` on the entries.
unfoldable pub sort_entries : List Entry → List Entry
unfolding insert_entry
sort_entries [] = []
sort_entries (e ∷ es) = insert_entry e (sort_entries es)

-- `by_date_.emplace_back(dates[i], i)` for the rows from `i` on.
unfoldable pub entries : (ℕ → ℕ) → (n i : ℕ) → List Entry
entries date zero i = []
entries date (suc n) i = (date i, i) ∷ entries date n (suc i)

-- `std::lower_bound` and `std::upper_bound` on a vector sorted by date, as positions.
unfoldable pub lower_bound : ℕ → List Entry → ℕ
lower_bound lo [] = 0
lower_bound lo (e ∷ es) = if ltb e.0 lo then suc (lower_bound lo es) else 0

unfoldable pub upper_bound : ℕ → List Entry → ℕ
upper_bound hi [] = 0
upper_bound hi (e ∷ es) = if ltb hi e.0 then 0 else suc (upper_bound hi es)

abbrev pub row_ids : List Entry → List ℕ
row_ids = map (λ e. e.1)

-- "0 = unbounded" as a numeric bound.
abbrev pub upper_date : ℕ → ℕ
upper_date to = if to == 0 then 4294967295 else to

-- `Indices::dateRange`.
unfoldable pub date_range : List Entry → ℕ → ℕ → List ℕ
unfolding lower_bound upper_bound
date_range by_date from to =
    let hi = upper_date to in
    if ltb hi from
    then []
    else sort (
        row_ids (
          take (upper_bound hi by_date - lower_bound from by_date)
            (drop (lower_bound from by_date) by_date)))

abbrev pub in_dates : ℕ → ℕ → ℕ → Bool
in_dates from to d = leb from d && leb d (upper_date to)

DateStarts : ℕ → List Entry → Type 0
DateStarts d [] = Unit
DateStarts d (e ∷ es) = d ≤ e.0

-- Ascending by date.
abbrev DateSorted : List Entry → Type 0
unfolding DateStarts
DateSorted [] = Unit
DateSorted (e ∷ es) = DateStarts e.0 es × DateSorted es

DateStarts-mono : {a b : ℕ} (es : List Entry) → a ≤ b → DateStarts b es → DateStarts a es
unfolding DateStarts
DateStarts-mono [] h s = tt
DateStarts-mono (e ∷ es) h s = omega arith

-- Nothing is left in the window from a date past its end on.
none_left :
    (lo hi : ℕ) (es : List Entry)
    → DateSorted es
    → DateStarts (suc hi) es
    → filter (λ e. leb lo e.0 && leb e.0 hi) es ≡ []
unfolding DateStarts
none_left lo hi [] s h = refl
none_left lo hi (e ∷ es) s h =
    ground (arith, none_left lo hi es s.1, DateStarts-mono {a = suc hi} es h s.0)

test : (lo hi d : ℕ) → lo ≤ d → ltb hi d ≡ false → (leb lo d && leb d hi) ≡ true
test lo hi d h fits = ground arith

-- From the start of a sorted list whose dates are all at least `lo`.
upper_segment :
    (lo hi : ℕ) (es : List Entry)
    → DateSorted es
    → DateStarts lo es
    → take (upper_bound hi es) es ≡ filter (λ e. leb lo e.0 && leb e.0 hi) es
unfolding upper_bound DateStarts
upper_segment lo hi [] s h = refl
upper_segment lo hi (e ∷ es) s h = elim (Bool-cases (ltb hi e.0)) [
  | inl past ↦ rw past (sym (none_left lo hi (e ∷ es) s (ground arith)))
  | inr fits ↦ rw fits (
      rw (test lo hi e.0 h fits)
        (ap (◌∷◌ e) (upper_segment lo hi es s.1 (DateStarts-mono es h s.0))))
]

not_past : (lo hi d : ℕ) → lo ≤ hi → ltb d lo ≡ true → ltb hi d ≡ false
not_past lo hi d h early = ground arith

outside : (lo hi d : ℕ) → ltb d lo ≡ true → (leb lo d && leb d hi) ≡ false
outside lo hi d early = ground arith

sub_suc : (a b : ℕ) → suc a - suc b ≡ a - b
sub_suc a b = omega arith

segment :
    (lo hi : ℕ) (es : List Entry)
    → lo ≤ hi
    → DateSorted es
    → take (upper_bound hi es - lower_bound lo es) (drop (lower_bound lo es) es)
      ≡ filter (λ e. leb lo e.0 && leb e.0 hi) es
unfolding lower_bound upper_bound DateStarts
segment lo hi [] h s = refl
segment lo hi (e ∷ es) h s = elim (Bool-cases (ltb e.0 lo)) [
  | inl early ↦
      rw (early, not_past lo hi e.0 h early)
        (rw (sub_suc (upper_bound hi es) (lower_bound lo es), outside lo hi e.0 early)
          (segment lo hi es h s.1))
  | inr late ↦ rw late (rw sub-zero (upper_segment lo hi (e ∷ es) s (ground arith)))
]

count-insert_entry :
    (p : Entry → Bool) (j : ℕ) (e : Entry) (es : List Entry)
    → count j (row_ids (filter p (insert_entry e es))) ≡ count j (row_ids (filter p (e ∷ es)))
unfolding insert_entry
count-insert_entry p j e [] = refl
count-insert_entry p j e (x ∷ xs) = ground (arith, count-insert_entry p j e xs)

count-sort_entries :
    (p : Entry → Bool) (j : ℕ) (es : List Entry)
    → count j (row_ids (filter p (sort_entries es))) ≡ count j (row_ids (filter p es))
unfolding sort_entries
count-sort_entries p j [] = refl
count-sort_entries p j (e ∷ es) =
    ground (arith, count-insert_entry p j e (sort_entries es), count-sort_entries p j es)

DateStarts-insert_entry :
    (d : ℕ) (e : Entry) (es : List Entry)
    → d ≤ e.0
    → DateStarts d es
    → DateStarts d (insert_entry e es)
unfolding insert_entry DateStarts
DateStarts-insert_entry d e [] h s = h
DateStarts-insert_entry d e (x ∷ xs) h s = ground arith

before_le : (x e : Entry) → entry_before x e ≡ true → x.0 ≤ e.0
before_le x e h = ground arith

not_before_le : (x e : Entry) → entry_before x e ≡ false → e.0 ≤ x.0
not_before_le x e h = ground arith

insert_entry-DateSorted :
    (e : Entry) (es : List Entry) → DateSorted es → DateSorted (insert_entry e es)
unfolding insert_entry DateStarts
insert_entry-DateSorted e [] s = (tt, tt)
insert_entry-DateSorted e (x ∷ xs) s = elim (Bool-cases (entry_before x e)) [
  | inl before ↦ rw before (
    DateStarts-insert_entry x.0 e xs (before_le x e before) s.0,
    insert_entry-DateSorted e xs s.1,
  )
  | inr after ↦ rw after (not_before_le x e after, s)
]

sort_entries-DateSorted : (es : List Entry) → DateSorted (sort_entries es)
unfolding sort_entries DateStarts
sort_entries-DateSorted [] = tt
sort_entries-DateSorted (e ∷ es) =
    insert_entry-DateSorted e (sort_entries es) (sort_entries-DateSorted es)

count-entries :
    (p : ℕ → Bool) (date : ℕ → ℕ) (n i j : ℕ)
    → count j (row_ids (filter (λ e. p e.0) (entries date n i)))
      ≡ count j (select (λ r. p (date r)) n i)
unfolding entries select
count-entries p date zero i j = refl
count-entries p date (suc n) i j = ground (arith, count-entries p date n (suc i) j)

IsSorted-if : (b : Bool) (xs : List ℕ) → IsSorted (if b then [] else sort xs)
IsSorted-if true xs = tt
IsSorted-if false xs = sort-IsSorted xs

pub date_range-IsSorted : (es : List Entry) (from to : ℕ) → IsSorted (date_range es from to)
unfolding date_range
date_range-IsSorted es from to = IsSorted-if (ltb (upper_date to) from) _

window_count :
    (date : ℕ → ℕ) (n from hi j : ℕ)
    → from ≤ hi
    → let es = sort_entries (entries date n 0) in
      count j (
        sort (
          row_ids (take (upper_bound hi es - lower_bound from es) (drop (lower_bound from es) es))))
      ≡ count j (select (λ r. leb from (date r) && leb (date r) hi) n 0)
window_count date n from hi j h =
    let es = sort_entries (entries date n 0) in
    rw (count-sort j _, segment from hi es h (sort_entries-DateSorted (entries date n 0)))
      (count-sort_entries (λ e. leb from e.0 && leb e.0 hi) j (entries date n 0)
        ∙ count-entries (λ d. leb from d && leb d hi) date n 0 j)

empty_window :
    (date : ℕ → ℕ) (n i from hi j : ℕ)
    → hi < from
    → count j (select (λ r. leb from (date r) && leb (date r) hi) n i) ≡ 0
unfolding select
empty_window date zero i from hi j h = refl
empty_window date (suc n) i from hi j h = ground (arith, empty_window date n (suc i) from hi j h)

-- A date query on the index of a column counts each row of the window once.
pub count-date_range :
    (date : ℕ → ℕ) (n from to j : ℕ)
    → count j (date_range (sort_entries (entries date n 0)) from to)
      ≡ count j (select (λ r. in_dates from to (date r)) n 0)
unfolding date_range
count-date_range date n from to j = elim (Bool-cases (ltb (upper_date to) from)) [
  | inl empty ↦ rw empty (sym (empty_window date n 0 from (upper_date to) j (ltb→lt _ _ empty)))
  | inr proper ↦ rw proper (window_count date n from (upper_date to) j (ground arith))
]
