-- ===== src/Store/Table.antt =====
-- What `PartitionStore::load` (cpp/src/PartitionStore.cpp) leaves in the columns.
use mini2_aaa.Base.{
  ap, ℕ, ◌≡◌, ◌≢◌, refl, ◌∙◌, String, List, [], ◌∷◌, ◌++◌, map, Option, none, some, length,
  length-append, arith, Option-cases, inl, inr, append_assoc, append-nil,
}
use mathlib.Core.List.{map-append}
use mini2_aaa.Domain.{Floating}
use mini2_aaa.Indices.Build.{Columns, build}
use mini2_aaa.Engine.Answer.{loaded}
use mini2_aaa.Store.Csv.{split_csv}
use mini2_aaa.Store.Load.{
  Parsing, ColMap, Parsed, Loaded, ok, append_row, parse_row, load_lines, load_body, load, detect,
  no_rows, header_missing,
}

abbrev pub NonZero : List ℕ → Type 0
NonZero [] = Unit
NonZero (x ∷ xs) = (x ≢ 0) × NonZero xs

NonZero-append : (xs : List ℕ) (x : ℕ) → NonZero xs → x ≢ 0 → NonZero (xs ++ (x ∷ []))
NonZero-append [] x h k = (k, tt)
NonZero-append (y ∷ xs) x h k = (h.0, NonZero-append xs x h.1 k)

module _ {D : Type 0} where
  -- The columns that hold some rows.
  abbrev pub table_of : List (Parsed D) → Columns D
  table_of rs = record {
    unique_keys = map (λ r. r.key) rs;
    created_ymds = map (λ r. r.date) rs;
    boroughs = map (λ r. r.borough) rs;
    latitudes = map (λ r. r.lat) rs;
    longitudes = map (λ r. r.lon) rs;
    complaint_types = map (λ r. r.complaint) rs;
  }

  append_row-table_of :
      (rs : List (Parsed D)) (r : Parsed D) → append_row (table_of rs) r ≡ table_of (rs ++ (r ∷ []))
  unfolding append_row
  append_row-table_of rs r = simp map-append

module _ {D : Type 0} ⦃f : Floating D⦄ ⦃p : Parsing D⦄ where
  -- The rows of the lines that parse.
  abbrev pub parsed : ColMap → List String → List (Parsed D)
  parsed cm [] = []
  parsed cm (line ∷ lines) =
      let rest = parsed cm lines in elim (parse_row cm line) [ none ↦ rest | some r ↦ r ∷ rest ]

  load_lines-table_of :
      (cm : ColMap) (lines : List String) (rs : List (Parsed D))
      → load_lines cm lines (table_of rs) ≡ table_of (rs ++ parsed cm lines)
  unfolding load_lines
  load_lines-table_of cm [] rs = rw (append-nil rs)
  load_lines-table_of cm (line ∷ lines) rs =
      elim (Option-cases {A = Parsed D} (parse_row cm line)) [
        | inl skip ↦ rw (skip, load_lines, parsed) (load_lines-table_of cm lines rs)
        | inr (r, hit) ↦
            rw (hit, load_lines, parsed)
              (rw (append_row-table_of rs r) (
                load_lines-table_of cm lines (rs ++ (r ∷ []))
                ∙ rw (append_assoc rs (r ∷ []) (parsed cm lines))))
      ]

  load_body-table_of :
      (cm : ColMap) (lines : List String) (a b : Option ℕ) (k d : ℕ)
      → a ≡ some k
      → b ≡ some d
      → load_body cm lines a b ≡ ok (loaded (table_of (parsed cm lines)))
  unfolding load_body
  load_body-table_of cm lines a b k d ha hb =
      rw (ha, hb)
        (ap (λ c. ok (record { columns = c; indices = build c })) (load_lines-table_of cm lines []))

  -- A file whose header names a key and a date column is loaded into the rows of the lines that
  -- parse, in order, one entry of each column for each row, with the indices built of them.
  pub load-table_of :
      (header : String) (lines : List String) (k d : ℕ)
      → (detect (split_csv header)).unique_key ≡ some k
      → (detect (split_csv header)).created ≡ some d
      → load (some (header ∷ lines))
        ≡ ok (loaded (table_of (parsed (detect (split_csv header)) lines)))
  unfolding load
  load-table_of header lines k d hk hd =
      load_body-table_of (detect (split_csv header)) lines _ _ k d hk hd

  -- Every row that a line gives has a key other than 0.
  pub parse_row-key :
      (cm : ColMap) (line : String) (r : Parsed D) → parse_row cm line ≡ some r → r.key ≢ 0
  unfolding parse_row
  parse_row-key cm line r h = ground arith

-- Every column has one entry for each key, and no key is 0.
pub record IsAligned {D : Type 0} (c : Columns D) : Type 0 where
  pub dates : length c.created_ymds ≡ length c.unique_keys
  pub boros : length c.boroughs ≡ length c.unique_keys
  pub lats : length c.latitudes ≡ length c.unique_keys
  pub lons : length c.longitudes ≡ length c.unique_keys
  pub comps : length c.complaint_types ≡ length c.unique_keys
  pub keys : NonZero c.unique_keys

module _ {D : Type 0} where
  append_row-IsAligned :
      (c : Columns D) (r : Parsed D) → IsAligned c → r.key ≢ 0 → IsAligned (append_row c r)
  unfolding append_row
  append_row-IsAligned c r h k =
      let n = length-append c.unique_keys (r.key ∷ []) in
      record {
        dates = omega (arith, n, length-append c.created_ymds (r.date ∷ []), h.dates);
        boros = omega (arith, n, length-append c.boroughs (r.borough ∷ []), h.boros);
        lats = omega (arith, n, length-append c.latitudes (r.lat ∷ []), h.lats);
        lons = omega (arith, n, length-append c.longitudes (r.lon ∷ []), h.lons);
        comps = omega (arith, n, length-append c.complaint_types (r.complaint ∷ []), h.comps);
        keys = NonZero-append c.unique_keys r.key h.keys k;
      }

module _ {D : Type 0} ⦃f : Floating D⦄ ⦃p : Parsing D⦄ where
  load_lines-IsAligned :
      (cm : ColMap) (lines : List String) (c : Columns D)
      → IsAligned c
      → IsAligned (load_lines cm lines c)
  unfolding load_lines
  load_lines-IsAligned cm [] c h = h
  load_lines-IsAligned cm (line ∷ lines) c h =
      elim (Option-cases {A = Parsed D} (parse_row cm line)) [
        | inl skip ↦ rw (skip, load_lines) (load_lines-IsAligned cm lines c h)
        | inr (r, hit) ↦
            rw (hit, load_lines)
              (load_lines-IsAligned cm lines (append_row c r)
                (append_row-IsAligned c r h (parse_row-key cm line r hit)))
      ]

  no_rows-IsAligned : IsAligned {D = D} no_rows
  no_rows-IsAligned = record {
    dates = refl;
    boros = refl;
    lats = refl;
    lons = refl;
    comps = refl;
    keys = tt;
  }

  -- What a load makes of the columns, where it makes a store.
  abbrev pub AlignedResult : Loaded D → Type 0
  AlignedResult (ok store) = IsAligned store.columns
  AlignedResult header_missing = Unit

module _ (D : Type 0) ⦃f : Floating D⦄ ⦃p : Parsing D⦄ where
  load_body-IsAligned :
      (cm : ColMap) (lines : List String) (a b : Option ℕ)
      → AlignedResult {D = D} (load_body cm lines a b)
  unfolding load_body
  load_body-IsAligned cm lines none b = tt
  load_body-IsAligned cm lines (some k) none = tt
  load_body-IsAligned cm lines (some k) (some d) =
      load_lines-IsAligned cm lines no_rows no_rows-IsAligned

  -- Whatever the file, a store that is loaded has aligned columns and no key 0.
  pub load-IsAligned : (file : Option (List String)) → AlignedResult {D = D} (load file)
  unfolding load
  load-IsAligned none = no_rows-IsAligned
  load-IsAligned (some []) = no_rows-IsAligned
  load-IsAligned (some (header ∷ lines)) = load_body-IsAligned (detect (split_csv header)) lines _ _
