-- ===== src/Store/Load.antt =====
-- `ColMap::detect` and `PartitionStore::load` of cpp/src/PartitionStore.cpp.
use mini2_aaa.Base.{
  string_eq, same, ℕ, suc, ◌%◌, ◌^◌, String, Bool, true, false, if◌then◌else◌, ◌||◌, List, [], ◌∷◌,
  ◌++◌, Option, none, some, length, get_or, ltb, ◌==◌,
}
use mini2_aaa.Domain.{Floating, Borough, borough_from_string, parse_ymd}
use mini2_aaa.Indices.Build.{Columns, Indices, build}
use mini2_aaa.Engine.{PartitionStore}
use mini2_aaa.Store.Csv.{split_csv}

-- The number parsers of <cstdlib>; `strtod` is `none` where nothing is parsed.
pub record Parsing (D : Type 0) : Type 0 where
  pub strtoull : String → ℕ
  pub strtoul : String → ℕ
  pub strtod : String → Option D

-- `ColMap`; a column that is not there, -1 in the code, is `none`.
pub record ColMap : Type 0 where
  pub unique_key : Option ℕ
  pub created : Option ℕ
  pub complaint : Option ℕ
  pub borough : Option ℕ
  pub lat : Option ℕ
  pub lon : Option ℕ
  pub created_is_ymd : Bool

abbrev no_columns : ColMap
no_columns = record {
  unique_key = none;
  created = none;
  complaint = none;
  borough = none;
  lat = none;
  lon = none;
  created_is_ymd = false;
}

-- One round of the loop of `detect`.
pub note_column : ColMap → ℕ → String → ColMap
note_column m i h =
    if same h "unique_key" || same h "Unique Key"
    then record m { unique_key = some i }
    else if same h "created_ymd"
    then record m { created = some i; created_is_ymd = true }
    else if same h "created_date" || same h "Created Date"
    then record m { created = some i }
    else if same h "complaint_type" || same h "Complaint Type"
    then record m { complaint = some i }
    else if same h "borough" || same h "Borough"
    then record m { borough = some i }
    else if same h "latitude" || same h "Latitude"
    then record m { lat = some i }
    else if same h "longitude" || same h "Longitude"
    then record m { lon = some i }
    else m

detect_from : ColMap → ℕ → List String → ColMap
unfolding note_column
detect_from m i [] = m
detect_from m i (h ∷ hs) = detect_from (note_column m i h) (suc i) hs

-- `ColMap::detect`.
unfoldable pub detect : List String → ColMap
unfolding detect_from
detect hdr = detect_from no_columns 0 hdr

-- `fields[col]`, where the column is there and the line long enough.
field_at : List String → Option ℕ → Option String
field_at fields none = none
field_at fields (some i) = if ltb i (length fields) then some (get_or fields i "") else none

-- What one line adds to the columns.
pub record Parsed (D : Type 0) : Type 0 where
  pub key : ℕ
  pub date : ℕ
  pub borough : Borough
  pub lat : D
  pub lon : D
  pub complaint : String

pub data Loaded (D : Type 0) : Type 0 where
  ok : PartitionStore D → Loaded D
  header_missing : Loaded D

abbrev pub no_indices : Indices
no_indices = record {
  total_rows = 0;
  by_borough = [];
  by_complaint = [];
  by_date = [];
  by_cell = [];
}

-- `parseDateAny`, over `strtoul`.
abbrev pub parse_date_any : (String → ℕ) → String → Bool → ℕ
parse_date_any strtoul s already_ymd =
    if same s "" then 0 else if already_ymd then strtoul s % 2 ^ 32 else parse_ymd s

-- `parseU64Safe`, over `strtoull`.
abbrev pub parse_u64_safe : (String → ℕ) → String → ℕ
parse_u64_safe strtoull s = if same s "" then 0 else strtoull s

module _ {D : Type 0} where
  abbrev pub no_rows : Columns D
  no_rows = record {
    unique_keys = [];
    created_ymds = [];
    boroughs = [];
    latitudes = [];
    longitudes = [];
    complaint_types = [];
  }

  -- The six `push_back`s.
  unfoldable pub append_row : Columns D → Parsed D → Columns D
  append_row c r = record {
    unique_keys = c.unique_keys ++ (r.key ∷ []);
    created_ymds = c.created_ymds ++ (r.date ∷ []);
    boroughs = c.boroughs ++ (r.borough ∷ []);
    latitudes = c.latitudes ++ (r.lat ∷ []);
    longitudes = c.longitudes ++ (r.lon ∷ []);
    complaint_types = c.complaint_types ++ (r.complaint ∷ []);
  }

module _ {D : Type 0} ⦃f : Floating D⦄ ⦃p : Parsing D⦄ where
  -- `parseDoubleSafe`.
  abbrev pub parse_double_safe : String → D
  parse_double_safe s =
      if same s "" then f.nil else (elim (p.strtod s) [ none ↦ f.nil | some v ↦ v ])

  -- The body of the loop, up to the `push_back`s; `none` is a `continue`.
  unfoldable pub parse_row : ColMap → String → Option (Parsed D)
  unfolding field_at
  parse_row cm line =
      if same line ""
      then none
      else (let fields = split_csv line in
          elim (field_at fields cm.unique_key) [
            | none ↦ none
            | some key_text ↦ elim (field_at fields cm.created) [
              | none ↦ none
              | some date_text ↦
                  if parse_u64_safe p.strtoull key_text == 0
                  then none
                  else some (record {
                    key = parse_u64_safe p.strtoull key_text;
                    date = parse_date_any p.strtoul date_text cm.created_is_ymd;
                    borough = elim (field_at fields cm.borough) [
                      | none ↦ Borough.unspecified
                      | some t ↦ borough_from_string t
                    ];
                    lat = elim (field_at fields cm.lat) [
                      | none ↦ f.nil
                      | some t ↦ parse_double_safe t
                    ];
                    lon = elim (field_at fields cm.lon) [
                      | none ↦ f.nil
                      | some t ↦ parse_double_safe t
                    ];
                    complaint = elim (field_at fields cm.complaint) [ none ↦ "" | some t ↦ t ];
                  })
            ]
          ])

  -- The loop over the lines.
  unfoldable pub load_lines : ColMap → List String → Columns D → Columns D
  unfolding append_row
  load_lines cm [] c = c
  load_lines cm (line ∷ lines) c =
      load_lines cm lines (elim (parse_row cm line) [ none ↦ c | some r ↦ append_row c r ])

  -- `load` after the header: it wants a key and a date column.
  unfoldable pub load_body : ColMap → List String → (unique_key created : Option ℕ) → Loaded D
  load_body cm lines none created = header_missing
  load_body cm lines (some k) none = header_missing
  load_body cm lines (some k) (some d) =
      let c = load_lines cm lines no_rows in ok (record { columns = c; indices = build c })

  -- `PartitionStore::load` into a new store.
  unfoldable pub load : Option (List String) → Loaded D
  unfolding load_body
  load none = ok (record { columns = no_rows; indices = no_indices })
  load (some []) = ok (record { columns = no_rows; indices = no_indices })
  load (some (header ∷ lines)) =
      let cm = detect (split_csv header) in load_body cm lines cm.unique_key cm.created
