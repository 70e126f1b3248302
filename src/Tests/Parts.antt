-- ===== src/Tests/Parts.antt =====
-- The theorems on the buffer, the cache, the registry, the loader and the topology at concrete inputs.
use mini2_aaa.Base.{
  min, max, ◌+◌, ◌-◌, ◌/◌, find, take, ℕ, ◌+◌, ◌*◌, ◌/◌, ◌-◌, ◌≤◌, ◌≡◌, refl, String, true, false,
  [], ◌∷◌, some, ltb, ◌==◌, arith,
}
use mini2_aaa.Base.Int.{pos}
use mini2_aaa.Domain.{Row311, parse_ymd}
use mini2_aaa.Domain.Ymd.{IsDigit, parse_ymd_digits}
use mini2_aaa.Buffer.{
  push_rows, Buffer, new_buffer, drain, mark_producer_started, mark_producer_done, cancel, is_final,
}
use mini2_aaa.Buffer.Final.{is_final-stable, push-not_final}
use mini2_aaa.Buffer.Fifo
use mini2_aaa.Cache.{
  find_node, node_match, hash_spec, QueryCache, Hashing, new_cache, get, put, spec_equal,
}
use mini2_aaa.Cache.Laws.{IsValid, get-put}
use mini2_aaa.Cache.Kept.{put-lru, Looked, put-IsValid, get-IsValid}
use mini2_aaa.Registry.{Timing, RequestState, new_request, record_fetch}
use mini2_aaa.Registry.Sizing.{ewma, record_fetch_bounds, record_fetch_adapts, record_fetch_wraps}
use mini2_aaa.Store.Csv.{split_csv, join, split_csv-join}
use mini2_aaa.Store.Load.{Parsing, detect, load, ok}
use mini2_aaa.Store.Table.{table_of, parsed, AlignedResult, load-table_of, load-IsAligned}
use mini2_aaa.Engine.Answer.{loaded, run-WellChunked}
use mini2_aaa.Engine.Emit.{WellChunked, rows_of}
use mini2_aaa.Engine.Cancel.{StartsWith, run-StartsWith}
use mini2_aaa.Engine.{run}
use mini2_aaa.Config
use mini2_aaa.Config.Symmetric
use mini2_aaa.Tests.{whole_doubles, sample, noise, small_box}
use mini2_aaa.Indices.Build.{
  borough_rows, complaint_rows, build, borough_rows-build, complaint_rows-build, date_range-build,
  borough_at, complaint_at, date_at,
}
use mini2_aaa.Indices.Buckets.{rows_or_empty}
use mini2_aaa.Indices.Dates.{date_range, in_dates}
use mini2_aaa.Base.Select.{select}
use mini2_aaa.Base.{same, string_eq}

instance abbrev pub lengths : Hashing ℕ
lengths = record {
  hash_number = λ n. n;
  hash_bool = λ b. 0;
  hash_string = λ s. 7;
  hash_double = λ d. d;
}

instance abbrev pub whole_millis : Timing ℕ
whole_millis = record {
  lt = ltb;
  add = λ a b. a + b;
  mul = λ a b. a * b;
  millis = λ a b. (b - a) / 1000000;
  d0_1 = 1;
  d0_3 = 1;
  d0_7 = 1;
  d20 = 20;
  d100 = 100;
  d500 = 500;
}

instance abbrev pub no_numbers : Parsing ℕ
no_numbers = record { strtoull = λ s. 9; strtoul = λ s. 20240101; strtod = λ s. some 15 }

abbrev pub a_row : Row311 ℕ
a_row = record {
  unique_key = 11;
  created_ymd = 20240101;
  borough = 1;
  latitude = 15;
  longitude = 15;
  complaint_type = "Noise";
}

run-WellChunked_example : WellChunked 512 (run (loaded sample) noise 0 (λ k. false))
run-WellChunked_example = run-WellChunked (loaded sample) noise 0 (λ k. false)

borough_rows-build_example :
    rows_or_empty (borough_rows (build sample) 1) ≡ select (λ i. borough_at sample i == 1) 3 0
borough_rows-build_example = borough_rows-build sample 1

complaint_rows-build_example :
    rows_or_empty (complaint_rows (build sample) "Heat")
    ≡ select (λ i. same (complaint_at sample i) "Heat") 3 0
complaint_rows-build_example = complaint_rows-build sample "Heat"

date_range-build_example :
    date_range (build sample).by_date 20240102 0
    ≡ select (λ i. in_dates 20240102 0 (date_at sample i)) 3 0
date_range-build_example = date_range-build sample 20240102 0

steps-Sound_example :
    Fifo.Sound
      (Fifo.steps (Fifo.fresh 2 1) (Fifo.Op.push (a_row ∷ a_row ∷ a_row ∷ []) ∷ Fifo.Op.pop 1 ∷ []))
steps-Sound_example =
    Fifo.steps-Sound 2 1 (Fifo.Op.push (a_row ∷ a_row ∷ a_row ∷ []) ∷ Fifo.Op.pop 1 ∷ [])

abbrev finished : Buffer (Row311 ℕ)
finished = record (new_buffer 4 1) { done = "B" ∷ [] }

is_final-stable_example :
    (is_final (drain 3 finished).0 ≡ true)
    × (is_final (mark_producer_started "C" finished) ≡ true)
    × (is_final (mark_producer_done "C" finished) ≡ true)
    × (is_final (cancel finished) ≡ true)
unfolding is_final new_buffer
is_final-stable_example = is_final-stable finished "C" 3 refl

push-not_final_example : is_final (push_rows (a_row ∷ []) finished).0 ≡ false
unfolding is_final new_buffer
push-not_final_example = push-not_final finished a_row [] refl refl (omega arith)

pub no_entry : (capacity max_rows : ℕ) → IsValid (new_cache {D = ℕ} capacity max_rows)
unfolding new_cache find
no_entry capacity max_rows = record {
  made = tt;
  bounded = omega arith;
  linked = record {
    distinct = tt;
    once = tt;
    live = λ h n there. absurd (cc);
    filed = λ n e found. absurd (cc);
  };
}

get-put_example :
    (get small_box (put small_box (a_row ∷ []) (new_cache 2 10))).1 ≡ some (a_row ∷ [])
unfolding new_cache spec_equal
get-put_example =
    get-put small_box (a_row ∷ []) (new_cache 2 10) (no_entry 2 10) (omega arith) (omega arith) refl

one_entry : IsValid (put small_box (a_row ∷ []) (new_cache 1 10))
unfolding new_cache
one_entry = put-IsValid small_box (a_row ∷ []) (new_cache 1 10) (no_entry 1 10)

-- The second query drives out the first one.
put-IsValid_example : IsValid (put noise [] (put small_box (a_row ∷ []) (new_cache 1 10)))
put-IsValid_example = put-IsValid noise [] (put small_box (a_row ∷ []) (new_cache 1 10)) one_entry

-- The list is full with one entry, which goes.
put-lru_example :
    (put noise [] (put small_box (a_row ∷ []) (new_cache 1 10))).lru
    ≡ (
      (put small_box (a_row ∷ []) (new_cache 1 10)).next,
      record { hash = hash_spec noise; spec = noise; rows = [] },
    )
      ∷ take (1 - 1) (put small_box (a_row ∷ []) (new_cache 1 10)).lru
unfolding new_cache put find_node node_match spec_equal hash_spec
put-lru_example =
    put-lru noise [] (put small_box (a_row ∷ []) (new_cache 1 10)) one_entry (omega arith)
      (omega arith) refl

abbrev known : QueryCache ℕ
known = put small_box (a_row ∷ []) (new_cache 1 10)

get-IsValid_example : IsValid (get small_box known).0 × Looked small_box known (get small_box known)
get-IsValid_example = get-IsValid small_box known one_entry

abbrev pub request : RequestState ℕ
request = new_request 0 "A-1" "client" noise 1000 1 256 64 4096

record_fetch_bounds_example :
    (64 ≤ (record_fetch 5000000 request).suggested_chunk)
    × ((record_fetch 5000000 request).suggested_chunk ≤ 4096)
record_fetch_bounds_example = record_fetch_bounds 5000000 request (omega arith)

record_fetch_adapts_example :
    (ltb (ewma 5000000 request) 20 ≡ true
      → (record_fetch 5000000 request).suggested_chunk ≡ min 4096 (256 + 256 / 4 + 1))
    × (ltb (ewma 5000000 request) 20 ≡ false
        → ltb 500 (ewma 5000000 request) ≡ true
        → (record_fetch 5000000 request).suggested_chunk ≡ max 64 (256 - 256 / 4 - 1))
    × (ltb (ewma 5000000 request) 20 ≡ false
        → ltb 500 (ewma 5000000 request) ≡ false
        → (record_fetch 5000000 request).suggested_chunk ≡ 256)
record_fetch_adapts_example =
    record_fetch_adapts 5000000 request (omega arith) (omega arith) (omega arith) (omega arith)

abbrev zero_request : RequestState ℕ
zero_request = new_request 0 "A-1" "client" noise 1000 1 0 0 4096

record_fetch_wraps_example : (record_fetch 5000000000 zero_request).suggested_chunk ≡ 4096
unfolding record_fetch
record_fetch_wraps_example =
    record_fetch_wraps 5000000000 zero_request refl refl (omega arith) refl refl

split_csv-join_example : split_csv (join ((false, "11") ∷ (true, "a,b") ∷ [])) ≡ "11" ∷ "a,b" ∷ []
split_csv-join_example =
    split_csv-join false "11" ((true, "a,b") ∷ [])
      ((refl, refl, (refl, refl, tt)), ((refl, refl, (refl, refl, (refl, refl, tt))), tt))

abbrev pub header : String
header = "unique_key,created_ymd"

load-table_of_example :
    load {D = ℕ} (some (header ∷ "11,20240101" ∷ []))
    ≡ ok (loaded (table_of (parsed (detect (split_csv header)) ("11,20240101" ∷ []))))
unfolding detect split_csv
load-table_of_example = load-table_of header ("11,20240101" ∷ []) 0 1 refl refl

load-IsAligned_example : AlignedResult {D = ℕ} (load (some (header ∷ "11,20240101" ∷ [])))
load-IsAligned_example = load-IsAligned ℕ (some (header ∷ "11,20240101" ∷ []))

load-Sound_example :
    Symmetric.Sound
      (Config.load (λ s. pos 50051) (some ("node A host=h port=50051" ∷ "edge A B" ∷ [])))
load-Sound_example =
    Symmetric.load-Sound (λ s. pos 50051) (some ("node A host=h port=50051" ∷ "edge A B" ∷ []))

seven : IsDigit "7" 7
seven = record { coded = refl; small = omega arith }

parse_ymd_digits_example : parse_ymd "7777-77-77T10:00" ≡ 77777777
parse_ymd_digits_example =
    parse_ymd_digits "7" "7" "7" "7" "7" "7" "7" "7" "-" "-" "T10:00" 7 7 7 7 7 7 7 7 seven seven
      seven seven seven seven seven seven

run-StartsWith_example :
    StartsWith
      (rows_of (run (loaded sample) noise 2 (λ k. false)))
      (rows_of (run (loaded sample) noise 2 (λ k. k == 0)))
run-StartsWith_example = run-StartsWith (loaded sample) noise 2 (λ k. k == 0)
