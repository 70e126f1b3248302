-- ===== src/Registry.antt =====
-- The in-flight requests of the portal: cpp/include/RequestRegistry.hpp and
-- cpp/src/RequestRegistry.cpp. Time is an argument of each call, in nanoseconds of the steady clock.
-- A `shared_ptr<RequestState>` is the state that the map has under the request's id.
pub mod Sizing
use mini2_aaa.Base.{
  Eq, string_eq, ℕ, ◌+◌, ◌-◌, ◌*◌, ◌/◌, ◌%◌, ◌^◌, min, max, String, Bool, true, false,
  if◌then◌else◌, List, [], ◌∷◌, ◌++◌, Option, ltb, length, find, insert, erase,
}
use mini2_aaa.Domain.{QuerySpec, Row311}
use mini2_aaa.Buffer.{Buffer, new_buffer, buffered_rows}

-- The arithmetic of `double` that `recordFetch` uses, and its constants 0.1, 0.3, 0.7, 20.0, 100.0
-- and 500.0; `millis a b` is the time from `a` to `b` as a `duration<double, std::milli>`.
pub record Timing (D : Type 0) : Type 0 where
  pub lt : D → D → Bool
  pub add : D → D → D
  pub mul : D → D → D
  pub millis : ℕ → ℕ → D
  pub d0_1 : D
  pub d0_3 : D
  pub d0_7 : D
  pub d20 : D
  pub d100 : D
  pub d500 : D

-- `RequestState`.
pub record RequestState (D : Type 0) : Type 0 where
  pub request_id : String
  pub client_id : String
  pub spec : QuerySpec D
  pub buffer : Buffer (Row311 D)
  pub suggested_chunk : ℕ
  pub min_chunk : ℕ
  pub max_chunk : ℕ
  pub created_at : ℕ
  pub last_fetch_at : ℕ
  pub ewma_fetch_ms : D
  pub cache_collect : Bool
  pub cache_max_rows : ℕ
  pub cache_accum : List (Row311 D)

-- The `uint32_t` updates of `suggested_chunk` in `recordFetch`.
abbrev pub grown : ℕ → ℕ → ℕ
grown max_chunk s = min max_chunk ((s + s / 4 + 1) % 2 ^ 32)

abbrev pub shrunk : ℕ → ℕ → ℕ
shrunk min_chunk s = max min_chunk ((s + 2 ^ 32 - s / 4 - 1) % 2 ^ 32)

abbrev pub clamped : (lo hi s : ℕ) → ℕ
clamped lo hi s = let s' = if ltb s lo then lo else s in if ltb hi s' then hi else s'

module _ {D : Type 0} ⦃t : Timing D⦄ where
  -- `recordFetch`, at time `now`.
  unfoldable pub record_fetch : ℕ → RequestState D → RequestState D
  record_fetch now st =
      let dt = t.millis st.last_fetch_at now in
      let dt_ms = if t.lt dt t.d0_1 then t.d0_1 else dt in
      let ewma = t.add (t.mul t.d0_7 st.ewma_fetch_ms) (t.mul t.d0_3 dt_ms) in
      let s =
        if t.lt ewma t.d20
        then grown st.max_chunk st.suggested_chunk
        else if t.lt t.d500 ewma
        then shrunk st.min_chunk st.suggested_chunk
        else st.suggested_chunk in
      record st {
        last_fetch_at = now;
        ewma_fetch_ms = ewma;
        suggested_chunk = clamped st.min_chunk st.max_chunk s;
      }

  -- The new state of `create`.
  abbrev pub new_request :
      (now : ℕ) (request_id client_id : String) (spec : QuerySpec D)
      (buffer_cap expected initial_chunk min_chunk max_chunk : ℕ)
      → RequestState D
  new_request now request_id client_id spec buffer_cap expected initial_chunk min_chunk max_chunk =
      record {
        request_id = request_id;
        client_id = client_id;
        spec = spec;
        buffer = new_buffer buffer_cap expected;
        suggested_chunk = initial_chunk;
        min_chunk = min_chunk;
        max_chunk = max_chunk;
        created_at = now;
        last_fetch_at = now;
        ewma_fetch_ms = t.d100;
        cache_collect = true;
        cache_max_rows = 50000;
        cache_accum = [];
      }

abbrev pub Registry : Type 0 → Type 0
Registry D = List (String × RequestState D)

module _ {D : Type 0} where
  -- `create`, given the new state: the id's entry is replaced, if there is one.
  unfoldable pub create : RequestState D → Registry D → Registry D
  create st reqs = insert st.request_id st reqs

  -- `get`.
  unfoldable pub get : String → Registry D → Option (RequestState D)
  get rid reqs = find rid reqs

  -- `erase`.
  unfoldable pub remove : String → Registry D → Registry D
  remove rid reqs = erase rid reqs

  -- `collectExpired`; `now - last_fetch_at > ttl` with `ttl` in seconds.
  unfoldable pub collect_expired : (now ttl : ℕ) → Registry D → List (RequestState D)
  collect_expired now ttl [] = []
  collect_expired now ttl ((k, st) ∷ reqs) =
      let rest = collect_expired now ttl reqs in
      if ltb (ttl * 1000000000) (now - st.last_fetch_at) then st ∷ rest else rest

  -- `size`.
  abbrev pub size : Registry D → ℕ
  size reqs = length reqs

  -- `totalBufferedRows`.
  unfoldable pub total_buffered_rows : Registry D → ℕ
  total_buffered_rows [] = 0
  total_buffered_rows ((k, st) ∷ reqs) =
      (buffered_rows st.buffer + total_buffered_rows reqs) % 2 ^ 64
