-- ===== src/Node/Portal.antt =====
-- The Portal service of cpp/src/NodeServer.cpp on the node that has the request: what `SubmitQuery`,
-- `FetchChunk`, `GetStats`, `Ping` and a round of `janitorLoop` do to it. `atoi` is std::atoi, `show`
-- the decimal that a stream prints, and `hex` what `randomHex` returns.
use Prim.Native.String.{◌++◌ as ◌+++◌}
use mini2_aaa.Base.{
  string_eq, ℕ, ◌+◌, ◌-◌, ◌/◌, ◌%◌, ◌^◌, String, Bool, true, false, not, if◌then◌else◌, ◌&&◌, List,
  [], ◌∷◌, ◌++◌, none, some, length, ltb, leb, ◌==◌, find, get_or,
}
use mini2_aaa.Base.Int.{ℤ, pos, pos_part}
use mini2_aaa.Domain.{Floating, QuerySpec, Row311}
use mini2_aaa.Buffer.{Buffer, mark_producer_started, pop_up_to, pending_producers, is_final}
use mini2_aaa.Cache.{Hashing}
use mini2_aaa.Cache
use mini2_aaa.Config.{Config, param_int, all_node_ids}
use mini2_aaa.Indices.Build.{size}
use mini2_aaa.Registry.{
  Timing, RequestState, new_request, create, remove, record_fetch, total_buffered_rows,
}
use mini2_aaa.Registry
use mini2_aaa.Node.{NodeServer, to_u32, to_size, change_request, deposit}

-- The messages of the Portal service.
pub record SubmitRequest (D : Type 0) : Type 0 where
  pub client_id : String
  pub spec : QuerySpec D

pub record SubmitAck : Type 0 where
  pub accepted : Bool
  pub request_id : String
  pub error : String
  pub cached : Bool

pub record FetchRequest : Type 0 where
  pub request_id : String
  pub max_rows : ℕ
  pub block : Bool

pub record ChunkResponse (D : Type 0) : Type 0 where
  pub request_id : String
  pub rows : List (Row311 D)
  pub final : Bool
  pub suggested_next_max : ℕ
  pub rows_so_far : ℕ
  pub pending_producers : ℕ
  pub canceled : Bool

pub record StatsResponse : Type 0 where
  pub node_id : String
  pub active_requests : ℕ
  pub buffered_rows : ℕ
  pub total_rows_served : ℕ
  pub peer_count : ℕ
  pub partition_rows : ℕ
  pub cache_hits : ℕ
  pub cache_misses : ℕ

pub record PingResponse : Type 0 where
  pub node_id : String
  pub unix_us : ℕ
  pub uptime_s : ℕ
  pub partition_rows : ℕ

-- `markProducerStarted` for each id.
unfoldable pub mark_all_started : {D : Type 0} → List String → Buffer (Row311 D) → Buffer (Row311 D)
mark_all_started [] b = b
mark_all_started (id ∷ ids) b = mark_all_started ids (mark_producer_started id b)

-- The digits of `randomHex`.
abbrev hex_digits : List String
hex_digits =
    "0" ∷ "1" ∷ "2" ∷ "3" ∷ "4" ∷ "5" ∷ "6" ∷ "7" ∷ "8" ∷ "9" ∷ "a" ∷ "b" ∷ "c" ∷ "d" ∷ "e" ∷ "f"
    ∷ []

-- `randomHex`, for the numbers that the generator gives.
unfoldable pub random_hex : List ℕ → String
random_hex [] = ""
random_hex (draw ∷ draws) = ◌+++◌ (get_or hex_digits (draw % 16) "") (random_hex draws)

module _ {D : Type 0} where
  -- `newRequestId`.
  unfoldable pub new_request_id :
      (show : ℕ → String) (hex : String) (my_id : String) → NodeServer D → NodeServer D × String
  new_request_id show hex my_id n =
      let k = (n.req_counter + 1) % 2 ^ 64 in
      (record n { req_counter = k }, ◌+++◌ my_id (◌+++◌ "-" (◌+++◌ (show k) (◌+++◌ "-" hex))))

  -- The shadow copy that `FetchChunk` keeps for the cache.
  unfoldable pub accumulate : List (Row311 D) → RequestState D → RequestState D
  accumulate rows st =
      if st.cache_collect
      then (if leb (length st.cache_accum + length rows) st.cache_max_rows
          then record st { cache_accum = st.cache_accum ++ rows }
          else record st { cache_collect = false; cache_accum = [] })
      else st

  -- How many rows `FetchChunk` asks the buffer for.
  unfoldable pub wanted : (max_rows : ℕ) → RequestState D → ℕ
  wanted max_rows st =
      let want = if max_rows == 0 then st.suggested_chunk else max_rows in
      if ltb st.max_chunk want then st.max_chunk else want

  -- The response of `FetchChunk` after the rows are out.
  unfoldable pub response : String → List (Row311 D) → RequestState D → ChunkResponse D
  response rid rows st = record {
    request_id = rid;
    rows = rows;
    final = is_final st.buffer;
    suggested_next_max = st.suggested_chunk;
    rows_so_far = st.buffer.rows_served;
    pending_producers = pending_producers st.buffer % 2 ^ 32;
    canceled = st.buffer.canceled;
  }

  -- The response for a request that the registry does not have.
  abbrev pub gone : String → ChunkResponse D
  gone rid = record {
    request_id = rid;
    rows = [];
    final = true;
    suggested_next_max = 0;
    rows_so_far = 0;
    pending_producers = 0;
    canceled = true;
  }

  -- `GetStats`.
  unfoldable pub get_stats : (my_id : String) → NodeServer D → StatsResponse
  get_stats my_id n = record {
    node_id = my_id;
    active_requests = Registry.size n.registry % 2 ^ 32;
    buffered_rows = total_buffered_rows n.registry;
    total_rows_served = n.total_rows_served;
    peer_count = length n.peer_clients % 2 ^ 32;
    partition_rows = size n.store.columns;
    cache_hits = n.cache.hits;
    cache_misses = n.cache.misses;
  }

  -- `Ping`; the clocks are in microseconds and, from the start on, in nanoseconds.
  unfoldable pub ping : (my_id : String) (unix_us now : ℕ) → NodeServer D → PingResponse
  ping my_id unix_us now n = record {
    node_id = my_id;
    unix_us = unix_us;
    uptime_s = (now - n.start_time) / 1000000000;
    partition_rows = size n.store.columns;
  }

-- `static_cast<std::size_t>(cfg_.paramInt(key, d))`, and as a `uint32_t`.
abbrev pub size_param : (String → ℤ) → String → ℕ → Config → ℕ
size_param atoi key d cfg = to_size (param_int atoi key (pos d) cfg)

abbrev pub u32_param : (String → ℤ) → String → ℕ → Config → ℕ
u32_param atoi key d cfg = to_u32 (param_int atoi key (pos d) cfg)

module _ {D : Type 0} (atoi : String → ℤ) where
  module _ ⦃t : Timing D⦄ where
    -- The request that `SubmitQuery` creates.
    unfoldable pub open_request :
        (now expected : ℕ) (rid : String) → SubmitRequest D → Config → RequestState D
    open_request now expected rid req cfg =
        new_request now rid req.client_id req.spec (size_param atoi "chunk_buffer_cap" 65536 cfg)
          expected (u32_param atoi "initial_chunk_rows" 512 cfg)
          (u32_param atoi "min_chunk_rows" 64 cfg) (u32_param atoi "max_chunk_rows" 4096 cfg)

    -- The request of a query that the cache answers.
    unfoldable pub cached_request :
        (now : ℕ) (rid : String) → SubmitRequest D → List (Row311 D) → Config → RequestState D
    unfolding open_request deposit
    cached_request now rid req rows cfg =
        let st = open_request now 1 rid req cfg in
        record st {
          cache_collect = false;
          buffer = deposit rows true "__cache__" (mark_producer_started "__cache__" st.buffer);
        }

    -- The request of a query that goes out to the nodes.
    unfoldable pub fresh_request :
        (now : ℕ) (rid : String) → SubmitRequest D → Config → RequestState D
    unfolding open_request mark_all_started
    fresh_request now rid req cfg =
        let st = open_request now (length (all_node_ids cfg)) rid req cfg in
        record st {
          cache_max_rows = size_param atoi "cache_max_rows" 50000 cfg;
          cache_collect = true;
          buffer = mark_all_started (all_node_ids cfg) st.buffer;
        }

    module _ ⦃f : Floating D⦄ ⦃h : Hashing D⦄ where
      -- `FetchChunk` after `popUpTo` gave `rows` and left the request at `st`.
      unfoldable pub finish_fetch :
          String → List (Row311 D) → RequestState D → NodeServer D → NodeServer D × ChunkResponse D
      unfolding accumulate response change_request
      finish_fetch rid rows st n =
          let st' = accumulate rows st in
          let r = response rid rows st' in
          let n' = record (change_request rid (λ old. st') n) {
            total_rows_served = (n.total_rows_served + length rows) % 2 ^ 64;
          } in
          if r.final
          then (
            record n' {
              cache =
                  if st'.cache_collect && not r.canceled
                  then Cache.put st'.spec st'.cache_accum n'.cache
                  else n'.cache;
              registry = remove rid n'.registry;
            },
            r,
          )
          else (n', r)

      -- `FetchChunk`, at time `now`; `meanwhile` is what other threads do to the buffer while it waits.
      unfoldable pub fetch_chunk :
          (now : ℕ)
          → (Buffer (Row311 D) → Buffer (Row311 D))
          → FetchRequest
          → NodeServer D
          → NodeServer D × ChunkResponse D
      unfolding finish_fetch wanted
      fetch_chunk now meanwhile req n = elim (find req.request_id n.registry) [
        | none ↦ (n, gone req.request_id)
        | some st0 ↦
            let st = record_fetch now st0 in
            let block_ms =
              if req.block then pos_part (param_int atoi "fetch_block_ms" (pos 150) n.cfg) else 0 in
            let (b, rows) = pop_up_to (wanted req.max_rows st) block_ms meanwhile st.buffer in
            finish_fetch req.request_id rows (record st { buffer = b }) n
      ]
