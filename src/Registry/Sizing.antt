-- ===== src/Registry/Sizing.antt =====
-- The chunk size that `recordFetch` (cpp/src/RequestRegistry.cpp) suggests.
use mini2_aaa.Base.{◌-◌, min, max, ℕ, ◌+◌, ◌/◌, ◌^◌, ◌≤◌, ◌<◌, ◌≡◌, true, false, arith}
use mini2_aaa.Registry.{Timing, RequestState, record_fetch, clamped, grown, shrunk}

clamped_bounds : (lo hi s : ℕ) → lo ≤ hi → (lo ≤ clamped lo hi s) × (clamped lo hi s ≤ hi)
clamped_bounds lo hi s h = ground arith

grown_lem :
    (lo hi s : ℕ)
    → lo ≤ s
    → s ≤ hi
    → hi + hi / 4 + 1 < 2 ^ 32
    → clamped lo hi (grown hi s) ≡ min hi (s + s / 4 + 1)
grown_lem lo hi s h k small = ground arith

shrunk_lem :
    (lo hi s : ℕ)
    → 1 ≤ lo
    → lo ≤ s
    → s ≤ hi
    → hi < 2 ^ 32
    → clamped lo hi (shrunk lo s) ≡ max lo (s - s / 4 - 1)
shrunk_lem lo hi s pos h k small = ground arith

wraps : (lo hi s : ℕ) → lo ≡ 0 → s ≡ 0 → hi < 2 ^ 32 → clamped lo hi (shrunk lo s) ≡ hi
wraps lo hi s h k small = ground arith

module _ {D : Type 0} ⦃t : Timing D⦄ (now : ℕ) (st : RequestState D) where
  -- The average that a fetch at `now` leaves.
  abbrev pub ewma : D
  ewma = (record_fetch now st).ewma_fetch_ms

  -- Whatever the timing, the suggested size is within the configured bounds after a fetch.
  pub record_fetch_bounds :
      st.min_chunk ≤ st.max_chunk
      → (st.min_chunk ≤ (record_fetch now st).suggested_chunk)
        × ((record_fetch now st).suggested_chunk ≤ st.max_chunk)
  unfolding record_fetch
  record_fetch_bounds h = clamped_bounds st.min_chunk st.max_chunk _ h

  -- With bounds that are at least 1 and far enough from 2 ^ 32, and a size between them: to a fast client
  -- a size is suggested that is a quarter and one more row larger, but at most the upper bound; to a slow
  -- one a size that is a quarter and one more row smaller, but at least the lower bound; in between the
  -- size stays.
  pub record_fetch_adapts :
      1 ≤ st.min_chunk
      → st.min_chunk ≤ st.suggested_chunk
      → st.suggested_chunk ≤ st.max_chunk
      → st.max_chunk + st.max_chunk / 4 + 1 < 2 ^ 32
      → (t.lt ewma t.d20 ≡ true
          → (record_fetch now st).suggested_chunk
            ≡ min st.max_chunk (st.suggested_chunk + st.suggested_chunk / 4 + 1))
        × (t.lt ewma t.d20 ≡ false
            → t.lt t.d500 ewma ≡ true
            → (record_fetch now st).suggested_chunk
              ≡ max st.min_chunk (st.suggested_chunk - st.suggested_chunk / 4 - 1))
        × (t.lt ewma t.d20 ≡ false
            → t.lt t.d500 ewma ≡ false
            → (record_fetch now st).suggested_chunk ≡ st.suggested_chunk)
  unfolding record_fetch
  record_fetch_adapts pos h k small = (
    λ fast. rw fast (grown_lem st.min_chunk st.max_chunk st.suggested_chunk h k small),
    (λ busy slow.
        rw (busy, slow)
          (shrunk_lem st.min_chunk st.max_chunk st.suggested_chunk pos h k (omega arith))),
    λ busy quick. rw (busy, quick) (ground arith),
  )

  -- With a smallest size of 0 the shrinking wraps: a slow client at size 0 is offered the largest
  -- size.
  pub record_fetch_wraps :
      st.min_chunk ≡ 0
      → st.suggested_chunk ≡ 0
      → st.max_chunk < 2 ^ 32
      → t.lt ewma t.d20 ≡ false
      → t.lt t.d500 ewma ≡ true
      → (record_fetch now st).suggested_chunk ≡ st.max_chunk
  unfolding record_fetch
  record_fetch_wraps lo zero_ small busy slow = rw (busy, slow) (wraps _ _ _ lo zero_ small)
