-- ===== src/Client/Fetched.antt =====
-- `FetchChunk` of cpp/src/NodeServer.cpp and the copy of the rows that it keeps for the cache.
use mathlib.Core.Path.{subst}
use mini2_aaa.Base.{
  string_eq, same, ℕ, ◌+◌, ◌≡◌, refl, sym, ap, ◌∙◌, String, Bool, true, false, not, if◌then◌else◌,
  ◌&&◌, List, ◌++◌, none, some, Bool-cases, inl, inr, find, find-insert, find-erase, length,
  length-append, leb, arith, insert, ◌%◌, ◌^◌,
}
use mini2_aaa.Base.Int.{ℤ, pos, pos_part}
use mini2_aaa.Domain.{Floating, QuerySpec, Row311}
use mini2_aaa.Config.{param_int}
use mini2_aaa.Buffer.{pop_up_to, Buffer, is_final}
use mini2_aaa.Cache.{Hashing}
use mini2_aaa.Cache
use mini2_aaa.Registry.{Timing, RequestState, record_fetch, remove}
use mini2_aaa.Node.{NodeServer, change_request}
use mini2_aaa.Node.Portal.{wanted, ChunkResponse, accumulate, response, finish_fetch, fetch_chunk}

-- The shadow copy of a request that was opened with the bound `limit` and a query, once `served` is out.
pub record Shadows {D : Type 0} (limit : ℕ) (spec : QuerySpec D) (served : List (Row311 D))
    (st : RequestState D) : Type 0 where
  pub collects : st.cache_collect ≡ leb (length served) limit
  pub copied : st.cache_collect ≡ true → st.cache_accum ≡ served
  pub bound : st.cache_max_rows ≡ limit
  pub query : st.spec ≡ spec

leb_over : (a b n l : ℕ) → n ≡ a + b → leb a l ≡ false → leb n l ≡ false
leb_over a b n l e h = ground arith

-- What the cache is after the last fetch.
abbrev pub cached_after :
    {D : Type 0} ⦃f : Floating D⦄ ⦃h : Hashing D⦄ (limit : ℕ) (spec : QuerySpec D) (canceled : Bool)
    → List (Row311 D)
    → Cache.QueryCache D
    → Cache.QueryCache D
cached_after limit spec canceled rows c =
    if leb (length rows) limit && not canceled then Cache.put spec rows c else c

pub if_then {ℓ} : {A : Type ℓ} (b : Bool) (x y : A) → b ≡ true → (if b then x else y) ≡ x
if_then b x y e = rw e refl

if_else {ℓ} : {A : Type ℓ} (b : Bool) (x y : A) → b ≡ false → (if b then x else y) ≡ y
if_else b x y e = rw e refl

module _ {D : Type 0} (limit : ℕ) (spec : QuerySpec D) where
  -- Whether the shadow copy takes the rows.
  abbrev few : List (Row311 D) → RequestState D → Bool
  few rows st = leb (length st.cache_accum + length rows) st.cache_max_rows

  accumulate-Shadows :
      (served rows : List (Row311 D)) (st : RequestState D)
      → Shadows limit spec served st
      → Shadows limit spec (served ++ rows) (accumulate rows st)
  unfolding accumulate
  accumulate-Shadows served rows st s = elim (Bool-cases st.cache_collect) [
    | inr off ↦
        subst (Shadows limit spec (served ++ rows)) (sym (if_else st.cache_collect _ st off))
          (record {
            collects =
                off ∙ sym (leb_over _ _ _ _ (length-append served rows) (sym s.collects ∙ off));
            copied = λ e. absurd (let bad = sym off ∙ e in cc);
            bound = s.bound;
            query = s.query;
          })
    | inl on ↦
        let same_test : few rows st ≡ leb (length (served ++ rows)) limit =
          ap (λ a. leb (length a + length rows) st.cache_max_rows) (s.copied on)
          ∙ (ap (leb (length served + length rows)) s.bound
              ∙ ap (λ k. leb k limit) (sym (length-append served rows))) in
        subst (Shadows limit spec (served ++ rows)) (sym (if_then st.cache_collect _ st on))
          (elim (Bool-cases (few rows st)) [
            | inl yes_ ↦
                subst (Shadows limit spec (served ++ rows)) (sym (if_then (few rows st) _ _ yes_))
                  (record {
                    collects = on ∙ (sym yes_ ∙ same_test);
                    copied = λ e. ap (λ a. a ++ rows) (s.copied on);
                    bound = s.bound;
                    query = s.query;
                  })
            | inr no_ ↦
                subst (Shadows limit spec (served ++ rows)) (sym (if_else (few rows st) _ _ no_))
                  (record {
                    collects = sym no_ ∙ same_test;
                    copied = λ e. absurd (cc);
                    bound = s.bound;
                    query = s.query;
                  })
          ])
  ]

  -- The parts of a request that the shadow copy stands on.
  pub Shadows-kept :
      (served : List (Row311 D)) (st st' : RequestState D)
      → st'.cache_collect ≡ st.cache_collect
      → st'.cache_accum ≡ st.cache_accum
      → st'.cache_max_rows ≡ st.cache_max_rows
      → st'.spec ≡ st.spec
      → Shadows limit spec served st
      → Shadows limit spec served st'
  Shadows-kept served st st' a b c d s = record {
    collects = a ∙ s.collects;
    copied = λ e. b ∙ s.copied (sym a ∙ e);
    bound = c ∙ s.bound;
    query = d ∙ s.query;
  }

module _ {D : Type 0} ⦃f : Floating D⦄ ⦃h : Hashing D⦄ ⦃t : Timing D⦄ (atoi : String → ℤ)
    (limit : ℕ) (spec : QuerySpec D) (rid : String) where
  -- What a fetch leaves, with the rows `out` served after it.
  pub record Fetched (out : List (Row311 D)) (n n' : NodeServer D) (r : ChunkResponse D)
      : Type 0 where
    pub goes_on :
        r.final ≡ false
        → (st : RequestState D) × (find rid n'.registry ≡ some st)
          × Shadows limit spec out st
          × (n'.cache ≡ n.cache)
    pub ends :
        r.final ≡ true
        → (find rid n'.registry ≡ none)
          × (n'.cache ≡ cached_after limit spec r.canceled out n.cache)

  -- The node after the rows are out, while the request is in the registry.
  abbrev counted : List (Row311 D) → RequestState D → NodeServer D → NodeServer D
  counted rows st' n = record n {
    registry = insert rid st' n.registry;
    total_rows_served = (n.total_rows_served + length rows) % 2 ^ 64;
  }

  pub finish_more :
      (rows : List (Row311 D)) (old st : RequestState D) (n : NodeServer D)
      → find rid n.registry ≡ some old
      → is_final (accumulate rows st).buffer ≡ false
      → finish_fetch atoi rid rows st n
        ≡ (counted rows (accumulate rows st) n, response rid rows (accumulate rows st))
  unfolding finish_fetch change_request response
  finish_more rows old st n found e = rw (e, finish_fetch) (rw (found, change_request) refl)

  pub finish_last :
      (rows : List (Row311 D)) (old st : RequestState D) (n : NodeServer D)
      → find rid n.registry ≡ some old
      → is_final (accumulate rows st).buffer ≡ true
      → finish_fetch atoi rid rows st n ≡ (
        record (counted rows (accumulate rows st) n) {
          cache =
              if (accumulate rows st).cache_collect && not (accumulate rows st).buffer.canceled
              then Cache.put (accumulate rows st).spec (accumulate rows st).cache_accum n.cache
              else n.cache;
          registry = remove rid (insert rid (accumulate rows st) n.registry);
        },
        response rid rows (accumulate rows st),
      )
  unfolding finish_fetch change_request response
  finish_last rows old st n found e = rw (e, finish_fetch) (rw (found, change_request) refl)

  cache_lem :
      (out : List (Row311 D)) (st : RequestState D) (canceled : Bool) (c : Cache.QueryCache D)
      → Shadows limit spec out st
      → (if st.cache_collect && not canceled then Cache.put st.spec st.cache_accum c else c)
        ≡ cached_after limit spec canceled out c
  cache_lem out st canceled c s =
      let e =
        ap (λ b. if b && not canceled then Cache.put st.spec st.cache_accum c else c) s.collects in
      e ∙ elim (Bool-cases (leb (length out) limit)) [
        | inr over ↦
            if_else (leb (length out) limit && not canceled) _ c (ap (λ b. b && not canceled) over)
            ∙ sym (
                if_else (leb (length out) limit && not canceled) _ c
                  (ap (λ b. b && not canceled) over))
        | inl fits ↦
            ap
              (λ q.
                if leb (length out) limit && not canceled then Cache.put q st.cache_accum c else c)
              s.query
            ∙ ap (λ a. if leb (length out) limit && not canceled then Cache.put spec a c else c)
                (s.copied (s.collects ∙ fits))
      ]

  finish_fetch-Fetched :
      (served rows : List (Row311 D)) (old st : RequestState D) (n : NodeServer D)
      → find rid n.registry ≡ some old
      → Shadows limit spec served st
      → Fetched
          (served ++ rows)
          n
          (finish_fetch atoi rid rows st n).0
          (finish_fetch atoi rid rows st n).1
  unfolding response remove
  finish_fetch-Fetched served rows old st n found s =
      let st' = accumulate rows st in
      let s' = accumulate-Shadows limit spec served rows st s in
      elim (Bool-cases (is_final st'.buffer)) [
        | inr more ↦
            subst (λ p. Fetched (served ++ rows) n p.0 p.1)
              (sym (finish_more rows old st n found more))
              (record {
                goes_on = λ e. (
                  st',
                  find-insert rid rid st' n.registry
                      ∙ if_then (same rid rid) _ _ ((string_eq.beq_iff rid rid).1 refl),
                  s',
                  refl,
                );
                ends = λ e. absurd (let bad = sym more ∙ e in cc);
              })
        | inl last ↦
            subst (λ p. Fetched (served ++ rows) n p.0 p.1)
              (sym (finish_last rows old st n found last))
              (record {
                goes_on = λ e. absurd (let bad = sym last ∙ e in cc);
                ends = λ e. (
                  find-erase rid rid (insert rid st' n.registry)
                      ∙ if_then (same rid rid) _ _ ((string_eq.beq_iff rid rid).1 refl),
                  cache_lem (served ++ rows) st' st'.buffer.canceled n.cache s',
                );
              })
      ]

  pub finish_fetch-rows :
      (rows : List (Row311 D)) (old st : RequestState D) (n : NodeServer D)
      → find rid n.registry ≡ some old
      → (finish_fetch atoi rid rows st n).1.rows ≡ rows
  unfolding response
  finish_fetch-rows rows old st n found = elim (Bool-cases (is_final (accumulate rows st).buffer)) [
    | inr more ↦ ap (λ p. p.1.rows) (finish_more rows old st n found more)
    | inl last ↦ ap (λ p. p.1.rows) (finish_last rows old st n found last)
  ]

  -- `FetchChunk` of a request that is there, as its end on what `popUpTo` gives.
  fetch_chunk_lem :
      (now want : ℕ) (during : Buffer (Row311 D) → Buffer (Row311 D)) (served : List (Row311 D))
      (st : RequestState D) (n : NodeServer D)
      → find rid n.registry ≡ some st
      → Shadows limit spec served st
      → (rows : List (Row311 D)) × (st' : RequestState D) × Shadows limit spec served st'
        × (fetch_chunk atoi now during
              (record { request_id = rid; max_rows = want; block = true })
              n
            ≡ finish_fetch atoi rid rows st' n)
  unfolding fetch_chunk record_fetch
  fetch_chunk_lem now want during served st n found s =
      let st1 = record_fetch now st in
      let got =
        pop_up_to (wanted want st1) (pos_part (param_int atoi "fetch_block_ms" (pos 150) n.cfg))
          during st1.buffer in
      let st' = record st1 { buffer = got.0 } in
      (
        got.1,
        st',
        Shadows-kept limit spec served st st' refl refl refl refl s,
        rw (found, fetch_chunk) refl,
      )

  pub fetch_chunk-Fetched :
      (now want : ℕ) (during : Buffer (Row311 D) → Buffer (Row311 D)) (served : List (Row311 D))
      (st : RequestState D) (n : NodeServer D)
      → find rid n.registry ≡ some st
      → Shadows limit spec served st
      → (let p =
            fetch_chunk atoi now during
              (record { request_id = rid; max_rows = want; block = true })
              n in
          Fetched (served ++ p.1.rows) n p.0 p.1)
  fetch_chunk-Fetched now want during served st n found s =
      let (rows, st', s', e) = fetch_chunk_lem now want during served st n found s in
      let k = finish_fetch-Fetched served rows st st' n found s' in
      let q = finish_fetch atoi rid rows st' n in
      subst (λ p. Fetched (served ++ p.1.rows) n p.0 p.1) (sym e)
        (subst (λ out. Fetched (served ++ out) n q.0 q.1)
          (sym (finish_fetch-rows rows st st' n found)) k)
