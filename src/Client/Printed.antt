-- ===== src/Client/Printed.antt =====
-- The loop of cpp/src/client_main.cpp with `FetchChunk` of cpp/src/NodeServer.cpp: what the client prints
-- of the rows that come to the portal.
use mathlib.Core.Path.{subst}
use mini2_aaa.Base.{
  string_eq, same, ℕ, ◌≡◌, refl, sym, ◌∙◌, String, true, false, List, [], ◌∷◌, ◌++◌, some,
  Bool-cases, inl, inr, find, find-insert, leb, length, ◌+◌,
}
use mini2_aaa.Base.Int.{ℤ, pos, pos_part}
use mini2_aaa.Domain.{Floating, Row311}
use mini2_aaa.Config.{param_int}
use mini2_aaa.Buffer.{Buffer, pop_up_to, is_final}
use mini2_aaa.Cache.{Hashing}
use mini2_aaa.Registry.{Timing, RequestState, record_fetch}
use mini2_aaa.Node.{NodeServer, change_request}
use mini2_aaa.Node.Portal.{wanted, ChunkResponse, accumulate, response, finish_fetch, fetch_chunk}
use mini2_aaa.Client.{Turn, Session, fetch_loop}
use mini2_aaa.Client.Fetched.{if_then, finish_more, finish_last, finish_fetch-rows}
use mini2_aaa.Client.Cached.{asked_lem}
use mini2_aaa.Client.Streamed.{Streams, Follows, pop_up_to-Streams, Streams-end}

-- Whatever other threads do around the rounds keeps the stream.
abbrev pub AllFollow : {D : Type 0} → List (Row311 D) → List (Turn D) → Type 0
AllFollow all [] = Unit
AllFollow all (turn ∷ turns) =
    Follows all turn.before × Follows all turn.during × AllFollow all turns

-- What a session has printed: all rows at its end, and the first ones before.
abbrev pub IsPrinted : {D : Type 0} → List (Row311 D) → Session D → Type 0
IsPrinted all (Session.finished r rows n) = rows ≡ all
IsPrinted {D} all (Session.fetching want rows n) = (later : List (Row311 D)) × (rows ++ later ≡ all)
IsPrinted {D} all (Session.canceling rows n) = (later : List (Row311 D)) × (rows ++ later ≡ all)
IsPrinted {D} all (Session.fetch_failed rows n) = (later : List (Row311 D)) × (rows ++ later ≡ all)

pub accumulate-buffer :
    {D : Type 0} (rows : List (Row311 D)) (st : RequestState D)
    → (accumulate rows st).buffer ≡ st.buffer
unfolding accumulate
accumulate-buffer rows st = elim (Bool-cases st.cache_collect) [
  | inr off ↦ rw off refl
  | inl on ↦
      rw on (elim (Bool-cases (leb (length st.cache_accum + length rows) st.cache_max_rows)) [
        | inl few ↦ rw few refl
        | inr many ↦ rw many refl
      ])
]

module _ {D : Type 0} ⦃f : Floating D⦄ ⦃h : Hashing D⦄ ⦃t : Timing D⦄ (atoi : String → ℤ)
    (rid : String) (all : List (Row311 D)) where
  -- What a fetch leaves of the stream, with the rows `out` served after it.
  pub record Carried (out : List (Row311 D)) (n' : NodeServer D) (r : ChunkResponse D)
      : Type 0 where
    pub goes_on :
        r.final ≡ false
        → (st : RequestState D) × (find rid n'.registry ≡ some st) × Streams all out st.buffer
    pub ends : r.final ≡ true → out ≡ all

  finish_fetch-Carried :
      (out rows : List (Row311 D)) (old st : RequestState D) (n : NodeServer D)
      → find rid n.registry ≡ some old
      → Streams all (out ++ rows) st.buffer
      → Carried
          (out ++ rows)
          (finish_fetch atoi rid rows st n).0
          (finish_fetch atoi rid rows st n).1
  unfolding response
  finish_fetch-Carried out rows old st n found s =
      let st' = accumulate rows st in
      let s' = subst (Streams all (out ++ rows)) (sym (accumulate-buffer rows st)) s in
      elim (Bool-cases (is_final st'.buffer)) [
        | inr more ↦
            subst (λ p. Carried (out ++ rows) p.0 p.1)
              (sym (finish_more atoi 0 st.spec rid rows old st n found more))
              (record {
                goes_on = λ e. (
                  st',
                  find-insert rid rid st' n.registry
                      ∙ if_then (same rid rid) _ _ ((string_eq.beq_iff rid rid).1 refl),
                  s',
                );
                ends = λ e. absurd (let bad = sym more ∙ e in cc);
              })
        | inl last ↦
            subst (λ p. Carried (out ++ rows) p.0 p.1)
              (sym (finish_last atoi 0 st.spec rid rows old st n found last))
              (record {
                goes_on = λ e. absurd (let bad = sym last ∙ e in cc);
                ends = λ e. Streams-end all (out ++ rows) st'.buffer s' last;
              })
      ]

  fetch_chunk-Carried :
      (now want : ℕ) (during : Buffer (Row311 D) → Buffer (Row311 D)) (out : List (Row311 D))
      (st : RequestState D) (n : NodeServer D)
      → find rid n.registry ≡ some st
      → Follows all during
      → Streams all out st.buffer
      → (let p =
            fetch_chunk atoi now during
              (record { request_id = rid; max_rows = want; block = true })
              n in
          Carried (out ++ p.1.rows) p.0 p.1)
  unfolding fetch_chunk record_fetch
  fetch_chunk-Carried now want during out st n found follows s =
      let st1 = record_fetch now st in
      let ms = pos_part (param_int atoi "fetch_block_ms" (pos 150) n.cfg) in
      let got = pop_up_to (wanted want st1) ms during st1.buffer in
      let st' = record st1 { buffer = got.0 } in
      let q = finish_fetch atoi rid got.1 st' n in
      let popped = pop_up_to-Streams all out (wanted want st1) ms during st1.buffer follows s in
      let k = finish_fetch-Carried out got.1 st st' n found popped in
      let e : fetch_chunk atoi now during
            (record { request_id = rid; max_rows = want; block = true }) n
          ≡ q =
        rw (found, fetch_chunk) refl in
      subst (λ p. Carried (out ++ p.1.rows) p.0 p.1) (sym e)
        (subst (λ rows. Carried (out ++ rows) q.0 q.1)
          (sym (finish_fetch-rows atoi 0 st.spec rid got.1 st st' n found)) k)

  loop-IsPrinted :
      (turns : List (Turn D)) (want : ℕ) (printed : List (Row311 D)) (st : RequestState D)
      (n : NodeServer D)
      → find rid n.registry ≡ some st
      → AllFollow all turns
      → Streams all printed st.buffer
      → IsPrinted all (fetch_loop atoi rid turns want printed n)
  unfolding fetch_loop
  loop-IsPrinted [] want printed st n found follow s = (st.buffer.q ++ s.rest, s.whole)
  loop-IsPrinted (turn ∷ turns) want printed st n found (before, during, follow) s =
      elim (Bool-cases turn.interrupted) [
        | inl yes_ ↦ rw (yes_, fetch_loop) (st.buffer.q ++ s.rest, s.whole)
        | inr on ↦ elim (Bool-cases turn.fails) [
          | inl lost ↦ rw (on, fetch_loop) (rw (lost, fetch_loop) (st.buffer.q ++ s.rest, s.whole))
          | inr fine ↦
              let g = λ (st : RequestState D). record st { buffer = turn.before st.buffer } in
              let asked = change_request rid g n in
              let a = asked_lem atoi 0 st.spec rid n.cache g st n found in
              let p =
                fetch_chunk atoi turn.now turn.during
                  (record { request_id = rid; max_rows = want; block = true }) asked in
              let k =
                fetch_chunk-Carried turn.now want turn.during printed (g st) asked a.0 during
                  (before printed st.buffer s) in
              elim (Bool-cases p.1.final) [
                | inl last ↦
                    rw (on, fetch_loop)
                      (rw (fine, fetch_loop) (rw (last, fetch_loop) (k.ends last)))
                | inr more ↦
                    let (st', found', s') = k.goes_on more in
                    rw (on, fetch_loop)
                      (rw (fine, fetch_loop)
                        (rw (more, fetch_loop)
                          (loop-IsPrinted turns p.1.suggested_next_max (printed ++ p.1.rows) st' p.0
                            found' follow s')))
              ]
        ]
      ]

-- A client of a request whose buffer has given out nothing yet, while other threads bring the rows of
-- `all` in their order, finish only when all have come, and do not cancel: when the last chunk comes,
-- the client has printed exactly these rows, each once, in this order. A session that ends otherwise,
-- or goes on, has printed the first of them.
pub fetch_loop-IsPrinted :
    {D : Type 0} ⦃f : Floating D⦄ ⦃h : Hashing D⦄ ⦃t : Timing D⦄ (atoi : String → ℤ) (rid : String)
    (all : List (Row311 D)) (turns : List (Turn D)) (want : ℕ) (st : RequestState D)
    (n : NodeServer D)
    → find rid n.registry ≡ some st
    → AllFollow all turns
    → Streams all [] st.buffer
    → IsPrinted all (fetch_loop atoi rid turns want [] n)
fetch_loop-IsPrinted atoi rid all turns want st n found follow s =
    loop-IsPrinted atoi rid all turns want [] st n found follow s
