-- ===== src/Client/Ended.antt =====
-- The loop of cpp/src/client_main.cpp when all producers of its request are done: how many calls of
-- `FetchChunk` it takes until the last chunk.
use mathlib.Core.Path.{subst}
use mini2_aaa.Base.{
  string_eq, same, ℕ, ◌+◌, ◌≤◌, ◌<◌, ◌≡◌, refl, sym, ap, ◌∙◌, String, true, false, List, [], ◌∷◌,
  ◌++◌, ◌⊎◌, some, Bool-cases, List-cases, inl, inr, find, find-insert, leb, length, length-drop,
  take-append-drop, append_assoc, append-nil, arith, ◌==◌,
}
use mini2_aaa.Base.Int.{ℤ, pos, pos_part}
use mini2_aaa.Domain.{Floating, Row311}
use mini2_aaa.Config.{param_int}
use mini2_aaa.Buffer.{Buffer, pop_up_to, drain, waits, is_final}
use mini2_aaa.Cache.{Hashing}
use mini2_aaa.Registry.{Timing, RequestState, record_fetch, clamped}
use mini2_aaa.Node.{NodeServer, change_request}
use mini2_aaa.Node.Portal.{wanted, ChunkResponse, accumulate, response, finish_fetch, fetch_chunk}
use mini2_aaa.Client.{Turn, Session, fetch_loop}
use mini2_aaa.Client.Fetched.{if_then, finish_more, finish_last}
use mini2_aaa.Client.Cached.{asked_lem}
use mini2_aaa.Client.Printed.{accumulate-buffer}

-- Rounds in which the user does not interrupt, no call fails, and no thread changes the buffer between
-- two calls.
abbrev pub AllQuiet : {D : Type 0} → List (Turn D) → Type 0
AllQuiet [] = Unit
AllQuiet {D} (turn ∷ turns) =
    (turn.interrupted ≡ false)
    × (turn.fails ≡ false)
    × ((b : Buffer (Row311 D)) → turn.before b ≡ b)
    × AllQuiet turns

-- A live request whose producers are done, and whose chunks are not empty.
pub record IsReady {D : Type 0} (st : RequestState D) : Type 0 where
  pub live : st.buffer.canceled ≡ false
  pub done : st.buffer.expected_producers ≤ length st.buffer.done
  pub least : 1 ≤ st.min_chunk
  pub most : 1 ≤ st.max_chunk

pop_ready :
    {Row : Type 0} (k ms : ℕ) (during : Buffer Row → Buffer Row) (b : Buffer Row)
    → 1 ≤ k
    → b.canceled ≡ false
    → b.expected_producers ≤ length b.done
    → pop_up_to k ms during b ≡ drain k b
unfolding pop_up_to
pop_ready k ms during b some_ live done =
    let more : (k == 0) ≡ false = ground arith in
    let over : leb b.expected_producers (length b.done) ≡ true = ground arith in
    let stays : waits ms b ≡ false = elim (List-cases b.q) [
      | inl e ↦ rw (e, waits) (rw (live, over) refl)
      | inr (x, xs, e) ↦ rw (e, waits) refl
    ] in
    rw (more, stays) refl

clamped_some : (lo hi s : ℕ) → 1 ≤ lo → 1 ≤ hi → 1 ≤ clamped lo hi s
clamped_some lo hi s l h = ground arith

module _ {D : Type 0} where
  wanted_some :
      (want : ℕ) (st : RequestState D)
      → 1 ≤ st.suggested_chunk
      → 1 ≤ st.max_chunk
      → 1 ≤ wanted want st
  unfolding wanted
  wanted_some want st s m = ground arith

  IsReady-kept :
      (st st' : RequestState D)
      → st'.buffer ≡ st.buffer
      → st'.min_chunk ≡ st.min_chunk
      → st'.max_chunk ≡ st.max_chunk
      → IsReady st
      → IsReady st'
  IsReady-kept st st' b l m r = record {
    live = ap (λ b. b.canceled) b ∙ r.live;
    done = subst (λ b. b.expected_producers ≤ length b.done) (sym b) r.done;
    least = subst (λ k. 1 ≤ k) (sym l) r.least;
    most = subst (λ k. 1 ≤ k) (sym m) r.most;
  }

  accumulate-bounds :
      (rows : List (Row311 D)) (st : RequestState D)
      → ((accumulate rows st).min_chunk ≡ st.min_chunk)
        × ((accumulate rows st).max_chunk ≡ st.max_chunk)
  unfolding accumulate
  accumulate-bounds rows st = elim (Bool-cases st.cache_collect) [
    | inr off ↦ rw off (refl, refl)
    | inl on ↦
        rw on (elim (Bool-cases (leb (length st.cache_accum + length rows) st.cache_max_rows)) [
          | inl few ↦ rw few (refl, refl)
          | inr many ↦ rw many (refl, refl)
        ])
  ]

  is_final_empty : (st : RequestState D) → IsReady st → st.buffer.q ≡ [] → is_final st.buffer ≡ true
  unfolding is_final
  is_final_empty st r e = ground (arith, r.live, r.done, e)

  is_final_more :
      (st : RequestState D) (x : Row311 D) (xs : List (Row311 D))
      → IsReady st
      → st.buffer.q ≡ x ∷ xs
      → is_final st.buffer ≡ false
  unfolding is_final
  is_final_more st x xs r e = ground (arith, r.live, e)

module _ {D : Type 0} ⦃f : Floating D⦄ ⦃h : Hashing D⦄ ⦃t : Timing D⦄ (atoi : String → ℤ)
    (rid : String) where
  -- A fetch hands out the last rows of `q`, or some, and leaves the others.
  abbrev Next : List (Row311 D) → NodeServer D × ChunkResponse D → Type 0
  Next q p =
      ((p.1.final ≡ true) × (p.1.rows ≡ q))
      ⊎ ((p.1.final ≡ false)
          × ((st : RequestState D) × (find rid p.0.registry ≡ some st)
              × IsReady st
              × (p.1.rows ++ st.buffer.q ≡ q)
              × (length st.buffer.q < length q)))

  finish_fetch-Next :
      (q rows : List (Row311 D)) (old st : RequestState D) (n : NodeServer D)
      → find rid n.registry ≡ some old
      → IsReady st
      → rows ++ st.buffer.q ≡ q
      → (1 ≤ length st.buffer.q → length st.buffer.q < length q)
      → Next q (finish_fetch atoi rid rows st n)
  unfolding response
  finish_fetch-Next q rows old st n found r w less =
      let st' = accumulate rows st in
      let b = accumulate-buffer rows st in
      elim (List-cases st.buffer.q) [
        | inl e ↦
            let last : is_final st'.buffer ≡ true = ap is_final b ∙ is_final_empty st r e in
            subst (Next q) (sym (finish_last atoi 0 st.spec rid rows old st n found last))
              (inl (last, sym (append-nil rows) ∙ (ap (◌++◌ rows) (sym e) ∙ w)))
        | inr (x, xs, e) ↦
            let more : is_final st'.buffer ≡ false = ap is_final b ∙ is_final_more st x xs r e in
            let k = accumulate-bounds rows st in
            subst (Next q) (sym (finish_more atoi 0 st.spec rid rows old st n found more)) (
              inr (
                more,
                (
                  st',
                  find-insert rid rid st' n.registry
                      ∙ if_then (same rid rid) _ _ ((string_eq.beq_iff rid rid).1 refl),
                  IsReady-kept st st' b k.0 k.1 r,
                  ap (λ b. rows ++ b.q) b ∙ w,
                  subst (λ b. length b.q < length q) (sym b) (less (rw e (omega arith))),
                ),
              ))
      ]

  fetch_chunk-Next :
      (now want : ℕ) (during : Buffer (Row311 D) → Buffer (Row311 D)) (st : RequestState D)
      (n : NodeServer D)
      → find rid n.registry ≡ some st
      → IsReady st
      → Next st.buffer.q (
          fetch_chunk atoi now during
            (record { request_id = rid; max_rows = want; block = true })
            n)
  unfolding fetch_chunk record_fetch drain
  fetch_chunk-Next now want during st n found r =
      let st1 = record_fetch now st in
      let ms = pos_part (param_int atoi "fetch_block_ms" (pos 150) n.cfg) in
      let k = wanted want st1 in
      let some_ : 1 ≤ k =
        wanted_some want st1 (clamped_some st.min_chunk st.max_chunk _ r.least r.most) r.most in
      let st' = λ (g : Buffer (Row311 D) × List (Row311 D)). record st1 { buffer = g.0 } in
      let out = drain k st1.buffer in
      let popped : pop_up_to k ms during st1.buffer ≡ out =
        pop_ready k ms during st1.buffer some_ r.live r.done in
      let e : fetch_chunk atoi now during
            (record { request_id = rid; max_rows = want; block = true }) n
          ≡ finish_fetch atoi rid out.1 (st' out) n =
        rw (found, fetch_chunk) (ap (λ g. finish_fetch atoi rid g.1 (st' g) n) popped) in
      subst (Next st.buffer.q) (sym e) (
        finish_fetch-Next st.buffer.q out.1 st (st' out) n found
          (record { live = r.live; done = r.done; least = r.least; most = r.most })
          (take-append-drop k st.buffer.q) (λ some_left. omega (arith, length-drop k st.buffer.q)))

  -- With more quiet rounds than rows, the client gets the last chunk, and has printed all rows by then.
  pub loop-ends :
      (turns : List (Turn D)) (want : ℕ) (printed : List (Row311 D)) (st : RequestState D)
      (n : NodeServer D)
      → find rid n.registry ≡ some st
      → IsReady st
      → AllQuiet turns
      → length st.buffer.q < length turns
      → (r : ChunkResponse D) × (n' : NodeServer D) × (fetch_loop atoi rid turns want printed n
          ≡ Session.finished r (printed ++ st.buffer.q) n')
  unfolding fetch_loop
  loop-ends [] want printed st n found ready quiet few = absurd (omega arith)
  loop-ends (turn ∷ turns) want printed st n found ready (on, fine, same_, quiet) few =
      let g = λ (st : RequestState D). record st { buffer = turn.before st.buffer } in
      let asked = change_request rid g n in
      let a = asked_lem atoi 0 st.spec rid n.cache g st n found in
      let there : find rid asked.registry ≡ some st =
        a.0 ∙ ap (λ b. some (record st { buffer = b })) (same_ st.buffer) in
      let p =
        fetch_chunk atoi turn.now turn.during
          (record { request_id = rid; max_rows = want; block = true }) asked in
      elim (fetch_chunk-Next turn.now want turn.during st asked there ready) [
        | inl (last, all) ↦ (
          p.1,
          p.0,
          rw (on, fetch_loop)
              (rw (fine, fetch_loop)
                (rw (last, fetch_loop)
                  (ap (λ rows. Session.finished p.1 (printed ++ rows) p.0) all))),
        )
        | inr (more, (st', found', ready', whole, less)) ↦
            let (r, n', e) =
              loop-ends turns p.1.suggested_next_max (printed ++ p.1.rows) st' p.0 found' ready'
                quiet (omega arith) in
            (
              r,
              n',
              rw (on, fetch_loop)
                  (rw (fine, fetch_loop)
                    (rw (more, fetch_loop)
                      (e
                        ∙ ap (λ rows. Session.finished r rows n')
                            (append_assoc printed p.1.rows st'.buffer.q
                              ∙ ap (◌++◌ printed) whole)))),
            )
      ]
