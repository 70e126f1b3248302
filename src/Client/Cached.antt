-- ===== src/Client/Cached.antt =====
-- `FetchChunk` of cpp/src/NodeServer.cpp with the loop of cpp/src/client_main.cpp: the copy of the rows
-- that the portal keeps for its cache is what the client prints.
use mini2_aaa.Base.{
  string_eq, same, ℕ, ◌≡◌, refl, ap, ◌∙◌, String, true, List, [], ◌∷◌, ◌++◌, none, some, Bool-cases,
  inl, inr, find, find-insert, arith,
}
use mini2_aaa.Base.Int.{ℤ}
use mini2_aaa.Domain.{Floating, QuerySpec, Row311}
use mini2_aaa.Cache.{Hashing}
use mini2_aaa.Cache
use mini2_aaa.Registry.{Timing, RequestState}
use mini2_aaa.Node.{NodeServer, change_request}
use mini2_aaa.Node.Portal.{fetch_chunk}
use mini2_aaa.Client.{Turn, Session, fetch_loop}
use mini2_aaa.Client.Fetched.{Shadows, cached_after, if_then, Shadows-kept, fetch_chunk-Fetched}

-- What a session leaves of the portal: at its end the request is gone, and the cache has the rows
-- printed if they are few enough and the request was not cancelled; otherwise the cache is as before.
abbrev pub IsCached :
    {D : Type 0} ⦃f : Floating D⦄ ⦃h : Hashing D⦄ (limit : ℕ) (spec : QuerySpec D) (rid : String)
    → Cache.QueryCache D
    → Session D
    → Type 0
IsCached limit spec rid c (Session.finished r rows n) =
    (find rid n.registry ≡ none) × (n.cache ≡ cached_after limit spec r.canceled rows c)
IsCached limit spec rid c (Session.fetching want rows n) = n.cache ≡ c
IsCached limit spec rid c (Session.canceling rows n) = n.cache ≡ c
IsCached limit spec rid c (Session.fetch_failed rows n) = n.cache ≡ c

module _ {D : Type 0} ⦃f : Floating D⦄ ⦃h : Hashing D⦄ ⦃t : Timing D⦄ (atoi : String → ℤ)
    (limit : ℕ) (spec : QuerySpec D) (rid : String) (c : Cache.QueryCache D) where
  pub asked_lem :
      (g : RequestState D → RequestState D) (st : RequestState D) (n : NodeServer D)
      → find rid n.registry ≡ some st
      → (find rid (change_request rid g n).registry ≡ some (g st))
        × ((change_request rid g n).cache ≡ n.cache)
  unfolding change_request
  asked_lem g st n found = (
    rw (found, change_request)
        (find-insert rid rid (g st) n.registry
          ∙ if_then (same rid rid) _ _ ((string_eq.beq_iff rid rid).1 refl)),
    rw (found, change_request) refl,
  )

  loop-IsCached :
      (turns : List (Turn D)) (want : ℕ) (printed : List (Row311 D)) (st : RequestState D)
      (n : NodeServer D)
      → find rid n.registry ≡ some st
      → Shadows limit spec printed st
      → n.cache ≡ c
      → IsCached limit spec rid c (fetch_loop atoi rid turns want printed n)
  unfolding fetch_loop
  loop-IsCached [] want printed st n found s e = e
  loop-IsCached (turn ∷ turns) want printed st n found s e = elim (Bool-cases turn.interrupted) [
    | inl yes_ ↦ rw (yes_, fetch_loop) e
    | inr on ↦ elim (Bool-cases turn.fails) [
      | inl lost ↦ rw (on, fetch_loop) (rw (lost, fetch_loop) e)
      | inr fine ↦
          let g = λ (st : RequestState D). record st { buffer = turn.before st.buffer } in
          let asked = change_request rid g n in
          let a = asked_lem g st n found in
          let p =
            fetch_chunk atoi turn.now turn.during
              (record { request_id = rid; max_rows = want; block = true }) asked in
          let k =
            fetch_chunk-Fetched atoi limit spec rid turn.now want turn.during printed (g st) asked
              a.0 (Shadows-kept limit spec printed st (g st) refl refl refl refl s) in
          elim (Bool-cases p.1.final) [
            | inl last ↦
                let ends = k.ends last in
                rw (on, fetch_loop)
                  (rw (fine, fetch_loop)
                    (rw (last, fetch_loop)
                      (
                        ends.0,
                        ends.1
                            ∙ ap (cached_after limit spec p.1.canceled (printed ++ p.1.rows))
                                (a.1 ∙ e),
                      )))
            | inr more ↦
                let (st', found', s', kept) = k.goes_on more in
                rw (on, fetch_loop)
                  (rw (fine, fetch_loop)
                    (rw (more, fetch_loop)
                      (loop-IsCached turns p.1.suggested_next_max (printed ++ p.1.rows) st' p.0
                        found' s' (kept ∙ (a.1 ∙ e)))))
          ]
    ]
  ]

pub fetch_loop-IsCached :
    {D : Type 0} ⦃f : Floating D⦄ ⦃h : Hashing D⦄ ⦃t : Timing D⦄ (atoi : String → ℤ) (rid : String)
    (turns : List (Turn D)) (want : ℕ) (st : RequestState D) (n : NodeServer D)
    → find rid n.registry ≡ some st
    → st.cache_collect ≡ true
    → st.cache_accum ≡ []
    → IsCached st.cache_max_rows st.spec rid n.cache (fetch_loop atoi rid turns want [] n)
fetch_loop-IsCached atoi rid turns want st n found on empty =
    loop-IsCached atoi st.cache_max_rows st.spec rid n.cache turns want [] st n found
      (record { collects = on ∙ ground arith; copied = λ e. empty; bound = refl; query = refl })
      refl
