-- ===== src/Client/Repeated.antt =====
-- A query that is asked again: the cache of cpp/src/NodeServer.cpp after a session of
-- cpp/src/client_main.cpp.
use mathlib.Core.Path.{subst}
use mini2_aaa.Base.{
  string_eq, ℕ, ◌≤◌, ◌≡◌, ◌≢◌, ap, ◌∙◌, String, Bool, true, false, not, if◌then◌else◌, ◌&&◌, List,
  [], some, find, length, leb, arith,
}
use mini2_aaa.Base.Int.{ℤ}
use mini2_aaa.Domain.{Floating, Row311}
use mini2_aaa.Cache.{Hashing, spec_equal}
use mini2_aaa.Cache
use mini2_aaa.Cache.Laws.{IsValid, get-put}
use mini2_aaa.Registry.{Timing, RequestState}
use mini2_aaa.Node.{NodeServer}
use mini2_aaa.Node.Portal.{ChunkResponse}
use mini2_aaa.Client.{Turn, Session, fetch_loop}
use mini2_aaa.Client.Cached.{IsCached, fetch_loop-IsCached}

if_both {ℓ} :
    {A : Type ℓ} (a b : ℕ) (c : Bool) (x y : A)
    → a ≤ b
    → c ≡ false
    → (if leb a b && not c then x else y) ≡ x
if_both a b c x y le e = ground arith

-- After a session that ends with a last chunk, the cache answers the same query with exactly the rows
-- that the client printed: where the request was collected from its start, was not cancelled, and the
-- rows are within the bounds of the request and of a valid cache with a capacity other than 0.
pub fetch_loop-get :
    {D : Type 0} ⦃f : Floating D⦄ ⦃h : Hashing D⦄ ⦃t : Timing D⦄ (atoi : String → ℤ) (rid : String)
    (turns : List (Turn D)) (want : ℕ) (st : RequestState D) (n n' : NodeServer D)
    (r : ChunkResponse D) (rows : List (Row311 D))
    → find rid n.registry ≡ some st
    → st.cache_collect ≡ true
    → st.cache_accum ≡ []
    → fetch_loop atoi rid turns want [] n ≡ Session.finished r rows n'
    → r.canceled ≡ false
    → length rows ≤ st.cache_max_rows
    → IsValid n.cache
    → n.cache.capacity ≢ 0
    → length rows ≤ n.cache.max_rows
    → spec_equal st.spec st.spec ≡ true
    → (Cache.get st.spec n'.cache).1 ≡ some rows
fetch_loop-get atoi rid turns want st n n' r rows found on empty ended live few valid some_room fits
      reflexive =
    let k =
      subst (IsCached st.cache_max_rows st.spec rid n.cache) ended
        (fetch_loop-IsCached atoi rid turns want st n found on empty) in
    ap (λ c. (Cache.get st.spec c).1)
      (k.1
        ∙ if_both (length rows) st.cache_max_rows r.canceled (Cache.put st.spec rows n.cache)
            n.cache few live)
    ∙ get-put st.spec rows n.cache valid some_room fits reflexive
