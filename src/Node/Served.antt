-- ===== src/Node/Served.antt =====
-- `SubmitQuery` of cpp/src/NodeServer.cpp where the cache knows the query: it is answered from there.
use mini2_aaa.Base.{
  string_eq, same, ℕ, ◌+◌, ◌≤◌, ◌≡◌, refl, ◌∙◌, String, Bool, true, false, if◌then◌else◌, List, [],
  ◌∷◌, some, Bool-cases, inl, inr, find, insert, find-insert, arith, length, insert_set, ◌%◌, ◌^◌,
}
use mini2_aaa.Base.Int.{ℤ}
use mini2_aaa.Domain.{Floating, Row311}
use mini2_aaa.Cache.{Hashing}
use mini2_aaa.Cache
use mini2_aaa.Config.{Config, NodeEntry, node}
use mini2_aaa.Buffer.{
  Buffer, new_buffer, push_rows, mark_producer_started, mark_producer_done, pending_producers,
}
use mini2_aaa.Registry.{Timing, RequestState, Registry, create}
use mini2_aaa.Node.{NodeServer, deposit}
use mini2_aaa.Node.Network.{Net}
use mini2_aaa.Node.Portal.{
  open_request, size_param, u32_param, SubmitRequest, new_request_id, cached_request,
}
use mini2_aaa.Node.Submit.{submit_query, taken}
use mini2_aaa.Node.Deposit.{deposit-q}
use mini2_aaa.Node.Submitted.{next_id}

if_same {ℓ} : {A : Type ℓ} {b : Bool} (x y : A) → b ≡ true → (if b then x else y) ≡ x
if_same x y e = rw e refl

abbrev cache_id : String
cache_id = "__cache__"

pending_cached :
    {D : Type 0} (rows : List (Row311 D)) (b : Buffer (Row311 D))
    → b.done ≡ []
    → b.expected_producers ≡ 1
    → pending_producers (deposit rows true cache_id b) ≡ 0
unfolding deposit mark_producer_done push_rows pending_producers insert_set
pending_cached [] b e k = rw e (rw k refl)
pending_cached (r ∷ rows) b e k = elim (Bool-cases b.canceled) [
  | inl yes_ ↦ rw (yes_, deposit) (rw e (rw k refl))
  | inr no_ ↦ rw (no_, deposit) (rw e (rw k refl))
]

unread_cached :
    {D : Type 0} (rows : List (Row311 D)) (b : Buffer (Row311 D))
    → b.canceled ≡ false
    → b.rows_served ≡ 0
    → ((deposit rows true cache_id b).canceled ≡ false)
      × ((deposit rows true cache_id b).rows_served ≡ 0)
unfolding deposit mark_producer_done push_rows
unread_cached [] b e k = (e, k)
unread_cached (r ∷ rows) b e k = rw (e, deposit) (refl, k)

-- A request that its node answers by itself, with the bounds of its chunks: all rows are in its buffer, no producer is pending, and no
-- other node has changed, nor have the node's workers and routes.
pub record IsServed {D : Type 0} (rid me : String) (n : NodeServer D) (rows : List (Row311 D))
    (lo hi : ℕ) (net net' : Net D) : Type 0 where
  pub after : NodeServer D
  pub there : find me net' ≡ some after
  pub request : RequestState D
  pub open_ : find rid after.registry ≡ some request
  pub ready : request.buffer.q ≡ rows
  pub settled : pending_producers request.buffer ≡ 0
  pub unread : (request.buffer.canceled ≡ false) × (request.buffer.rows_served ≡ 0)
  pub chunks : (request.min_chunk ≡ lo) × (request.max_chunk ≡ hi)
  pub idle : (after.workers ≡ n.workers) × (after.routes ≡ n.routes)
  pub others : (x : String) → same me x ≡ false → find x net' ≡ find x net

module _ {D : Type 0} ⦃f : Floating D⦄ ⦃h : Hashing D⦄ ⦃t : Timing D⦄ (atoi : String → ℤ) (now : ℕ)
    (rid : String) (req : SubmitRequest D) (rows : List (Row311 D)) (cfg : Config) where
  abbrev ready_request : RequestState D
  ready_request = cached_request atoi now rid req rows cfg

  ready_q :
      length rows ≤ size_param atoi "chunk_buffer_cap" 65536 cfg → ready_request.buffer.q ≡ rows
  unfolding cached_request open_request mark_producer_started new_buffer
  ready_q fits =
      deposit-q cache_id (record { rows = rows; done = true })
        (mark_producer_started cache_id
          (new_buffer (size_param atoi "chunk_buffer_cap" 65536 cfg) 1))
        (record { live = refl; fits = omega arith })

  ready_settled : pending_producers ready_request.buffer ≡ 0
  unfolding cached_request open_request mark_producer_started new_buffer
  ready_settled =
      pending_cached rows
        (mark_producer_started cache_id
          (new_buffer (size_param atoi "chunk_buffer_cap" 65536 cfg) 1))
        refl refl

  ready_unread : (ready_request.buffer.canceled ≡ false) × (ready_request.buffer.rows_served ≡ 0)
  unfolding cached_request open_request mark_producer_started new_buffer
  ready_unread =
      unread_cached rows
        (mark_producer_started cache_id
          (new_buffer (size_param atoi "chunk_buffer_cap" 65536 cfg) 1))
        refl refl

  ready_chunks :
      (ready_request.min_chunk ≡ u32_param atoi "min_chunk_rows" 64 cfg)
      × (ready_request.max_chunk ≡ u32_param atoi "max_chunk_rows" 4096 cfg)
  unfolding cached_request open_request
  ready_chunks = (refl, refl)

  ready_filed : (reqs : Registry D) → find rid (create ready_request reqs) ≡ some ready_request
  unfolding create cached_request open_request
  ready_filed reqs =
      find-insert rid rid ready_request reqs ∙ if_same _ _ ((string_eq.beq_iff rid rid).1 refl)

-- At the root, a query whose rows the cache has is accepted and answered from it: if they fit the buffer
-- of a request, exactly these rows are in it for the client, none are out yet, it is not
-- canceled, no producer is pending, and no node is asked.
pub submit_query-IsServed :
    {D : Type 0} ⦃f : Floating D⦄ ⦃h : Hashing D⦄ ⦃t : Timing D⦄ (atoi : String → ℤ)
    (show : ℕ → String) (clock : String → ℕ) (now issued : ℕ) (hex : String) (fuel : ℕ)
    (net : Net D) (me : String) (req : SubmitRequest D) (n : NodeServer D) (entry : NodeEntry)
    (rows : List (Row311 D))
    → find me net ≡ some n
    → node me n.cfg ≡ some entry
    → entry.is_root ≡ true
    → (Cache.get req.spec n.cache).1 ≡ some rows
    → length rows ≤ size_param atoi "chunk_buffer_cap" 65536 n.cfg
    → (net' : Net D) × (submit_query atoi show clock now issued hex fuel net me req
        ≡ some (net', some (taken (next_id show hex me n) true)))
      × IsServed
          (next_id show hex me n)
          me
          n
          rows
          (u32_param atoi "min_chunk_rows" 64 n.cfg)
          (u32_param atoi "max_chunk_rows" 4096 n.cfg)
          net
          net'
unfolding submit_query new_request_id
submit_query-IsServed atoi show clock now issued hex fuel net me req n entry rows found listed root
      hit fits =
    let rid = next_id show hex me n in
    let after = record n {
      cache = (Cache.get req.spec n.cache).0;
      req_counter = (n.req_counter + 1) % 2 ^ 64;
      registry = create (cached_request atoi now rid req rows n.cfg) n.registry;
    } in
    (
      insert me after net,
      rw (found, submit_query)
          (rw (listed, submit_query) (rw (root, submit_query) (rw (hit, submit_query) refl))),
      record {
        after = after;
        there = find-insert me me after net ∙ if_same _ _ ((string_eq.beq_iff me me).1 refl);
        request = cached_request atoi now rid req rows n.cfg;
        open_ = ready_filed atoi now rid req rows n.cfg n.registry;
        ready = ready_q atoi now rid req rows n.cfg fits;
        settled = ready_settled atoi now rid req rows n.cfg;
        unread = ready_unread atoi now rid req rows n.cfg;
        chunks = ready_chunks atoi now rid req rows n.cfg;
        idle = (refl, refl);
        others = λ x e. find-insert me x after net ∙ rw e refl;
      },
    )
