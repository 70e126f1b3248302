-- ===== src/Node/Submitted.antt =====
-- `SubmitQuery` of cpp/src/NodeServer.cpp where the cache does not know the query: it goes out to the
-- nodes.
use mini2_aaa.Base.{
  string_eq, ℕ, ◌+◌, ◌≤◌, ◌≡◌, refl, ap, ◌∙◌, String, true, false, List, [], none, some, find,
  insert, find-insert, arith, contains, ◌%◌, ◌^◌,
}
use mini2_aaa.Base.Int.{ℤ}
use mini2_aaa.Domain.{Floating}
use mini2_aaa.Cache.{Hashing}
use mini2_aaa.Cache
use mini2_aaa.Config.{NodeEntry, node}
use mini2_aaa.Registry.{Timing, Registry, create}
use mini2_aaa.Node.{NodeServer}
use mini2_aaa.Node.Network.{Net}
use mini2_aaa.Node.Portal.{SubmitRequest, new_request_id, fresh_request}
use mini2_aaa.Node.Submit.{submit_query, taken, launch}
use mini2_aaa.Node.Views.{
  wire_view, up_view, jobs_view, unrouted, unrouted-insert, view-insert, wiring, is_some,
}
use mini2_aaa.Node.Launch.{IsNew, IsUnderWay, Connected, here, next, launch-IsUnderWay}

-- The id that the next request gets.
abbrev pub next_id : {D : Type 0} (show : ℕ → String) (hex me : String) → NodeServer D → String
next_id show hex me n = (new_request_id show hex me n).1

-- A change of the cache, the counter and the registry of a node.
module _ {D : Type 0} (rid me : String) (n : NodeServer D) (cache : Cache.QueryCache D)
    (counter : ℕ) (registry : Registry D) (net : Net D) (found : find me net ≡ some n) where
  abbrev pub n1 : NodeServer D
  n1 = record n { cache = cache; req_counter = counter; registry = registry }

  abbrev pub net1 : Net D
  net1 = insert me n1 net

  pub found1 : find me net1 ≡ some n1
  found1 = find-insert me me n1 net ∙ rw ((string_eq.beq_iff me me).1 refl) refl

  pub wired : (x : String) → wiring x net1 ≡ wiring x net
  wired x = view-insert me net n n1 found wire_view x refl

  pub same-unrouted : unrouted rid net1 ≡ unrouted rid net
  same-unrouted = (let t = unrouted-insert me rid n n1 net found in omega arith)

  pub net1-IsNew : IsNew rid net → IsNew rid net1
  net1-IsNew new = record {
    no_route =
        λ x. view-insert me net n n1 found (λ o. is_some (up_view rid o)) x refl ∙ new.no_route x;
    no_worker = λ x. view-insert me net n n1 found (jobs_view rid) x refl ∙ new.no_worker x;
  }

  pub Connected-kept : {root x : String} → Connected net root x → Connected net1 root x
  Connected-kept here = here
  Connected-kept (next x y c m l) =
      next x y (Connected-kept c)
        (ap (λ w. contains y (elim w as (λ _. List String) [ none ↦ [] | some w ↦ w.1 ])) (wired x)
          ∙ m)
        (ap is_some (wired y) ∙ l)

  IsUnderWay-from : (net' : Net D) → IsUnderWay rid me net1 net' → IsUnderWay rid me net net'
  IsUnderWay-from net' u = record {
    everyone = λ x c. u.everyone x (Connected-kept c);
    once = u.once;
    way_up = λ x e. let (k, lt, l) = u.way_up x e in (k, (let t = same-unrouted in omega arith), l);
  }

module _ {D : Type 0} ⦃f : Floating D⦄ ⦃h : Hashing D⦄ ⦃t : Timing D⦄ (atoi : String → ℤ)
    (show : ℕ → String) (clock : String → ℕ) (now issued : ℕ) (hex : String) (fuel : ℕ)
    (net : Net D) (me : String) (req : SubmitRequest D) (n : NodeServer D) (entry : NodeEntry)
    (found : find me net ≡ some n) (listed : node me n.cfg ≡ some entry)
    (root : entry.is_root ≡ true) where
  abbrev rid : String
  rid = next_id show hex me n

  -- The registry with the new request.
  abbrev with_fresh : Registry D
  with_fresh = create (fresh_request atoi now rid req n.cfg) n.registry

  abbrev counter : ℕ
  counter = (n.req_counter + 1) % 2 ^ 64

  missed :
      (Cache.get req.spec n.cache).1 ≡ none
      → (net' : Net D)
      → (let c = (Cache.get req.spec n.cache).0 in
          launch clock issued fuel me rid req.spec
            (record n { cache = c; req_counter = counter; registry = with_fresh })
            (insert me (record n { cache = c; req_counter = counter; registry = with_fresh }) net)
          ≡ some net')
      → submit_query atoi show clock now issued hex fuel net me req
        ≡ some (net', some (taken rid false))
  unfolding submit_query new_request_id
  missed miss net' e =
      rw (found, submit_query)
        (rw (listed, submit_query)
          (rw (root, submit_query) (rw (miss, submit_query) (rw (e, submit_query) refl))))

-- The portal when it has taken a query that its cache does not know.
abbrev pub opened :
    {D : Type 0} ⦃f : Floating D⦄ ⦃h : Hashing D⦄ ⦃t : Timing D⦄ (atoi : String → ℤ)
    (show : ℕ → String) (now : ℕ) (hex me : String)
    → SubmitRequest D
    → NodeServer D
    → NodeServer D
opened atoi show now hex me req n = record n {
  cache = (Cache.get req.spec n.cache).0;
  req_counter = (n.req_counter + 1) % 2 ^ 64;
  registry = create (fresh_request atoi now (next_id show hex me n) req n.cfg) n.registry;
}

-- The launch of a query that the cache does not know, and what it leaves.
pub submit_query-launched :
    {D : Type 0} ⦃f : Floating D⦄ ⦃h : Hashing D⦄ ⦃t : Timing D⦄ (atoi : String → ℤ)
    (show : ℕ → String) (clock : String → ℕ) (now issued : ℕ) (hex : String) (fuel : ℕ)
    (net : Net D) (me : String) (req : SubmitRequest D) (n : NodeServer D) (entry : NodeEntry)
    → find me net ≡ some n
    → node me n.cfg ≡ some entry
    → entry.is_root ≡ true
    → (Cache.get req.spec n.cache).1 ≡ none
    → IsNew (next_id show hex me n) net
    → unrouted (next_id show hex me n) net ≤ fuel
    → (net' : Net D) × (submit_query atoi show clock now issued hex fuel net me req
        ≡ some (net', some (taken (next_id show hex me n) false)))
      × IsUnderWay (next_id show hex me n) me net net'
      × (launch clock issued fuel me
            (next_id show hex me n)
            req.spec
            (opened atoi show now hex me req n)
            (insert me (opened atoi show now hex me req n) net)
          ≡ some net')
submit_query-launched atoi show clock now issued hex fuel net me req n entry found listed root miss
      new enough =
    let rid = next_id show hex me n in
    let c = (Cache.get req.spec n.cache).0 in
    let k = (n.req_counter + 1) % 2 ^ 64 in
    let g = create (fresh_request atoi now rid req n.cfg) n.registry in
    let start = net1 rid me n c k g net found in
    let (net', e, u) =
      launch-IsUnderWay rid me clock issued fuel req.spec start (n1 rid me n c k g net found)
        (found1 rid me n c k g net found) (net1-IsNew rid me n c k g net found new)
        (let t = same-unrouted rid me n c k g net found in omega arith) in
    (
      net',
      missed atoi show clock now issued hex fuel net me req n entry found listed root miss net' e,
      IsUnderWay-from rid me n c k g net found net' u,
      e,
    )

-- At the root, a query that the cache does not know and for whose new id no node has a route or a worker
-- is accepted, with fuel for as many nested calls as there are nodes without a route: then each node that
-- the overlay connects to the root has exactly one worker for it, no node has two, and each node with a
-- worker has a way up to the root.
pub submit_query-IsUnderWay :
    {D : Type 0} ⦃f : Floating D⦄ ⦃h : Hashing D⦄ ⦃t : Timing D⦄ (atoi : String → ℤ)
    (show : ℕ → String) (clock : String → ℕ) (now issued : ℕ) (hex : String) (fuel : ℕ)
    (net : Net D) (me : String) (req : SubmitRequest D) (n : NodeServer D) (entry : NodeEntry)
    → find me net ≡ some n
    → node me n.cfg ≡ some entry
    → entry.is_root ≡ true
    → (Cache.get req.spec n.cache).1 ≡ none
    → IsNew (next_id show hex me n) net
    → unrouted (next_id show hex me n) net ≤ fuel
    → (net' : Net D) × (submit_query atoi show clock now issued hex fuel net me req
        ≡ some (net', some (taken (next_id show hex me n) false)))
      × IsUnderWay (next_id show hex me n) me net net'
submit_query-IsUnderWay atoi show clock now issued hex fuel net me req n entry found listed root
      miss new enough =
    let (net', e, u, l) =
      submit_query-launched atoi show clock now issued hex fuel net me req n entry found listed root
        miss new enough in
    (net', e, u)
