-- ===== src/Node/Whole.antt =====
-- The whole way of a query through cpp/src/NodeServer.cpp: from `SubmitQuery` to the portal's buffer with
-- the rows of all nodes.
use mathlib.Core.Path.{subst}
use mini2_aaa.Base.{
  string_eq, ℕ, ◌≤◌, ◌≡◌, refl, sym, ap, ◌∙◌, String, true, false, List, [], Option, none, some,
  find, insert, find-insert, length, some_inj,
}
use mini2_aaa.Base.Int.{ℤ}
use mini2_aaa.Cache.{Hashing}
use mini2_aaa.Cache
use mini2_aaa.Config.{NodeEntry, node, all_node_ids}
use mini2_aaa.Domain.{Floating}
use mini2_aaa.Registry.{Timing}
use mini2_aaa.Node.{NodeServer, self_route}
use mini2_aaa.Node.Network.{Net}
use mini2_aaa.Node.Portal.{size_param, SubmitRequest, SubmitAck}
use mini2_aaa.Node.Submit.{submit_query, taken}
use mini2_aaa.Node.Views.{
  option_map, alive, unrouted, wire_view, view-insert, is_some, upstream_of, up_view,
}
use mini2_aaa.Node.Spread.{is_some-none}
use mini2_aaa.Node.Delivery.{IsOverlay}
use mini2_aaa.Node.Launch.{IsNew, IsUnderWay}
use mini2_aaa.Node.Submitted.{next_id, opened, submit_query-launched, net1-IsNew}
use mini2_aaa.Node.Aimed.{request_held, held_of, still_view}
use mini2_aaa.Node.Threads.{left_over, AllEnded, interleave}
use mini2_aaa.Node.Started.{threads_of, run_view, total_rows, Unique, AllConnected}
use mini2_aaa.Node.Settled.{launch-Settles}
use mini2_aaa.Node.Answered.{IsAnswered, gathered-IsAnswered}
use mini2_aaa.Node.Opened.{fresh-held, fresh_filed, request_of, run_view-same}

-- When `SubmitQuery` at the root has accepted a query that its cache does not know, the threads that it
-- has started at the nodes with the given ids can take their turns in any order: no call fails, and when
-- all have ended, the portal's buffer has, of each of these nodes, exactly the chunks that the run of the
-- query on its rows hands over, in their order, and no other row, and no producer is pending. This holds
-- in an overlay in which no node is named like the portal's own route, for an id that no node knows, with
-- fuel for the nodes without a route, for different nodes that the overlay connects to the root, as many
-- as the topology has at least, and if the buffer of a request has room for their rows.
pub submit_query-IsAnswered :
    {D : Type 0} ⦃f : Floating D⦄ ⦃h : Hashing D⦄ ⦃t : Timing D⦄ (atoi : String → ℤ)
    (show : ℕ → String) (clock : String → ℕ) (now issued : ℕ) (hex : String) (fuel backoff : ℕ)
    (stamp : ℕ → ℕ) (net net' : Net D) (me : String) (req : SubmitRequest D) (n : NodeServer D)
    (entry : NodeEntry) (ids : List String) (schedule : List ℕ)
    → find me net ≡ some n
    → node me n.cfg ≡ some entry
    → entry.is_root ≡ true
    → (Cache.get req.spec n.cache).1 ≡ none
    → IsNew (next_id show hex me n) net
    → unrouted (next_id show hex me n) net ≤ fuel
    → IsOverlay me net
    → alive self_route net ≡ false
    → AllConnected net me ids
    → Unique ids
    → length (all_node_ids n.cfg) ≤ length ids
    → total_rows atoi req.spec net ids ≤ size_param atoi "chunk_buffer_cap" 65536 n.cfg
    → submit_query atoi show clock now issued hex fuel net me req
      ≡ some (net', some (taken (next_id show hex me n) false))
    → AllEnded (left_over schedule (threads_of atoi (next_id show hex me n) net' ids))
    → (after : Net D) × (interleave backoff fuel stamp schedule
          (threads_of atoi (next_id show hex me n) net' ids)
          net'
        ≡ some (left_over schedule (threads_of atoi (next_id show hex me n) net' ids), after))
      × IsAnswered atoi (next_id show hex me n) me req.spec net ids after
submit_query-IsAnswered atoi show clock now issued hex fuel backoff stamp net net' me req n entry
      ids schedule found listed root miss new enough overlay unnamed cs unique enough_ids room
      accepted ended =
    let rid = next_id show hex me n in
    let m = opened atoi show now hex me req n in
    let (net2, e, u, l) =
      submit_query-launched atoi show clock now issued hex fuel net me req n entry found listed root
        miss new enough in
    let q = some_inj (sym e ∙ accepted) in
    let same_net : net2 ≡ net' = ap (λ (t : Net _ × Option SubmitAck). t.0) q in
    let start = insert me m net in
    let there : find me start ≡ some m =
      find-insert me me m net ∙ rw ((string_eq.beq_iff me me).1 refl) refl in
    let fresh =
      is_some-none (upstream_of rid m)
        (sym (ap (λ o. is_some (up_view rid o)) found) ∙ new.no_route me) in
    let (s, aim) =
      launch-Settles rid req.spec clock issued fuel me m start net' there fresh
        (l ∙ ap some same_net) in
    let held : held_of rid m
        ≡ some (
          [],
          size_param atoi "chunk_buffer_cap" 65536 n.cfg,
          length (all_node_ids n.cfg),
          false,
        ) =
      ap (option_map request_held) (fresh_filed atoi now rid req n.cfg n.registry)
      ∙ ap some (fresh-held atoi now rid req n.cfg) in
    let open_ =
      request_of rid me net'
        ([], size_param atoi "chunk_buffer_cap" 65536 n.cfg, length (all_node_ids n.cfg), false)
        n.store (n.cfg, n.peer_clients)
        (s.still me
          ∙ (ap (still_view rid) there
              ∙ ap (λ k. some (n.store, (n.cfg, n.peer_clients), k)) held)) in
    gathered-IsAnswered atoi rid me req.spec fuel net start net'
      (λ x. view-insert me net n m found wire_view x refl) overlay unnamed
      (net1-IsNew rid me n m.cache m.req_counter m.registry net found new) s aim
      (subst (IsUnderWay rid me net) same_net u) enough
      (size_param atoi "chunk_buffer_cap" 65536 n.cfg) (length (all_node_ids n.cfg)) backoff stamp
      ids schedule open_
      (λ p.
        run_view-same atoi rid req.spec (find p net') (find p start) (s.still p)
        ∙ view-insert me net n m found (run_view atoi req.spec) p refl)
      cs unique enough_ids room ended
