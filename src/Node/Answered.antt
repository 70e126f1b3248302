-- ===== src/Node/Answered.antt =====
-- When the threads of a query that cpp/src/NodeServer.cpp has launched have ended, the portal's buffer has
-- the rows of all nodes.
use mathlib.Core.Path.{subst}
use mini2_aaa.Base.{
  string_eq, same, ℕ, ◌≤◌, ◌≡◌, refl, ap, ◌∙◌, String, true, false, if◌then◌else◌, List, [], ◌∷◌,
  some, inl, inr, find, arith, contains, length, same, Bool-cases, ◌++◌,
}
use mini2_aaa.Base.Int.{ℤ}
use mini2_aaa.Buffer.{pending_producers}
use mini2_aaa.Domain.{QuerySpec, Floating}
use mini2_aaa.Engine.{Chunk}
use mini2_aaa.Engine.Emit.{rows_of}
use mini2_aaa.Engine.Answer.{run-WellChunked}
use mini2_aaa.Registry.{RequestState}
use mini2_aaa.Node.{NodeServer, self_route}
use mini2_aaa.Node.Network.{Net}
use mini2_aaa.Node.Portal.{u32_param}
use mini2_aaa.Node.Views.{alive, unrouted, wiring, is_some}
use mini2_aaa.Node.Delivery.{IsOverlay, IsOverlay-kept}
use mini2_aaa.Node.Launch.{IsNew, IsUnderWay, Connected}
use mini2_aaa.Node.Aimed.{aim_view, Settles}
use mini2_aaa.Node.Threads.{left_over, chunks_from, all_rows, AllEnded, interleave}
use mini2_aaa.Node.Started.{
  threads_of, run_view, node_run, total_rows, Unique, AllConnected, Employed, job_at, IsNew-IsAimed,
}
use mini2_aaa.Node.Ways.{
  Home, AllHome, Distinct-threads, Ways-threads, rows_left-threads, chunks_at-threads,
}
use mini2_aaa.Node.Finished.{any_done, any_done-last, interleave-IsGathered}
use mini2_aaa.Node.Counted.{pending_none}
use mini2_aaa.Node.Opened.{Open, wire_view-same}

-- The rows of the nodes with the given ids at the portal: its buffer has the rows of `out`, which has, of
-- each of these nodes, the chunks of the run on its rows, in their order, and no other chunk; and no
-- producer is pending.
pub record IsAnswered {D : Type 0} ⦃f : Floating D⦄ (atoi : String → ℤ) (rid root : String)
    (spec : QuerySpec D) (net : Net D) (ids : List String) (after : Net D) : Type 0 where
  pub portal : NodeServer D
  pub there : find root after ≡ some portal
  pub request : RequestState D
  pub open_ : find rid portal.registry ≡ some request
  pub out : List (String × Chunk D)
  pub in_order : request.buffer.q ≡ all_rows out
  pub each :
      (p : String) → chunks_from p out ≡ (if contains p ids then node_run atoi spec net p else [])
  pub settled : pending_producers request.buffer ≡ 0

run_ends :
    {D : Type 0} ⦃f : Floating D⦄ (atoi : String → ℤ) {rid : String} {spec : QuerySpec D}
    {net : Net D} (id : String)
    → Employed rid spec net id
    → any_done (node_run atoi spec net id) ≡ true
run_ends atoi {spec} id j =
    let chunked =
      run-WellChunked j.n.store spec (u32_param atoi "initial_chunk_rows" 512 j.n.cfg)
        (λ k. false) in
    ap (λ o. any_done (run_view atoi spec o)) j.found
    ∙ (ap any_done chunked.split ∙ any_done-last chunked.before chunked.last chunked.finished)

module _ {D : Type 0} ⦃f : Floating D⦄ (atoi : String → ℤ) (rid root : String) (spec : QuerySpec D)
    (fuel : ℕ) (net start net' : Net D) (wired : (x : String) → wiring x start ≡ wiring x net)
    (overlay : IsOverlay root net) (unnamed : alive self_route net ≡ false) (new : IsNew rid start)
    (s : Settles rid spec start net')
    (top : aim_view rid (find root net') ≡ some (self_route, false))
    (under_way : IsUnderWay rid root net net') (enough : unrouted rid net ≤ fuel) where
  rewired : (x : String) → wiring x net' ≡ wiring x net
  rewired x = wire_view-same rid (find x net') (find x start) (s.still x) ∙ wired x

  overlay_after : IsOverlay root net'
  overlay_after = IsOverlay-kept root net net' rewired overlay

  unnamed_after : alive self_route net' ≡ false
  unnamed_after = ap is_some (rewired self_route) ∙ unnamed

  home :
      (id : String)
      → Connected net root id
      → Home atoi rid root spec fuel net' overlay_after unnamed_after top id
  home id c =
      let job = under_way.everyone id c in
      let (k, lt, l) = under_way.way_up id job in
      record {
        job = job_at rid spec net' id (s.aimed (IsNew-IsAimed rid spec start new)) job;
        hops = k;
        link = l;
        near = omega arith;
      }

  all_home :
      (ids : List String)
      → AllConnected net root ids
      → AllHome atoi rid root spec fuel net' overlay_after unnamed_after top ids
  all_home [] cs = tt
  all_home (id ∷ ids) cs = (home id cs.0, all_home ids cs.1)

  -- The run at each of the nodes hands over a `done` chunk.
  ends :
      (p : String) (ids : List String)
      → AllConnected net root ids
      → contains p ids ≡ true
      → any_done (node_run atoi spec net' p) ≡ true
  ends p [] cs e = absurd (cc)
  ends p (id ∷ ids) cs e = elim (Bool-cases (same id p)) [
    | inl eq ↦
        subst (λ y. any_done (node_run atoi spec net' y) ≡ true) ((string_eq.beq_iff id p).0 eq)
          (run_ends atoi id (home id cs.0).job)
    | inr ne ↦ ends p ids cs.1 (ground arith)
  ]

  total-same :
      ((p : String) → node_run atoi spec net' p ≡ node_run atoi spec net p)
      → (ids : List String) → total_rows atoi spec net' ids ≡ total_rows atoi spec net ids
  total-same h [] = refl
  total-same h (id ∷ ids) =
      let k = ap (λ cs. length (rows_of cs)) (h id) in omega (arith, total-same h ids)

  pub gathered-IsAnswered :
      (cap expected backoff : ℕ) (stamp : ℕ → ℕ) (ids : List String) (schedule : List ℕ)
      → Open rid root net' ([], cap, expected, false)
      → ((p : String) → node_run atoi spec net' p ≡ node_run atoi spec net p)
      → AllConnected net root ids
      → Unique ids
      → expected ≤ length ids
      → total_rows atoi spec net ids ≤ cap
      → AllEnded (left_over schedule (threads_of atoi rid net' ids))
      → (after : Net D) × (interleave backoff fuel stamp schedule
            (threads_of atoi rid net' ids)
            net'
          ≡ some (left_over schedule (threads_of atoi rid net' ids), after))
        × IsAnswered atoi rid root spec net ids after
  gathered-IsAnswered cap expected backoff stamp ids schedule o same_ cs unique enough_ids room
        ended =
      let hs = all_home ids cs in
      let ts = threads_of atoi rid net' ids in
      let b = o.st.buffer in
      let chunks = λ (p : String).
        chunks_at-threads atoi rid root spec fuel net' overlay_after unnamed_after top p ids hs in
      let empty : b.q ≡ [] = ap (λ v. v.0) o.holds in
      let cap_ : b.capacity ≡ cap = ap (λ v. v.1) o.holds in
      let expects : b.expected_producers ≡ expected = ap (λ v. v.2) o.holds in
      let rows =
        rows_left-threads atoi rid root spec fuel net' overlay_after unnamed_after top ids hs
        ∙ total-same same_ ids in
      let (after, e, g) =
        interleave-IsGathered backoff fuel stamp rid root schedule ts net' b
          (Distinct-threads atoi rid root spec fuel net' overlay_after unnamed_after top ids hs
            unique)
          (Ways-threads atoi rid root spec fuel net' overlay_after unnamed_after top ids hs)
          (record {
            overlay = overlay_after;
            top = o.top;
            found = o.found;
            st = o.st;
            open_ = o.open_;
            holds = refl;
          })
          (record { live = ap (λ v. v.3) o.holds; fits = (let l = ap length empty in omega arith) })
          ended in
      (
        after,
        e,
        record {
          portal = g.stage.top;
          there = g.stage.found;
          request = g.stage.st;
          open_ = g.stage.open_;
          out = g.out;
          in_order =
              ap (λ b. b.q) g.stage.holds ∙ (g.in_order ∙ ap (λ q. q ++ all_rows g.out) empty);
          each =
              λ p. g.each p ∙ (chunks p ∙ ap (λ cs. if contains p ids then cs else []) (same_ p));
          settled =
              ap pending_producers g.stage.holds
              ∙ pending_none g.buffer ids unique (let k = g.expected in omega arith) (λ p m.
                g.finished p (
                  ap any_done (chunks p)
                  ∙ (ap (λ t. any_done (if t then node_run atoi spec net' p else [])) m
                      ∙ ends p ids cs m)));
        },
      )
