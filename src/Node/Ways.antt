-- ===== src/Node/Ways.antt =====
-- The threads of a query that cpp/src/NodeServer.cpp has launched have ways to the portal, and each
-- hands over what the run at its node delivers.
use mathlib.Core.Path.{subst}
use mini2_aaa.Base.{
  string_eq, same, ℕ, ◌<◌, ◌≡◌, refl, sym, ap, ◌∙◌, String, Bool, true, false, ◌||◌, if◌then◌else◌,
  List, [], ◌∷◌, ◌++◌, Option, none, some, inl, inr, Bool-cases, Option-cases, find, arith,
  contains, length,
}
use mini2_aaa.Base.Int.{ℤ}
use mini2_aaa.Domain.{QuerySpec, Floating}
use mini2_aaa.Engine.{run}
use mini2_aaa.Engine.Emit.{rows_of}
use mini2_aaa.Node.{NodeServer, RouteState, self_route}
use mini2_aaa.Node.Network.{Net}
use mini2_aaa.Node.Portal.{u32_param}
use mini2_aaa.Node.Execute.{canceled_fn}
use mini2_aaa.Node.Views.{
  option_map, is_some, wire_view, wiring, alive, peers, upstream, up_view, upstream_of,
}
use mini2_aaa.Node.Spread.{Uplink, at_root, via}
use mini2_aaa.Node.Delivery.{IsOverlay}
use mini2_aaa.Node.Collected.{at_portal, by_stub}
use mini2_aaa.Node.Aimed.{aim_of, aim_view, route_aim}
use mini2_aaa.Node.Threads.{Thread, start_thread, names, Distinct, chunks_at, rows_left}
use mini2_aaa.Node.Gathered.{Way, Ways}
use mini2_aaa.Node.Started.{thread_at, threads_of, run_view, node_run, total_rows, Unique, Employed}

module _ {D : Type 0} (rid : String) where
  up-aim :
      (n : NodeServer D) (u : String) (c : Bool)
      → aim_of rid n ≡ some (u, c)
      → upstream_of rid n ≡ some u
  up-aim n u c e = elim (Option-cases (find rid n.routes)) [
    | inl none_ ↦ absurd (let t = ap (option_map route_aim) none_ in cc)
    | inr (r, some_) ↦
        let t : some (route_aim r) ≡ some (u, c) = ap (option_map route_aim) (sym some_) ∙ e in
        ap (option_map (λ (r : RouteState D). r.upstream_peer)) some_
        ∙ (let k : r.upstream_peer ≡ u = ground arith in ap some k)
  ]

  -- A run with a route that is not cancelled, which nobody cancels.
  flag_down :
      (n : NodeServer D) (u : String)
      → aim_of rid n ≡ some (u, false)
      → canceled_fn (find rid n.routes) (λ k. false) ≡ (λ (k : ℕ). false)
  unfolding canceled_fn
  flag_down n u e = elim (Option-cases (find rid n.routes)) [
    | inl none_ ↦ rw (none_, canceled_fn) refl
    | inr (r, some_) ↦
        let t : some (route_aim r) ≡ some (u, false) = ap (option_map route_aim) (sym some_) ∙ e in
        let live : r.canceled ≡ false = ground arith in
        rw (some_, canceled_fn) (λ i k. live i || false)
  ]

-- A node that does not stand in the network is nobody's upstream with neighbors.
lonely :
    {D : Type 0} (x y : String) (net : Net D)
    → alive x net ≡ false
    → contains y (peers x net) ≡ true
    → ⊥
lonely x y net dead member = elim (Option-cases (wiring x net)) [
  | inl none_ ↦
      let t : peers x net ≡ [] =
        ap (λ w. elim w as (λ _. List String) [ none ↦ [] | some w ↦ w.1 ]) none_ in
      let k : contains y (peers x net) ≡ false = ap (contains y) t in cc
  | inr (w, some_) ↦ let t = ap is_some some_ in cc
]

module _ {D : Type 0} ⦃f : Floating D⦄ (atoi : String → ℤ) (rid root : String) (spec : QuerySpec D)
    (fuel : ℕ) (net : Net D) (overlay : IsOverlay root net) (unnamed : alive self_route net ≡ false)
    (top : aim_view rid (find root net) ≡ some (self_route, false)) where
  -- The thread of a node with a worker.
  abbrev pub thread_of : {id : String} → Employed rid spec net id → Thread D
  thread_of {id} j = start_thread atoi (λ k. false) id j.n j.w

  to_portal :
      (id : String) (j : Employed rid spec net id)
      → id ≡ root
      → 0 < fuel
      → Way rid root fuel net (thread_of j)
  unfolding start_thread
  to_portal id j here room =
      let t : aim_of rid j.n ≡ some (self_route, false) =
        ap (aim_view rid) (sym j.found) ∙ (ap (λ x. aim_view rid (find x net)) here ∙ top) in
      let l = j.leads in
      let q : ◌≡◌ {A = Option (String × Bool)} (some (j.w.upstream_peer, false))
          (some (self_route, false)) =
        sym l ∙ t in
      let e : j.w.upstream_peer ≡ self_route = ground arith in
      record {
        u = root;
        road = at_portal ((string_eq.beq_iff j.w.upstream_peer self_route).1 e) here;
        about = j.about;
        hops = 0;
        link = at_root;
        near = room;
      }

  over_stub :
      (id u : String) (k : ℕ) (j : Employed rid spec net id)
      → upstream rid id net ≡ some u
      → contains id (peers u net) ≡ true
      → Uplink rid root net k u
      → k < fuel
      → Way rid root fuel net (thread_of j)
  unfolding start_thread
  over_stub id u k j up member l room =
      let q : some u ≡ some j.w.upstream_peer =
        sym up ∙ (ap (up_view rid) j.found ∙ up-aim rid j.n j.w.upstream_peer false j.leads) in
      let e : u ≡ j.w.upstream_peer = ground arith in
      let live : alive id net ≡ true = ap (λ o. is_some (wire_view o)) j.found in
      let ps : peers id net ≡ j.n.peer_clients =
        ap (λ o. elim (wire_view o) as (λ _. List String) [ none ↦ [] | some w ↦ w.1 ]) j.found in
      record {
        u = j.w.upstream_peer;
        road =
            by_stub
              (elim (Bool-cases (same j.w.upstream_peer self_route)) [
                | inr ne ↦ ne
                | inl eq ↦ absurd (
                    lonely self_route id net unnamed (
                      subst (λ y. contains id (peers y net) ≡ true)
                        (e ∙ (string_eq.beq_iff j.w.upstream_peer self_route).0 eq) member))
              ])
              (ap (λ y. contains y j.n.peer_clients) (sym e)
                ∙ (ap (contains u) (sym ps) ∙ overlay.two_way u id member live));
        about = j.about;
        hops = k;
        link = subst (λ y. Uplink rid root net k y) e l;
        near = room;
      }

  -- The way of the thread at a node with a way up.
  pub way :
      {k : ℕ} (id : String) (j : Employed rid spec net id)
      → Uplink rid root net k id
      → k < fuel
      → Way rid root fuel net (thread_of j)
  way id j at_root room = to_portal id j refl (omega arith)
  way id j (via k x u up member l) room = over_stub id u k j up member l (omega arith)

  -- The chunks of the thread are those of a run that nobody cancels.
  pub chunks-thread_of :
      (id : String) (j : Employed rid spec net id)
      → (thread_of j).chunks ≡ node_run atoi spec net id
  unfolding start_thread
  chunks-thread_of id j =
      ap
        (λ r.
          run j.n.store j.w.spec (u32_param atoi "initial_chunk_rows" 512 j.n.cfg)
            (canceled_fn (find r j.n.routes) (λ k. false)))
        j.about
      ∙ (ap (λ c. run j.n.store j.w.spec (u32_param atoi "initial_chunk_rows" 512 j.n.cfg) c)
            (flag_down rid j.n j.w.upstream_peer j.leads)
          ∙ (ap
                (λ q.
                  run j.n.store q (u32_param atoi "initial_chunk_rows" 512 j.n.cfg) (λ k. false))
                j.asks
              ∙ sym (ap (run_view atoi spec) j.found)))

  pub thread_at_lem :
      (id : String) (j : Employed rid spec net id)
      → thread_at atoi rid id (find id net) ≡ thread_of j ∷ []
  thread_at_lem id j = ap (thread_at atoi rid id) j.found ∙ rw (j.has, thread_at) refl

  -- A node with a worker and a way up, for each id.
  pub record Home (id : String) : Type 0 where
    pub job : Employed rid spec net id
    pub hops : ℕ
    pub link : Uplink rid root net hops id
    pub near : hops < fuel

  abbrev pub AllHome : List String → Type 0
  AllHome [] = Unit
  AllHome (id ∷ ids) = Home id × AllHome ids

  abbrev threads : List String → List (Thread D)
  threads ids = threads_of atoi rid net ids

  threads-cons :
      (id : String) (ids : List String) (h : Home id)
      → threads (id ∷ ids) ≡ thread_of h.job ∷ threads ids
  threads-cons id ids h = ap (λ ts. ts ++ threads ids) (thread_at_lem id h.job)

  names-threads : (ids : List String) → AllHome ids → names (threads ids) ≡ ids
  unfolding start_thread
  names-threads [] hs = refl
  names-threads (id ∷ ids) hs =
      ap names (threads-cons id ids hs.0) ∙ ap (id ∷◌) (names-threads ids hs.1)

  Distinct-names : (ts : List (Thread D)) → Unique (names ts) → Distinct ts
  Distinct-names [] d = tt
  Distinct-names (t ∷ ts) d = (d.0, Distinct-names ts d.1)

  pub Distinct-threads : (ids : List String) → AllHome ids → Unique ids → Distinct (threads ids)
  Distinct-threads ids hs d =
      Distinct-names (threads ids) (subst Unique (sym (names-threads ids hs)) d)

  pub Ways-threads : (ids : List String) → AllHome ids → Ways root fuel rid net (threads ids)
  Ways-threads [] hs = tt
  Ways-threads (id ∷ ids) hs =
      subst (Ways root fuel rid net) (sym (threads-cons id ids hs.0))
        (way id hs.0.job hs.0.link hs.0.near, Ways-threads ids hs.1)

  pub rows_left-threads :
      (ids : List String) → AllHome ids → rows_left (threads ids) ≡ total_rows atoi spec net ids
  rows_left-threads [] hs = refl
  rows_left-threads (id ∷ ids) hs =
      let a = ap rows_left (threads-cons id ids hs.0) in
      let b = ap (λ cs. length (rows_of cs)) (chunks-thread_of id hs.0.job) in
      omega (arith, rows_left-threads ids hs.1)

  pub chunks_at-threads :
      (p : String) (ids : List String)
      → AllHome ids
      → chunks_at p (threads ids) ≡ (if contains p ids then node_run atoi spec net p else [])
  unfolding start_thread
  chunks_at-threads p [] hs = refl
  chunks_at-threads p (id ∷ ids) hs =
      ap (chunks_at p) (threads-cons id ids hs.0) ∙ elim (Bool-cases (same id p)) [
        | inl eq ↦ rw eq (
            chunks-thread_of id hs.0.job
            ∙ ap (node_run atoi spec net) ((string_eq.beq_iff id p).0 eq))
        | inr ne ↦ rw ne (chunks_at-threads p ids hs.1)
      ]
