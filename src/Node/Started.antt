-- ===== src/Node/Started.antt =====
-- The threads of a query that cpp/src/NodeServer.cpp has launched: at each node that the overlay connects
-- to the portal, one that runs the query on the rows of the node and has a way to the portal.
use mathlib.Core.Path.{subst}
use mini2_aaa.Base.{
  string_eq, same, ℕ, ◌+◌, ◌≡◌, refl, sym, ap, ◌∙◌, String, Bool, false, if◌then◌else◌, List, [],
  ◌∷◌, ◌++◌, Option, none, some, inl, inr, Bool-cases, Option-cases, find, arith, contains, length,
}
use mini2_aaa.Base.Int.{ℤ}
use mini2_aaa.Domain.{QuerySpec, Floating}
use mini2_aaa.Engine.{Chunk, run}
use mini2_aaa.Engine.Emit.{rows_of}
use mini2_aaa.Node.{NodeServer, Worker}
use mini2_aaa.Node.Network.{Net}
use mini2_aaa.Node.Portal.{u32_param}
use mini2_aaa.Node.Views.{count_workers, jobs, jobs_view}
use mini2_aaa.Node.Launch.{IsNew, Connected}
use mini2_aaa.Node.Aimed.{aim_of, work_view, AllAimed, IsAimed}
use mini2_aaa.Node.Threads.{Thread, start_thread}

-- The first worker of a request.
abbrev pub worker_of : {D : Type 0} → String → List (Worker D) → Option (Worker D)
worker_of rid [] = none
worker_of rid (w ∷ ws) = if same w.request_id rid then some w else worker_of rid ws

module _ {D : Type 0} ⦃f : Floating D⦄ (atoi : String → ℤ) where
  -- The threads that start for a request at the nodes with the given ids, one at each.
  abbrev pub thread_at : String → String → Option (NodeServer D) → List (Thread D)
  thread_at rid id none = []
  thread_at rid id (some n) = elim (worker_of rid n.workers) [
    | none ↦ []
    | some w ↦ start_thread atoi (λ k. false) id n w ∷ []
  ]

  abbrev pub threads_of : String → Net D → List String → List (Thread D)
  threads_of rid net [] = []
  threads_of rid net (id ∷ ids) = thread_at rid id (find id net) ++ threads_of rid net ids

  -- What the run of a query at a node delivers, if nobody cancels it.
  abbrev pub run_view : QuerySpec D → Option (NodeServer D) → List (Chunk D)
  run_view spec none = []
  run_view spec (some n) =
      run n.store spec (u32_param atoi "initial_chunk_rows" 512 n.cfg) (λ k. false)

  abbrev pub node_run : QuerySpec D → Net D → String → List (Chunk D)
  node_run spec net id = run_view spec (find id net)

  -- The rows that the nodes deliver.
  abbrev pub total_rows : QuerySpec D → Net D → List String → ℕ
  total_rows spec net [] = 0
  total_rows spec net (id ∷ ids) = length (rows_of (node_run spec net id)) + total_rows spec net ids

-- Different ids.
abbrev pub Unique : List String → Type 0
Unique [] = Unit
Unique (x ∷ xs) = (contains x xs ≡ false) × Unique xs

abbrev pub AllConnected : {D : Type 0} → Net D → String → List String → Type 0
AllConnected net root [] = Unit
AllConnected net root (x ∷ xs) = Connected net root x × AllConnected net root xs

module _ {D : Type 0} (rid : String) (spec : QuerySpec D) where
  unemployed :
      (a : Option (String × Bool)) (ws : List (Worker D))
      → count_workers rid ws ≡ 0
      → AllAimed rid spec a ws
  unemployed a [] e = tt
  unemployed a (w ∷ ws) e = (
    λ about. absurd (ground (arith, string_eq.beq_iff w.request_id rid)),
    unemployed a ws (omega arith),
  )

  pub IsNew-IsAimed : (net : Net D) → IsNew rid net → IsAimed rid spec net
  IsNew-IsAimed net new x = go (find x net) (new.no_worker x)
    where
      go :
          (o : Option (NodeServer D))
          → jobs_view rid o ≡ 0
          → AllAimed rid spec (work_view rid o).0 (work_view rid o).1
      go none e = tt
      go (some n) e = unemployed (aim_of rid n) n.workers e

  -- The worker of a request at a node that has one.
  employed :
      (a : Option (String × Bool)) (ws : List (Worker D))
      → count_workers rid ws ≡ 1
      → AllAimed rid spec a ws
      → (w : Worker D) × (worker_of rid ws ≡ some w)
        × (w.request_id ≡ rid)
        × (w.spec ≡ spec)
        × (a ≡ some (w.upstream_peer, false))
  employed a [] e h = absurd (omega arith)
  employed a (w ∷ ws) e h = elim (Bool-cases (same w.request_id rid)) [
    | inl eq ↦
        let about = (string_eq.beq_iff w.request_id rid).0 eq in
        let k = h.0 about in (w, rw eq refl, about, k.0, k.1)
    | inr ne ↦
        let (v, has, about, asks, leads) = employed a ws (ground arith) h.1 in
        (v, rw ne has, about, asks, leads)
  ]

-- A node with a worker for the request.
pub record Employed {D : Type 0} (rid : String) (spec : QuerySpec D) (net : Net D) (id : String)
    : Type 0 where
  pub n : NodeServer D
  pub w : Worker D
  pub found : find id net ≡ some n
  pub has : worker_of rid n.workers ≡ some w
  pub about : w.request_id ≡ rid
  pub asks : w.spec ≡ spec
  pub leads : aim_of rid n ≡ some (w.upstream_peer, false)

pub job_at :
    {D : Type 0} (rid : String) (spec : QuerySpec D) (net : Net D) (id : String)
    → IsAimed rid spec net
    → jobs rid id net ≡ 1
    → Employed rid spec net id
job_at rid spec net id aimed job = elim (Option-cases (find id net)) [
  | inl gone ↦ absurd (let t = ap (jobs_view rid) gone in omega arith)
  | inr (n, e) ↦
      let (w, has, about, asks, leads) =
        employed rid spec (aim_of rid n) n.workers (ap (jobs_view rid) (sym e) ∙ job)
          (subst (λ o. AllAimed rid spec (work_view rid o).0 (work_view rid o).1) e (aimed id)) in
      record { n = n; w = w; found = e; has = has; about = about; asks = asks; leads = leads }
]
