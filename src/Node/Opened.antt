-- ===== src/Node/Opened.antt =====
-- What stays, in cpp/src/NodeServer.cpp, of a request that the portal has opened and of the runs of its
-- query, while the query goes out.
use mini2_aaa.Base.{
  string_eq, ℕ, ◌≡◌, refl, sym, ap, ◌∙◌, String, false, List, [], ◌∷◌, Option, none, some, inl, inr,
  Option-cases, find, find-insert, length, some_inj,
}
use mini2_aaa.Base.Int.{ℤ}
use mini2_aaa.Config.{Config, all_node_ids}
use mini2_aaa.Buffer.{Buffer, new_buffer, mark_producer_started}
use mini2_aaa.Domain.{QuerySpec, Row311, Floating}
use mini2_aaa.Engine.{PartitionStore, Chunk, run}
use mini2_aaa.Registry.{Timing, RequestState, Registry, create}
use mini2_aaa.Node.{NodeServer}
use mini2_aaa.Node.Network.{Net}
use mini2_aaa.Node.Portal.{
  open_request, mark_all_started, size_param, u32_param, SubmitRequest, fresh_request,
}
use mini2_aaa.Node.Views.{option_map, wire_view}
use mini2_aaa.Node.Aimed.{Held, request_held, held_of, still_view}
use mini2_aaa.Node.Started.{run_view}

-- What a request holds when it is created.
module _ {D : Type 0} ⦃t : Timing D⦄ (atoi : String → ℤ) (now : ℕ) (rid : String)
    (req : SubmitRequest D) (cfg : Config) where
  abbrev pub capacity : ℕ
  capacity = size_param atoi "chunk_buffer_cap" 65536 cfg

  abbrev buffer_held : Buffer (Row311 D) → Held D
  buffer_held b = (b.q, b.capacity, b.expected_producers, b.canceled)

  mark_all_started-held :
      (ids : List String) (b : Buffer (Row311 D))
      → buffer_held (mark_all_started ids b) ≡ buffer_held b
  unfolding mark_all_started mark_producer_started
  mark_all_started-held [] b = refl
  mark_all_started-held (id ∷ ids) b = mark_all_started-held ids (mark_producer_started id b)

  pub fresh-held :
      request_held (fresh_request atoi now rid req cfg)
      ≡ ([], capacity, length (all_node_ids cfg), false)
  unfolding fresh_request open_request new_buffer
  fresh-held =
      mark_all_started-held (all_node_ids cfg) (new_buffer capacity (length (all_node_ids cfg)))

  pub fresh_filed :
      (reqs : Registry D)
      → find rid (create (fresh_request atoi now rid req cfg) reqs)
        ≡ some (fresh_request atoi now rid req cfg)
  unfolding create fresh_request open_request
  fresh_filed reqs =
      find-insert rid rid (fresh_request atoi now rid req cfg) reqs
      ∙ rw ((string_eq.beq_iff rid rid).1 refl) refl

abbrev held_still :
    {D : Type 0}
    → Option (PartitionStore D × (Config × List String) × Option (Held D))
    → Option (Held D)
held_still none = none
held_still (some (s, w, h)) = h

-- The request that a node has open.
pub record Open {D : Type 0} (rid root : String) (net : Net D) (v : Held D) : Type 0 where
  pub top : NodeServer D
  pub found : find root net ≡ some top
  pub st : RequestState D
  pub open_ : find rid top.registry ≡ some st
  pub holds : request_held st ≡ v

pub request_of :
    {D : Type 0} (rid root : String) (net : Net D) (v : Held D) (s : PartitionStore D)
    (w : Config × List String)
    → still_view rid (find root net) ≡ some (s, w, some v)
    → Open rid root net v
request_of rid root net v s w e = elim (Option-cases (find root net)) [
  | inl gone ↦ absurd (let t = ap (still_view rid) gone in cc)
  | inr (n, found) ↦
      let t : ◌≡◌ {A = Option (PartitionStore _ × (Config × List String) × Option (Held _))}
          (some (n.store, (n.cfg, n.peer_clients), held_of rid n)) (some (s, w, some v)) =
        ap (still_view rid) (sym found) ∙ e in
      let h : held_of rid n ≡ some v = ap held_still t in
      elim (Option-cases (find rid n.registry)) [
        | inl none_ ↦ absurd (let k = ap (option_map request_held) none_ in cc)
        | inr (st, some_) ↦
            let k : some (request_held st) ≡ some v =
              ap (option_map request_held) (sym some_) ∙ h in
            record { top = n; found = found; st = st; open_ = some_; holds = some_inj k }
      ]
]

-- The run at a node depends on what stays of it.
module _ {D : Type 0} ⦃f : Floating D⦄ (atoi : String → ℤ) (rid : String) (spec : QuerySpec D) where
  abbrev run_still :
      Option (PartitionStore D × (Config × List String) × Option (Held D)) → List (Chunk D)
  run_still none = []
  run_still (some (s, w, h)) = run s spec (u32_param atoi "initial_chunk_rows" 512 w.0) (λ k. false)

  run_view-still : (o : Option (NodeServer D)) → run_view atoi spec o ≡ run_still (still_view rid o)
  run_view-still none = refl
  run_view-still (some n) = refl

  pub run_view-same :
      (o o' : Option (NodeServer D))
      → still_view rid o ≡ still_view rid o'
      → run_view atoi spec o ≡ run_view atoi spec o'
  run_view-same o o' e = run_view-still o ∙ (ap run_still e ∙ sym (run_view-still o'))

abbrev wire_still :
    {D : Type 0}
    → Option (PartitionStore D × (Config × List String) × Option (Held D))
    → Option (Config × List String)
wire_still none = none
wire_still (some (s, w, h)) = some w

wire_view-still :
    {D : Type 0} (rid : String) (o : Option (NodeServer D))
    → wire_view o ≡ wire_still (still_view rid o)
wire_view-still rid none = refl
wire_view-still rid (some n) = refl

pub wire_view-same :
    {D : Type 0} (rid : String) (o o' : Option (NodeServer D))
    → still_view rid o ≡ still_view rid o'
    → wire_view o ≡ wire_view o'
wire_view-same rid o o' e = wire_view-still rid o ∙ (ap wire_still e ∙ sym (wire_view-still rid o'))
