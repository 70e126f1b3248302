-- ===== src/Node/Gathered.antt =====
-- The threads of a request on the network of cpp/src/NodeServer.cpp: whatever the schedule, what they
-- hand over comes into the portal's buffer.
use mathlib.Core.Path.{subst}
use mini2_aaa.Base.{
  string_eq, ℕ, zero, suc, ◌+◌, ◌<◌, ◌≡◌, refl, sym, String, false, List, [], ◌∷◌, some, inl, inr,
  List-cases, find, insert, arith, ◌%◌, ◌^◌,
}
use mini2_aaa.Domain.{Row311}
use mini2_aaa.Buffer.{Buffer}
use mini2_aaa.Engine.{Chunk}
use mini2_aaa.Registry.{RequestState}
use mini2_aaa.Node.{NodeServer, deposit}
use mini2_aaa.Node.Network.{Net}
use mini2_aaa.Node.Spread.{Extends, Extends-refl, Uplink, Uplink-mono}
use mini2_aaa.Node.Delivery.{IsOverlay}
use mini2_aaa.Node.Deposit.{Accepts}
use mini2_aaa.Node.Collected.{Scene, Road, sunk, filled, Scene-next, insert-Extends}
use mini2_aaa.Node.Threads.{
  Thread, handed, advanced, handed_at, advanced_at, handed_over, left_over, rows_left, thread_step,
  turn, interleave, deposit_each,
}
use mini2_aaa.Node.Interleaved.{deposit_each-append, deposit_each-Accepts, rows_left-advanced_at}

-- An overlay where the portal has the request with a buffer.
pub record Stage {D : Type 0} (rid root : String) (net : Net D) (b : Buffer (Row311 D))
    : Type 0 where
  pub overlay : IsOverlay root net
  pub top : NodeServer D
  pub found : find root net ≡ some top
  pub st : RequestState D
  pub open_ : find rid top.registry ≡ some st
  pub holds : st.buffer ≡ b

-- The way of a thread's chunks to the portal.
pub record Way {D : Type 0} (rid root : String) (fuel : ℕ) (net : Net D) (t : Thread D)
    : Type 0 where
  pub u : String
  pub road : Road root t.me t.node t.work u
  pub about : t.work.request_id ≡ rid
  pub hops : ℕ
  pub link : Uplink rid root net hops u
  pub near : hops < fuel

module _ {D : Type 0} (root : String) (fuel : ℕ) where
  pub scene_of :
      {rid : String} (net : Net D) (b : Buffer (Row311 D)) (u : String) (hops : ℕ)
      → Stage rid root net b
      → Uplink rid root net hops u
      → hops < fuel
      → Scene rid root fuel u net b
  scene_of net b u hops s l lt = record {
    overlay = s.overlay;
    top = s.top;
    found = s.found;
    st = s.st;
    open_ = s.open_;
    holds = s.holds;
    hops = hops;
    link = l;
    near = lt;
  }

  -- The ways of all threads.
  abbrev pub Ways : String → Net D → List (Thread D) → Type 0
  Ways rid net [] = Unit
  Ways rid net (t ∷ ts) = Way rid root fuel net t × Ways rid net ts

  Way-mono :
      (rid : String) {a b : Net D} (t : Thread D)
      → Extends rid a b
      → Way rid root fuel a t
      → Way rid root fuel b t
  Way-mono rid t s y = record {
    u = y.u;
    road = y.road;
    about = y.about;
    hops = y.hops;
    link = Uplink-mono rid s y.link;
    near = y.near;
  }

  Way-advanced :
      (rid : String) (net : Net D) (t : Thread D)
      → Way rid root fuel net t
      → Way rid root fuel net (advanced t)
  Way-advanced rid net t y = record {
    u = y.u;
    road = y.road;
    about = y.about;
    hops = y.hops;
    link = y.link;
    near = y.near;
  }

  Ways-mono :
      (rid : String) {a b : Net D} (ts : List (Thread D))
      → Extends rid a b
      → Ways rid a ts
      → Ways rid b ts
  Ways-mono rid [] s ys = tt
  Ways-mono rid (t ∷ ts) s ys = (Way-mono rid t s ys.0, Ways-mono rid ts s ys.1)

  Ways-advanced_at :
      (rid : String) (net : Net D) (i : ℕ) (ts : List (Thread D))
      → Ways rid net ts
      → Ways rid net (advanced_at i ts)
  Ways-advanced_at rid net i [] ys = tt
  Ways-advanced_at rid net zero (t ∷ ts) ys = (Way-advanced rid net t ys.0, ys.1)
  Ways-advanced_at rid net (suc i) (t ∷ ts) ys = (ys.0, Ways-advanced_at rid net i ts ys.1)

module _ {D : Type 0} (backoff fuel : ℕ) (stamp : ℕ → ℕ) (root : String) where
  -- What a call of the sink leaves.
  record Sent (rid : String) (t : Thread D) (net : Net D) (b : Buffer (Row311 D)) : Type 0 where
    after : Net D
    answered : thread_step backoff fuel stamp t net ≡ some (advanced t, after)
    stage : Stage rid root after (deposit_each (handed t) b)
    grown : Extends rid net after

  no_sender :
      (rid : String) (t : Thread D) (net : Net D) (b : Buffer (Row311 D))
      → t.chunks ≡ []
      → Stage rid root net b
      → Sent rid t net b
  unfolding thread_step
  no_sender rid t net b e s = record {
    after = net;
    answered = ground arith;
    stage = subst (Stage rid root net) (ground arith) s;
    grown = Extends-refl rid net;
  }

  -- One call, of a thread whose work names the request.
  one_sender :
      (t : Thread D) (c : Chunk D) (cs : List (Chunk D)) (net : Net D) (b : Buffer (Row311 D))
      → t.chunks ≡ c ∷ cs
      → Way t.work.request_id root fuel net t
      → Stage t.work.request_id root net b
      → b.canceled ≡ false
      → Sent t.work.request_id t net b
  unfolding thread_step scene_of
  one_sender t c cs net b e y s live =
      let sc = scene_of root fuel net b y.u y.hops s y.link y.near in
      let k = (t.seq + 1) % 2 ^ 32 in
      let out = sunk backoff fuel stamp root t.me t.node t.work y.u k c net b y.road sc live in
      let sc' = Scene-next backoff fuel stamp root t.me t.node t.work y.u c net b sc in
      let top' = filled backoff fuel stamp root t.me t.node t.work c s.top s.st in
      record {
        after = insert root top' net;
        answered = ground (arith, out);
        stage =
            subst (Stage t.work.request_id root (insert root top' net))
              (let h : deposit c.rows c.done t.me b ≡ deposit_each (handed t) b = ground arith in h)
              (record {
                overlay = sc'.overlay;
                top = sc'.top;
                found = sc'.found;
                st = sc'.st;
                open_ = sc'.open_;
                holds = sc'.holds;
              });
        grown = insert-Extends t.work.request_id root net s.top top' s.found refl refl;
      }

  sent :
      (rid : String) (t : Thread D) (net : Net D) (b : Buffer (Row311 D))
      → Way rid root fuel net t
      → Stage rid root net b
      → b.canceled ≡ false
      → Sent rid t net b
  sent rid t net b y s live = elim (List-cases t.chunks) [
    | inl e ↦ no_sender rid t net b e s
    | inr (c, cs, e) ↦
        subst (λ k. Sent k t net b) y.about
          (one_sender t c cs net b e (subst (λ k. Way k root fuel net t) (sym y.about) y)
            (subst (λ k. Stage k root net b) (sym y.about) s) live)
  ]

  -- What a turn leaves.
  record Turned (rid : String) (i : ℕ) (ts : List (Thread D)) (net : Net D) (b : Buffer (Row311 D))
      : Type 0 where
    after : Net D
    answered : turn backoff fuel stamp i ts net ≡ some (advanced_at i ts, after)
    stage : Stage rid root after (deposit_each (handed_at i ts) b)
    grown : Extends rid net after

  turned :
      (rid : String) (i : ℕ) (ts : List (Thread D)) (net : Net D) (b : Buffer (Row311 D))
      → Ways root fuel rid net ts
      → Stage rid root net b
      → b.canceled ≡ false
      → Turned rid i ts net b
  unfolding turn
  turned rid i [] net b ys s live = record {
    after = net;
    answered = refl;
    stage = s;
    grown = Extends-refl rid net;
  }
  turned rid zero (t ∷ ts) net b ys s live =
      let r = sent rid t net b ys.0 s live in
      record {
        after = r.after;
        answered = rw (r.answered, turn) refl;
        stage = r.stage;
        grown = r.grown;
      }
  turned rid (suc i) (t ∷ ts) net b ys s live =
      let r = turned rid i ts net b ys.1 s live in
      record {
        after = r.after;
        answered = rw (r.answered, turn) refl;
        stage = r.stage;
        grown = r.grown;
      }

  -- The threads under a schedule: all calls come to their end, and the portal's buffer has what they
  -- handed over.
  pub interleaved :
      (rid : String) (is : List ℕ) (ts : List (Thread D)) (net : Net D) (b : Buffer (Row311 D))
      → Ways root fuel rid net ts
      → Stage rid root net b
      → Accepts (rows_left ts) b
      → (after : Net D) × (interleave backoff fuel stamp is ts net ≡ some (left_over is ts, after))
        × Stage rid root after (deposit_each (handed_over is ts) b)
  unfolding interleave
  interleaved rid [] ts net b ys s a = (net, refl, s)
  interleaved rid (i ∷ is) ts net b ys s a =
      let r = turned rid i ts net b ys s a.live in
      let ts' = advanced_at i ts in
      let room : Accepts (rows_left ts') (deposit_each (handed_at i ts) b) =
        deposit_each-Accepts (handed_at i ts) (rows_left ts') b
          (subst (λ k. Accepts k b) (sym (rows_left-advanced_at i ts)) a) in
      let (after, e, s') =
        interleaved rid is ts' r.after (deposit_each (handed_at i ts) b)
          (Ways-mono root fuel rid ts' r.grown (Ways-advanced_at root fuel rid net i ts ys)) r.stage
          room in
      (
        after,
        rw (r.answered, interleave) e,
        subst (Stage rid root after)
            (sym (deposit_each-append (handed_at i ts) (handed_over is ts') b)) s',
      )
