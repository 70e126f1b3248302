-- ===== src/Node/Aimed.antt =====
-- What no call of ForwardQuery of cpp/src/NodeServer.cpp changes: the rows, the topology and the
-- requests of a node, and a route that is made. So a worker pushes where the route of its node leads.
use mathlib.Core.Path.{subst}
use mini2_aaa.Base.{
  string_eq, same, ℕ, ◌≡◌, refl, sym, ap, ◌∙◌, String, Bool, true, false, List, [], ◌∷◌, ◌++◌,
  Option, none, some, inl, inr, Bool-cases, Option-cases, find, find-insert, arith,
}
use mini2_aaa.Config.{Config}
use mini2_aaa.Domain.{QuerySpec, Row311}
use mini2_aaa.Engine.{PartitionStore}
use mini2_aaa.Registry.{RequestState}
use mini2_aaa.Node.{NodeServer, RouteState, Worker, add_route, change_route, change_request, spawn}
use mini2_aaa.Node.Network.{Net, change}
use mini2_aaa.Node.Views.{option_map, view-change, find-change_route, find-change}

-- The rows of a buffer, its capacity, the expected producers, and whether it is cancelled.
abbrev pub Held : Type 0 → Type 0
Held D = List (Row311 D) × ℕ × ℕ × Bool

abbrev pub route_aim : {D : Type 0} → RouteState D → String × Bool
route_aim r = (r.upstream_peer, r.canceled)

abbrev pub request_held : {D : Type 0} → RequestState D → Held D
request_held st =
    (st.buffer.q, st.buffer.capacity, st.buffer.expected_producers, st.buffer.canceled)

-- What holds of each node after a change of one.
at_change {ℓ} :
    {D : Type 0} (me x : String) (g : NodeServer D → NodeServer D) (net : Net D)
    (P : Option (NodeServer D) → Type ℓ)
    → (same me x ≡ true → P (option_map g (find me net)))
    → (same me x ≡ false → P (find x net))
    → P (find x (change me g net))
at_change me x g net P own other = elim (Bool-cases (same me x)) [
  | inl eq ↦ subst P (sym (find-change me x g net ∙ rw eq refl)) (own eq)
  | inr ne ↦ subst P (sym (find-change me x g net ∙ rw ne refl)) (other ne)
]

module _ {D : Type 0} (rid : String) where
  abbrev pub aim_of : NodeServer D → Option (String × Bool)
  aim_of n = option_map route_aim (find rid n.routes)

  abbrev pub held_of : NodeServer D → Option (Held D)
  held_of n = option_map request_held (find rid n.registry)

  -- What stays of a node.
  abbrev pub still_view :
      Option (NodeServer D) → Option (PartitionStore D × (Config × List String) × Option (Held D))
  still_view = option_map (λ n. (n.store, (n.cfg, n.peer_clients), held_of n))

  abbrev pub aim_view : Option (NodeServer D) → Option (String × Bool)
  aim_view none = none
  aim_view (some n) = aim_of n

  abbrev pub work_view : Option (NodeServer D) → Option (String × Bool) × List (Worker D)
  work_view none = (none, [])
  work_view (some n) = (aim_of n, n.workers)

  held-change_request :
      (k : String) (g : RequestState D → RequestState D) (n : NodeServer D)
      → ((st : RequestState D) → request_held (g st) ≡ request_held st)
      → held_of (change_request k g n) ≡ held_of n
  unfolding change_request
  held-change_request k g n h = elim (Option-cases (find k n.registry)) [
    | inl e ↦ rw (e, change_request) refl
    | inr (st, e) ↦
        rw (e, change_request)
          (elim (Bool-cases (same k rid)) [
            | inr ne ↦ rw (find-insert k rid (g st) n.registry) (rw ne refl)
            | inl eq ↦ rw (find-insert k rid (g st) n.registry) (
                rw eq (
                  ap some (h st)
                  ∙ ap (option_map request_held)
                      (sym e ∙ ap (λ y. find y n.registry) ((string_eq.beq_iff k rid).0 eq))))
          ])
  ]

  module _ (spec : QuerySpec D) where
    -- The workers of the request run its query and push where a route that is not cancelled leads.
    abbrev pub AllAimed : Option (String × Bool) → List (Worker D) → Type 0
    AllAimed a [] = Unit
    AllAimed a (w ∷ ws) =
        (w.request_id ≡ rid → (w.spec ≡ spec) × (a ≡ some (w.upstream_peer, false))) × AllAimed a ws

    abbrev pub Aimed : Option (String × Bool) × List (Worker D) → Type 0
    Aimed v = AllAimed v.0 v.1

    abbrev pub IsAimed : Net D → Type 0
    IsAimed net = (x : String) → Aimed (work_view (find x net))

    AllAimed-none :
        (a : Option (String × Bool)) (ws : List (Worker D)) → AllAimed none ws → AllAimed a ws
    AllAimed-none a [] h = tt
    AllAimed-none a (w ∷ ws) h = (λ e. absurd (let t = (h.0 e).1 in cc), AllAimed-none a ws h.1)

    AllAimed-append :
        (a : Option (String × Bool)) (ws : List (Worker D)) (w : Worker D)
        → w.spec ≡ spec
        → a ≡ some (w.upstream_peer, false)
        → AllAimed a ws
        → AllAimed a (ws ++ (w ∷ []))
    AllAimed-append a [] w about e h = (λ k. (about, e), tt)
    AllAimed-append a (v ∷ ws) w about e h = (h.0, AllAimed-append a ws w about e h.1)

    fresh-Aimed :
        (route : RouteState D) (o : Option (NodeServer D))
        → aim_view o ≡ none
        → Aimed (work_view o)
        → Aimed (work_view (option_map (add_route rid route) o))
    unfolding add_route
    fresh-Aimed route none e h = tt
    fresh-Aimed route (some n) e h =
        AllAimed-none _ n.workers (subst (λ a. AllAimed a n.workers) e h)

    spawn-Aimed :
        (w : Worker D) (o : Option (NodeServer D))
        → w.spec ≡ spec
        → aim_view o ≡ some (w.upstream_peer, false)
        → Aimed (work_view o)
        → Aimed (work_view (option_map (spawn w) o))
    unfolding spawn
    spawn-Aimed w none about e h = tt
    spawn-Aimed w (some n) about e h = AllAimed-append (aim_of n) n.workers w about e h

    pub record Settles (net net' : Net D) : Type 0 where
      pub still : (x : String) → still_view (find x net') ≡ still_view (find x net)
      pub kept :
          (x : String) (a : String × Bool)
          → aim_view (find x net) ≡ some a
          → aim_view (find x net') ≡ some a
      pub aimed : IsAimed net → IsAimed net'

    pub Settles-refl : (net : Net D) → Settles net net
    Settles-refl net = record { still = λ x. refl; kept = λ x a e. e; aimed = λ h. h }

    pub Settles-trans : (a b c : Net D) → Settles a b → Settles b c → Settles a c
    Settles-trans a b c s t = record {
      still = λ x. t.still x ∙ s.still x;
      kept = λ x v e. t.kept x v (s.kept x v e);
      aimed = λ h. t.aimed (s.aimed h);
    }

    -- A change of one node that keeps its routes and its workers.
    pub Settles-change :
        (me : String) (g : NodeServer D → NodeServer D) (net : Net D)
        → ((n : NodeServer D) → still_view (some (g n)) ≡ still_view (some n))
        → ((n : NodeServer D) → work_view (some (g n)) ≡ work_view (some n))
        → Settles net (change me g net)
    Settles-change me g net s w = record {
      still = λ x. view-change me g still_view x net s;
      kept = λ x a e. view-change me g aim_view x net (λ n. ap (λ v. v.0) (w n)) ∙ e;
      aimed = λ h x. subst Aimed (sym (view-change me g work_view x net w)) (h x);
    }

    pub change_route-Settles :
        (me k : String) (g : RouteState D → RouteState D) (net : Net D)
        → ((r : RouteState D) → route_aim (g r) ≡ route_aim r)
        → Settles net (change me (change_route k g) net)
    unfolding change_route
    change_route-Settles me k g net h =
        Settles-change me (change_route k g) net (λ n. ground arith)
          (λ n. ground (arith, find-change_route rid route_aim k g n h))

    pub change_request-Settles :
        (me k : String) (g : RequestState D → RequestState D) (net : Net D)
        → ((st : RequestState D) → request_held (g st) ≡ request_held st)
        → Settles net (change me (change_request k g) net)
    unfolding change_request
    change_request-Settles me k g net h =
        Settles-change me (change_request k g) net
          (λ n. ground (arith, held-change_request k g n h)) (λ n. ground arith)

    -- A node without a route makes one that is not cancelled.
    pub add_route-Settles :
        (me : String) (route : RouteState D) (net : Net D)
        → aim_view (find me net) ≡ none
        → Settles net (change me (add_route rid route) net)
    unfolding add_route
    add_route-Settles me route net fresh = record {
      still = λ x. view-change me (add_route rid route) still_view x net (λ n. refl);
      kept = λ x a e.
          at_change me x (add_route rid route) net (λ o. aim_view o ≡ some a)
            (λ eq. absurd (
              let t : aim_view (find x net) ≡ none =
                ap (λ y. aim_view (find y net)) (sym ((string_eq.beq_iff me x).0 eq)) ∙ fresh in
              cc))
            (λ ne. e);
      aimed = λ h x.
          at_change me x (add_route rid route) net (λ o. Aimed (work_view o))
            (λ eq. fresh-Aimed route (find me net) fresh (h me)) (λ ne. h x);
    }

    -- A worker for a route that is not cancelled.
    pub spawn-Settles :
        (me : String) (w : Worker D) (net : Net D)
        → w.spec ≡ spec
        → aim_view (find me net) ≡ some (w.upstream_peer, false)
        → Settles net (change me (spawn w) net)
    unfolding spawn
    spawn-Settles me w net about e = record {
      still = λ x. view-change me (spawn w) still_view x net (λ n. refl);
      kept = λ x a p. view-change me (spawn w) aim_view x net (λ n. refl) ∙ p;
      aimed = λ h x.
          at_change me x (spawn w) net (λ o. Aimed (work_view o))
            (λ eq. spawn-Aimed w (find me net) about e (h me)) (λ ne. h x);
    }
