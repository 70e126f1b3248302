-- ===== src/Node/Calmed.antt =====
-- An overlay without a cycle for `Abort` and `CancelQuery` of cpp/src/NodeServer.cpp: the nodes that a call
-- comes to, and what a call that ends leaves.
use mini2_aaa.Base.{
  string_eq, same, ℕ, ◌<◌, ◌≡◌, refl, sym, ap, ◌∙◌, String, Bool, true, false, List, [], Option,
  none, some, Bool-cases, Option-cases, ◌⊎◌, inl, inr, find, find-insert, contains,
}
use mini2_aaa.Node.{NodeServer, cancel_route, change_route}
use mini2_aaa.Registry.{Registry}
use mini2_aaa.Node.Network.{Net, change}
use mini2_aaa.Node.Views.{wiring, peers, find-change, view-change, option_map}

-- No call that goes on from a node to a neighbor other than its sender can come back: the calls that
-- follow it are fewer.
pub record IsTree {D : Type 0} (net : Net D) (depth : String → String → ℕ) : Type 0 where
  pub onward :
      (x sender y : String)
      → contains y (peers x net) ≡ true
      → same y sender ≡ false
      → depth y x < depth x sender

-- The nodes that a call at a node goes on to, if each hands it to its neighbors other than the sender.
pub data Onward {D : Type 0} (net : Net D) : String → String → String → Type 0 where
  here : {x sender : String} → Onward net x sender x
  next :
      {x sender z : String} (y : String)
      → contains y (peers x net) ≡ true
      → same y sender ≡ false
      → Onward net y x z
      → Onward net x sender z

module _ {D : Type 0} where
  -- The requests of a node.
  abbrev pub registry_view : Option (NodeServer D) → Option (Registry D)
  registry_view = option_map (λ n. n.registry)

  pub Onward-kept :
      {net mid : Net D} {x sender z : String}
      → ((x : String) → wiring x mid ≡ wiring x net)
      → Onward net x sender z
      → Onward mid x sender z
  Onward-kept h here = here
  Onward-kept {mid = mid} {x = x} h (next y m o w) =
      next y
        (ap (λ v. contains y (elim v as (λ _. List String) [ none ↦ [] | some u ↦ u.1 ])) (h x) ∙ m)
        o (Onward-kept h w)

  pub Onward-cases :
      {net : Net D} {x sender z : String}
      → Onward net x sender z
      → (x ≡ z)
        ⊎ ((y : String) × (contains y (peers x net) ≡ true)
            × (same y sender ≡ false)
            × Onward net y x z)
  Onward-cases here = inl refl
  Onward-cases (next y m o w) = inr (y, m, o, w)

  pub IsTree-kept :
      (net mid : Net D) (depth : String → String → ℕ)
      → ((x : String) → wiring x mid ≡ wiring x net)
      → IsTree net depth
      → IsTree mid depth
  IsTree-kept net mid depth h t = record {
    onward = λ x s y m o.
        t.onward x s y
          (ap (λ v. contains y (elim v as (λ _. List String) [ none ↦ [] | some u ↦ u.1 ]))
              (sym (h x))
            ∙ m)
          o;
  }

module _ {D : Type 0} (rid : String) where
  -- Whether a node has no route of the request, or a canceled one.
  abbrev pub calm_of : NodeServer D → Bool
  calm_of n = elim (find rid n.routes) [ none ↦ true | some r ↦ r.canceled ]

  abbrev pub calm_view : Option (NodeServer D) → Bool
  calm_view none = true
  calm_view (some n) = calm_of n

  abbrev pub calm : String → Net D → Bool
  calm x net = calm_view (find x net)

  pub calm_of-cancel_route : (n : NodeServer D) → calm_of (cancel_route rid n) ≡ true
  unfolding change_route
  calm_of-cancel_route n = elim (Option-cases (find rid n.routes)) [
    | inl e ↦ rw (e, change_route) (rw (e, calm_of) refl)
    | inr (r, e) ↦
        rw (e, change_route)
          (rw (find-insert rid rid (record r { canceled = true }) n.routes, calm_of)
            (rw ((string_eq.beq_iff rid rid).1 refl) refl))
  ]

  calm_view-cancel_route :
      (o : Option (NodeServer D)) → calm_view (option_map (cancel_route rid) o) ≡ true
  calm_view-cancel_route none = refl
  calm_view-cancel_route (some n) = calm_of-cancel_route n

  pub calm-here : (me : String) (net : Net D) → calm me (change me (cancel_route rid) net) ≡ true
  calm-here me net =
      ap calm_view (find-change me me (cancel_route rid) net)
      ∙ rw ((string_eq.beq_iff me me).1 refl) (calm_view-cancel_route (find me net))

  pub calm-change :
      (me z : String) (net : Net D)
      → calm z net ≡ true
      → calm z (change me (cancel_route rid) net) ≡ true
  calm-change me z net c = elim (Bool-cases (same me z)) [
    | inl eq ↦
        ap calm_view (find-change me z (cancel_route rid) net)
        ∙ rw eq (calm_view-cancel_route (find me net))
    | inr ne ↦ ap calm_view (find-change me z (cancel_route rid) net) ∙ rw ne c
  ]

  pub cancel_route-registry :
      (me x : String) (net : Net D)
      → registry_view (find x (change me (cancel_route rid) net)) ≡ registry_view (find x net)
  unfolding change_route
  cancel_route-registry me x net = view-change me (cancel_route rid) registry_view x net (λ n.
      elim (Option-cases (find rid n.routes)) [
        | inl none_ ↦ rw (none_, change_route) refl
        | inr (r, found) ↦ rw (found, change_route) refl
      ])

  -- A call returns, leaves the stubs and the requests, wakes no node, and calms its targets.
  pub record Calms (net : Net D) (target : String → Type 0) (o : Option (Net D)) : Type 0 where
    pub end : Net D
    pub returns : o ≡ some end
    pub wired : (x : String) → wiring x end ≡ wiring x net
    pub held : (x : String) → registry_view (find x end) ≡ registry_view (find x net)
    pub keeps : (z : String) → calm z net ≡ true → calm z end ≡ true
    pub calms : (z : String) → target z → calm z end ≡ true

module _ {D : Type 0} (rid : String) where
  pub Calms-of :
      {S T : String → Type 0} (net : Net D) (o : Option (Net D))
      → Calms rid net S o
      → ((z : String) → T z → S z)
      → Calms rid net T o
  Calms-of net o c h = record {
    end = c.end;
    returns = c.returns;
    wired = c.wired;
    held = c.held;
    keeps = c.keeps;
    calms = λ z t. c.calms z (h z t);
  }

  -- One call after another.
  pub Calms-then :
      {S T U : String → Type 0} (net : Net D) (o o' : Option (Net D)) (c : Calms rid net S o)
      → Calms rid c.end T o'
      → ((z : String) → U z → S z ⊎ T z)
      → Calms rid net U o'
  Calms-then net o o' c c' h = record {
    end = c'.end;
    returns = c'.returns;
    wired = λ x. c'.wired x ∙ c.wired x;
    held = λ x. c'.held x ∙ c.held x;
    keeps = λ z e. c'.keeps z (c.keeps z e);
    calms = λ z u. elim (h z u) [ inl s ↦ c'.keeps z (c.calms z s) | inr t ↦ c'.calms z t ];
  }
