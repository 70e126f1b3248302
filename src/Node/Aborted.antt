-- ===== src/Node/Aborted.antt =====
-- The loops over the neighbors in `Abort`, `CancelQuery` and `janitorLoop` of cpp/src/NodeServer.cpp in an
-- overlay without a cycle, and the nested calls of `Abort`.
use mini2_aaa.Base.{
  string_eq, same, ℕ, zero, suc, ◌<◌, ◌≡◌, refl, sym, ap, ◌∙◌, String, true, false, List, [], ◌∷◌,
  Option, none, some, Bool-cases, Option-cases, ◌⊎◌, inl, inr, find, contains, arith,
}
use mini2_aaa.Node.{AbortRequest, cancel_route}
use mini2_aaa.Node.Network.{Net, change, abort_all, abort}
use mini2_aaa.Node.Views.{wire_view, wiring, peers}
use mini2_aaa.Node.Ending.{abort_each}
use mini2_aaa.Node.Storm.{cancel_route-wiring}
use mini2_aaa.Node.Calmed.{
  IsTree, IsTree-kept, Onward, Onward-kept, Onward-cases, Calms, Calms-of, Calms-then, calm_view,
  calm-here, calm-change, cancel_route-registry,
}

contains-next :
    (y nb : String) (nbs : List String) → contains y nbs ≡ true → contains y (nb ∷ nbs) ≡ true
contains-next y nb nbs m = ground (arith)

module _ {D : Type 0} (rid : String) where
  module _ (call : Net D → String → AbortRequest → Option (Net D)) (req : AbortRequest)
      (target : String → String → Type 0) where
    -- What the neighbors' calls calm.
    abbrev pub Through : List String → String → Type 0
    Through ps z = (y : String) × (contains y ps ≡ true) × target y z

    pub Through-cases :
        (nb : String) (nbs : List String) (z : String)
        → Through (nb ∷ nbs) z
        → target nb z ⊎ Through nbs z
    Through-cases nb nbs z (y, m, t) = elim (Bool-cases (same nb y)) [
      | inl eq ↦ inl (rw ((string_eq.beq_iff nb y).0 eq) t)
      | inr ne ↦ inr (y, sym (rw ne refl) ∙ m, t)
    ]

    pub abort_each-Calms :
        (ps : List String) (net : Net D)
        → ((y : String) (mid : Net D)
            → contains y ps ≡ true
            → ((x : String) → wiring x mid ≡ wiring x net)
            → Calms rid mid (target y) (call mid y req))
        → Calms rid net (Through ps) (abort_each call req ps net)
    unfolding abort_each
    abort_each-Calms [] net h = record {
      end = net;
      returns = refl;
      wired = λ x. refl;
      held = λ x. refl;
      keeps = λ z e. e;
      calms = λ z (y, m, t). absurd (cc);
    }
    abort_each-Calms (nb ∷ nbs) net h =
        let first = h nb net (rw ((string_eq.beq_iff nb nb).1 refl) refl) (λ x. refl) in
        let rest =
          abort_each-Calms nbs first.end
            (λ y mid m k. h y mid (contains-next y nb nbs m) (λ x. k x ∙ first.wired x)) in
        rw (first.returns, abort_each)
          (Calms-then rid net (call net nb req) (abort_each call req nbs first.end) first rest
            (Through-cases nb nbs))

  module _ (call : Net D → String → AbortRequest → Option (Net D)) (me : String)
      (req : AbortRequest) (target : String → String → Type 0) where
    abbrev Past : String → String → Type 0
    Past y z = (same y req.from_node ≡ false) × target y z

    pub abort_all-Calms :
        (ps : List String) (net : Net D)
        → ((y : String) (mid : Net D)
            → contains y ps ≡ true
            → same y req.from_node ≡ false
            → ((x : String) → wiring x mid ≡ wiring x net)
            → Calms rid mid (target y) (call mid y (record req { from_node = me })))
        → Calms rid net (Through call req Past ps) (abort_all call me req ps net)
    unfolding abort_all
    abort_all-Calms [] net h = record {
      end = net;
      returns = refl;
      wired = λ x. refl;
      held = λ x. refl;
      keeps = λ z e. e;
      calms = λ z (y, m, t). absurd (cc);
    }
    abort_all-Calms (nb ∷ nbs) net h = elim (Bool-cases (same nb req.from_node)) [
      | inl back ↦
          let rest = abort_all-Calms nbs net (λ y mid m. h y mid (contains-next y nb nbs m)) in
          rw (back, abort_all)
            (Calms-of rid net (abort_all call me req nbs net) rest (λ z w.
              elim (Through-cases call req Past nb nbs z w) [
                | inl (o, t) ↦ absurd (cc)
                | inr t ↦ t
              ]))
      | inr on ↦
          let first = h nb net (rw ((string_eq.beq_iff nb nb).1 refl) refl) on (λ x. refl) in
          let rest =
            abort_all-Calms nbs first.end
              (λ y mid m o k. h y mid (contains-next y nb nbs m) o (λ x. k x ∙ first.wired x)) in
          rw (on, abort_all)
            (rw (first.returns, abort_all)
              (Calms-then rid net (call net nb (record req { from_node = me }))
                (abort_all call me req nbs first.end) first rest
                (λ z w. elim (Through-cases call req Past nb nbs z w) [
                  | inl (o, t) ↦ inl t
                  | inr t ↦ inr t
                ])))
    ]

module _ {D : Type 0} (depth : String → String → ℕ) where
  -- `Abort` in a tree returns, and calms all nodes that it comes to.
  pub abort-Calms :
      (fuel : ℕ) (net : Net D) (me : String) (req : AbortRequest)
      → IsTree net depth
      → depth me req.from_node < fuel
      → Calms req.request_id net (Onward net me req.from_node) (abort fuel net me req)
  unfolding abort
  abort-Calms zero net me req tree f = absurd (omega arith)
  abort-Calms (suc fuel) net me req tree f = elim (Option-cases (find me net)) [
    | inl gone ↦
        rw (gone, abort)
          (record {
            end = net;
            returns = refl;
            wired = λ x. refl;
            held = λ x. refl;
            keeps = λ z e. e;
            calms = λ z w. elim (Onward-cases w) [
              | inl e ↦ rw (sym e) (ap (calm_view req.request_id) gone)
              | inr (y, m, o, w') ↦ absurd (
                  let none_left : peers me net ≡ [] =
                    ap (λ o. elim (wire_view o) as (λ _. List String) [ none ↦ [] | some w ↦ w.1 ])
                      gone in
                  let t : false ≡ true = sym (ap (contains y) none_left) ∙ m in cc)
            ];
          })
    | inr (n, e) ↦
        let rid = req.request_id in
        let mid = change me (cancel_route rid) net in
        let kept = λ (x : String). cancel_route-wiring me rid x net in
        let ps : peers me net ≡ n.peer_clients =
          ap (λ o. elim (wire_view o) as (λ _. List String) [ none ↦ [] | some w ↦ w.1 ]) e in
        let loop =
          abort_all-Calms rid (abort fuel) me req (λ y. Onward net y me) n.peer_clients mid
            (λ y m' m o k.
              let wired = λ (x : String). k x ∙ kept x in
              let asked = record req { from_node = me } in
              let down = tree.onward me req.from_node y (ap (contains y) ps ∙ m) o in
              Calms-of rid m' (abort fuel m' y asked)
                (abort-Calms fuel m' y asked (IsTree-kept net m' depth wired tree) (omega arith))
                (λ z. Onward-kept wired)) in
        let first : Calms rid net (λ z. me ≡ z) (some mid) = record {
          end = mid;
          returns = refl;
          wired = kept;
          held = λ x. cancel_route-registry rid me x net;
          keeps = λ z. calm-change rid me z net;
          calms = λ z e. rw (sym e) (calm-here rid me net);
        } in
        rw (e, abort)
          (Calms-then rid net (some mid) (abort_all (abort fuel) me req n.peer_clients mid) first
            loop
            (λ z w. elim (Onward-cases {net = net} {sender = req.from_node} w) [
              | inl e ↦ inl e
              | inr (y, m, o, w') ↦ inr (y, ap (contains y) (sym ps) ∙ m, (o, w'))
            ]))
  ]
