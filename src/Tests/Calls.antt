-- ===== src/Tests/Calls.antt =====
-- The calls `CancelQuery` and `Abort` in a chain of three nodes.
use mathlib.Core.Path.{subst}
use mini2_aaa.Base.{
  string_eq, same, ℕ, ◌<◌, ◌≡◌, refl, sym, ap, ◌∙◌, String, true, false, if◌then◌else◌, List, [],
  ◌∷◌, none, some, Bool-cases, inl, inr, find, contains, arith,
}
use mini2_aaa.Node.Network.{Net}
use mini2_aaa.Node.Views.{peers, wire_view}
use mini2_aaa.Node.Ending.{cancel_query}
use mini2_aaa.Node.Calmed.{IsTree, calm}
use mini2_aaa.Node.Canceled.{cancel_query-calms, over, Below}
use mini2_aaa.Tests.Network.{top, leaf}

-- The root A, B below it, and D below B; A has the request, B and D its route.
abbrev chain : Net ℕ
chain =
    ("A", top)
    ∷ ("B", record leaf { peer_clients = "A" ∷ "D" ∷ [] })
    ∷ ("D", record leaf { peer_clients = "B" ∷ [] })
    ∷ []

abbrev depth : String → String → ℕ
depth x sender = if same x "B" then 1 else if same sender "B" then 0 else 2

at_end :
    (x s y : String)
    → same x "B" ≡ false
    → contains y ("B" ∷ []) ≡ true
    → same y s ≡ false
    → depth y x < depth x s
at_end x s y end m o =
    let b : "B" ≡ y = ground (arith, string_eq.beq_iff "B" y) in
    let other : same s "B" ≡ false =
      ground (arith, b, string_eq.beq_iff s "B", string_eq.beq_iff y s) in
    rw (sym b) (rw (end, other) (omega arith))

in_middle : (s y : String) → contains y ("A" ∷ "D" ∷ []) ≡ true → depth y "B" < depth "B" s
in_middle s y m = elim (Bool-cases (same "A" y)) [
  | inl a ↦ subst (λ v. depth v "B" < depth "B" s) ((string_eq.beq_iff "A" y).0 a) (omega arith)
  | inr not_a ↦ elim (Bool-cases (same "D" y)) [
    | inl d ↦ subst (λ v. depth v "B" < depth "B" s) ((string_eq.beq_iff "D" y).0 d) (omega arith)
    | inr not_d ↦ absurd (let t : false ≡ true = sym (rw (not_a, not_d) refl) ∙ m in cc)
  ]
]

abbrev Falls : (x s y : String) → Type 0
Falls x s y = contains y (peers x chain) ≡ true → same y s ≡ false → depth y x < depth x s

chain-IsTree : IsTree chain depth
unfolding find
chain-IsTree = record {
  onward = λ x s y m o. elim (Bool-cases (same "A" x)) [
    | inl a ↦ subst (λ v. Falls v s y) ((string_eq.beq_iff "A" x).0 a) (at_end "A" s y refl) m o
    | inr not_a ↦ elim (Bool-cases (same "B" x)) [
      | inl b ↦
          subst (λ v. Falls v s y) ((string_eq.beq_iff "B" x).0 b) (λ m o. in_middle s y m) m o
      | inr not_b ↦ elim (Bool-cases (same "D" x)) [
        | inl d ↦ subst (λ v. Falls v s y) ((string_eq.beq_iff "D" x).0 d) (at_end "D" s y refl) m o
        | inr not_d ↦ absurd (
            let gone : find x chain ≡ none = rw (not_a, not_b, not_d) refl in
            let t : false ≡ true =
              sym (
                ap
                  (λ o.
                    contains y
                      (elim (wire_view o) as (λ _. List String) [ none ↦ [] | some w ↦ w.1 ]))
                  gone)
              ∙ m in
            cc)
      ]
    ]
  ];
}

chain-deep : (y : String) → contains y (peers "A" chain) ≡ true → depth y "A" < 2
unfolding find
chain-deep y m = ground (arith, string_eq.beq_iff "B" y, string_eq.beq_iff y "B")

cancel_query-calms_example :
    (end : Net ℕ) × (cancel_query 2 chain "A" "q" "user" ≡ some end)
    × (over "q" "A" end ≡ true)
    × ((z : String) → Below chain "A" z → calm "q" z end ≡ true)
unfolding find
cancel_query-calms_example =
    cancel_query-calms depth 2 chain "A" "q" "user" chain-IsTree refl chain-deep
