-- ===== src/Node/Canceled.antt =====
-- `CancelQuery` of cpp/src/NodeServer.cpp in an overlay without a cycle: the call returns, the request's
-- buffer is canceled, and no node below goes on with the request.
use mini2_aaa.Base.{
  string_eq, ℕ, ◌<◌, ◌≡◌, refl, sym, ap, ◌∙◌, String, Bool, true, List, [], Option, none, some,
  Option-cases, ◌⊎◌, inl, inr, find, find-insert, contains,
}
use mini2_aaa.Buffer.{cancel}
use mini2_aaa.Registry.{Registry}
use mini2_aaa.Node.{NodeServer, AbortRequest, cancel_route, change_request}
use mini2_aaa.Node.Network.{Net, change, abort}
use mini2_aaa.Node.Views.{wire_view, alive, peers, is_some, find-change, option_map}
use mini2_aaa.Node.Ending.{cancel_query, cancel_request}
use mini2_aaa.Node.Storm.{change_request-wiring}
use mini2_aaa.Node.Calmed.{
  IsTree, IsTree-kept, Onward, Onward-kept, calm, Calms-of, registry_view, calm-change, calm-here,
  cancel_route-registry,
}
use mini2_aaa.Node.Aborted.{abort-Calms, abort_each-Calms}

module _ {D : Type 0} where
  -- A node, or a node that its neighbors' calls go on to.
  abbrev pub Below : Net D → String → String → Type 0
  Below net me z =
      (me ≡ z) ⊎ ((y : String) × (contains y (peers me net) ≡ true) × Onward net y me z)

  -- Whether a registry lacks a request, or the request's buffer is canceled.
  abbrev pub over_in : String → Option (Registry D) → Bool
  over_in rid none = true
  over_in rid (some reqs) = elim (find rid reqs) [ none ↦ true | some st ↦ st.buffer.canceled ]

  abbrev pub over : String → String → Net D → Bool
  over rid x net = over_in rid (registry_view (find x net))

  over_in-cancel_request :
      (rid : String) (o : Option (NodeServer D))
      → over_in rid (registry_view (option_map (cancel_request rid) o)) ≡ true
  unfolding change_request cancel
  over_in-cancel_request rid none = refl
  over_in-cancel_request rid (some n) = elim (Option-cases (find rid n.registry)) [
    | inl e ↦ rw (e, change_request) (rw (e, over_in) refl)
    | inr (st, e) ↦
        rw (e, change_request)
          (rw (find-insert rid rid (record st { buffer = cancel st.buffer }) n.registry, over_in)
            (rw ((string_eq.beq_iff rid rid).1 refl) refl))
  ]

  over-here :
      (rid me : String) (net : Net D) → over rid me (change me (cancel_request rid) net) ≡ true
  over-here rid me net =
      ap (λ o. over_in rid (registry_view o)) (find-change me me (cancel_request rid) net)
      ∙ rw ((string_eq.beq_iff me me).1 refl) (over_in-cancel_request rid (find me net))

-- Where the overlay is a tree, with calls that nest at most `fuel` deep below the neighbors of a node
-- `me` that is there, `CancelQuery` at `me` returns. The request's buffer at `me` is canceled then, and
-- the route of the request is canceled at `me` and at every node that the calls come to, if it has one.
pub cancel_query-calms :
    {D : Type 0} (depth : String → String → ℕ) (fuel : ℕ) (net : Net D) (me rid reason : String)
    → IsTree net depth
    → alive me net ≡ true
    → ((y : String) → contains y (peers me net) ≡ true → depth y me < fuel)
    → (end : Net D) × (cancel_query fuel net me rid reason ≡ some end)
      × (over rid me end ≡ true)
      × ((z : String) → Below net me z → calm rid z end ≡ true)
unfolding cancel_query
cancel_query-calms depth fuel net me rid reason tree live deep = elim (Option-cases (find me net)) [
  | inl gone ↦ absurd (let t = ap (λ o. is_some (wire_view o)) gone in cc)
  | inr (n, e) ↦
      let ps : peers me net ≡ n.peer_clients =
        ap (λ o. elim (wire_view o) as (λ _. List String) [ none ↦ [] | some w ↦ w.1 ]) e in
      let mid = change me (cancel_request rid) net in
      let req : AbortRequest = record { request_id = rid; from_node = me; reason = reason } in
      let kept = λ (x : String).
        change_request-wiring me rid x (λ st. record st { buffer = cancel st.buffer }) net in
      let loop =
        abort_each-Calms rid (abort fuel) req (λ y. Onward net y me) n.peer_clients mid
          (λ y m' m k.
            let wired = λ (x : String). k x ∙ kept x in
            Calms-of rid m' (abort fuel m' y req)
              (abort-Calms depth fuel m' y req (IsTree-kept net m' depth wired tree)
                (deep y (ap (contains y) ps ∙ m)))
              (λ z. Onward-kept wired)) in
      let end = change me (cancel_route rid) loop.end in
      (
        end,
        rw (e, cancel_query) (rw (loop.returns, cancel_query) refl),
        ap (over_in rid) (cancel_route-registry rid me me loop.end ∙ loop.held me)
            ∙ over-here rid me net,
        λ z b. elim b [
          | inl here ↦ rw (sym here) (calm-here rid me loop.end)
          | inr (y, m, w) ↦
              calm-change rid me z loop.end (loop.calms z (y, ap (contains y) (sym ps) ∙ m, w))
        ],
      )
]
