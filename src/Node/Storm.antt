-- ===== src/Node/Storm.antt =====
-- The calls `Abort` that one `CancelQuery` of cpp/src/NodeServer.cpp sets off, as they wait to be handled.
-- A handler ignores what its calls answer, so it makes all of them, be they answered or given up at the
-- deadline of cpp/src/PeerClient.cpp; a call reaches its node also if its caller has given it up. A turn
-- handles one of the calls that wait, whichever.
use mini2_aaa.Base.{
  string_eq, same, ℕ, zero, suc, ◌≡◌, refl, sym, ap, ◌∙◌, String, Bool, true, false, List, [], ◌∷◌,
  ◌++◌, ◌||◌, Option, none, some, Bool-cases, Option-cases, inl, inr, find, some_inj, contains,
  if◌then◌else◌, arith,
}
use mini2_aaa.Node.{AbortRequest, cancel_route, change_route, change_request}
use mini2_aaa.Registry.{RequestState}
use mini2_aaa.Buffer.{cancel}
use mini2_aaa.Node.Network.{Net, change}
use mini2_aaa.Node.Views.{wire_view, is_some, wiring, alive, peers, view-change}
use mini2_aaa.Node.Ending.{cancel_request}

-- A call `Abort` of a node that waits to be handled there.
pub record Call : Type 0 where
  pub to : String
  pub req : AbortRequest

-- The calls of the loop of `Abort` at node `me`, over the neighbors but the sender.
unfoldable pub abort_calls : (me : String) → AbortRequest → List String → List Call
abort_calls me req [] = []
abort_calls me req (nb ∷ nbs) =
    let rest = abort_calls me req nbs in
    if same nb req.from_node
    then rest
    else record { to = nb; req = record req { from_node = me } } ∷ rest

-- The calls of the loop of `CancelQuery`.
unfoldable pub cancel_calls : (me rid reason : String) → List String → List Call
cancel_calls me rid reason [] = []
cancel_calls me rid reason (nb ∷ nbs) =
    record { to = nb; req = record { request_id = rid; from_node = me; reason = reason } }
    ∷ cancel_calls me rid reason nbs

-- One of the calls that wait, and the others.
unfoldable pub pick : ℕ → List Call → Option (Call × List Call)
pick i [] = none
pick zero (c ∷ cs) = some (c, cs)
pick (suc i) (c ∷ cs) = elim (pick i cs) [ none ↦ none | some (c', rest) ↦ some (c', c ∷ rest) ]

module _ {D : Type 0} where
  -- The handler `Abort` at node `me`, with the calls that it makes.
  unfoldable pub handle_abort : (me : String) → AbortRequest → Net D → Net D × List Call
  unfolding abort_calls change
  handle_abort me req net = elim (find me net) [
    | none ↦ (net, [])
    | some n ↦ (change me (cancel_route req.request_id) net, abort_calls me req n.peer_clients)
  ]

  -- The handler `CancelQuery` at node `me`, with the calls that it makes. What it does when they have
  -- returned or are given up, to set the flag of its own route, holds up no call.
  unfoldable pub handle_cancel : (me rid reason : String) → Net D → Net D × List Call
  unfolding cancel_calls change
  handle_cancel me rid reason net = elim (find me net) [
    | none ↦ (net, [])
    | some n ↦ (change me (cancel_request rid) net, cancel_calls me rid reason n.peer_clients)
  ]

  -- The call at a position is handled, and its handler's calls wait; a position without one is skipped.
  unfoldable pub abort_turn : ℕ → Net D × List Call → Net D × List Call
  unfolding handle_abort pick
  abort_turn i (net, calls) = elim (pick i calls) [
    | none ↦ (net, calls)
    | some (c, rest) ↦ let (net', more) = handle_abort c.to c.req net in (net', rest ++ more)
  ]

  unfoldable pub abort_turns : List ℕ → Net D × List Call → Net D × List Call
  unfolding abort_turn
  abort_turns [] s = s
  abort_turns (i ∷ is) s = abort_turns is (abort_turn i s)

-- Whether a call waits at one of the nodes of a cycle.
abbrev pub circles : (String → Bool) → List Call → Bool
circles cycle [] = false
circles cycle (c ∷ cs) = cycle c.to || circles cycle cs

-- Nodes from which a call goes on whoever sent it: each has a neighbor among them other than the sender.
pub record IsCyclic {D : Type 0} (net : Net D) (cycle : String → Bool) : Type 0 where
  pub there : (x : String) → cycle x ≡ true → alive x net ≡ true
  pub onward :
      (x sender : String)
      → cycle x ≡ true
      → (y : String) × (contains y (peers x net) ≡ true)
        × (same y sender ≡ false)
        × (cycle y ≡ true)

module _ {D : Type 0} where
  pub cancel_route-wiring :
      (me rid x : String) (net : Net D) → wiring x (change me (cancel_route rid) net) ≡ wiring x net
  unfolding change_route
  cancel_route-wiring me rid x net = view-change me (cancel_route rid) wire_view x net (λ n.
      elim (Option-cases (find rid n.routes)) [
        | inl none_ ↦ rw (none_, change_route) refl
        | inr (r, found) ↦ rw (found, change_route) refl
      ])

  pub change_request-wiring :
      (me rid x : String) (g : RequestState D → RequestState D) (net : Net D)
      → wiring x (change me (change_request rid g) net) ≡ wiring x net
  unfolding change_request
  change_request-wiring me rid x g net = view-change me (change_request rid g) wire_view x net (λ n.
      elim (Option-cases (find rid n.registry)) [
        | inl none_ ↦ rw (none_, change_request) refl
        | inr (r, found) ↦ rw (found, change_request) refl
      ])

  IsCyclic-kept :
      (net mid : Net D) (cycle : String → Bool)
      → ((x : String) → wiring x mid ≡ wiring x net)
      → IsCyclic net cycle
      → IsCyclic mid cycle
  IsCyclic-kept net mid cycle h c = record {
    there = λ x i. ap is_some (h x) ∙ c.there x i;
    onward = λ x s i.
        let (y, m, o, j) = c.onward x s i in
        (
          y,
          ap (λ w. contains y (elim w as (λ _. List String) [ none ↦ [] | some w ↦ w.1 ])) (h x)
              ∙ m,
          o,
          j,
        );
  }

module _ (cycle : String → Bool) where
  circles-append :
      (cs ds : List Call) → circles cycle (cs ++ ds) ≡ (circles cycle cs || circles cycle ds)
  circles-append [] ds = refl
  circles-append (c ∷ cs) ds = ground (arith, circles-append cs ds)

  pick-circles :
      (i : ℕ) (cs : List Call) (c : Call) (rest : List Call)
      → pick i cs ≡ some (c, rest)
      → circles cycle cs ≡ (cycle c.to || circles cycle rest)
  unfolding pick
  pick-circles i [] c rest e = absurd (cc)
  pick-circles zero (x ∷ cs) c rest e = ap (λ p. cycle p.0.to || circles cycle p.1) (some_inj e)
  pick-circles (suc i) (x ∷ cs) c rest e = elim (Option-cases (pick i cs)) [
    | inl none_ ↦ absurd (let bad : none ≡ some (c, rest) = sym (rw none_ refl) ∙ e in cc)
    | inr ((c', rest'), found) ↦
        let here : (c', x ∷ rest') ≡ (c, rest) = some_inj (sym (rw found refl) ∙ e) in
        let below = pick-circles i cs c' rest' found in
        (ground arith) ∙ ap (λ p. cycle p.0.to || circles cycle p.1) here
  ]

  abort_calls-circles :
      (me : String) (req : AbortRequest) (ps : List String) (y : String)
      → contains y ps ≡ true
      → same y req.from_node ≡ false
      → cycle y ≡ true
      → circles cycle (abort_calls me req ps) ≡ true
  unfolding abort_calls
  abort_calls-circles me req [] y m o k = absurd (cc)
  abort_calls-circles me req (nb ∷ nbs) y m o k =
      ground (arith, abort_calls-circles me req nbs y, string_eq.beq_iff nb y)

  cancel_calls-circles :
      (me rid reason : String) (ps : List String) (y : String)
      → contains y ps ≡ true
      → cycle y ≡ true
      → circles cycle (cancel_calls me rid reason ps) ≡ true
  unfolding cancel_calls
  cancel_calls-circles me rid reason [] y m k = absurd (cc)
  cancel_calls-circles me rid reason (nb ∷ nbs) y m k =
      ground (arith, cancel_calls-circles me rid reason nbs y, string_eq.beq_iff nb y)

  module _ {D : Type 0} where
    handle_abort-kept :
        (net : Net D) (me : String) (req : AbortRequest)
        → IsCyclic net cycle
        → IsCyclic (handle_abort me req net).0 cycle
    unfolding handle_abort
    handle_abort-kept net me req c = elim (Option-cases (find me net)) [
      | inl gone ↦ rw (gone, handle_abort) c
      | inr (n, e) ↦
          rw (e, handle_abort)
            (IsCyclic-kept net (change me (cancel_route req.request_id) net) cycle
              (λ x. cancel_route-wiring me req.request_id x net) c)
    ]

    -- The handler at a node of the cycle calls a node of the cycle.
    handle_abort-circles :
        (net : Net D) (me : String) (req : AbortRequest)
        → IsCyclic net cycle
        → cycle me ≡ true
        → circles cycle (handle_abort me req net).1 ≡ true
    unfolding handle_abort
    handle_abort-circles net me req c k = elim (Option-cases (find me net)) [
      | inl gone ↦
          absurd (let t = ap (λ o. is_some (wire_view o)) gone in let u = c.there me k in cc)
      | inr (n, e) ↦
          let (y, m, o, j) = c.onward me req.from_node k in
          let ps : peers me net ≡ n.peer_clients =
            ap (λ o. elim (wire_view o) as (λ _. List String) [ none ↦ [] | some w ↦ w.1 ]) e in
          rw (e, handle_abort)
            (abort_calls-circles me req n.peer_clients y (ap (contains y) (sym ps) ∙ m) o j)
    ]

    abort_turn-kept :
        (i : ℕ) (net : Net D) (calls : List Call)
        → IsCyclic net cycle
        → circles cycle calls ≡ true
        → IsCyclic (abort_turn i (net, calls)).0 cycle
          × (circles cycle (abort_turn i (net, calls)).1 ≡ true)
    unfolding abort_turn
    abort_turn-kept i net calls c k = elim (Option-cases (pick i calls)) [
      | inl none_ ↦ rw (none_, abort_turn) (c, k)
      | inr ((call, rest), e) ↦
          let split = sym (pick-circles i calls call rest e) ∙ k in
          let more = (handle_abort call.to call.req net).1 in
          rw (e, abort_turn)
            (
              handle_abort-kept net call.to call.req c,
              circles-append rest more ∙ elim (Bool-cases (cycle call.to)) [
                | inl here ↦
                    let new_ = handle_abort-circles net call.to call.req c here in ground arith
                | inr elsewhere ↦ (ground arith)
              ],
            )
    ]

    abort_turns-circles :
        (is : List ℕ) (net : Net D) (calls : List Call)
        → IsCyclic net cycle
        → circles cycle calls ≡ true
        → circles cycle (abort_turns is (net, calls)).1 ≡ true
    unfolding abort_turns
    abort_turns-circles [] net calls c k = k
    abort_turns-circles (i ∷ is) net calls c k =
        let (c', k') = abort_turn-kept i net calls c k in
        abort_turns-circles is (abort_turn i (net, calls)).0 (abort_turn i (net, calls)).1 c' k'

-- In an overlay with a cycle, what `CancelQuery` sets off at a node with a neighbor on the cycle never
-- comes to rest, whether its calls are answered or given up at their deadlines: whichever of the calls
-- that wait have been handled, however many, there is one that waits at a node of the cycle.
pub cancel_query-circles :
    {D : Type 0} (net : Net D) (cycle : String → Bool) (me rid reason y : String) (is : List ℕ)
    → IsCyclic net cycle
    → alive me net ≡ true
    → contains y (peers me net) ≡ true
    → cycle y ≡ true
    → circles cycle (abort_turns is (handle_cancel me rid reason net)).1 ≡ true
unfolding handle_cancel
cancel_query-circles net cycle me rid reason y is c live m k = elim (Option-cases (find me net)) [
  | inl gone ↦ absurd (let t = ap (λ o. is_some (wire_view o)) gone in cc)
  | inr (n, e) ↦
      let ps : peers me net ≡ n.peer_clients =
        ap (λ o. elim (wire_view o) as (λ _. List String) [ none ↦ [] | some w ↦ w.1 ]) e in
      let mid = change me (cancel_request rid) net in
      let kept = λ (x : String).
        change_request-wiring me rid x (λ st. record st { buffer = cancel st.buffer }) net in
      rw (e, handle_cancel)
        (abort_turns-circles cycle is mid (cancel_calls me rid reason n.peer_clients)
          (IsCyclic-kept net mid cycle kept c)
          (cancel_calls-circles cycle me rid reason n.peer_clients y (ap (contains y) (sym ps) ∙ m)
            k))
]
