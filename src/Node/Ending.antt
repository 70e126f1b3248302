-- ===== src/Node/Ending.antt =====
-- How a request ends early: `CancelQuery` and a round of `janitorLoop` of cpp/src/NodeServer.cpp, with
-- their calls of the neighbors. Both end with nobody reading an answer.
use mini2_aaa.Base.{
  string_eq, ℕ, String, Bool, true, false, if◌then◌else◌, List, [], ◌∷◌, Option, none, some, find,
  map,
}
use mini2_aaa.Base.Int.{ℤ, pos, negsuc}
use mini2_aaa.Buffer.{cancel}
use mini2_aaa.Config.{param_int}
use mini2_aaa.Registry.{RequestState, Registry, collect_expired, remove}
use mini2_aaa.Node.{NodeServer, AbortRequest, change_request, cancel_route}
use mini2_aaa.Node.Network.{Net, change, abort}

-- `shutdown`, with whether the gRPC server was started; the result is whether it is told to end.
unfoldable pub shutdown : {D : Type 0} (started : Bool) → NodeServer D → NodeServer D × Bool
shutdown started n = if n.stop then (n, false) else (record n { stop = true }, started)

module _ {D : Type 0} where
  -- `st->buffer->cancel()`.
  abbrev pub cancel_request : String → NodeServer D → NodeServer D
  cancel_request rid = change_request rid (λ st. record st { buffer = cancel st.buffer })

  -- `registry_.erase(rid)`.
  abbrev pub drop_request : String → NodeServer D → NodeServer D
  drop_request rid n = record n { registry = remove rid n.registry }

  -- The calls `abort` of all neighbors; `call` is the call of one.
  unfoldable pub abort_each :
      (Net D → String → AbortRequest → Option (Net D))
      → AbortRequest
      → List String
      → Net D
      → Option (Net D)
  abort_each call req [] net = some net
  abort_each call req (nb ∷ nbs) net = elim (call net nb req) [
    | none ↦ none
    | some net' ↦ abort_each call req nbs net'
  ]

  -- `CancelQuery` at node `me`.
  unfoldable pub cancel_query : (fuel : ℕ) → Net D → (me rid reason : String) → Option (Net D)
  unfolding abort_each change
  cancel_query fuel net me rid reason = elim (find me net) [
    | none ↦ some net
    | some n ↦
        elim (abort_each (abort fuel) (record { request_id = rid; from_node = me; reason = reason })
          n.peer_clients (change me (cancel_request rid) net)) [
            | none ↦ none
            | some net' ↦ some (change me (cancel_route rid) net')
          ]
  ]

  -- What the janitor does with an abandoned request.
  unfoldable pub abandon : (fuel : ℕ) (me rid : String) → List String → Net D → Option (Net D)
  unfolding abort_each change
  abandon fuel me rid ps net =
      elim (abort_each (abort fuel) (record { request_id = rid; from_node = me; reason = "ttl" }) ps
        (change me (cancel_request rid) net)) [
          | none ↦ none
          | some net' ↦ some (change me (drop_request rid) net')
        ]

  unfoldable pub abandon_all :
      (fuel : ℕ) (me : String) → List String → List (RequestState D) → Net D → Option (Net D)
  unfolding abandon
  abandon_all fuel me ps [] net = some net
  abandon_all fuel me ps (st ∷ sts) net = elim (abandon fuel me st.request_id ps net) [
    | none ↦ none
    | some net' ↦ abandon_all fuel me ps sts net'
  ]

  -- The abandoned requests, at time `now`, for a time to live in seconds; a negative one has all.
  unfoldable pub expired : (now : ℕ) → ℤ → Registry D → List (RequestState D)
  expired now (pos ttl) reqs = collect_expired now ttl reqs
  expired now (negsuc k) reqs = map (λ (e : String × RequestState D). e.1) reqs

  -- A round of the loop of `janitorLoop` at node `me`.
  unfoldable pub janitor_round :
      (atoi : String → ℤ) (now fuel : ℕ) → String → Net D → Option (Net D)
  unfolding abandon_all expired
  janitor_round atoi now fuel me net = elim (find me net) [
    | none ↦ some net
    | some n ↦
        if n.stop
        then some net
        else abandon_all fuel me n.peer_clients
            (expired now (param_int atoi "request_ttl_secs" (pos 120) n.cfg) n.registry) net
  ]
