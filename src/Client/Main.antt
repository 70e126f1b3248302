-- ===== src/Client/Main.antt =====
-- `main` of cpp/src/client_main.cpp from its arguments to its end.
use mini2_aaa.Base.{
  string_eq, ℕ, String, Bool, true, false, List, [], Option, none, some, find, insert, map,
}
use mini2_aaa.Base.Int.{ℤ}
use mini2_aaa.Domain.{Floating, Row311}
use mini2_aaa.Cache.{Hashing}
use mini2_aaa.Registry.{Timing}
use mini2_aaa.Node.Network.{Net}
use mini2_aaa.Node.Portal.{SubmitAck}
use mini2_aaa.Node.Submit.{submit_query}
use mini2_aaa.Node.Ending.{cancel_query}
use mini2_aaa.Client.{Turn, Session, Contact, contact, fetch_loop, row_line}

-- How `main` ends: with an exit code, the lines that it printed, and whether it reported the end of the
-- answer; or with an exception. `waits` is that a call, or the loop over the turns that are given, has
-- not ended, with the lines that are out.
pub data Main (D : Type 0) : Type 0 where
  returns : (code : ℕ) (lines : List String) (reported : Bool) → Net D → Main D
  throws : Main D
  waits : (lines : List String) → Main D

-- The clocks and the random numbers of the portal, and the program's way to print numbers.
pub record Outside (D : Type 0) : Type 0 where
  pub show : ℕ → String
  pub show_double : D → String
  pub clock : String → ℕ
  pub now : ℕ
  pub issued : ℕ
  pub hex : String

abbrev pub lines_of : {D : Type 0} → Outside D → List (Row311 D) → List String
lines_of o rows = map (row_line o.show o.show_double) rows

module _ {D : Type 0} ⦃f : Floating D⦄ ⦃h : Hashing D⦄ ⦃t : Timing D⦄ (atoi : String → ℤ)
    (o : Outside D) (fuel : ℕ) where
  -- After the loop, whose calls went to node `me` of `net`; an interrupted one sends `CancelQuery`.
  unfoldable pub after_loop : (me rid : String) → Net D → Session D → Main D
  after_loop me rid net (Session.fetching want rows n) = Main.waits (lines_of o rows)
  after_loop me rid net (Session.fetch_failed rows n) =
      Main.returns 0 (lines_of o rows) false (insert me n net)
  after_loop me rid net (Session.finished r rows n) =
      Main.returns 0 (lines_of o rows) true (insert me n net)
  after_loop me rid net (Session.canceling rows n) =
      elim (cancel_query fuel (insert me n net) me rid "user") [
        | none ↦ Main.waits (lines_of o rows)
        | some end ↦ Main.returns 0 (lines_of o rows) false end
      ]

  -- After `SubmitQuery` at node `me`: the call has failed or was not accepted, or the loop starts. A call
  -- of a node that is not there fails.
  unfoldable pub after_submit : (me : String) → List (Turn D) → Net D → Option SubmitAck → Main D
  unfolding after_loop
  after_submit me turns net none = Main.returns 1 [] false net
  after_submit me turns net (some ack) = elim ack.accepted [
    | false ↦ Main.returns 1 [] false net
    | true ↦ elim (find me net) [
      | none ↦ Main.returns 0 [] false net
      | some n ↦ after_loop me ack.request_id net (fetch_loop atoi ack.request_id turns 0 [] n)
    ]
  ]

  -- `main`, with the nodes of `net` and what happens around each round of its loop.
  unfoldable pub client_main :
      (scan_geo : String → Option ((D × D) × (D × D))) (files : String → Option (List String))
      → List String
      → List (Turn D)
      → Net D
      → Main D
  unfolding after_submit
  client_main scan_geo files args turns net = elim (contact atoi scan_geo files args) [
    | Contact.bad_usage ↦ Main.returns 2 [] false net
    | Contact.bad_config ↦ Main.returns 1 [] false net
    | Contact.no_portal ↦ Main.throws
    | Contact.talks_to entry req slow ↦
        elim (submit_query atoi o.show o.clock o.now o.issued o.hex fuel net entry.id req) [
          | none ↦ Main.waits []
          | some (net', ack) ↦ after_submit entry.id turns net' ack
        ]
  ]
