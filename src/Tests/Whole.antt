-- ===== src/Tests/Whole.antt =====
-- The way of a query from `SubmitQuery` to the portal's buffer, at the network of two nodes.
use mini2_aaa.Base.{
  string_eq, ℕ, ◌≤◌, ◌≡◌, refl, String, false, List, [], ◌∷◌, Option, none, some, find, insert,
  arith,
}
use mini2_aaa.Cache.{get}
use mini2_aaa.Config.{node, param_int, all_node_ids}
use mini2_aaa.Engine.{run}
use mini2_aaa.Node.{spawn, change_route, add_route}
use mini2_aaa.Node.Network.{Net, forward_query}
use mini2_aaa.Node.Portal.{SubmitRequest, SubmitAck}
use mini2_aaa.Node.Submit.{submit_query, taken}
use mini2_aaa.Node.Launch.{here, next, IsNew}
use mini2_aaa.Node.Submitted.{next_id}
use mini2_aaa.Node.Spread.{at_root}
use mini2_aaa.Node.Collected.{by_stub}
use mini2_aaa.Node.Execute.{canceled_fn}
use mini2_aaa.Node.Threads.{Thread, start_thread, left_over, interleave, AllEnded}
use mini2_aaa.Node.Started.{threads_of, AllConnected, total_rows}
use mini2_aaa.Node.Finished.{IsGathered, interleave-IsGathered}
use mini2_aaa.Node.Answered.{IsAnswered}
use mini2_aaa.Node.Whole.{submit_query-IsAnswered}
use mini2_aaa.Node.Views.{is_some, up_view, jobs_view}
use mini2_aaa.Tests.{whole_doubles}
use mini2_aaa.Tests.Parts.{lengths, whole_millis}
use mini2_aaa.Tests.Overlay.{number, node_a, entry_a, net, net-IsOverlay}
use mini2_aaa.Tests.Network.{
  by_node, everything, worker_b, leaf, busy, busy-IsOverlay, open_buffer, top, opened, found_one,
}
use mini2_aaa.Tests.Sessions.{show}

-- The thread of B while the query `q` is under way.
abbrev thread_b : Thread ℕ
thread_b = start_thread number (λ k. false) "B" leaf worker_b

thread_b-ended : AllEnded (left_over (0 ∷ []) (thread_b ∷ []))
unfolding start_thread run canceled_fn find param_int
thread_b-ended = (refl, tt)

interleave-IsGathered_example :
    (after : Net ℕ) × (interleave 25 2 (λ k. 9) (0 ∷ []) (thread_b ∷ []) busy
      ≡ some (left_over (0 ∷ []) (thread_b ∷ []), after))
    × IsGathered "q" "A" (thread_b ∷ []) open_buffer after
unfolding start_thread find
interleave-IsGathered_example =
    interleave-IsGathered 25 2 (λ k. 9) "q" "A" (0 ∷ []) (thread_b ∷ []) busy open_buffer (refl, tt)
      (
        record {
          u = "A";
          road = by_stub refl refl;
          about = refl;
          hops = 0;
          link = at_root;
          near = omega arith;
        },
        tt,
      )
      (record {
        overlay = busy-IsOverlay;
        top = top;
        found = refl;
        st = opened;
        open_ = refl;
        holds = refl;
      })
      (record { live = refl; fits = (let t = found_one in omega arith) }) thread_b-ended

abbrev ask_all : SubmitRequest ℕ
ask_all = record { client_id = "cli"; spec = everything }

abbrev rid : String
rid = next_id show "ff" "A" node_a

abbrev net_of : Option (Net ℕ × Option SubmitAck) → Net ℕ
net_of none = []
net_of (some (net', ack)) = net'

-- The nodes once A has accepted the query.
abbrev asked : Net ℕ
asked = net_of (submit_query number show (λ x. 7) 8 9 "ff" 2 net "A" ask_all)

asked-accepted :
    submit_query number show (λ x. 7) 8 9 "ff" 2 net "A" ask_all
    ≡ some (asked, some (taken rid false))
unfolding submit_query find get node insert param_int forward_query
asked-accepted = refl

asked-IsNew : IsNew rid net
unfolding find
asked-IsNew = record {
  no_route = by_node (λ o. is_some (up_view rid o)) false refl refl refl;
  no_worker = by_node (jobs_view rid) 0 refl refl refl;
}

abbrev both : List String
both = "A" ∷ "B" ∷ []

both-connected : AllConnected net "A" both
unfolding find
both-connected = (here, (next "A" "B" here refl refl, tt))

asked-ended : AllEnded (left_over (1 ∷ 0 ∷ []) (threads_of number rid asked both))
unfolding submit_query find get node insert param_int forward_query start_thread run canceled_fn
    spawn change_route add_route
asked-ended = (refl, (refl, tt))

two_rows : total_rows number everything net both ≤ 65536
unfolding find run param_int
two_rows = omega arith

submit_query-IsAnswered_example :
    (after : Net ℕ) × (interleave 25 2
        (λ k. 9)
        (1 ∷ 0 ∷ [])
        (threads_of number rid asked both)
        asked
      ≡ some (left_over (1 ∷ 0 ∷ []) (threads_of number rid asked both), after))
    × IsAnswered number rid "A" everything net both after
unfolding find node get param_int all_node_ids
submit_query-IsAnswered_example =
    submit_query-IsAnswered number show (λ x. 7) 8 9 "ff" 2 25 (λ k. 9) net asked "A" ask_all node_a
      entry_a both (1 ∷ 0 ∷ []) refl refl refl refl asked-IsNew (omega arith) net-IsOverlay refl
      both-connected (refl, (refl, tt)) (omega arith) two_rows asked-accepted asked-ended
