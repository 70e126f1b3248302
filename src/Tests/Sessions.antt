-- ===== src/Tests/Sessions.antt =====
-- The theorems on submitted and repeated queries at the network of two nodes.
use mini2_aaa.Base.{
  string_eq, ℕ, ◌≡◌, refl, String, true, false, [], ◌∷◌, some, find, insert, arith,
}
use mini2_aaa.Buffer.{is_final, pop_up_to}
use mini2_aaa.Registry.{record_fetch}
use mini2_aaa.Cache.{new_cache, get, put, hash_spec, spec_equal}
use mini2_aaa.Config.{node, param_int}
use mini2_aaa.Cache.Laws.{IsValid}
use mini2_aaa.Node.{NodeServer}
use mini2_aaa.Node.Network.{Net}
use mini2_aaa.Node.Portal.{SubmitRequest, ChunkResponse, gone}
use mini2_aaa.Node.Submit.{submit_query, taken}
use mini2_aaa.Node.Launch.{IsNew, IsUnderWay}
use mini2_aaa.Node.Submitted.{next_id, submit_query-IsUnderWay}
use mini2_aaa.Node.Served.{IsServed, submit_query-IsServed}
use mini2_aaa.Node.Views.{is_some, up_view, jobs_view}
use mini2_aaa.Client.{Session, fetch_loop}
use mini2_aaa.Client.Repeated.{fetch_loop-get}
use mini2_aaa.Tests.{whole_doubles, noise}
use mini2_aaa.Tests.Parts.{no_entry, lengths, whole_millis, a_row}
use mini2_aaa.Tests.Overlay.{number, node_a, entry_a, net}
use mini2_aaa.Tests.Network.{by_node, opened, top, quiet, last_turn}

abbrev pub show : ℕ → String
show n = "1"

abbrev ask : SubmitRequest ℕ
ask = record { client_id = "cli"; spec = noise }

first-IsNew : IsNew (next_id show "ff" "A" node_a) net
unfolding find
first-IsNew = record {
  no_route = by_node (λ o. is_some (up_view (next_id show "ff" "A" node_a) o)) false refl refl refl;
  no_worker = by_node (jobs_view (next_id show "ff" "A" node_a)) 0 refl refl refl;
}

submit_query-IsUnderWay_example :
    (net' : Net ℕ) × (submit_query number show (λ x. 7) 8 9 "ff" 2 net "A" ask
      ≡ some (net', some (taken (next_id show "ff" "A" node_a) false)))
    × IsUnderWay (next_id show "ff" "A" node_a) "A" net net'
unfolding find node get
submit_query-IsUnderWay_example =
    submit_query-IsUnderWay number show (λ x. 7) 8 9 "ff" 2 net "A" ask node_a entry_a refl refl
      refl refl first-IsNew (omega arith)

-- The root with the rows of the query in its cache.
abbrev knowing : NodeServer ℕ
knowing = record node_a { cache = put noise (a_row ∷ []) node_a.cache }

abbrev known_net : Net ℕ
known_net = insert "A" knowing net

submit_query-IsServed_example :
    (net' : Net ℕ) × (submit_query number show (λ x. 7) 8 9 "ff" 2 known_net "A" ask
      ≡ some (net', some (taken (next_id show "ff" "A" knowing) true)))
    × IsServed (next_id show "ff" "A" knowing) "A" knowing (a_row ∷ []) 64 4096 known_net net'
unfolding find insert put get node hash_spec param_int
submit_query-IsServed_example =
    submit_query-IsServed number show (λ x. 7) 8 9 "ff" 2 known_net "A" ask knowing entry_a
      (a_row ∷ []) refl refl refl refl (omega arith)

abbrev session : Session ℕ
session = fetch_loop number "q" (quiet ∷ last_turn ∷ []) 0 [] top

abbrev node_after : Session ℕ → NodeServer ℕ
node_after (Session.finished r rows n) = n
node_after s = top

abbrev last_chunk : Session ℕ → ChunkResponse ℕ
last_chunk (Session.finished r rows n) = r
last_chunk s = gone ""

session-ended : session ≡ Session.finished (last_chunk session) (a_row ∷ []) (node_after session)
unfolding fetch_loop find insert is_final record_fetch pop_up_to
session-ended = refl

session-live : (last_chunk session).canceled ≡ false
unfolding fetch_loop find insert is_final record_fetch pop_up_to
session-live = refl

empty_cache-IsValid : IsValid top.cache
unfolding new_cache
empty_cache-IsValid = no_entry 256 50000

fetch_loop-get_example : (get noise (node_after session).cache).1 ≡ some (a_row ∷ [])
unfolding find spec_equal
fetch_loop-get_example =
    fetch_loop-get number "q" (quiet ∷ last_turn ∷ []) 0 opened top (node_after session)
      (last_chunk session) (a_row ∷ []) refl refl refl session-ended session-live (omega arith)
      empty_cache-IsValid (omega arith) (omega arith) refl
