-- ===== src/Client/Shown.antt =====
-- What the program of cpp/src/client_main.cpp prints, and how it ends, for a query that the portal's
-- cache answers.
use mathlib.Core.Path.{subst}
use mini2_aaa.Base.{
  arith, string_eq, ℕ, ◌≤◌, ◌<◌, ◌≡◌, sym, ap, String, Bool, true, List, [], ◌++◌, Option, some,
  find, insert, length,
}
use mini2_aaa.Base.Int.{ℤ}
use mini2_aaa.Domain.{Floating, Row311}
use mini2_aaa.Config.{NodeEntry, node}
use mini2_aaa.Cache.{Hashing}
use mini2_aaa.Cache
use mini2_aaa.Registry.{Timing}
use mini2_aaa.Node.{NodeServer}
use mini2_aaa.Node.Network.{Net}
use mini2_aaa.Node.Portal.{SubmitRequest, size_param, u32_param}
use mini2_aaa.Node.Submitted.{next_id}
use mini2_aaa.Node.Served.{submit_query-IsServed}
use mini2_aaa.Client.Main.{Main, Outside, lines_of, client_main, after_submit, after_loop}
use mini2_aaa.Client.{Turn, Contact, contact}
use mini2_aaa.Client.Ended.{IsReady, AllQuiet, loop-ends}
use mini2_aaa.Buffer.{Buffer, pending_producers}

module _ {D : Type 0} ⦃f : Floating D⦄ ⦃h : Hashing D⦄ ⦃t : Timing D⦄ (atoi : String → ℤ)
    (o : Outside D) (fuel : ℕ) where
  -- The first lines of the rows are printed; all of them, if the program reports the end.
  abbrev pub Shows : List (Row311 D) → Main D → Type 0
  Shows rows Main.throws = ⊥
  Shows rows (Main.waits lines) = (later : List String) × (lines ++ later ≡ lines_of o rows)
  Shows rows (Main.returns code lines reported end) =
      (code ≡ 0)
      × (reported ≡ true → lines ≡ lines_of o rows)
      × ((later : List String) × (lines ++ later ≡ lines_of o rows))

none_pending :
    {Row : Type 0} (b : Buffer Row) → pending_producers b ≡ 0 → b.expected_producers ≤ length b.done
unfolding pending_producers
none_pending b e = ground arith

-- The client program, run with arguments that lead it to the root, for a query whose rows the root's
-- cache has and that fit the buffer of a request, where the bounds of a request's chunks are not 0: with
-- more rounds than rows in which the user does not interrupt, no call fails and no thread changes the
-- buffer between two calls, the program returns 0, reports the end, and has printed the lines of exactly
-- these rows, in order.
pub client_main-returns :
    {D : Type 0} ⦃f : Floating D⦄ ⦃h : Hashing D⦄ ⦃t : Timing D⦄ (atoi : String → ℤ) (o : Outside D)
    (fuel : ℕ) (scan_geo : String → Option ((D × D) × (D × D)))
    (files : String → Option (List String)) (args : List String) (turns : List (Turn D))
    (net : Net D) (entry listed : NodeEntry) (req : SubmitRequest D) (slow : Bool)
    (n : NodeServer D) (rows : List (Row311 D))
    → contact atoi scan_geo files args ≡ Contact.talks_to entry req slow
    → find entry.id net ≡ some n
    → node entry.id n.cfg ≡ some listed
    → listed.is_root ≡ true
    → (Cache.get req.spec n.cache).1 ≡ some rows
    → length rows ≤ size_param atoi "chunk_buffer_cap" 65536 n.cfg
    → 1 ≤ u32_param atoi "min_chunk_rows" 64 n.cfg
    → 1 ≤ u32_param atoi "max_chunk_rows" 4096 n.cfg
    → AllQuiet turns
    → length rows < length turns
    → (end : Net D) × (client_main atoi o fuel scan_geo files args turns net
        ≡ Main.returns 0 (lines_of o rows) true end)
unfolding client_main after_submit after_loop
client_main-returns atoi o fuel scan_geo files args turns net entry listed req slow n rows reached
      found in_cfg root hit fits least most quiet enough =
    let me = entry.id in
    let rid = next_id o.show o.hex me n in
    let (net', e, s) =
      submit_query-IsServed atoi o.show o.clock o.now o.issued o.hex fuel net me req n listed rows
        found in_cfg root hit fits in
    let ready : IsReady s.request = record {
      live = s.unread.0;
      done = none_pending s.request.buffer s.settled;
      least = subst (λ k. 1 ≤ k) (sym s.chunks.0) least;
      most = subst (λ k. 1 ≤ k) (sym s.chunks.1) most;
    } in
    let (r, n', loop) =
      loop-ends atoi rid turns 0 [] s.request s.after s.open_ ready quiet
        (subst (λ xs. length xs < length turns) (sym s.ready) enough) in
    (
      insert me n' net',
      rw (reached, client_main)
          (rw (e, client_main)
            (rw (s.there, after_submit)
              (rw (loop, after_loop)
                (ap (λ xs. Main.returns 0 (lines_of o xs) true (insert me n' net')) s.ready)))),
    )
