-- ===== src/Tests/Streams.antt =====
-- A client whose row comes while its first call waits, and runs of the client program.
use mini2_aaa.Base.{
  String, true, false, none, some, Option, insert, insert_set, string_eq, ℕ, ◌+◌, ◌≡◌, refl, sym,
  ap, ◌∙◌, if◌then◌else◌, List, [], ◌∷◌, ◌++◌, Bool-cases, inl, inr, find, length, length-append,
  arith, ◌==◌, List-cases,
}
use mini2_aaa.Domain.{Row311, QuerySpec}
use mini2_aaa.Buffer.{Buffer}
use mini2_aaa.Registry.{RequestState}
use mini2_aaa.Node.{NodeServer}
use mini2_aaa.Client.{fetch_loop, Contact, contact, default_options}
use mini2_aaa.Client.Main.{Main, Outside, lines_of, client_main}
use mini2_aaa.Client.Shown.{client_main-returns}
use mini2_aaa.Cache.{get, put, hash_spec}
use mini2_aaa.Config.{node, param_int}
use mini2_aaa.Config
use mini2_aaa.Node.Network.{Net}
use mini2_aaa.Node.Portal.{SubmitRequest}
use mini2_aaa.Client.Streamed.{Streams, Follows}
use mini2_aaa.Client.Printed.{IsPrinted, fetch_loop-IsPrinted}
use mini2_aaa.Tests.{whole_doubles}
use mini2_aaa.Tests.Parts.{a_row, lengths, whole_millis}
use mini2_aaa.Tests.Overlay.{number, lines, entry_a, node_a, net}
use mini2_aaa.Tests.Sessions.{show}
use mini2_aaa.Tests.Network.{open_buffer, opened, top, quiet}

abbrev all : List (Row311 ℕ)
all = a_row ∷ []

-- Both producers push and end, if nothing has come yet.
abbrev feed : Buffer (Row311 ℕ) → Buffer (Row311 ℕ)
feed b = elim b.q [
  | [] ↦ if b.rows_served == 0 then record b { q = all; done = "A" ∷ "B" ∷ [] } else b
  | x ∷ xs ↦ b
]

length_none : (xs : List (Row311 ℕ)) → length xs ≡ 0 → xs ≡ []
length_none [] e = refl
length_none (x ∷ xs) e = absurd (omega arith)

feed-Follows : Follows all feed
feed-Follows out b s = elim (List-cases b.q) [
  | inr (x, xs, e) ↦ rw (e, feed) s
  | inl e ↦ elim (Bool-cases (b.rows_served == 0)) [
    | inr late ↦ rw (e, feed) (rw late s)
    | inl first ↦
        let n : length out + length (b.q ++ s.rest) ≡ 1 =
          sym (length-append out (b.q ++ s.rest)) ∙ ap length s.whole in
        let served : b.rows_served ≡ 0 = ground (arith, first) in
        let none_out : out ≡ [] = length_none out (omega (arith, s.counts)) in
        rw (e, feed)
          (rw first (record {
            rest = [];
            whole = rw none_out refl;
            live = s.live;
            closed = λ all_done. refl;
            counts = s.counts;
          }))
  ]
]

abbrev empty_buffer : Buffer (Row311 ℕ)
empty_buffer = record open_buffer { q = [] }

abbrev asked : RequestState ℕ
asked = record opened { buffer = empty_buffer }

abbrev portal : NodeServer ℕ
portal = record top { registry = ("q", asked) ∷ [] }

empty-Streams : Streams all [] empty_buffer
empty-Streams = record {
  rest = all;
  whole = refl;
  live = refl;
  closed = λ e. absurd (omega arith);
  counts = refl;
}

fetch_loop-IsPrinted_example :
    IsPrinted all (fetch_loop number "q" (record quiet { during = feed } ∷ []) 0 [] portal)
unfolding find
fetch_loop-IsPrinted_example =
    fetch_loop-IsPrinted number "q" all (record quiet { during = feed } ∷ []) 0 asked portal refl
      ((λ out b s. s), feed-Follows, tt) empty-Streams

-- The arguments of a client, and the query that they ask.
abbrev args : List String
args = "--config" ∷ "t.conf" ∷ "--complaint" ∷ "Noise" ∷ []

abbrev query : QuerySpec ℕ
query = record (default_options {D = ℕ}).spec { complaint_type = "Noise" }

abbrev no_box : String → Option ((ℕ × ℕ) × (ℕ × ℕ))
no_box s = none

abbrev config_files : String → Option (List String)
config_files path = some lines

abbrev to_root : SubmitRequest ℕ
to_root = record { client_id = "cli"; spec = query }

contact_lem : contact number no_box config_files args ≡ Contact.talks_to entry_a to_root false
unfolding contact Config.load insert insert_set find Config.root_id node
contact_lem = refl

abbrev outside : Outside ℕ
outside = record {
  show = show;
  show_double = show;
  clock = λ x. 7;
  now = 8;
  issued = 9;
  hex = "ff";
}

abbrev knowing : NodeServer ℕ
knowing = record node_a { cache = put query all node_a.cache }

client_main-returns_example :
    (end : Net ℕ) × (client_main number outside 2 no_box config_files args
        (quiet ∷ quiet ∷ [])
        (insert "A" knowing net)
      ≡ Main.returns 0 (lines_of outside all) true end)
unfolding find insert put get node hash_spec param_int
client_main-returns_example =
    client_main-returns number outside 2 no_box config_files args (quiet ∷ quiet ∷ [])
      (insert "A" knowing net) entry_a entry_a to_root false knowing all contact_lem refl refl refl
      refl (omega arith) (omega arith) (omega arith)
      (refl, refl, (λ b. refl), (refl, refl, (λ b. refl), tt)) (omega arith)
