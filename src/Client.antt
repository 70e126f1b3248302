-- ===== src/Client.antt =====
-- The client program: cpp/src/client_main.cpp. `atoi` is std::atoi, `scan_geo` is std::sscanf with four
-- doubles, and `show` and `show_double` are what a stream prints. Time is measured for a message only.
pub mod Fetched
pub mod Cached
pub mod Repeated
pub mod Streamed
pub mod Printed
pub mod Main
pub mod Ended
pub mod Shown
use Prim.Native.String.{◌++◌ as ◌+++◌}
use mini2_aaa.Base.{
  Eq, string_eq, same, ℕ, ◌==◌, String, Bool, true, false, if◌then◌else◌, ◌||◌, List, [], ◌∷◌, ◌++◌,
  Option, none, some,
}
use mini2_aaa.Base.Int.{ℤ}
use mini2_aaa.Domain.{Floating, QuerySpec, Row311}
use mini2_aaa.Buffer.{Buffer}
use mini2_aaa.Cache.{Hashing}
use mini2_aaa.Config.{Config, NodeEntry, Result, root_id, node}
use mini2_aaa.Config
use mini2_aaa.Registry.{Timing}
use mini2_aaa.Node.{NodeServer, to_u32, change_request}
use mini2_aaa.Node.Portal.{FetchRequest, ChunkResponse, SubmitRequest, fetch_chunk}

-- `parseBorough`, as the number of the enum.
unfoldable pub parse_borough : String → ℕ
parse_borough s =
    if same s "MANHATTAN"
    then 1
    else if same s "BROOKLYN"
    then 2
    else if same s "QUEENS"
    then 3
    else if same s "BRONX"
    then 4
    else if same s "STATEN ISLAND"
    then 5
    else 0

-- `boroughString`.
unfoldable pub borough_string : ℕ → String
borough_string b =
    if b == 1
    then "MANHATTAN"
    else if b == 2
    then "BROOKLYN"
    else if b == 3
    then "QUEENS"
    else if b == 4
    then "BRONX"
    else if b == 5
    then "STATEN ISLAND"
    else "UNSPECIFIED"

-- What the loop over the arguments keeps.
pub record Options (D : Type 0) : Type 0 where
  pub cfg_path : String
  pub portal_id : String
  pub client_id : String
  pub slow : Bool
  pub spec : QuerySpec D

-- Before the loop.
abbrev pub default_options : {D : Type 0} ⦃f : Floating D⦄ → Options D
default_options ⦃f⦄ = record {
  cfg_path = "";
  portal_id = "";
  client_id = "cli";
  slow = false;
  spec = record {
    borough = 0;
    complaint_type = "";
    date_from = 0;
    date_to = 0;
    min_lat = f.nil;
    max_lat = f.nil;
    min_lon = f.nil;
    max_lon = f.nil;
    use_geo_box = false;
    max_rows = 0;
  };
}

module _ {D : Type 0} (atoi : String → ℤ) (scan_geo : String → Option ((D × D) × (D × D))) where
  -- `parseGeo`; its result is not used.
  unfoldable pub parse_geo : String → QuerySpec D → QuerySpec D
  parse_geo s q = elim (scan_geo s) [
    | none ↦ q
    | some ((a, b), (c, d)) ↦ record q {
      use_geo_box = true;
      min_lat = a;
      max_lat = b;
      min_lon = c;
      max_lon = d;
    }
  ]

  -- An argument with a value; `none` for one that is not known.
  unfoldable pub set_option : (a v : String) → Options D → Option (Options D)
  unfolding parse_geo parse_borough
  set_option a v o =
      if same a "--config"
      then some (record o { cfg_path = v })
      else if same a "--portal"
      then some (record o { portal_id = v })
      else if same a "--client-id"
      then some (record o { client_id = v })
      else if same a "--borough"
      then some (record o { spec = record o.spec { borough = parse_borough v } })
      else if same a "--complaint"
      then some (record o { spec = record o.spec { complaint_type = v } })
      else if same a "--from"
      then some (record o { spec = record o.spec { date_from = to_u32 (atoi v) } })
      else if same a "--to"
      then some (record o { spec = record o.spec { date_to = to_u32 (atoi v) } })
      else if same a "--max"
      then some (record o { spec = record o.spec { max_rows = to_u32 (atoi v) } })
      else if same a "--geo"
      then some (record o { spec = parse_geo v o.spec })
      else none

  -- The loop over the arguments; `none` prints the usage.
  unfoldable pub client_args : List String → Options D → Option (Options D)
  unfolding set_option
  client_args [] o = some o
  client_args (a ∷ []) o = if same a "--slow" then some (record o { slow = true }) else none
  client_args (a ∷ (v ∷ args)) o = elim (same a "--slow") [
    | true ↦ client_args (v ∷ args) (record o { slow = true })
    | false ↦ elim (set_option a v o) [ none ↦ none | some o' ↦ client_args args o' ]
  ]

-- How the program comes to the node that it talks to: `no_portal` is an exception that `main` lets go.
pub data Contact (D : Type 0) : Type 0 where
  bad_usage : Contact D
  bad_config : Contact D
  no_portal : Contact D
  talks_to : NodeEntry → SubmitRequest D → (slow : Bool) → Contact D

-- The node that the arguments or the topology name.
unfoldable pub portal_of : (portal_id : String) → Config → Option NodeEntry
portal_of portal_id cfg =
    if same portal_id ""
    then (elim (root_id cfg) [ none ↦ none | some id ↦ node id cfg ])
    else node portal_id cfg

-- `main` up to `SubmitQuery`.
unfoldable pub contact :
    {D : Type 0} ⦃f : Floating D⦄ (atoi : String → ℤ)
    (scan_geo : String → Option ((D × D) × (D × D))) (files : String → Option (List String))
    → List String
    → Contact D
unfolding client_args portal_of
contact atoi scan_geo files args = elim (client_args atoi scan_geo args default_options) [
  | none ↦ Contact.bad_usage
  | some o ↦ elim (same o.cfg_path "") [
    | true ↦ Contact.bad_usage
    | false ↦ elim (Config.load atoi (files o.cfg_path)) [
      | Result.failed x ↦ Contact.bad_config
      | Result.ok cfg ↦ elim (portal_of o.portal_id cfg) [
        | none ↦ Contact.no_portal
        | some entry ↦
            Contact.talks_to entry (record { client_id = o.client_id; spec = o.spec }) o.slow
      ]
    ]
  ]
]

-- The line that the program prints of a row.
unfoldable pub row_line :
    {D : Type 0} (show : ℕ → String) (show_double : D → String) → Row311 D → String
unfolding borough_string
row_line show show_double r =
    let tail =
      ◌+++◌ (show_double r.latitude)
        (◌+++◌ "," (◌+++◌ (show_double r.longitude) (◌+++◌ "," r.complaint_type))) in
    ◌+++◌ (show r.unique_key) (
      ◌+++◌ "," (
        ◌+++◌ (show r.created_ymd) (◌+++◌ "," (◌+++◌ (borough_string r.borough) (◌+++◌ "," tail)))))

-- What happens around one round of the loop: whether the user has interrupted the program, whether the
-- call fails, the time, and what other threads do to the request's buffer before the call and while it
-- waits.
pub record Turn (D : Type 0) : Type 0 where
  pub interrupted : Bool
  pub fails : Bool
  pub now : ℕ
  pub before : Buffer (Row311 D) → Buffer (Row311 D)
  pub during : Buffer (Row311 D) → Buffer (Row311 D)

-- How the loop ends: `canceling` sends `CancelQuery`.
pub data Session (D : Type 0) : Type 0 where
  fetching : (want : ℕ) → List (Row311 D) → NodeServer D → Session D
  canceling : List (Row311 D) → NodeServer D → Session D
  fetch_failed : List (Row311 D) → NodeServer D → Session D
  finished : ChunkResponse D → List (Row311 D) → NodeServer D → Session D

module _ {D : Type 0} ⦃f : Floating D⦄ ⦃h : Hashing D⦄ ⦃t : Timing D⦄ (atoi : String → ℤ)
    (rid : String) where
  -- The loop of `main`, over the turns that are given; `printed` are the rows that are out, and `n` the
  -- portal.
  unfoldable pub fetch_loop :
      List (Turn D) → (want : ℕ) (printed : List (Row311 D)) → NodeServer D → Session D
  unfolding fetch_chunk change_request
  fetch_loop [] want printed n = Session.fetching want printed n
  fetch_loop (turn ∷ turns) want printed n = elim turn.interrupted [
    | true ↦ Session.canceling printed n
    | false ↦ elim turn.fails [
      | true ↦ Session.fetch_failed printed n
      | false ↦
          let asked = change_request rid (λ st. record st { buffer = turn.before st.buffer }) n in
          let (n', r) =
            fetch_chunk atoi turn.now turn.during
              (record { request_id = rid; max_rows = want; block = true }) asked in
          elim r.final [
            | true ↦ Session.finished r (printed ++ r.rows) n'
            | false ↦ fetch_loop turns r.suggested_next_max (printed ++ r.rows) n'
          ]
    ]
  ]
