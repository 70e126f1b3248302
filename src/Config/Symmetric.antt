-- ===== src/Config/Symmetric.antt =====
-- What a topology that cpp/src/Config.cpp loads is: an undirected graph of nodes that can be reached.
use mathlib.Core.Path.{subst}
use mini2_aaa.Base.{
  ℕ, suc, ◌^◌, ◌<◌, ◌≡◌, ◌≢◌, ◌∙◌, ap, refl, sym, String, Bool, false, if◌then◌else◌, ◌&&◌, ◌||◌,
  List, [], ◌∷◌, Option, none, some, ◌==◌, same, string_eq, find, insert, find-insert, insert_set,
  contains, arith, Bool-cases, Option-cases, inl, inr, ◌⊎◌,
}
use mini2_aaa.Base.Int.{ℤ, pos, negsuc}
use mini2_aaa.Config.{
  NodeEntry, Config, Result, Failure, trim, before, split_whitespace, to_port, peers_at, add_peer,
  touch, set_field, set_fields, node_line, edge_line, partition_line, param_line, directive,
  load_line, load_lines, load, parse_kv, empty_config,
}

pub contains-insert_set :
    (x y : String) (s : List String) → contains x (insert_set y s) ≡ (same y x || contains x s)
unfolding insert_set
contains-insert_set x y s = elim (Bool-cases (contains y s)) [
  | inr new ↦ rw new refl
  | inl old ↦ elim (Bool-cases (same y x)) [
    | inr other ↦ rw old (rw other refl)
    | inl eq ↦ rw old (rw eq (rw (← (string_eq.beq_iff y x).0 eq) old))
  ]
]

-- `b` is a neighbor of `a`.
abbrev pub linked : String → String → List (String × List String) → Bool
linked a b ps = contains b (peers_at a ps)

peers_at-insert :
    (a j : String) (s : List String) (ps : List (String × List String))
    → peers_at j (insert a s ps) ≡ (if same a j then s else peers_at j ps)
unfolding peers_at
peers_at-insert a j s ps = rw (find-insert a j s ps, peers_at) (ground arith)

linked-touch :
    (id x y : String) (ps : List (String × List String)) → linked x y (touch id ps) ≡ linked x y ps
unfolding touch
linked-touch id x y ps = elim (Bool-cases (same id x)) [
  | inr other ↦ ap (contains y) (peers_at-insert id x (peers_at id ps) ps ∙ rw other refl)
  | inl eq ↦ ap (contains y) (
      peers_at-insert id x (peers_at id ps) ps
      ∙ rw eq (ap (λ z. peers_at z ps) ((string_eq.beq_iff id x).0 eq)))
]

linked-add_peer :
    (a b x y : String) (ps : List (String × List String))
    → linked x y (add_peer a b ps) ≡ ((same a x && same b y) || linked x y ps)
unfolding add_peer
linked-add_peer a b x y ps = elim (Bool-cases (same a x)) [
  | inr other ↦
      ap (contains y) (peers_at-insert a x (insert_set b (peers_at a ps)) ps) ∙ rw other refl
  | inl eq ↦
      ap (contains y) (peers_at-insert a x (insert_set b (peers_at a ps)) ps)
      ∙ (rw eq (
          contains-insert_set y b (peers_at a ps)
          ∙ ap (λ z. same b y || contains y (peers_at z ps)) ((string_eq.beq_iff a x).0 eq)))
]

-- A node of a topology: it is filed under its id, with a host, and a port that fits 16 bits and is not 0.
pub record IsReachable (id : String) (e : NodeEntry) : Type 0 where
  pub filed : e.id ≡ id
  pub hosted : same e.host "" ≡ false
  pub nonzero : e.port ≢ 0
  pub fits : e.port < 2 ^ 16

-- A topology: links have no direction, and every node is reachable.
pub record IsTopology (cfg : Config) : Type 0 where
  pub symmetric : (a b : String) → linked a b cfg.peers ≡ linked b a cfg.peers
  pub reachable : (id : String) (e : NodeEntry) → find id cfg.nodes ≡ some e → IsReachable id e

abbrev pub Sound : Result → Type 0
Sound (Result.ok cfg) = IsTopology cfg
Sound (Result.failed x) = Unit

Result-cases :
    (r : Result) → ((cfg : Config) × (r ≡ Result.ok cfg)) ⊎ ((x : Failure) × (r ≡ Result.failed x))
Result-cases (Result.ok cfg) = inl (cfg, refl)
Result-cases (Result.failed x) = inr (x, refl)

to_port-bound : (z : ℤ) → to_port z < 2 ^ 16
to_port-bound (pos n) = omega arith
to_port-bound (negsuc n) = omega arith

abbrev new_node : String → NodeEntry
new_node id = record { id = id; host = ""; port = 0; lang = ""; is_root = false }

some_inj : (e e' : NodeEntry) → some e ≡ some e' → e ≡ e'
some_inj e e' r = cc

module _ (cfg : Config) (e : NodeEntry) where
  find-new :
      IsTopology cfg
      → IsReachable e.id e
      → (id : String) (e' : NodeEntry) → find id (insert e.id e cfg.nodes) ≡ some e'
      → IsReachable id e'
  find-new v good id e' r = elim (Bool-cases (same e.id id)) [
    | inl eq ↦
        let r = sym (find-insert e.id id e cfg.nodes ∙ rw eq refl) ∙ r in
        subst (λ x. IsReachable id x) (some_inj e e' r)
          (subst (λ i. IsReachable i e) ((string_eq.beq_iff e.id id).0 eq) good)
    | inr other ↦ v.reachable id e' (sym (find-insert e.id id e cfg.nodes ∙ rw other refl) ∙ r)
  ]

  node_line_ok :
      IsTopology cfg
      → IsReachable e.id e
      → IsTopology (record cfg { nodes = insert e.id e cfg.nodes; peers = touch e.id cfg.peers })
  node_line_ok v good = record {
    symmetric = λ x y.
        linked-touch e.id x y cfg.peers ∙ (v.symmetric x y ∙ sym (linked-touch e.id y x cfg.peers));
    reachable = find-new v good;
  }

module _ (atoi : String → ℤ) where
  set_field-keeps :
      (tok : String) (e : NodeEntry)
      → e.port < 2 ^ 16
      → ((set_field atoi tok e).id ≡ e.id) × ((set_field atoi tok e).port < 2 ^ 16)
  unfolding set_field
  set_field-keeps tok e b = elim (Option-cases (parse_kv tok)) [
    | inl plain ↦ rw (plain, set_field) (refl, b)
    | inr ((k, v), pair) ↦
        rw (pair, set_field)
          (elim (Bool-cases (same k "host")) [
            | inl y ↦ rw y (refl, b)
            | inr n ↦ rw n (elim (Bool-cases (same k "port")) [
              | inl y ↦ rw y (refl, to_port-bound (atoi v))
              | inr n ↦ rw n (elim (Bool-cases (same k "lang")) [
                | inl y ↦ rw y (refl, b)
                | inr n ↦ rw n (elim (Bool-cases (same k "root")) [
                  | inl y ↦ rw y (refl, b)
                  | inr n ↦ rw n (refl, b)
                ])
              ])
            ])
          ])
  ]

  set_fields-keeps :
      (toks : List String) (e : NodeEntry)
      → e.port < 2 ^ 16
      → ((set_fields atoi toks e).id ≡ e.id) × ((set_fields atoi toks e).port < 2 ^ 16)
  unfolding set_fields
  set_fields-keeps [] e b = (refl, b)
  set_fields-keeps (tok ∷ toks) e b =
      let t = set_field-keeps tok e b in
      let u = set_fields-keeps toks (set_field atoi tok e) t.1 in (u.0 ∙ t.0, u.1)

  node_line-Sound :
      (n : ℕ) (toks : List String) (cfg : Config)
      → IsTopology cfg
      → Sound (node_line atoi n toks cfg)
  unfolding node_line
  node_line-Sound n [] cfg v = tt
  node_line-Sound n (id ∷ fields) cfg v =
      let e = set_fields atoi fields (new_node id) in
      let t = set_fields-keeps fields (new_node id) (omega arith) in
      elim (Bool-cases (same e.host "" || e.port == 0)) [
        | inl bad ↦ rw bad tt
        | inr good ↦ rw good (
            node_line_ok cfg e v
              (record { filed = refl; hosted = ground arith; nonzero = ground arith; fits = t.1 }))
      ]

  edge_line-Sound :
      (n : ℕ) (toks : List String) (cfg : Config)
      → IsTopology cfg
      → Sound (edge_line atoi n toks cfg)
  unfolding edge_line
  edge_line-Sound n [] cfg v = tt
  edge_line-Sound n (a ∷ []) cfg v = tt
  edge_line-Sound n (a ∷ (b ∷ [])) cfg v = record {
    symmetric = λ x y.
        let t = linked-add_peer b a x y (add_peer a b cfg.peers) in
        let t' = linked-add_peer b a y x (add_peer a b cfg.peers) in
        let u = linked-add_peer a b x y cfg.peers in
        let u' = linked-add_peer a b y x cfg.peers in let w = v.symmetric x y in ground arith;
    reachable = v.reachable;
  }
  edge_line-Sound n (a ∷ (b ∷ (c ∷ rest))) cfg v = tt

  partition_line-Sound :
      (n : ℕ) (toks : List String) (cfg : Config)
      → IsTopology cfg
      → Sound (partition_line atoi n toks cfg)
  unfolding partition_line
  partition_line-Sound n [] cfg v = tt
  partition_line-Sound n (a ∷ []) cfg v = tt
  partition_line-Sound n (a ∷ (b ∷ [])) cfg v = record {
    symmetric = v.symmetric;
    reachable = v.reachable;
  }
  partition_line-Sound n (a ∷ (b ∷ (c ∷ rest))) cfg v = tt

  param_line-Sound :
      (n : ℕ) (toks : List String) (cfg : Config)
      → IsTopology cfg
      → Sound (param_line atoi n toks cfg)
  unfolding param_line
  param_line-Sound n [] cfg v = tt
  param_line-Sound n (a ∷ []) cfg v = tt
  param_line-Sound n (a ∷ (b ∷ [])) cfg v = record {
    symmetric = v.symmetric;
    reachable = v.reachable;
  }
  param_line-Sound n (a ∷ (b ∷ (c ∷ rest))) cfg v = tt

  directive-Sound :
      (n : ℕ) (toks : List String) (cfg : Config)
      → IsTopology cfg
      → Sound (directive atoi n toks cfg)
  unfolding directive
  directive-Sound n [] cfg v = v
  directive-Sound n (kw ∷ toks) cfg v = elim (Bool-cases (same kw "node")) [
    | inl y ↦ rw y (node_line-Sound n toks cfg v)
    | inr other ↦ rw other (elim (Bool-cases (same kw "edge")) [
      | inl y ↦ rw y (edge_line-Sound n toks cfg v)
      | inr other ↦ rw other (elim (Bool-cases (same kw "partition")) [
        | inl y ↦ rw y (partition_line-Sound n toks cfg v)
        | inr other ↦ rw other (elim (Bool-cases (same kw "param")) [
          | inl y ↦ rw y (param_line-Sound n toks cfg v)
          | inr other ↦ rw other tt
        ])
      ])
    ])
  ]

  load_line-Sound :
      (n : ℕ) (line : String) (cfg : Config) → IsTopology cfg → Sound (load_line atoi n line cfg)
  unfolding load_line
  load_line-Sound n line cfg v = elim (Bool-cases (same (trim (before b'#' line)) "")) [
    | inl blank ↦ rw (blank, load_line) v
    | inr text ↦
        rw (text, load_line) (directive-Sound n (split_whitespace (trim (before b'#' line))) cfg v)
  ]

  load_lines-Sound :
      (n : ℕ) (lines : List String) (cfg : Config)
      → IsTopology cfg
      → Sound (load_lines atoi n lines cfg)
  unfolding load_lines
  load_lines-Sound n [] cfg v = v
  load_lines-Sound n (line ∷ lines) cfg v = elim (Result-cases (load_line atoi (suc n) line cfg)) [
    | inl (cfg', e) ↦
        rw (e, load_lines)
          (load_lines-Sound (suc n) lines cfg' (subst Sound e (load_line-Sound (suc n) line cfg v)))
    | inr (x, e) ↦ rw (e, load_lines) tt
  ]

  -- Whatever the file holds, a topology that loads has undirected links, and each of its nodes is
  -- filed under its id with a host and a 16-bit port other than 0.
  pub load-Sound : (file : Option (List String)) → Sound (load atoi file)
  unfolding load peers_at find
  load-Sound none = tt
  load-Sound (some lines) =
      load_lines-Sound 0 lines empty_config
        (record { symmetric = λ a b. refl; reachable = λ id e r. absurd (let bad = r in cc) })
