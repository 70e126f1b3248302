-- ===== src/Node/Spread.antt =====
-- How a query spreads over the overlay by `ForwardQuery` of cpp/src/NodeServer.cpp: what one state of
-- the network owes to an earlier one.
use mini2_aaa.Base.{
  string_eq, ℕ, suc, ◌+◌, ◌≤◌, ◌≡◌, refl, ap, ◌∙◌, String, true, false, List, [], Option, none,
  some, inl, inr, Bool-cases, indicator, arith, contains,
}
use mini2_aaa.Node.Network.{Net}
use mini2_aaa.Node.Views.{is_some, upstream, routed, jobs, unrouted, wiring, alive, peers}

-- `x` reaches `root` in `k` hops up: each upstream is a node that has the lower one as a neighbor.
pub data Uplink {D : Type 0} (rid root : String) (net : Net D) : ℕ → String → Type 0 where
  at_root : Uplink rid root net 0 root
  via :
      (k : ℕ) (x u : String)
      → upstream rid x net ≡ some u
      → contains x (peers u net) ≡ true
      → Uplink rid root net k u
      → Uplink rid root net (suc k) x

pub is_some-none {ℓ} : {A : Type ℓ} (o : Option A) → is_some o ≡ false → o ≡ none
is_some-none none e = refl
is_some-none (some a) e = cc

pub is_some-some {ℓ} : {A : Type ℓ} (o : Option A) → is_some o ≡ true → (a : A) × (o ≡ some a)
is_some-some none e = absurd (cc)
is_some-some (some a) e = (a, refl)

module _ {D : Type 0} (rid : String) where
  -- No stub and no upstream is lost.
  pub record Extends (net net' : Net D) : Type 0 where
    pub wired : (x : String) → wiring x net' ≡ wiring x net
    pub kept : (x u : String) → upstream rid x net ≡ some u → upstream rid x net' ≡ some u
    pub fewer : unrouted rid net' ≤ unrouted rid net

  pub Extends-refl : (net : Net D) → Extends net net
  Extends-refl net = record { wired = λ x. refl; kept = λ x u e. e; fewer = omega arith }

  pub Extends-trans : {a b c : Net D} → Extends a b → Extends b c → Extends a c
  Extends-trans s t = record {
    wired = λ x. t.wired x ∙ s.wired x;
    kept = λ x u e. t.kept x u (s.kept x u e);
    fewer = (let f = s.fewer in let g = t.fewer in omega arith);
  }

  pub Extends-routed :
      {a b : Net D} → Extends a b → (x : String) → routed rid x a ≡ true → routed rid x b ≡ true
  Extends-routed {a} {b} s x e =
      let t = is_some-some (upstream rid x a) e in ap is_some (s.kept x t.0 t.1)

  pub Extends-peers : {a b : Net D} → Extends a b → (x : String) → peers x b ≡ peers x a
  Extends-peers s x =
      ap (λ w. elim w as (λ _. List String) [ none ↦ [] | some w ↦ w.1 ]) (s.wired x)

  pub Extends-alive : {a b : Net D} → Extends a b → (x : String) → alive x b ≡ alive x a
  Extends-alive s x = ap is_some (s.wired x)

  pub Uplink-mono :
      {root : String} {a b : Net D} {k : ℕ} {x : String}
      → Extends a b
      → Uplink rid root a k x
      → Uplink rid root b k x
  Uplink-mono s at_root = at_root
  Uplink-mono s (via k x u up member l) =
      via k x u (s.kept x u up) (ap (contains x) (Extends-peers s u) ∙ member) (Uplink-mono s l)

  module _ (root : String) (n : ℕ) where
    -- `x` reaches the root in as many hops, at most, as `n` nodes have a route.
    pub record Deep (net : Net D) (x : String) : Type 0 where
      pub hops : ℕ
      pub link : Uplink rid root net hops x
      pub within : hops + unrouted rid net ≤ n

    pub Deep-mono : {a b : Net D} → Extends a b → (x : String) → Deep a x → Deep b x
    Deep-mono s x d = record {
      hops = d.hops;
      link = Uplink-mono s d.link;
      within = (let f = s.fewer in let g = d.within in omega arith);
    }

    -- What a call leaves: all neighbors of a node that got a route have one; a node got a worker
    -- exactly if it got a route; and a node with a new route reaches the root.
    pub record Spreads (net net' : Net D) : Type 0 where
      pub grown : Extends net net'
      pub closed :
          (x p : String)
          → routed rid x net ≡ false
          → routed rid x net' ≡ true
          → contains p (peers x net) ≡ true
          → alive p net ≡ true
          → routed rid p net' ≡ true
      pub started :
          (x : String)
          → jobs rid x net' + indicator (routed rid x net)
            ≡ jobs rid x net + indicator (routed rid x net')
      pub traced : (x : String) → routed rid x net ≡ false → routed rid x net' ≡ true → Deep net' x

    -- Where no route, no worker and no stub changes.
    pub Spreads-same :
        (net net' : Net D)
        → ((x : String) → wiring x net' ≡ wiring x net)
        → ((x : String) → upstream rid x net' ≡ upstream rid x net)
        → ((x : String) → jobs rid x net' ≡ jobs rid x net)
        → unrouted rid net' ≡ unrouted rid net
        → Spreads net net'
    Spreads-same net net' w u j c = record {
      grown = record { wired = w; kept = λ x p e. u x ∙ e; fewer = omega arith };
      closed = λ x p before after m l. absurd (let t = ap is_some (u x) in cc);
      started = λ x. (let t = ap (λ o. indicator (is_some o)) (u x) in let s = j x in omega arith);
      traced = λ x before after. absurd (let t = ap is_some (u x) in cc);
    }

    pub Spreads-trans : (a b c : Net D) → Spreads a b → Spreads b c → Spreads a c
    Spreads-trans a b c s t = record {
      grown = Extends-trans s.grown t.grown;
      closed = λ x p before after m l. elim (Bool-cases (routed rid x b)) [
        | inl mid ↦ Extends-routed t.grown p (s.closed x p before mid m l)
        | inr mid ↦
            t.closed x p mid after (ap (contains p) (Extends-peers s.grown x) ∙ m)
              (Extends-alive s.grown p ∙ l)
      ];
      started = λ x. (let p = s.started x in let q = t.started x in omega arith);
      traced = λ x before after. elim (Bool-cases (routed rid x b)) [
        | inl mid ↦ Deep-mono t.grown x (s.traced x before mid)
        | inr mid ↦ t.traced x mid after
      ];
    }
