-- ===== src/Node/Counted.antt =====
-- The finished producers of a buffer (cpp/src/ChunkBuffer.cpp), counted against those that
-- cpp/src/NodeServer.cpp expects.
use mini2_aaa.Base.{
  string_eq, same, suc, ◌≤◌, ◌≡◌, ap, String, true, false, if◌then◌else◌, List, [], ◌∷◌, inl, inr,
  Bool-cases, arith, contains, length,
}
use mini2_aaa.Buffer.{Buffer, pending_producers}
use mini2_aaa.Node.Started.{Unique}

abbrev drop_one : String → List String → List String
drop_one x [] = []
drop_one x (y ∷ ys) = if same y x then ys else y ∷ drop_one x ys

length-drop_one :
    (x : String) (ys : List String)
    → contains x ys ≡ true
    → suc (length (drop_one x ys)) ≡ length ys
length-drop_one x [] e = absurd (cc)
length-drop_one x (y ∷ ys) e = ground (arith, length-drop_one x ys)

contains-drop_one :
    (x p : String) (ys : List String)
    → same x p ≡ false
    → contains p ys ≡ true
    → contains p (drop_one x ys) ≡ true
contains-drop_one x p [] ne e = absurd (cc)
contains-drop_one x p (y ∷ ys) ne e = ground (
  arith,
  contains-drop_one x p ys ne,
  string_eq.beq_iff y x,
  string_eq.beq_iff y p,
  string_eq.beq_iff x p,
)

-- Different names that are all in a list are not more than it has.
Unique-le :
    (xs ys : List String)
    → Unique xs
    → ((p : String) → contains p xs ≡ true → contains p ys ≡ true)
    → length xs ≤ length ys
Unique-le [] ys u h = omega arith
Unique-le (x ∷ xs) ys u h =
    let there : contains x ys ≡ true = h x (ground (arith, string_eq.beq_iff x x)) in
    let rest = Unique-le xs (drop_one x ys) u.1 (λ p e.
      contains-drop_one x p ys
        (elim (Bool-cases (same x p)) [
          | inr ne ↦ ne
          | inl eq ↦
              absurd (
                let t = ap (λ q. contains q xs) ((string_eq.beq_iff x p).0 eq) in let k = u.0 in cc)
        ])
        (h p (ground arith))) in
    omega (arith, length-drop_one x ys there)

-- No producer is pending when as many as are expected, with different names, are finished.
pub pending_none {ℓ} :
    {Row : Type ℓ} (b : Buffer Row) (ids : List String)
    → Unique ids
    → b.expected_producers ≤ length ids
    → ((p : String) → contains p ids ≡ true → contains p b.done ≡ true)
    → pending_producers b ≡ 0
unfolding pending_producers
pending_none b ids u enough h = ground (arith, Unique-le ids b.done u h)
