-- ===== src/Indices/Buckets.antt =====
-- The hash-bucket indices of cpp/src/Indices.cpp: `m[key(i)].push_back(i)` for every row.
use mini2_aaa.Base.{
  Eq, same, ℕ, zero, suc, ◌≡◌, sym, Bool, false, if◌then◌else◌, List, [], ◌∷◌, ◌++◌, Option, none,
  some, find, insert, find-insert, append-nil, append_assoc, arith, Option-cases, inl, inr,
}
use mini2_aaa.Base.Select.{select}

-- An optional vector, empty if there is none.
abbrev pub rows_or_empty : Option (List ℕ) → List ℕ
rows_or_empty none = []
rows_or_empty (some v) = v

module _ {ℓ} {K : Type ℓ} ⦃e : Eq K⦄ where
  -- `m[k].push_back(i)`.
  unfoldable pub push_back : K → ℕ → List (K × List ℕ) → List (K × List ℕ)
  push_back k i m = insert k (rows_or_empty (find k m) ++ (i ∷ [])) m

  -- The loop over the rows `i`, `i + 1`, …, `i + n - 1`; a row whose key is `none` is skipped.
  unfoldable pub fill : (ℕ → Option K) → (n i : ℕ) → List (K × List ℕ) → List (K × List ℕ)
  unfolding push_back
  fill key zero i m = m
  fill key (suc n) i m = fill key n (suc i) (elim (key i) [ none ↦ m | some k ↦ push_back k i m ])

  -- Whether a row has the key.
  abbrev pub has_key : (ℕ → Option K) → K → ℕ → Bool
  has_key key k i = elim (key i) [ none ↦ false | some k' ↦ same k' k ]

  push_back_lem :
      (k j : K) (i : ℕ) (m : List (K × List ℕ))
      → rows_or_empty (find j (push_back k i m))
        ≡ rows_or_empty (find j m) ++ (if same k j then i ∷ [] else [])
  unfolding push_back
  push_back_lem k j i m = ground (
    arith,
    find-insert k j (rows_or_empty (find k m) ++ (i ∷ [])) m,
    e.beq_iff k j,
    append-nil (rows_or_empty (find j m)),
  )

  -- The bucket of a key holds exactly the rows with that key, in ascending order.
  pub fill-select :
      (key : ℕ → Option K) (k : K) (n i : ℕ) (m : List (K × List ℕ))
      → rows_or_empty (find k (fill key n i m))
        ≡ rows_or_empty (find k m) ++ select (has_key key k) n i
  unfolding fill select
  fill-select key k zero i m = sym (append-nil _)
  fill-select key k (suc n) i m = elim (Option-cases (key i)) [
    | inl skip ↦ rw (skip, fill, has_key) (fill-select key k n (suc i) m)
    | inr (j, hit) ↦
        rw (hit, fill-select key k n (suc i) (push_back j i m), push_back_lem j k i m, append_assoc)
          (ground (arith))
  ]
