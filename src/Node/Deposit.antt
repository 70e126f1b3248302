-- ===== src/Node/Deposit.antt =====
-- What the chunks of a worker of cpp/src/NodeServer.cpp do to the buffer of the portal, one after the
-- other.
use mini2_aaa.Base.{
  ℕ, zero, suc, ◌+◌, ◌≤◌, ◌≡◌, refl, sym, ap, ◌∙◌, String, true, false, List, [], ◌∷◌, ◌++◌, length,
  min, arith, contains, append-nil, append_assoc, length-append, string_eq, take, Bool-cases, inl,
  inr,
}
use mini2_aaa.Domain.{Row311}
use mini2_aaa.Buffer.{Buffer, push_rows, avail, mark_producer_done}
use mini2_aaa.Buffer.Fifo.{push_rows-canceled, push_rows-capacity}
use mini2_aaa.Config.Symmetric.{contains-insert_set}
use mini2_aaa.Engine.{Chunk}
use mini2_aaa.Engine.Emit.{rows_of}
use mini2_aaa.Node.{deposit}

take_all : {A : Type 0} (n : ℕ) (xs : List A) → length xs ≤ n → take n xs ≡ xs
take_all zero [] h = refl
take_all zero (x ∷ xs) h = absurd (omega arith)
take_all (suc n) [] h = refl
take_all (suc n) (x ∷ xs) h = ap (◌∷◌ x) (take_all n xs (omega arith))

-- The buffer after the chunks of a producer.
abbrev pub deposit_all :
    {D : Type 0} (producer : String) → List (Chunk D) → Buffer (Row311 D) → Buffer (Row311 D)
deposit_all producer [] b = b
deposit_all producer (c ∷ cs) b = deposit_all producer cs (deposit c.rows c.done producer b)

-- A buffer that is not cancelled, with room for a number of rows.
pub record Accepts {D : Type 0} (rows : ℕ) (b : Buffer (Row311 D)) : Type 0 where
  pub live : b.canceled ≡ false
  pub fits : length b.q + rows ≤ b.capacity

module _ {D : Type 0} (producer : String) where
  push_rows_all :
      (rows : List (Row311 D)) (b : Buffer (Row311 D))
      → Accepts (length rows) b
      → (push_rows rows b).0.q ≡ b.q ++ rows
  unfolding push_rows
  push_rows_all [] b a = sym (append-nil b.q)
  push_rows_all (r ∷ rows) b a =
      let room : suc (length rows) ≤ avail b = (let f = a.fits in ground arith) in
      let e : take (min (suc (length rows)) (avail b)) (r ∷ rows) ≡ r ∷ rows =
        take_all (min (suc (length rows)) (avail b)) (r ∷ rows) (omega arith) in
      rw (a.live, push_rows) (ap (b.q ++◌) e)

  -- A `done` chunk changes the finished producers only.
  pub deposit-kept {ℓ} :
      {A : Type ℓ} (v : Buffer (Row311 D) → A) (c : Chunk D) (b : Buffer (Row311 D))
      → ((b : Buffer (Row311 D)) → v (mark_producer_done producer b) ≡ v b)
      → v (deposit c.rows c.done producer b) ≡ v (push_rows c.rows b).0
  unfolding deposit
  deposit-kept v c b h = elim (Bool-cases c.done) [
    | inl yes_ ↦ rw (yes_, deposit) (h (push_rows c.rows b).0)
    | inr no_ ↦ rw (no_, deposit) refl
  ]

  pub deposit-q :
      (c : Chunk D) (b : Buffer (Row311 D))
      → Accepts (length c.rows) b
      → (deposit c.rows c.done producer b).q ≡ b.q ++ c.rows
  unfolding mark_producer_done
  deposit-q c b a = deposit-kept (λ b. b.q) c b (λ b. refl) ∙ push_rows_all c.rows b a

  pub deposit-Accepts :
      (c : Chunk D) (k : ℕ) (b : Buffer (Row311 D))
      → Accepts (length c.rows + k) b
      → Accepts k (deposit c.rows c.done producer b)
  unfolding mark_producer_done
  deposit-Accepts c k b a = record {
    live = deposit-kept (λ b. b.canceled) c b (λ b. refl) ∙ (push_rows-canceled c.rows b ∙ a.live);
    fits =
        let f = a.fits in
        let cap = deposit-kept (λ b. b.capacity) c b (λ b. refl) ∙ push_rows-capacity c.rows b in
        let q =
          ap length (deposit-q c b (record { live = a.live; fits = omega arith }))
          ∙ length-append b.q c.rows in
        omega arith;
  }

  -- A worker's chunks come into a buffer that accepts them in order, with nothing lost.
  pub deposit_all-q :
      (cs : List (Chunk D)) (b : Buffer (Row311 D))
      → Accepts (length (rows_of cs)) b
      → (deposit_all producer cs b).q ≡ b.q ++ rows_of cs
  deposit_all-q [] b a = sym (append-nil b.q)
  deposit_all-q (c ∷ cs) b a =
      let n = length-append c.rows (rows_of cs) in
      let f = a.fits in
      let here_q = deposit-q c b (record { live = a.live; fits = omega arith }) in
      let next =
        deposit-Accepts c (length (rows_of cs)) b (record { live = a.live; fits = omega arith }) in
      deposit_all-q cs (deposit c.rows c.done producer b) next
      ∙ (ap (λ q. q ++ rows_of cs) here_q ∙ append_assoc b.q c.rows (rows_of cs))

  deposit_all-append :
      (cs ds : List (Chunk D)) (b : Buffer (Row311 D))
      → deposit_all producer (cs ++ ds) b ≡ deposit_all producer ds (deposit_all producer cs b)
  deposit_all-append [] ds b = refl
  deposit_all-append (c ∷ cs) ds b = deposit_all-append cs ds (deposit c.rows c.done producer b)

  -- After a `done` chunk the producer is finished.
  pub deposit_all-done :
      (cs : List (Chunk D)) (last : Chunk D) (b : Buffer (Row311 D))
      → last.done ≡ true
      → contains producer (deposit_all producer (cs ++ (last ∷ [])) b).done ≡ true
  unfolding deposit mark_producer_done
  deposit_all-done cs last b e =
      let b' = deposit_all producer cs b in
      ap (λ b. contains producer b.done) (deposit_all-append cs (last ∷ []) b)
      ∙ rw (e, deposit)
          (contains-insert_set producer producer (push_rows last.rows b').0.done
            ∙ rw ((string_eq.beq_iff producer producer).1 refl) refl)
