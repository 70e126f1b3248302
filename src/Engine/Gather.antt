-- ===== src/Engine/Gather.antt =====
-- Step 1 of `QueryEngine::run` (cpp/src/QueryEngine.cpp): the candidate sets stand for the parts of
-- the query, and their intersection for the rows that pass all parts.
use mini2_aaa.Base.{
  string_eq, ℕ, ◌≡◌, refl, sym, ◌∙◌, Bool, true, false, if◌then◌else◌, ◌&&◌, ◌||◌, List, [], ◌∷◌,
  ◌++◌, Option, none, some, ltb, inl, inr, ◌⊎◌,
}
use mini2_aaa.Base.Select.{select}
use mini2_aaa.Engine.{candidate, work_list, ◌>>=◌}
use mini2_aaa.Engine.Plan.{
  All, IsRowSet, has, in_all, select-IsRowSet, has-select, IsRowSet-eq_select, work_list-nil,
  work_list-in_all,
}

-- A part of the query: whether it is absent, and the test that it stands for.
abbrev pub Part : Type 0
Part = Bool × (ℕ → Bool)

-- The rows that pass a part.
abbrev pub passes : Part → ℕ → Bool
passes (absent, p) i = absent || p i

-- What `gather` makes of a part.
unfoldable pub gather_part : ℕ → Part → Option (List (List ℕ))
unfolding candidate
gather_part n (absent, p) = if absent then some [] else candidate (select p n 0)

-- Either the part has no row at all, or it adds its rows to the candidates.
data PartCases (n : ℕ) (part : Part) (r : Option (List (List ℕ))) : Type 0 where
  nothing : r ≡ none → ((j : ℕ) → (ltb j n && passes part j) ≡ false) → PartCases n part r
  skipped : r ≡ some [] → ((j : ℕ) → passes part j ≡ true) → PartCases n part r
  listed :
      r ≡ some (select part.1 n 0 ∷ []) → ((j : ℕ) → passes part j ≡ part.1 j) → PartCases n part r

candidate-cases : (v : List ℕ) → ((v ≡ []) × (candidate v ≡ none)) ⊎ (candidate v ≡ some (v ∷ []))
unfolding candidate
candidate-cases [] = inl (refl, refl)
candidate-cases (i ∷ is) = inr refl

part_cases : (n : ℕ) (part : Part) → PartCases n part (gather_part n part)
unfolding gather_part
part_cases n (true, p) = skipped refl (λ j. refl)
part_cases n (false, p) = elim (candidate-cases (select p n 0)) [
  | inl (empty, e) ↦ nothing e (λ j. sym (has-select p n j) ∙ rw empty refl)
  | inr e ↦ listed e (λ j. refl)
]

and_again : (a b : Bool) → (a && b) ≡ (a && (a && b))
and_again true b = refl
and_again false b = refl

fail_first : (a b c : Bool) → (a && b) ≡ false → (a && (b && c)) ≡ false
fail_first true true c h = cc
fail_first true false c h = refl
fail_first false b c h = refl

fail_rest : (a b c : Bool) → (a && c) ≡ false → (a && (b && c)) ≡ false
fail_rest true true c h = h
fail_rest true false c h = refl
fail_rest false b c h = refl

both_pass : (a p x y : Bool) → (a && x) ≡ (a && y) → (a && ((a && p) && x)) ≡ (a && (p && y))
both_pass true true x y h = h
both_pass true false x y h = refl
both_pass false p x y h = refl

within_all : (a h x : Bool) → h ≡ (a && h) → (h && x) ≡ (a && (h && x))
within_all true h x e = refl
within_all false true x e = cc
within_all false false x e = refl

abbrev pub all_pass : List Part → ℕ → Bool
all_pass [] i = true
all_pass (p ∷ ps) i = passes p i && all_pass ps i

unfoldable pub gather_list : ℕ → List Part → Option (List (List ℕ))
unfolding gather_part
gather_list n [] = some []
gather_list n (p ∷ ps) = do a ← gather_part n p; rest ← gather_list n ps; some (a ++ rest)

-- Only rows below `n` are in the set.
abbrev pub Within : ℕ → List ℕ → Type 0
Within n c = (j : ℕ) → has j c ≡ (ltb j n && has j c)

pub data Gathered (n : ℕ) (ps : List Part) (r : Option (List (List ℕ))) : Type 0 where
  over : r ≡ none → ((j : ℕ) → (ltb j n && all_pass ps j) ≡ false) → Gathered n ps r
  sets :
      (cs : List (List ℕ))
      → r ≡ some cs
      → All IsRowSet cs
      → All (Within n) cs
      → ((j : ℕ) → (ltb j n && in_all j cs) ≡ (ltb j n && all_pass ps j))
      → Gathered n ps r

select-Within : (p : ℕ → Bool) (n : ℕ) → Within n (select p n 0)
select-Within p n j = rw (has-select p n j) (and_again (ltb j n) (p j))

pub gathered : (n : ℕ) (ps : List Part) → Gathered n ps (gather_list n ps)
unfolding gather_list
gathered n [] = sets [] refl tt tt (λ j. refl)
gathered n (p ∷ ps) = elim (part_cases n p) [
  | nothing e h ↦ rw e (over refl (λ j. fail_first (ltb j n) (passes p j) _ (h j)))
  | skipped e h ↦ rw e (elim (gathered n ps) [
    | over e' h' ↦ rw e' (over refl (λ j. rw (h j) (h' j)))
    | sets cs e' rs ws h' ↦ rw e' (sets cs refl rs ws (λ j. rw (h j) (h' j)))
  ])
  | listed e h ↦ rw e (elim (gathered n ps) [
    | over e' h' ↦ rw e' (over refl (λ j. fail_rest (ltb j n) (passes p j) _ (h' j)))
    | sets cs e' rs ws h' ↦ rw e' (
        sets (select p.1 n 0 ∷ cs) refl (select-IsRowSet p.1 n, rs) (select-Within p.1 n, ws)
          (λ j.
            rw (has-select p.1 n j, h j)
              (both_pass (ltb j n) (p.1 j) (in_all j cs) (all_pass ps j) (h' j))))
  ])
]

-- The work list of the gathered candidates is a scan for the rows that pass every part.
pub work_list-select :
    (n : ℕ) (q : ℕ → Bool) (cs : List (List ℕ))
    → All IsRowSet cs
    → All (Within n) cs
    → ((j : ℕ) → (ltb j n && in_all j cs) ≡ (ltb j n && q j))
    → work_list n cs ≡ select q n 0
work_list-select n q [] rs ws h =
    work_list-nil n
    ∙ IsRowSet-eq_select n q (select (λ _. true) n 0) (select-IsRowSet (λ _. true) n)
        (λ j. has-select (λ _. true) n j ∙ h j)
work_list-select n q (c ∷ cs) rs ws h =
    IsRowSet-eq_select n q (work_list n (c ∷ cs)) (work_list-in_all n c cs 0 rs).0 (λ j.
      (work_list-in_all n c cs j rs).1
      ∙ (within_all (ltb j n) (has j c) (in_all j cs) (ws.0 j) ∙ h j))
