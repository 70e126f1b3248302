-- ===== src/Store/Csv.antt =====
-- `splitCsv` of cpp/src/PartitionStore.cpp, and its inverse on fields without commas and quotes.
use Prim.Native.Char.{code}
use Prim.Native.String.{◌++◌ as ◌+++◌}
use text.Mathlib.TextLemmas.{nil-append, cons-append, append-nil, append_assoc as str_assoc}
use mini2_aaa.Base.{
  map, ◌≡◌, sym, ap, ◌∙◌, String, Bool, true, false, not, ◌&&◌, List, [], ◌∷◌, ◌++◌, ◌==◌,
  append_assoc,
}

-- The loop over the characters, with `cur`, `in_quotes` and `out`.
unfoldable pub split_loop : String → (cur : String) → (in_quotes : Bool) → List String → List String
split_loop String.[] cur in_quotes out = out ++ (cur ∷ [])
split_loop (String.◌∷◌ c s) cur in_quotes out = elim (code c == b'"') [
  | true ↦ split_loop s cur (not in_quotes) out
  | false ↦ elim (code c == b',' && not in_quotes) [
    | true ↦ split_loop s "" in_quotes (out ++ (cur ∷ []))
    | false ↦ split_loop s (◌+++◌ cur (String.◌∷◌ c String.[])) in_quotes out
  ]
]

-- `splitCsv`.
unfoldable pub split_csv : String → List String
unfolding split_loop
split_csv line = split_loop line "" false []

-- No quote, and outside of quotes no comma.
abbrev pub IsClean : Bool → String → Type 0
IsClean in_quotes String.[] = Unit
IsClean in_quotes (String.◌∷◌ c s) =
    ((code c == b'"') ≡ false) × ((code c == b',' && not in_quotes) ≡ false) × IsClean in_quotes s

-- A field as a writer puts it, in quotes or bare.
abbrev pub encode : Bool × String → String
encode (true, s) = String.◌∷◌ "\"" (◌+++◌ s "\"")
encode (false, s) = s

abbrev pub join : List (Bool × String) → String
join [] = ""
join (f ∷ []) = encode f
join (f ∷ (g ∷ fs)) = ◌+++◌ (encode f) (String.◌∷◌ "," (join (g ∷ fs)))

abbrev pub AllClean : List (Bool × String) → Type 0
AllClean [] = Unit
AllClean ((q, s) ∷ fs) = IsClean q s × AllClean fs

split_loop-clean :
    (s rest cur : String) (in_quotes : Bool) (out : List String)
    → IsClean in_quotes s
    → split_loop (◌+++◌ s rest) cur in_quotes out ≡ split_loop rest (◌+++◌ cur s) in_quotes out
unfolding split_loop
split_loop-clean String.[] rest cur in_quotes out h = rw (nil-append rest, append-nil cur)
split_loop-clean (String.◌∷◌ c s) rest cur in_quotes out h = rw (cons-append c s rest) (
    rw (h.0, split_loop)
      (rw (h.1, split_loop)
        (split_loop-clean s rest (◌+++◌ cur (String.◌∷◌ c String.[])) in_quotes out h.2
          ∙ rw
              (str_assoc cur (String.◌∷◌ c String.[]) s, cons-append c String.[] s, nil-append s))))

split_loop-encode :
    (q : Bool) (s rest : String) (out : List String)
    → IsClean q s
    → split_loop (◌+++◌ (encode (q, s)) rest) "" false out ≡ split_loop rest s false out
unfolding split_loop
split_loop-encode true s rest out h = rw (cons-append _ _ rest) (
    rw (str_assoc s _ rest) (
      split_loop-clean s _ "" true out h
      ∙ rw (nil-append s, cons-append _ String.[] rest, nil-append rest)))
split_loop-encode false s rest out h = split_loop-clean s rest "" false out h ∙ rw (nil-append s)

split_loop-join :
    (q : Bool) (s : String) (fs : List (Bool × String)) (out : List String)
    → AllClean ((q, s) ∷ fs)
    → split_loop (join ((q, s) ∷ fs)) "" false out ≡ out ++ (s ∷ map (λ e. e.1) fs)
unfolding split_loop
split_loop-join q s [] out h =
    ap (λ t. split_loop t "" false out) (sym (append-nil (encode (q, s))))
    ∙ split_loop-encode q s "" out h.0
split_loop-join q s ((p, t) ∷ fs) out h =
    split_loop-encode q s (String.◌∷◌ "," (join ((p, t) ∷ fs))) out h.0
    ∙ (split_loop-join p t fs (out ++ (s ∷ [])) h.1 ∙ append_assoc out (s ∷ []) _)

-- Splitting a line gives back the fields that were written to it, a field with a comma in quotes.
pub split_csv-join :
    (q : Bool) (s : String) (fs : List (Bool × String))
    → AllClean ((q, s) ∷ fs)
    → split_csv (join ((q, s) ∷ fs)) ≡ map (λ e. e.1) ((q, s) ∷ fs)
unfolding split_csv
split_csv-join q s fs h = split_loop-join q s fs [] h
